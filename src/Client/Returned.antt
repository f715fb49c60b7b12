-- ===== src/Client/Returned.antt =====
-- Proofs on what `Client_relay` of client.c passes back to a client that takes all that it is given.
use ebbnc.Common.{
  ℕ, zero, suc, ◌≡◌, sym, ap, true, false, [], ◌∷◌, ◌++◌, append-nil, ◌==◌, if◌then◌else◌, take,
  take-length, length, Bytes, ℤ, codes,
}
use ebbnc.System.{ret, ◌>>=◌, Result, ok, err, Errno, expired, failing, ready}
use ebbnc.System.Wp.{Wp, Wp-then, Wp-if}
use ebbnc.Client.{
  put_reply, put_error, error_reply, errno_reply, reply_text, bufsiz, Pass, again, ended, is_again,
  forward_sent, forward_input, backward_sent, backward_input, forward, backward, relay_pass, relay,
}
use ebbnc.System.Channel.{Channel, Starts, Starts-eq, same, differ, channel, Wp-read, Wp-write}

-- While the loop runs the client has got all that came, and at its end a notice may follow.
abbrev pub Returned : Pass → Channel → Type 0
Returned again s = s.put ≡ s.got
Returned ended s = Starts s.got s.put

module _ (c r : ℕ) (apart : ¬ (c ≡ r)) where
  module _ (s : Channel) (e : s.put ≡ s.got) where
    error_reply_ends :
        (msg : Bytes) → Wp (channel r c true) (error_reply c msg) (λ u t. Starts t.got t.put) s
    unfolding error_reply put_reply
    error_reply_ends msg = (
      tt,
      elim [
        | true ↦ λ l.
            Wp-write r c true (λ u t. Starts t.got t.put) s c (reply_text msg) (λ n. ret tt) true
              (same c)
              (λ n l2. (take n (reply_text msg), ap (λ x. x ++ take n (reply_text msg)) (sym e)))
              (λ errno l2. elim l2 [ ])
        | false ↦ λ l. Starts-eq (sym e)
      ],
    )

    reply_ends :
        (msg : Bytes) → Wp (channel r c true) (error_reply c msg >>= λ u. ret ended) Returned s
    reply_ends msg =
        Wp-then (channel r c true) (error_reply c msg) (λ u. ret ended) (λ u t. Starts t.got t.put)
          Returned s (error_reply_ends msg) (λ u t h. h)

    errno_reply_ends :
        (func : Bytes) (errno : Errno)
        → Wp (channel r c true) (errno_reply c func errno) (λ u t. Starts t.got t.put) s
    unfolding errno_reply put_error
    errno_reply_ends func errno = (
      tt,
      λ message l. (
        tt,
        elim [
          | true ↦ λ l2. error_reply_ends (func ++ (codes ": " ++ message))
          | false ↦ λ l2. Starts-eq (sym e)
        ],
      ),
    )

    errno_ends :
        (func : Bytes) (errno : Errno)
        → Wp (channel r c true) (errno_reply c func errno >>= λ u. ret ended) Returned s
    errno_ends func errno =
        Wp-then (channel r c true) (errno_reply c func errno) (λ u. ret ended)
          (λ u t. Starts t.got t.put) Returned s (errno_reply_ends func errno) (λ u t h. h)

    forward_input-Returned :
        (input : Result Bytes) → Wp (channel r c true) (forward_input c r input) Returned s
    unfolding forward_input forward_sent
    forward_input-Returned (err errno) = Starts-eq (sym e)
    forward_input-Returned (ok []) = Starts-eq (sym e)
    forward_input-Returned (ok (b ∷ bytes)) =
        Wp-write r c true Returned s r (b ∷ bytes) (forward_sent c r (b ∷ bytes)) false
          (differ r c (λ q. apart (sym q)))
          (λ n l.
            Wp-if (channel r c true) (n == length (b ∷ bytes)) _ _ Returned s e
              (reply_ends (codes "Short write")))
          (λ errno l.
            Wp-if (channel r c true) (is_again errno) _ _ Returned s
              (reply_ends (codes "Server write timeout")) (errno_ends (codes "write") errno))

    forward-Returned : Wp (channel r c true) (forward c r) Returned s
    unfolding forward
    forward-Returned =
        Wp-read r c true Returned s c bufsiz (forward_input c r) false (differ c r apart)
          (λ bytes l. forward_input-Returned (ok bytes))
          (λ errno. forward_input-Returned (err errno))

  module _ (s : Channel) (e : s.put ≡ s.got) where
    backward_input-Returned :
        (bytes : Bytes)
        → Wp
            (channel r c true)
            (backward_input c r (ok bytes))
            Returned
            (record s { got = s.got ++ bytes })
    unfolding backward_input backward_sent
    backward_input-Returned [] =
        reply_ends (record s { got = s.got ++ [] }) (rw (append-nil s.got) e)
          (codes "Connection closed")
    backward_input-Returned (b ∷ bytes) =
        Wp-write r c true Returned (record s { got = s.got ++ (b ∷ bytes) }) c (b ∷ bytes)
          (backward_sent c r) true (same c)
          (λ n l. rw (take-length n (b ∷ bytes) (sym l)) (ap (λ x. x ++ (b ∷ bytes)) e))
          (λ errno l. elim l [ ])

    backward-Returned : Wp (channel r c true) (backward c r) Returned s
    unfolding backward backward_input
    backward-Returned =
        Wp-read r c true Returned s r bufsiz (backward_input c r) true (same r)
          (λ bytes l. backward_input-Returned bytes) (λ errno. errno_ends s e (codes "read") errno)

  relay_pass-Returned :
      (timeout : ℤ) (s : Channel)
      → s.put ≡ s.got
      → Wp (channel r c true) (relay_pass c r timeout) Returned s
  unfolding relay_pass
  relay_pass-Returned timeout s e = (
    tt,
    elim [
      | expired ↦ λ l. reply_ends s e (codes "Idle timeout")
      | failing errno ↦ λ l. errno_ends s e (codes "poll") errno
      | ready from_client from_server ↦ λ l.
          Wp-then (channel r c true) (if from_client then forward c r else ret again) _ Returned
            Returned s
            (Wp-if (channel r c true) from_client _ _ Returned s (forward-Returned s e) e)
            (elim [
              | ended ↦ λ t h. h
              | again ↦ λ t h.
                  Wp-if (channel r c true) from_server _ _ Returned t (backward-Returned t h) h
            ])
    ],
  )

  -- From a state where the client has got what was read of the server: as long as the relay runs,
  -- a client whose socket takes all that is written to it has got all the bytes that were read of
  -- the server, in their order and with nothing in between; when the relay ends, all these bytes
  -- come first. This is for any number of passes, where the two sockets differ.
  pub relay-Returned :
      (fuel : ℕ) (timeout : ℤ) (s : Channel)
      → s.put ≡ s.got
      → Wp (channel r c true) (relay c r fuel timeout) Returned s
  unfolding relay
  relay-Returned zero timeout s e = e
  relay-Returned (suc fuel) timeout s e =
      Wp-then (channel r c true) (relay_pass c r timeout) _ Returned Returned s
        (relay_pass-Returned timeout s e)
        (elim [ ended ↦ λ t h. h | again ↦ λ t h. relay-Returned fuel timeout t h ])
