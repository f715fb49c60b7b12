-- ===== src/Client/Contents.antt =====
-- Proofs on what `Client_relay` of client.c passes on.
use ebbnc.Common.{
  ℕ, zero, suc, ◌≡◌, refl, sym, ap, true, false, [], ◌∷◌, ◌++◌, ◌==◌, ==_iff, if◌then◌else◌,
  append_assoc, take, drop, take-append-drop, take-length, length, Bytes, ℤ, codes,
}
use ebbnc.System.{ret, ◌>>=◌, Result, ok, err, Errno, expired, failing, ready}
use ebbnc.System.Wp.{Wp, Wp-then, Wp-if, Wp-test}
use ebbnc.Client.{
  error_reply, errno_reply, bufsiz, Pass, again, ended, is_again, forward_sent, forward_input,
  backward_sent, backward_input, forward, backward, relay_pass, relay,
}
use ebbnc.Client.Replies.{Replies, reply-Wp, errno-Wp}
use ebbnc.System.Channel.{Channel, Starts, Starts-eq, same, differ, channel, Wp-read, Wp-write}

-- While the loop runs all that came has been passed on, and at its end a first part of it.
abbrev pub Forwarded : Pass → Channel → Type 0
Forwarded again s = s.put ≡ s.got
Forwarded ended s = Starts s.put s.got

module _ (c r : ℕ) (apart : ¬ (c ≡ r)) where
  -- A reply to the client is not for the server.
  replies : (s : Channel) → Replies (channel c r false) s c
  replies s = record {
    memory = λ n. (tt, λ okay l. refl);
    message = λ errno. (tt, λ message l. refl);
    line = λ bytes. (tt, elim [ ok n ↦ λ l. rw (differ c r apart) refl | err errno ↦ λ l. refl ]);
  }

  module _ (p : Pass) (s : Channel) (h : Forwarded p s) where
    reply_leaves :
        (msg : Bytes) → Wp (channel c r false) (error_reply c msg >>= λ u. ret p) Forwarded s
    reply_leaves msg = reply-Wp (channel c r false) s c (replies s) p Forwarded h msg

    errno_leaves :
        (func : Bytes) (errno : Errno)
        → Wp (channel c r false) (errno_reply c func errno >>= λ u. ret p) Forwarded s
    errno_leaves func errno = errno-Wp (channel c r false) s c (replies s) p Forwarded h func errno

  module _ (s : Channel) (e : s.put ≡ s.got) where
    Starts-taken : (n : ℕ) (bytes : Bytes) → Starts (s.put ++ take n bytes) (s.got ++ bytes)
    Starts-taken n bytes = (
      drop n bytes,
      rw (append_assoc s.put (take n bytes) (drop n bytes))
          (rw (take-append-drop n bytes) (ap (λ x. x ++ bytes) e)),
    )

    Starts-kept : (bytes : Bytes) → Starts s.put (s.got ++ bytes)
    Starts-kept bytes = (bytes, ap (λ x. x ++ bytes) e)

    forward_input-Forwarded :
        (bytes : Bytes)
        → Wp
            (channel c r false)
            (forward_input c r (ok bytes))
            Forwarded
            (record s { got = s.got ++ bytes })
    unfolding forward_input forward_sent
    forward_input-Forwarded [] = Starts-kept []
    forward_input-Forwarded (b ∷ bytes) =
        Wp-write c r false Forwarded (record s { got = s.got ++ (b ∷ bytes) }) r (b ∷ bytes)
          (forward_sent c r (b ∷ bytes)) true (same r)
          (λ n l.
            Wp-test (channel c r false) (n == length (b ∷ bytes)) _ _ Forwarded _
              (λ full.
                rw (take-length n (b ∷ bytes) (sym ((==_iff n (length (b ∷ bytes))).0 full)))
                  (ap (λ x. x ++ (b ∷ bytes)) e))
              (λ short. reply_leaves ended _ (Starts-taken n (b ∷ bytes)) (codes "Short write")))
          (λ errno l.
            Wp-if (channel c r false) (is_again errno) _ _ Forwarded _
              (reply_leaves ended _ (Starts-kept (b ∷ bytes)) (codes "Server write timeout"))
              (errno_leaves ended _ (Starts-kept (b ∷ bytes)) (codes "write") errno))

    forward-Forwarded : Wp (channel c r false) (forward c r) Forwarded s
    unfolding forward
    forward-Forwarded =
        Wp-read c r false Forwarded s c bufsiz (forward_input c r) true (same c)
          (λ bytes l. forward_input-Forwarded bytes) (λ errno. Starts-eq e)

    backward_input-Forwarded :
        (input : Result Bytes) → Wp (channel c r false) (backward_input c r input) Forwarded s
    unfolding backward_input backward_sent
    backward_input-Forwarded (err errno) = errno_leaves ended s (Starts-eq e) (codes "read") errno
    backward_input-Forwarded (ok []) =
        reply_leaves ended s (Starts-eq e) (codes "Connection closed")
    backward_input-Forwarded (ok (b ∷ bytes)) =
        Wp-write c r false Forwarded s c (b ∷ bytes) (backward_sent c r) false (differ c r apart)
          (λ n l. e)
          (λ errno l.
            Wp-if (channel c r false) (is_again errno) _ _ Forwarded s
              (reply_leaves again s e (codes "Client write timeout"))
              (errno_leaves again s e (codes "write") errno))

    backward-Forwarded : Wp (channel c r false) (backward c r) Forwarded s
    unfolding backward
    backward-Forwarded =
        Wp-read c r false Forwarded s r bufsiz (backward_input c r) false
          (differ r c (λ q. apart (sym q))) (λ bytes l. backward_input-Forwarded (ok bytes))
          (λ errno. backward_input-Forwarded (err errno))

  relay_pass-Forwarded :
      (timeout : ℤ) (s : Channel)
      → s.put ≡ s.got
      → Wp (channel c r false) (relay_pass c r timeout) Forwarded s
  unfolding relay_pass
  relay_pass-Forwarded timeout s e = (
    tt,
    elim [
      | expired ↦ λ l. reply_leaves ended s (Starts-eq e) (codes "Idle timeout")
      | failing errno ↦ λ l. errno_leaves ended s (Starts-eq e) (codes "poll") errno
      | ready from_client from_server ↦ λ l.
          Wp-then (channel c r false) (if from_client then forward c r else ret again) _ Forwarded
            Forwarded s
            (Wp-if (channel c r false) from_client _ _ Forwarded s (forward-Forwarded s e) e)
            (elim [
              | ended ↦ λ t h. h
              | again ↦ λ t h.
                  Wp-if (channel c r false) from_server _ _ Forwarded t (backward-Forwarded t h) h
            ])
    ],
  )

  -- From a state where the server has got what was read of the client: as long as the relay runs,
  -- the server has got all the bytes that were read of the client, in their order, and when the
  -- relay ends, a first part of them. This is for any number of passes and whatever the system
  -- answers, where the two sockets differ and no `write` takes more than it is given.
  pub relay-Forwarded :
      (fuel : ℕ) (timeout : ℤ) (s : Channel)
      → s.put ≡ s.got
      → Wp (channel c r false) (relay c r fuel timeout) Forwarded s
  unfolding relay
  relay-Forwarded zero timeout s e = e
  relay-Forwarded (suc fuel) timeout s e =
      Wp-then (channel c r false) (relay_pass c r timeout) _ Forwarded Forwarded s
        (relay_pass-Forwarded timeout s e)
        (elim [ ended ↦ λ t h. h | again ↦ λ t h. relay-Forwarded fuel timeout t h ])
