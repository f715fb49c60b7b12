-- ===== src/Client/Deadline.antt =====
-- Proofs on when `Client_relay` of client.c ends.
use ebbnc.Common.{
  ℕ, zero, suc, ◌<◌, ◌≡◌, refl, sym, subst, arith, [], ◌∷◌, ◌==◌, if◌then◌else◌, length, Bytes, ℤ,
  codes,
}
use ebbnc.System.{Call, Reply, ret, ◌>>=◌, ok, err, Errno, Polled, expired, failing, ready}
use ebbnc.System.Wp.{Monitor, Wp, Wp-then, Wp-if}
use ebbnc.Client.{
  error_reply, errno_reply, Pass, again, ended, is_again, forward_sent, forward_input,
  backward_sent, backward_input, forward, backward, relay_pass, relay,
}
use ebbnc.Client.Replies.{Replies, reply-Wp, errno-Wp}

-- How many calls of `poll` may still find something to read; then the time is over, or it fails.
abbrev Waits : ℕ → Polled → Type 0
Waits zero (ready from_client from_server) = ⊥
Waits _ reply = Unit

abbrev Polls : (c : Call) → Reply c → ℕ → Type 0
Polls (Call.poll a b timeout) reply n = Waits n reply
Polls c reply n = Unit

abbrev one_less : ℕ → ℕ
one_less zero = zero
one_less (suc n) = n

abbrev counted : (c : Call) → Reply c → ℕ → ℕ
counted (Call.poll a b timeout) reply n = one_less n
counted c reply n = n

abbrev pub polls : Monitor ℕ
polls = record { Allowed = λ c n. Unit; Legal = Polls; after = counted }

-- A pass behind which `n` is left, where it goes on.
abbrev Left : ℕ → Pass → ℕ → Type 0
Left n again t = t ≡ n
Left n ended t = Unit

module _ (c r : ℕ) (n : ℕ) where
  replies : Replies polls n c
  replies = record {
    memory = λ m. (tt, λ okay l. refl);
    message = λ errno. (tt, λ message l. refl);
    line = λ bytes. (tt, λ taken l. refl);
  }

  reply-Left :
      (p : Pass)
      → Left n p n
      → (msg : Bytes) → Wp polls (error_reply c msg >>= λ u. ret p) (Left n) n
  reply-Left p h msg = reply-Wp polls n c replies p (Left n) h msg

  errno-Left :
      (p : Pass)
      → Left n p n
      → (func : Bytes) (errno : Errno)
      → Wp polls (errno_reply c func errno >>= λ u. ret p) (Left n) n
  errno-Left p h func errno = errno-Wp polls n c replies p (Left n) h func errno

  forward-Left : Wp polls (forward c r) (Left n) n
  unfolding forward forward_input forward_sent
  forward-Left = (
    tt,
    elim [
      | err errno ↦ λ l. tt
      | ok [] ↦ λ l. tt
      | ok (b ∷ bytes) ↦ λ l. (
        tt,
        elim [
          | err errno ↦ λ l2.
              Wp-if polls (is_again errno) _ _ (Left n) n
                (reply-Left ended tt (codes "Server write timeout"))
                (errno-Left ended tt (codes "write") errno)
          | ok sent ↦ λ l2.
              Wp-if polls (sent == length (b ∷ bytes)) _ _ (Left n) n refl
                (reply-Left ended tt (codes "Short write"))
        ],
      )
    ],
  )

  backward-Left : Wp polls (backward c r) (Left n) n
  unfolding backward backward_input backward_sent
  backward-Left = (
    tt,
    elim [
      | err errno ↦ λ l. errno-Left ended tt (codes "read") errno
      | ok [] ↦ λ l. reply-Left ended tt (codes "Connection closed")
      | ok (b ∷ bytes) ↦ λ l. (
        tt,
        elim [
          | err errno ↦ λ l2.
              Wp-if polls (is_again errno) _ _ (Left n) n
                (reply-Left again refl (codes "Client write timeout"))
                (errno-Left again refl (codes "write") errno)
          | ok sent ↦ λ l2. refl
        ],
      )
    ],
  )

module _ (c r : ℕ) (timeout : ℤ) where
  relay_pass-ended : Wp polls (relay_pass c r timeout) (λ p t. p ≡ ended) zero
  unfolding relay_pass
  relay_pass-ended = (
    tt,
    elim [
      | expired ↦ λ l.
          reply-Wp polls zero c (replies c r zero) ended (λ p t. p ≡ ended) refl
            (codes "Idle timeout")
      | failing errno ↦ λ l.
          errno-Wp polls zero c (replies c r zero) ended (λ p t. p ≡ ended) refl (codes "poll")
            errno
      | ready from_client from_server ↦ λ l. elim l [ ]
    ],
  )

  relay_pass-Left : (n : ℕ) → Wp polls (relay_pass c r timeout) (Left n) (suc n)
  unfolding relay_pass
  relay_pass-Left n = (
    tt,
    elim [
      | expired ↦ λ l. reply-Left c r n ended tt (codes "Idle timeout")
      | failing errno ↦ λ l. errno-Left c r n ended tt (codes "poll") errno
      | ready from_client from_server ↦ λ l.
          Wp-then polls (if from_client then forward c r else ret again) _ (Left n) (Left n) n
            (Wp-if polls from_client _ _ (Left n) n (forward-Left c r n) refl)
            (elim [
              | ended ↦ λ t h. tt
              | again ↦ λ t h.
                  subst (λ t. Wp polls (if from_server then backward c r else ret again) (Left n) t)
                    (sym h) (Wp-if polls from_server _ _ (Left n) n (backward-Left c r n) refl)
            ])
    ],
  )

  -- Where at most `n` calls of `poll` find a socket ready, so that the call behind them, or an
  -- earlier one, runs out of time or fails, the relay has ended within n + 1 passes, whatever the
  -- other calls answer.
  pub relay-ended : (n fuel : ℕ) → n < fuel → Wp polls (relay c r fuel timeout) (λ p t. p ≡ ended) n
  unfolding relay
  relay-ended n zero h = absurd (omega arith)
  relay-ended zero (suc fuel) h =
      Wp-then polls (relay_pass c r timeout) _ (λ p t. p ≡ ended) (λ p t. p ≡ ended) zero
        relay_pass-ended (elim [ ended ↦ λ t e. refl | again ↦ λ t e. ground arith ])
  relay-ended (suc n) (suc fuel) h =
      Wp-then polls (relay_pass c r timeout) _ (Left n) (λ p t. p ≡ ended) (suc n)
        (relay_pass-Left n)
        (elim [
          | ended ↦ λ t e. refl
          | again ↦ λ t e.
              subst (λ t. Wp polls (relay c r fuel timeout) (λ p t. p ≡ ended) t) (sym e)
                (relay-ended n fuel (omega arith))
        ])
