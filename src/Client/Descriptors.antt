-- ===== src/Client/Descriptors.antt =====
-- Proofs on the descriptors that the thread of a client in client.c uses, opens and closes.
use ebbnc.Common.{
  ℕ, zero, suc, ◌≡◌, refl, true, List, [], ◌∷◌, ◌==◌, if◌then◌else◌, length, Bytes, ℤ, codes,
}
use ebbnc.System.{ret, ◌>>=◌, ok, err, Errno, expired, failing, ready}
use ebbnc.System.Keeps.{Keeps, Keeps-then, if-Keeps}
use ebbnc.System.Descriptors.{descriptors, holds}
use ebbnc.Client.Replies.{Replies, reply-Wp, errno-Wp}
use ebbnc.Client.{
  error_reply, errno_reply, again, ended, is_again, forward_sent, forward_input, backward_sent,
  backward_input, forward, backward, relay_pass, relay,
}

module _ (c : ℕ) (s : List ℕ) (c_open : holds c s ≡ true) where
  pub replies : Replies descriptors s c
  replies = record {
    memory = λ n. (tt, λ okay l. refl);
    message = λ errno. (tt, λ message l. refl);
    line = λ bytes. (c_open, λ n l. refl);
  }

  pub reply-Keeps : {A : Type 0} (a : A) (msg : Bytes) → Keeps (error_reply c msg >>= λ u. ret a) s
  reply-Keeps a msg = reply-Wp descriptors s c replies a (λ a t. t ≡ s) refl msg

  pub errno-Keeps :
      {A : Type 0} (a : A) (func : Bytes) (errno : Errno)
      → Keeps (errno_reply c func errno >>= λ u. ret a) s
  errno-Keeps a func errno = errno-Wp descriptors s c replies a (λ a t. t ≡ s) refl func errno

  module _ (r : ℕ) (r_open : holds r s ≡ true) where
    forward-Keeps : Keeps (forward c r) s
    unfolding forward forward_input forward_sent
    forward-Keeps = (
      c_open,
      elim [
        | err errno ↦ λ l. refl
        | ok [] ↦ λ l. refl
        | ok (b ∷ bytes) ↦ λ l. (
          r_open,
          elim [
            | err errno ↦ λ l2.
                if-Keeps (is_again errno) _ _ s (reply-Keeps ended (codes "Server write timeout"))
                  (errno-Keeps ended (codes "write") errno)
            | ok sent ↦ λ l2.
                if-Keeps (sent == length (b ∷ bytes)) _ _ s refl
                  (reply-Keeps ended (codes "Short write"))
          ],
        )
      ],
    )

    backward-Keeps : Keeps (backward c r) s
    unfolding backward backward_input backward_sent
    backward-Keeps = (
      r_open,
      elim [
        | err errno ↦ λ l. errno-Keeps ended (codes "read") errno
        | ok [] ↦ λ l. reply-Keeps ended (codes "Connection closed")
        | ok (b ∷ bytes) ↦ λ l. (
          c_open,
          elim [
            | err errno ↦ λ l2.
                if-Keeps (is_again errno) _ _ s (reply-Keeps again (codes "Client write timeout"))
                  (errno-Keeps again (codes "write") errno)
            | ok sent ↦ λ l2. refl
          ],
        )
      ],
    )

    relay_pass-Keeps : (timeout : ℤ) → Keeps (relay_pass c r timeout) s
    unfolding relay_pass
    relay_pass-Keeps timeout = (
      (c_open, r_open),
      elim [
        | expired ↦ λ l. reply-Keeps ended (codes "Idle timeout")
        | failing errno ↦ λ l. errno-Keeps ended (codes "poll") errno
        | ready from_client from_server ↦ λ l.
            Keeps-then (if from_client then forward c r else ret again) _ s
              (if-Keeps from_client _ _ s forward-Keeps refl)
              (elim [ ended ↦ refl | again ↦ if-Keeps from_server _ _ s backward-Keeps refl ])
      ],
    )

    pub relay-Keeps : (fuel : ℕ) (timeout : ℤ) → Keeps (relay c r fuel timeout) s
    unfolding relay
    relay-Keeps zero timeout = refl
    relay-Keeps (suc fuel) timeout =
        Keeps-then (relay_pass c r timeout) _ s (relay_pass-Keeps timeout)
          (elim [ ended ↦ refl | again ↦ relay-Keeps fuel timeout ])
