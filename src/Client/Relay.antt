-- ===== src/Client/Relay.antt =====
-- `Client_relay` of client.c: one pass of its loop, and the loop with the passes counted.
use ebbnc.Common.{
  ℕ, zero, suc, ◌+◌, ◌-◌, ◌*◌, ◌^◌, Bool, true, false, Option, none, some, [], ◌∷◌, ◌==◌, leb, ltb,
  if◌then◌else◌, length, Bytes, ℤ, pos, negsuc, codes,
}
use ebbnc.System.{
  Io, ret, ◌>>=◌, perform, Result, ok, err, Errno, eagain, expired, failing, ready, poll, read,
  write,
}
use ebbnc.Client.Reply.{error_reply, errno_reply}

-- BUFSIZ of the GNU C library.
abbrev pub bufsiz : ℕ
bufsiz = 8192

-- The timeout for `poll` in milliseconds, an int; `none` is an overflow.
unfoldable pub poll_timeout : ℤ → Option ℤ
poll_timeout (pos n) =
    if n == 0
    then some (negsuc 0)
    else if ltb (n * 1000) (2 ^ 31)
    then some (pos (n * 1000))
    else none
poll_timeout (negsuc n) =
    if leb ((n + 1) * 1000) (2 ^ 31) then some (negsuc ((n + 1) * 1000 - 1)) else none

-- Whether the loop goes on.
pub data Pass : Type 0 where
  again ended : Pass

abbrev pub is_again : Errno → Bool
is_again eagain = true
is_again _ = false

module _ (c r : ℕ) where
  abbrev reply_and : Pass → Bytes → Io Pass
  reply_and p msg = error_reply c msg >>= λ u. ret p

  abbrev errno_and : Pass → Bytes → Errno → Io Pass
  errno_and p func errno = errno_reply c func errno >>= λ u. ret p

  -- From the client to the server: behind `write`, behind `read`, and the whole.
  unfoldable pub forward_sent : Bytes → Result ℕ → Io Pass
  forward_sent bytes (err errno) =
      if is_again errno
      then reply_and ended (codes "Server write timeout")
      else errno_and ended (codes "write") errno
  forward_sent bytes (ok n) =
      if n == length bytes then ret again else reply_and ended (codes "Short write")

  unfoldable pub forward_input : Result Bytes → Io Pass
  unfolding forward_sent
  forward_input (err errno) = ret ended
  forward_input (ok []) = ret ended
  forward_input (ok (b ∷ bytes)) = perform (write r (b ∷ bytes)) >>= forward_sent (b ∷ bytes)

  unfoldable pub forward : Io Pass
  unfolding forward_input
  forward = perform (read c bufsiz) >>= forward_input

  -- From the server to the client, in the same parts. A `write` that fails or falls short does not
  -- end the loop.
  unfoldable pub backward_sent : Result ℕ → Io Pass
  backward_sent (err errno) =
      if is_again errno
      then reply_and again (codes "Client write timeout")
      else errno_and again (codes "write") errno
  backward_sent (ok n) = ret again

  unfoldable pub backward_input : Result Bytes → Io Pass
  unfolding backward_sent
  backward_input (err errno) = errno_and ended (codes "read") errno
  backward_input (ok []) = reply_and ended (codes "Connection closed")
  backward_input (ok (b ∷ bytes)) = perform (write c (b ∷ bytes)) >>= backward_sent

  unfoldable pub backward : Io Pass
  unfolding backward_input
  backward = perform (read r bufsiz) >>= backward_input

  -- One pass: `poll`, and the two directions.
  unfoldable pub relay_pass : ℤ → Io Pass
  unfolding forward backward
  relay_pass timeout = do
    polled ← perform (poll c r timeout)
    elim polled [
      | expired ↦ reply_and ended (codes "Idle timeout")
      | failing errno ↦ errno_and ended (codes "poll") errno
      | ready from_client from_server ↦ (do
        p ← if from_client then forward else ret again
        elim p [ ended ↦ ret ended | again ↦ if from_server then backward else ret again ])
    ]

  -- `fuel` passes at most; `again` is a loop that is still running.
  unfoldable pub relay : ℕ → ℤ → Io Pass
  relay zero timeout = ret again
  relay (suc fuel) timeout = do
    p ← relay_pass timeout
    elim p [ ended ↦ ret ended | again ↦ relay fuel timeout ]
