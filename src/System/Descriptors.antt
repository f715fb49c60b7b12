-- ===== src/System/Descriptors.antt =====
-- The descriptors that a program has open, as a monitor: a call may name only an open one, and
-- `socket` and `accept` give one that is not open. A thread takes its client's descriptor over.
use ebbnc.Common.{ℕ, Bool, true, false, ◌≡◌, ◌≤◌, List, [], ◌∷◌, ◌==◌, if◌then◌else◌, length, All}
use ebbnc.System.{Call, Reply, ok}
use ebbnc.System.Wp.{Monitor}

abbrev pub holds : ℕ → List ℕ → Bool
holds fd [] = false
holds fd (x ∷ open_fds) = if fd == x then true else holds fd open_fds

abbrev pub without : ℕ → List ℕ → List ℕ
without fd [] = []
without fd (x ∷ open_fds) = let rest = without fd open_fds in if fd == x then open_fds else x ∷ rest

abbrev IsOpen : ℕ → List ℕ → Type 0
IsOpen fd s = holds fd s ≡ true

abbrev pub Uses : Call → List ℕ → Type 0
Uses (Call.close fd) s = IsOpen fd s
Uses (Call.listen fd) s = IsOpen fd s
Uses (Call.accept fd) s = IsOpen fd s
Uses (Call.getsockname fd) s = IsOpen fd s
Uses (Call.getpeername fd) s = IsOpen fd s
Uses (Call.setsockopt fd option) s = IsOpen fd s
Uses (Call.bind fd addr len) s = IsOpen fd s
Uses (Call.connect fd addr len) s = IsOpen fd s
Uses (Call.select fds) s = All (λ fd. IsOpen fd s) fds
Uses (Call.poll a b timeout) s = IsOpen a s × IsOpen b s
Uses (Call.read fd size) s = IsOpen fd s
Uses (Call.write fd bytes) s = IsOpen fd s
Uses (Call.fdopen fd) s = IsOpen fd s
Uses (Call.receive fd) s = IsOpen fd s
Uses (Call.fclose fd) s = IsOpen fd s
Uses (Call.create_thread sock addr config bouncer) s = IsOpen sock s
Uses (Call.fprintf fd bytes) s = IsOpen fd s
Uses _ s = Unit

-- A new descriptor is none of the open ones; `read` gives as much as it was asked for at most, and
-- `write` takes as much at most.
abbrev pub Fresh : (c : Call) → Reply c → List ℕ → Type 0
Fresh (Call.socket family) (ok fd) s = holds fd s ≡ false
Fresh (Call.accept listening) (ok (fd, addr)) s = holds fd s ≡ false
Fresh (Call.read fd size) (ok bytes) s = length bytes ≤ size
Fresh (Call.write fd bytes) (ok n) s = n ≤ length bytes
Fresh _ r s = Unit

abbrev pub opened : (c : Call) → Reply c → List ℕ → List ℕ
opened (Call.socket family) (ok fd) s = fd ∷ s
opened (Call.accept listening) (ok (fd, addr)) s = fd ∷ s
opened (Call.close fd) r s = without fd s
opened (Call.fclose fd) r s = without fd s
opened (Call.create_thread sock addr config bouncer) true s = without sock s
opened _ r s = s

abbrev pub descriptors : Monitor (List ℕ)
descriptors = record { Allowed = Uses; Legal = Fresh; after = opened }
