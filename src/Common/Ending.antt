-- ===== src/Common/Ending.antt =====
-- The ways in which a routine of xtea.c, hex.c or config.c that fills an array can end.
use Prim.Native.Nat.{ℕ, ◌≤◌, ◌<◌}
use mathlib.Core.Path.{◌≡◌}
use mathlib.Core.Option.{Option, none, some}
use ebbnc.Common.Tests.{leb, le→leb, lt→leb, if◌then◌else◌}
use ebbnc.Common.Lists.{length, drop}
use ebbnc.Common.Word.{Bytes}

-- `fault` is an access out of an array's range. The others hold the array at `dst` afterwards:
-- `failed` returns -1, and `done` a length.
pub data Outcome : Type 0 where
  fault : Outcome
  failed : Bytes → Outcome
  done : ℕ → Bytes → Outcome

-- What follows a part that may fault.
abbrev pub or_fault {ℓ} : {A : Type ℓ} → Option A → (A → Outcome) → Outcome
or_fault none k = fault
or_fault (some a) k = k a

-- Storing bytes at a pointer: what lies behind them, if the array has room for them.
abbrev pub store : Bytes → Bytes → Option Bytes
store bytes dst = if leb (length bytes) (length dst) then some (drop (length bytes) dst) else none

pub store-eq-some :
    (bytes dst : Bytes)
    → length bytes ≤ length dst
    → store bytes dst ≡ some (drop (length bytes) dst)
store-eq-some bytes dst h = rw (le→leb (length bytes) (length dst) h)

pub store-eq-none : (bytes dst : Bytes) → length dst < length bytes → store bytes dst ≡ none
store-eq-none bytes dst h = rw (lt→leb (length bytes) (length dst) h)

-- The ways in which a routine that returns a new array can end: an access out of range, a null
-- pointer, or the array.
pub data Pointer : Type 0 where
  crash null : Pointer
  at : Bytes → Pointer
