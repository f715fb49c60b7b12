-- ===== src/Process/PidFile.antt =====
-- Proofs on the file of the process: misc.c writes what it reads.
use ebbnc.Common.{
  ℕ, ◌^◌, ◌<◌, ◌≡◌, refl, sym, ap, subst, arith, true, false, Option, none, some, [], ◌∷◌, Bytes, ℤ,
  pos,
}
use ebbnc.Libc.{digit_value}
use ebbnc.Libc.Scan.{scan_int}
use ebbnc.Libc.Numbers.{IsBreak}
use ebbnc.Libc.Stream.{scan_int-print_int}
use ebbnc.System.{Call, Reply, Io, ◌>>=◌, Result, ok, err, enoent}
use ebbnc.System.Wp.{Monitor, Wp}
use ebbnc.Process.{
  Running, running, pid_text, read_pid, ask_process, is_already_running, create_pid_file, signalled,
}

newline_IsBreak : IsBreak (b'\n' ∷ [])
unfolding digit_value
newline_IsBreak = refl

pub scan_int-pid_text :
    (n : ℕ) → n < 2 ^ 31 → scan_int (pid_text (pos n)) ≡ some (pos n, b'\n' ∷ [])
unfolding pid_text
scan_int-pid_text n h = scan_int-print_int n (b'\n' ∷ []) h newline_IsBreak

module _ (path : Bytes) (daemon : ℤ) where
  -- The text in the file, if there is one: no other call is made than for this file and for signals,
  -- what was written is what is read, and the daemon is alive.
  abbrev Only : Call → Option Bytes → Type 0
  Only (Call.read_file p) s = p ≡ path
  Only (Call.write_file p bytes) s = p ≡ path
  Only (Call.kill pid) s = Unit
  Only c s = ⊥

  abbrev Reads : Option Bytes → Result Bytes → Type 0
  Reads none r = r ≡ err enoent
  Reads (some text) r = r ≡ ok text

  abbrev Tells : (c : Call) → Reply c → Option Bytes → Type 0
  Tells (Call.read_file p) r s = Reads s r
  Tells (Call.write_file p bytes) okay s = okay ≡ true
  Tells (Call.kill pid) r s = pid ≡ daemon → r ≡ ok tt
  Tells c r s = Unit

  abbrev wrote : (c : Call) → Reply c → Option Bytes → Option Bytes
  wrote (Call.write_file p bytes) true s = some bytes
  wrote c r s = s

  abbrev pub pid_file : Monitor (Option Bytes)
  pid_file = record { Allowed = Only; Legal = Tells; after = wrote }

module _ (path : Bytes) (n : ℕ) (small : n < 2 ^ 31) where
  abbrev Found : Io Running → Type 0
  Found m =
      Wp (pid_file path (pos n)) m (λ r s. (r ≡ running) × (s ≡ some (pid_text (pos n))))
        (some (pid_text (pos n)))

  ask_process-Found : Found (ask_process (some (pos n, b'\n' ∷ [])))
  unfolding ask_process
  ask_process-Found = (tt, λ r l. (ap signalled (l refl), refl))

  -- With the text of a live process in its file, the program is found to run already.
  is_already_running-Found : Found (is_already_running path)
  unfolding is_already_running read_pid
  is_already_running-Found = (
    refl,
    λ r l.
        subst (λ r. Found (read_pid r)) (sym l)
          (subst (λ o. Found (ask_process o)) (sym (scan_int-pid_text n small)) ask_process-Found),
  )

-- Where its file can be written, a later start of the program finds the process running: the text
-- that `createPIDFile` writes for an int above -1 is one that `isAlreadyRunning` reads back, as
-- long as the file stays as it is and the process lives.
pub create_pid_file-is_already_running :
    (path : Bytes) (n : ℕ)
    → n < 2 ^ 31
    → Wp
        (pid_file path (pos n))
        (create_pid_file path (pos n) >>= λ okay. is_already_running path)
        (λ r s. (r ≡ running) × (s ≡ some (pid_text (pos n))))
        none
unfolding create_pid_file
create_pid_file-is_already_running path n small =
    (refl, elim [ true ↦ λ l. is_already_running-Found path n small | false ↦ λ l. ground arith ])
