-- ===== src/Process.antt =====
-- The process and its file: `isAlreadyRunning`, `createPIDFile` and `daemonise` of misc.c.
pub mod PidFile
use ebbnc.Common.{Bool, Option, none, some, [], ◌∷◌, ◌++◌, if◌then◌else◌, Bytes, ℤ, pos, same_int}
use ebbnc.Libc.{print_int}
use ebbnc.Libc.Scan.{scan_int}
use ebbnc.System.{
  Io, ret, ◌>>=◌, perform, Result, ok, err, Errno, eagain, enoent, esrch, other, read_file,
  write_file, kill, fork, setsid,
}

-- The results -1, 0 and 1.
pub data Running : Type 0 where
  unknown not_running running : Running

abbrev pub no_file : Errno → Running
no_file enoent = not_running
no_file _ = unknown

abbrev pub no_process : Errno → Running
no_process esrch = not_running
no_process _ = unknown

abbrev pub signalled : Result (Unit {0}) → Running
signalled (ok u) = running
signalled (err errno) = no_process errno

unfoldable pub ask_process : Option (ℤ × Bytes) → Io Running
ask_process none = ret unknown
ask_process (some (pid, rest)) = perform (kill pid) >>= λ r. ret (signalled r)

unfoldable pub read_pid : Result Bytes → Io Running
unfolding ask_process
read_pid (err errno) = ret (no_file errno)
read_pid (ok content) = ask_process (scan_int content)

unfoldable pub is_already_running : Bytes → Io Running
unfolding read_pid
is_already_running pid_file = perform (read_file pid_file) >>= read_pid

-- "%i\n".
unfoldable pub pid_text : ℤ → Bytes
pid_text pid = print_int pid ++ (b'\n' ∷ [])

unfoldable pub create_pid_file : Bytes → ℤ → Io Bool
create_pid_file pid_file pid = perform (write_file pid_file (pid_text pid))

-- -1 is an error; of the parent the child's process, and of the child 0.
unfoldable pub daemonise : Io (Result ℤ)
daemonise = perform fork >>= λ forked. elim forked [
  | err errno ↦ ret (err errno)
  | ok pid ↦
      if same_int pid (pos 0) then (perform setsid >>= λ u. ret (ok (pos 0))) else ret (ok pid)
]
