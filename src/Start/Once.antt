-- ===== src/Start/Once.antt =====
-- Proofs that main.c starts the program once.
use ebbnc.Common.{ℕ, ◌^◌, ◌<◌, ◌≡◌, refl, sym, subst, some, Bytes, ℤ, pos, List, [], ◌∷◌}
use ebbnc.Config.{Config}
use ebbnc.System.{Call, Reply, ◌>>=◌, ok}
use ebbnc.System.Wp.{Monitor, Wp}
use ebbnc.Address.{Inet}
use ebbnc.Process.{pid_text, signalled, ask_process, read_pid, is_already_running}
use ebbnc.Process.PidFile.{scan_int-pid_text}
use ebbnc.Start.{Ending, exits, check_and_go, unless_running, start_with}

-- Every call, newest first, while the file at `path` holds a text and a process lives.
module _ (path content : Bytes) (daemon : ℤ) where
  abbrev Holds : (c : Call) → Reply c → List Call → Type 0
  Holds (Call.read_file p) r s = p ≡ path → r ≡ ok content
  Holds (Call.kill pid) r s = pid ≡ daemon → r ≡ ok tt
  Holds c r s = Unit

  abbrev noted : (c : Call) → Reply c → List Call → List Call
  noted c r s = c ∷ s

  abbrev pub calls : Monitor (List Call)
  calls = record { Allowed = λ c s. Unit; Legal = Holds; after = noted }

-- The end of a second start, and its calls.
abbrev pub Refuses : Bytes → ℤ → Ending → List Call → Type 0
Refuses path pid ending s = (ending ≡ exits 1) × (s ≡ Call.kill pid ∷ Call.read_file path ∷ [])

-- Where the file that the configuration names holds the text of a live process, an int above -1, a
-- second start returns 1, and behind the configuration it makes two calls and no other: it reads
-- this file, and looks for this process. So no socket is opened, nothing is written to the file,
-- and no other process is signalled.
pub start_with-exits :
    (net : Inet) (fuel : ℕ) (config : Config) (path : Bytes) (n : ℕ)
    → config.pid_file ≡ some path
    → n < 2 ^ 31
    → Wp
        (calls path (pid_text (pos n)) (pos n))
        (start_with net fuel config)
        (Refuses path (pos n))
        []
unfolding start_with check_and_go unless_running is_already_running read_pid ask_process
start_with-exits net fuel config path n named small =
    let system = calls path (pid_text (pos n)) (pos n) in
    subst (λ o. Wp system (check_and_go net fuel config o) (Refuses path (pos n)) []) (sym named)
      (
        tt,
        λ r l.
            subst
              (λ r.
                Wp system (read_pid r >>= unless_running net fuel config) (Refuses path (pos n))
                  (Call.read_file path ∷ []))
              (sym (l refl))
              (subst
                (λ o.
                  Wp system (ask_process o >>= unless_running net fuel config)
                    (Refuses path (pos n)) (Call.read_file path ∷ []))
                (sym (scan_int-pid_text n small))
                (
                  tt,
                  λ r l.
                      subst
                        (λ r.
                          Wp system (unless_running net fuel config (signalled r))
                            (Refuses path (pos n)) (Call.kill (pos n) ∷ Call.read_file path ∷ []))
                        (sym (l refl)) (refl, refl),
                )),
      )
