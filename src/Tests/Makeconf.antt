-- ===== src/Tests/Makeconf.antt =====
-- The dialogue.
use ebbnc.Common.{
  map, codes, ◌≡◌, ◌≢◌, refl, true, false, none, some, [], ◌∷◌, ◌++◌, int_of_long, replicate, All,
  Bool, not, Bytes, Option, ◌==◌, arith, if◌then◌else◌,
}
use ebbnc.Config.{Config, config_new}
use ebbnc.Libc.{
  strtok, skip_spaces, read_sign, scan_number, scan_long, read_number, starts_digit, digit_value,
  strtol, same, same_case,
}
use ebbnc.Misc.{is_valid_port, str_to_int, str_to_long, prompt_input}
use ebbnc.Makeconf.{Editor, crash, on, turn, opening, bouncer_another, idnt, finished, plain}
use ebbnc.Libc.Tokens.{IsToken}
use ebbnc.Xtea.{little}
use ebbnc.Config.Load.{Resolver, loaded}
use ebbnc.Embedded.Load.{save_config, saved, load_embedded}
use ebbnc.Makeconf.Typed.{Typed}
use ebbnc.Makeconf.Saved.{as_printed}
use ebbnc.Makeconf.Served.{Typed-ListensAll}
use ebbnc.System.Wp.{Wp}
use ebbnc.System.Descriptors.{descriptors}
use ebbnc.Server.{server_listen_all}
use ebbnc.Server.Descriptors.{ListensAll}
use ebbnc.Makeconf.Loaded.{as_loaded, Typed-load_embedded}
use ebbnc.Makeconf.Reach.{Reach, start, next, Reach-idnt, turn-another-crash}
use ebbnc.Makeconf.Complete.{IsComplete, Reach-IsComplete}
use ebbnc.Tests.Inputs.{loopback, ivec, urandom, plenty, anything, sample_bouncer}

-- The state behind the answers below.
abbrev answered : Editor
answered = record {
  stage = finished;
  config = record config_new { bouncers = record sample_bouncer { local_ip = none } ∷ [] };
  bouncer = none;
  bouncer_count = 1;
  key = codes "password" ++ replicate 9 0;
  done = false;
  error = plain;
}

answers : Reach plenty anything answered
unfolding turn strtok skip_spaces read_sign scan_number scan_long read_number digit_value
    starts_digit strtol same same_case is_valid_port str_to_int str_to_long int_of_long prompt_input
answers =
    next (some (codes "password"))
      (next (some (codes "none\n"))
        (next (some (codes "none\n"))
          (next (some (codes "true\n"))
            (next (some (codes "30\n"))
              (next (some (codes "0\n"))
                (next (some (codes "10\n"))
                  (next (some (codes "no\n"))
                    (next (some (codes "None\n"))
                      (next (some (codes "127.0.0.1:1337\n"))
                        (next (some (codes "0.0.0.0:12345\n")) (start refl) refl refl) refl refl)
                      refl refl)
                    refl refl)
                  refl refl)
                refl refl)
              refl refl)
            refl refl)
          refl refl)
        refl refl)
      refl refl

Reach-idnt_example : (answered.stage ≢ idnt) × (answered.config.idnt ≡ true)
Reach-idnt_example = Reach-idnt plenty anything answers

Reach-IsComplete_example :
    (answered.config.bouncers ≢ []) × All (IsComplete plenty anything) answered.config.bouncers
Reach-IsComplete_example = Reach-IsComplete plenty anything answers refl

-- The question "Another bouncer?", with the sample at hand.
abbrev asked_another : Editor
asked_another = record (opening plenty) { stage = bouncer_another; bouncer = some sample_bouncer }

turn-another-crash_example :
    (ed' : Editor) × (turn plenty anything asked_another (some (codes "maybe\n")) ≡ on ed')
    × (ed'.stage ≡ bouncer_another)
    × (turn plenty anything ed' (some (codes "no\n")) ≡ crash)
unfolding same_case prompt_input
turn-another-crash_example =
    turn-another-crash plenty anything asked_another sample_bouncer (some (codes "maybe\n"))
      (some (codes "no\n")) refl refl refl refl

-- A resolver that takes the texts that are not empty and have no space.
abbrev is_word : Bytes → Bool
is_word [] = false
is_word (c ∷ []) = not (c == b' ')
is_word (c ∷ d ∷ s) = let rest = is_word (d ∷ s) in if c == b' ' then false else rest

abbrev careful : Resolver
careful = record { valid_ip = is_word; valid_host = λ host. true }

is_word-IsToken : (s : Bytes) → is_word s ≡ true → IsToken b' ' s
is_word-IsToken [] h = absurd (ground arith)
is_word-IsToken (c ∷ []) h = ((λ e. cc), ((λ e. ground arith), tt))
is_word-IsToken (c ∷ d ∷ s) h =
    ((λ e. cc), ((λ e. ground arith), (is_word-IsToken (d ∷ s) (ground arith)).1))

abbrev typed : Bytes → Option Bytes
typed line = some (line ++ (b'\n' ∷ []))

-- The state behind answers that give the bouncer a local address.
abbrev complete : Editor
complete = record answered { config = record config_new { bouncers = sample_bouncer ∷ [] } }

typed_answers : Typed plenty careful complete
unfolding turn strtok skip_spaces read_sign scan_number scan_long read_number digit_value
    starts_digit strtol same same_case is_valid_port str_to_int str_to_long int_of_long prompt_input
typed_answers =
    Typed.next (some (codes "password"))
      (Typed.next (typed (codes "none"))
        (Typed.next (typed (codes "none"))
          (Typed.next (typed (codes "true"))
            (Typed.next (typed (codes "30"))
              (Typed.next (typed (codes "0"))
                (Typed.next (typed (codes "10"))
                  (Typed.next (typed (codes "no"))
                    (Typed.next (typed (codes "0.0.0.0"))
                      (Typed.next (typed (codes "127.0.0.1:1337"))
                        (Typed.next (typed (codes "0.0.0.0:12345")) (Typed.start refl)
                          (codes "0.0.0.0:12345", ground arith, refl) refl refl)
                        (codes "127.0.0.1:1337", ground arith, refl) refl refl)
                      (codes "0.0.0.0", ground arith, refl) refl refl)
                    (codes "no", ground arith, refl) refl refl)
                  (codes "10", ground arith, refl) refl refl)
                (codes "0", ground arith, refl) refl refl)
              (codes "30", ground arith, refl) refl refl)
            (codes "true", ground arith, refl) refl refl)
          (codes "none", ground arith, refl) refl refl)
        (codes "none", ground arith, refl) refl refl)
      tt refl refl

Typed-load_embedded_example :
    (text : Bytes) × (save_config little plenty urandom true complete.config complete.key
      ≡ saved text)
    × (load_embedded little plenty careful text complete.key ≡ loaded (as_loaded complete.config))
Typed-load_embedded_example =
    Typed-load_embedded little plenty (λ n. refl) careful is_word-IsToken urandom ivec refl refl
      (omega arith) typed_answers refl ((_, refl), tt)

Typed-ListensAll_example :
    (text : Bytes) × (config : Config) × (save_config little plenty urandom true complete.config
        complete.key
      ≡ saved text)
    × (load_embedded little plenty careful text complete.key ≡ loaded config)
    × Wp descriptors
        (server_listen_all loopback config)
        (ListensAll (map as_printed complete.config.bouncers) (0 ∷ []))
        (0 ∷ [])
Typed-ListensAll_example =
    Typed-ListensAll little plenty (λ n. refl) careful is_word-IsToken urandom ivec loopback
      (0 ∷ []) refl refl (omega arith) typed_answers refl ((_, refl), tt)
