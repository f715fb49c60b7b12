-- ===== src/Tests/Load.antt =====
-- The way from the editor's configuration to the loaded one.
use ebbnc.Common.{
  codes, ◌≡◌, refl, ◌++◌, ◌∷◌, [], arith, Bytes, Bool, true, ◌&&◌, not, All, IsBytes, ltb,
  int_of_long,
}
use ebbnc.Xtea.{little}
use ebbnc.Config.{Config, config_new}
use ebbnc.Config.Load.{config_load_buffer}
use ebbnc.Config.LoadSafe.{Safe, config_load_buffer-Safe}
use ebbnc.Config.Save.{config_save_buffer, print_bouncer}
use ebbnc.Libc.{print_int}
use ebbnc.Misc.{str_cat_printf}
use ebbnc.Embedded.{iscntrl, isspace}
use ebbnc.Embedded.Decrypted.{IsClean}
use ebbnc.Embedded.Load.{
  load_embedded, save_config, saved, load_embedded-save_config, load_embedded-Opened, Opened,
}
use ebbnc.Tests.Inputs.{key, ivec, urandom, plenty, anything, sample_bouncer}

config_load_buffer-Safe_example : Safe (
    config_load_buffer plenty anything (codes "bouncer=0.0.0.0:12345 127.0.0.1:\nidletimeout=60\n"))
config_load_buffer-Safe_example =
    config_load_buffer-Safe plenty (λ n. refl) anything
      (codes "bouncer=0.0.0.0:12345 127.0.0.1:\nidletimeout=60\n")

load_embedded-Opened_example :
    Opened anything (load_embedded little plenty anything (codes "00FF00FF00FF00FF00") key)
load_embedded-Opened_example =
    load_embedded-Opened little plenty (λ n. refl) anything (codes "00FF00FF00FF00FF00") key
      (omega arith) (omega arith) (omega arith)

abbrev sample_config : Config
sample_config = record config_new { bouncers = sample_bouncer ∷ [] }

abbrev sample_text : Bytes
sample_text =
    codes "idnt=true\nidenttimeout=10\nidletimeout=0\nwritetimeout=30\ndnslookup=true\n"
    ++ codes "bouncer=0.0.0.0:12345 127.0.0.1:1337 0.0.0.0\n"

-- A test for both conditions on the text.
abbrev is_fit : Bytes → Bool
is_fit [] = true
is_fit (c ∷ text) =
    let rest = is_fit text in ltb 0 c && ltb c 256 && not (iscntrl c && not (isspace c)) && rest

is_fit_sound : (text : Bytes) → is_fit text ≡ true → IsBytes text × All IsClean text
is_fit_sound [] h = (tt, tt)
is_fit_sound (c ∷ text) h =
    let (bytes, clean) = is_fit_sound text (ground arith) in
    ((ground arith, bytes), ((ground arith, ground arith), clean))

load_embedded-save_config_example :
    (text : Bytes) × (save_config little plenty urandom true sample_config key ≡ saved text)
    × (load_embedded little plenty anything text key
        ≡ config_load_buffer plenty anything sample_text)
unfolding config_save_buffer str_cat_printf print_int print_bouncer int_of_long
load_embedded-save_config_example =
    load_embedded-save_config little plenty (λ n. refl) anything urandom ivec sample_config
      sample_text key refl refl (omega arith) (omega arith) refl (is_fit_sound sample_text refl).0
      (is_fit_sound sample_text refl).1
