-- ===== src/Tests/Config.antt =====
-- The configuration and its text.
use ebbnc.Common.{Bytes, codes, ◌≡◌, refl, ◌++◌, ◌∷◌, [], false, some, pos, int_of_long}
use ebbnc.Config.{Config, config_new, bouncer_parse, ok}
use ebbnc.Config.Load.{
  loaded, bad_line, config_load_buffer, load_lines, config_sanity_check, sane_list, apply_setting,
  classify, read_flag, read_timeout, split_line, skip_newlines,
}
use ebbnc.Config.Save.{config_save_buffer, print_bouncer}
use ebbnc.Config.LoadSound.{Sound, config_load_buffer-Sound}
use ebbnc.Libc.{
  strtok, sscanf_li, skip_spaces, read_sign, scan_number, scan_long, read_number, starts_digit,
  digit_value, strtol, same_case, strip_word, print_int,
}
use ebbnc.Misc.{is_valid_port, str_to_int, str_to_long, str_cat_printf}
use ebbnc.Tests.Inputs.{plenty, anything, sample_bouncer}

-- The line of ebbnc.conf. The local address is that of the listener.
bouncer_parse_sample :
    bouncer_parse plenty (codes "0.0.0.0:12345 127.0.0.1:1337") ≡ ok sample_bouncer
unfolding bouncer_parse strtok sscanf_li skip_spaces read_sign scan_number scan_long read_number
    digit_value starts_digit
bouncer_parse_sample = refl

abbrev sample_text : Bytes
sample_text =
    codes "# comment\n\nBOUNCER=0.0.0.0:12345 127.0.0.1:1337\r\nidletimeout=60\nidnt=False\n"

abbrev sample_loaded : Config
sample_loaded = record config_new {
  bouncers = sample_bouncer ∷ [];
  idle_timeout = pos 60;
  idnt = false;
}

load_sample : config_load_buffer plenty anything sample_text ≡ loaded sample_loaded
unfolding config_load_buffer load_lines config_sanity_check sane_list apply_setting classify
    read_flag read_timeout split_line skip_newlines bouncer_parse strtok sscanf_li skip_spaces
    read_sign scan_number scan_long read_number digit_value starts_digit strtol same_case strip_word
    is_valid_port str_to_int str_to_long int_of_long
load_sample = refl

load_bad_line :
    config_load_buffer plenty anything (codes "idnt=true\nidletimeout=-5\n")
    ≡ bad_line (codes "idletimeout=-5")
unfolding config_load_buffer load_lines config_sanity_check sane_list apply_setting classify
    read_flag read_timeout split_line skip_newlines bouncer_parse strtok sscanf_li skip_spaces
    read_sign scan_number scan_long read_number digit_value starts_digit strtol same_case strip_word
    is_valid_port str_to_int str_to_long int_of_long
load_bad_line = refl

save_sample :
    config_save_buffer plenty (record config_new { bouncers = sample_bouncer ∷ [] })
    ≡ some (
        codes "idnt=true\nidenttimeout=10\nidletimeout=0\nwritetimeout=30\ndnslookup=true\n"
        ++ codes "bouncer=0.0.0.0:12345 127.0.0.1:1337 0.0.0.0\n")
unfolding config_save_buffer str_cat_printf print_int print_bouncer int_of_long
save_sample = refl

config_load_buffer-Sound_example : Sound anything (
    config_load_buffer plenty anything
      (codes "BOUNCER=0.0.0.0:12345 127.0.0.1:1337\r\nidletimeout=60\n"))
config_load_buffer-Sound_example =
    config_load_buffer-Sound plenty anything
      (codes "BOUNCER=0.0.0.0:12345 127.0.0.1:1337\r\nidletimeout=60\n")
