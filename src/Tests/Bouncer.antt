-- ===== src/Tests/Bouncer.antt =====
-- The text of a bouncer and of a configuration.
use ebbnc.Common.{codes, ◌≡◌, refl, arith, some, none, [], ◌∷◌, Bytes}
use ebbnc.Config.{Bouncer, Config, config_new, ok, bouncer_parse}
use ebbnc.Config.Load.{checked, config_load_buffer, config_sanity_check}
use ebbnc.Config.RoundTrip.{IsPrintable, IsSavable, config_load_buffer-config_save_buffer}
use ebbnc.Config.Save.{print_bouncer, config_save_buffer}
use ebbnc.Config.BouncerText.{IsPlain, bouncer_parse-print_bouncer_null}
use ebbnc.Libc.Tokens.{IsToken}
use ebbnc.Tests.Inputs.{plenty, anything, sample_bouncer}

-- The sample with another local address.
sample-IsPlain :
    (local : Bytes) → IsToken b' ' local → IsPlain (record sample_bouncer { local_ip = some local })
sample-IsPlain local h = record {
  ip = codes "0.0.0.0";
  host = codes "127.0.0.1";
  local = local;
  listen = 12345;
  remote = 1337;
  listen_ip = refl;
  listen_port = refl;
  remote_host = refl;
  remote_port = refl;
  local_ip = refl;
  ip_token = ground arith;
  host_token = ground arith;
  local_token = h;
  listen_lt = omega arith;
  remote_lt = omega arith;
}

-- What makeconf's default answer for the local address leaves.
abbrev local_less : Bouncer
local_less = record sample_bouncer { local_ip = none }

bouncer_parse-print_bouncer_null_example :
    bouncer_parse plenty (print_bouncer local_less)
    ≡ ok (record local_less { local_ip = some (codes "(null)") })
bouncer_parse-print_bouncer_null_example =
    bouncer_parse-print_bouncer_null plenty (λ n. refl) local_less refl
      (sample-IsPlain (codes "(null)") (ground arith))

abbrev sample_config : Config
sample_config = record config_new {
  bouncers = sample_bouncer ∷ sample_bouncer ∷ [];
  welcome_msg = some (codes "hello there");
}

sample_bouncer-IsPrintable : IsPrintable sample_bouncer
sample_bouncer-IsPrintable = record {
  plain = sample-IsPlain (codes "0.0.0.0") (ground arith);
  ip = ground arith;
  host = ground arith;
  local = ground arith;
}

sample_config-IsSavable : IsSavable sample_config
sample_config-IsSavable = record {
  ident = 10;
  idle = 0;
  write = 30;
  ident_timeout = refl;
  idle_timeout = refl;
  write_timeout = refl;
  ident_lt = omega arith;
  idle_lt = omega arith;
  write_lt = omega arith;
  pid_file = tt;
  welcome_msg = ground arith;
  bouncers = (sample_bouncer-IsPrintable, (sample_bouncer-IsPrintable, tt));
}

config_load_buffer-config_save_buffer_example :
    (buffer : Bytes) × (config_save_buffer plenty sample_config ≡ some buffer)
    × (config_load_buffer plenty anything buffer
        ≡ checked sample_config (config_sanity_check anything sample_config))
config_load_buffer-config_save_buffer_example =
    config_load_buffer-config_save_buffer plenty (λ n. refl) anything sample_config
      sample_config-IsSavable
