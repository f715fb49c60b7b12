-- ===== src/Tests/Inputs.antt =====
-- The inputs that the tests share.
use ebbnc.Common.{codes, pos, ℕ, Bool, true, none, some, [], ◌∷◌, Bytes}
use ebbnc.Config.{Bouncer, Config, config_new}
use ebbnc.System.{Sockaddr, inet}
use ebbnc.Address.{Inet}
use ebbnc.Config.Load.{Resolver}
use ebbnc.Embedded.{Urandom}

abbrev pub key : Bytes
key = 0 ∷ 1 ∷ 2 ∷ 3 ∷ 4 ∷ 5 ∷ 6 ∷ 7 ∷ 8 ∷ 9 ∷ 10 ∷ 11 ∷ 12 ∷ 13 ∷ 14 ∷ 15 ∷ []

abbrev pub ivec : Bytes
ivec = 9 ∷ 8 ∷ 7 ∷ 6 ∷ 255 ∷ 254 ∷ 0 ∷ 1 ∷ []

abbrev pub eleven_zeros : Bytes
eleven_zeros = 0 ∷ 0 ∷ 0 ∷ 0 ∷ 0 ∷ 0 ∷ 0 ∷ 0 ∷ 0 ∷ 0 ∷ 0 ∷ []

abbrev pub sixteen_zeros : Bytes
sixteen_zeros = 0 ∷ 0 ∷ 0 ∷ 0 ∷ 0 ∷ eleven_zeros

-- A system with memory for every request.
abbrev pub plenty : ℕ → Bool
plenty n = true

abbrev pub urandom : Urandom
urandom = record { opens = true; gives = some ivec }

-- A resolver that takes every address.
abbrev pub anything : Resolver
anything = record { valid_ip = λ ip. true; valid_host = λ host. true }

abbrev pub sample_bouncer : Bouncer
sample_bouncer = record {
  listen_ip = some (codes "0.0.0.0");
  listen_port = pos 12345;
  remote_host = some (codes "127.0.0.1");
  remote_port = pos 1337;
  local_ip = some (codes "0.0.0.0");
}

-- A host that has its own address only.
abbrev pub loopback : Inet
loopback = record {
  pton4 = λ ip. some (127 ∷ 0 ∷ 0 ∷ 1 ∷ []);
  pton6 = λ ip. none;
  ntop4 = λ a. codes "127.0.0.1";
  ntop6 = λ a. codes "::1";
}

abbrev pub client_addr : Sockaddr
client_addr = record { family = inet; address = 127 ∷ 0 ∷ 0 ∷ 1 ∷ []; port = 6193 }

abbrev pub sample_config : Config
sample_config = record config_new {
  bouncers = sample_bouncer ∷ [];
  pid_file = some (codes "ebbnc.pid");
}
