-- ===== src/Config.antt =====
-- config.c: the configuration and its text. `alloc n` says whether the allocator has `n` bytes to
-- give; `valid_ip` and `valid_host` are what `inet_pton` and `getaddrinfo` say of an address.
pub mod Load
pub mod Save
pub mod LoadSound
pub mod LoadSafe
pub mod BouncerText
pub mod Lines
pub mod SaveLoad
pub mod LoadSaved
pub mod RoundTrip
pub mod File
pub mod Free
use ebbnc.Common.{
  ℕ, ◌+◌, Bool, true, false, Option, none, some, List, [], ◌∷◌, if◌then◌else◌, length, Bytes, ℤ,
  pos, negsuc,
}
use ebbnc.Libc.{strtok, sscanf_li}

-- A null `char*` is `none`. `next` is the rest of the list that a bouncer stands in.
pub record Bouncer : Type 0 where
  pub listen_ip : Option Bytes
  pub listen_port : ℤ
  pub remote_host : Option Bytes
  pub remote_port : ℤ
  pub local_ip : Option Bytes

pub record Config : Type 0 where
  pub bouncers : List Bouncer
  pub idnt : Bool
  pub ident_timeout : ℤ
  pub idle_timeout : ℤ
  pub write_timeout : ℤ
  pub dns_lookup : Bool
  pub pid_file : Option Bytes
  pub welcome_msg : Option Bytes

-- The values that `Bouncer_new` and `Config_new` set, if `calloc` gave the memory.
abbrev pub bouncer_new : Bouncer
bouncer_new = record {
  listen_ip = none;
  listen_port = negsuc 0;
  remote_host = none;
  remote_port = negsuc 0;
  local_ip = none;
}

abbrev pub config_new : Config
config_new = record {
  bouncers = [];
  idnt = true;
  ident_timeout = pos 10;
  idle_timeout = pos 0;
  write_timeout = pos 30;
  dns_lookup = true;
  pid_file = none;
  welcome_msg = none;
}

-- `sizeof` of the two records, with eight bytes to a pointer or a long.
abbrev pub bouncer_size : ℕ
bouncer_size = 48

abbrev pub config_size : ℕ
config_size = 56

-- How a part of the parser ends: a write through a null pointer, the labels `strduperror` and
-- `parseerror`, or a value.
pub data Parse {ℓ} (A : Type ℓ) : Type ℓ where
  crash no_memory parse_error : Parse A
  ok : A → Parse A

infixl 5 ◌>>=◌
abbrev pub ◌>>=◌ {ℓ κ} : {A : Type ℓ} {B : Type κ} → Parse A → (A → Parse B) → Parse B
crash >>= f = crash
no_memory >>= f = no_memory
parse_error >>= f = parse_error
ok a >>= f = f a

-- `p = strtok(…); if (!p || *p == '\0') { goto parseerror; }`: a token is never empty.
pub next_token : ℕ → Bytes → Parse (Bytes × Bytes)
next_token d s = elim (strtok d s) [ none ↦ parse_error | some t ↦ ok t ]

-- `if (sscanf(p, "%li", &port) != 1) { goto parseerror; }`.
pub read_port : Bytes → Parse ℤ
read_port p = elim (sscanf_li p) [ none ↦ parse_error | some port ↦ ok port ]

module _ (alloc : ℕ → Bool) where
  pub strdup : Bytes → Parse Bytes
  strdup p = if alloc (length p + 1) then ok p else no_memory

  -- The writes to `bouncer`, which `Bouncer_parse` does not test for null.
  pub allocated : Parse (Unit {0})
  allocated = if alloc bouncer_size then ok tt else crash

  -- The optional third part, behind which nothing may follow.
  pub parse_local : Bytes → Bytes → Parse Bytes
  parse_local listen_ip s = elim (strtok b' ' s) [
    | none ↦ strdup listen_ip
    | some (p, rest) ↦ strdup p >>= λ local_ip. elim (strtok b' ' rest) [
      | none ↦ ok local_ip
      | some t ↦ parse_error
    ]
  ]

  unfoldable pub bouncer_parse : Bytes → Parse Bouncer
  unfolding next_token read_port strdup allocated parse_local
  bouncer_parse s = do
    temp ← strdup s
    (ip, after_ip) ← next_token b':' temp
    _ ← allocated
    listen_ip ← strdup ip
    (p, after_port) ← next_token b' ' after_ip
    listen_port ← read_port p
    (host, after_host) ← next_token b':' after_port
    remote_host ← strdup host
    (q, rest) ← next_token b' ' after_host
    remote_port ← read_port q
    local_ip ← parse_local listen_ip rest
    ok record {
      listen_ip = some listen_ip;
      listen_port = listen_port;
      remote_host = some remote_host;
      remote_port = remote_port;
      local_ip = some local_ip;
    }
