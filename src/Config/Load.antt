-- ===== src/Config/Load.antt =====
-- `Config_sanityCheck` and `Config_loadBuffer`. The messages on the standard error are left out,
-- but for the line that an error is reported for.
use ebbnc.Common.{
  ℕ, zero, suc, ◌+◌, Bool, true, false, ◌&&◌, ◌||◌, Option, none, some, List, [], ◌∷◌, ◌==◌,
  if◌then◌else◌, length, Bytes, codes, ℤ, is_negative, int_of_long,
}
use ebbnc.Libc.{same_case, strip_word}
use ebbnc.Misc.{is_valid_port, str_to_int}
use ebbnc.Config.{
  Bouncer, Config, config_new, config_size, Parse, crash, no_memory, parse_error, ok, ◌>>=◌, strdup,
  bouncer_parse,
}

-- How `Config_loadBuffer` or `Config_loadEmbedded` ends. Only `loaded` returns a configuration;
-- `bad_line` names the line in its message, `insane` is a refusal by the sanity check,
-- `undeciphered` a refusal of the embedded text, and `stuck` a model out of fuel.
pub data Loaded : Type 0 where
  fault out_of_memory insane undeciphered stuck : Loaded
  bad_line : Bytes → Loaded
  loaded : Config → Loaded

-- What the system says of addresses; a null pointer is an address that `getaddrinfo` takes.
pub record Resolver : Type 0 where
  pub valid_ip : Bytes → Bool
  pub valid_host : Option Bytes → Bool

module _ (r : Resolver) where
  -- `isValidIP`, which hands its argument to `inet_pton`; `none` is a read through a null pointer.
  abbrev pub is_valid_ip : Option Bytes → Option Bool
  is_valid_ip none = none
  is_valid_ip (some ip) = some (r.valid_ip ip)

  abbrev pub is_given : Option Bytes → Bool
  is_given none = false
  is_given (some host) = true

  -- The tests on one bouncer.
  unfoldable pub is_sane : Bouncer → Option Bool
  is_sane b = elim (is_valid_ip b.listen_ip) [
    | none ↦ none
    | some listen ↦ elim (is_valid_ip b.local_ip) [
      | none ↦ none
      | some local ↦ some (
          listen
          && is_valid_port (int_of_long b.listen_port)
          && is_given b.remote_host
          && r.valid_host b.remote_host
          && is_valid_port (int_of_long b.remote_port)
          && local)
    ]
  ]

  -- `while (bouncer && !insane)`.
  unfoldable pub all_sane : List Bouncer → Option Bool
  all_sane [] = some true
  all_sane (b ∷ bouncers) =
      let rest = all_sane bouncers in
      elim (is_sane b) [ none ↦ none | some true ↦ rest | some false ↦ some false ]

  -- At least one bouncer is required.
  unfoldable pub sane_list : List Bouncer → Option Bool
  unfolding is_sane all_sane
  sane_list [] = some false
  sane_list (b ∷ bouncers) = all_sane (b ∷ bouncers)

  unfoldable pub config_sanity_check : Config → Option Bool
  config_sanity_check config = sane_list config.bouncers

-- Which option a line sets, with the text behind the equals sign.
pub data Setting : Type 0 where
  bouncer idnt ident_timeout idle_timeout write_timeout : Bytes → Setting
  dns_lookup pid_file welcome_msg : Bytes → Setting
  unknown : Setting

-- `!strncasecmp(line, word, n)`, and with `&& len > n`.
abbrev pub starts : (Bytes → Setting) → Bytes → Bytes → Setting → Setting
starts set word line other = elim (strip_word word line) [ none ↦ other | some value ↦ set value ]

abbrev pub starts_longer : (Bytes → Setting) → Bytes → Bytes → Setting → Setting
starts_longer set word line other = elim (strip_word word line) [
  | none ↦ other
  | some [] ↦ other
  | some (c ∷ value) ↦ set (c ∷ value)
]

-- The tests on a line, in their order.
unfoldable pub classify : Bytes → Setting
classify line = starts_longer bouncer (codes "bouncer=") line (
    starts idnt (codes "idnt=") line (
      starts_longer ident_timeout (codes "identtimeout=") line (
        starts_longer idle_timeout (codes "idletimeout=") line (
          starts_longer write_timeout (codes "writetimeout=") line (
            starts_longer dns_lookup (codes "dnslookup=") line (
              starts_longer pid_file (codes "pidfile=") line
                (starts_longer welcome_msg (codes "welcomemsg=") line unknown)))))))

-- `true` or `false`, in any case.
unfoldable pub read_flag : Bytes → Parse Bool
read_flag value =
    if same_case value (codes "true")
    then ok true
    else if same_case value (codes "false")
    then ok false
    else parse_error

-- `strToInt(value, &timeout) != 1 || timeout < 0` is an error.
unfoldable pub read_timeout : Bytes → Parse ℤ
read_timeout value = elim (str_to_int value) [
  | none ↦ parse_error
  | some timeout ↦ if is_negative timeout then parse_error else ok timeout
]

module _ (alloc : ℕ → Bool) where
  unfoldable pub apply_setting : Config → Setting → Parse Config
  apply_setting config (bouncer value) = do
    b ← bouncer_parse alloc value
    ok (record config { bouncers = b ∷ config.bouncers })
  apply_setting config (idnt value) = do flag ← read_flag value; ok (record config { idnt = flag })
  apply_setting config (ident_timeout value) = do
    timeout ← read_timeout value
    ok (record config { ident_timeout = timeout })
  apply_setting config (idle_timeout value) = do
    timeout ← read_timeout value
    ok (record config { idle_timeout = timeout })
  apply_setting config (write_timeout value) = do
    timeout ← read_timeout value
    ok (record config { write_timeout = timeout })
  apply_setting config (dns_lookup value) = do
    flag ← read_flag value
    ok (record config { dns_lookup = flag })
  apply_setting config (pid_file value) = do
    path ← strdup alloc value
    ok (record config { pid_file = some path })
  apply_setting config (welcome_msg value) = do
    msg ← strdup alloc value
    ok (record config { welcome_msg = some msg })
  apply_setting config unknown = parse_error

abbrev pub is_newline : ℕ → Bool
is_newline c = c == b'\n' || c == b'\r'

-- The line at `p1` and what lies behind it, from `p2` on.
unfoldable pub split_line : Bytes → Bytes × Bytes
split_line [] = ([], [])
split_line (c ∷ p) =
    let (line, rest) = split_line p in if is_newline c then ([], c ∷ p) else (c ∷ line, rest)

unfoldable pub skip_newlines : Bytes → Bytes
skip_newlines [] = []
skip_newlines (c ∷ p) = if is_newline c then skip_newlines p else c ∷ p

-- An empty line, or a comment.
abbrev pub is_skipped : Bytes → Bool
is_skipped [] = true
is_skipped (c ∷ line) = c == b'#'

-- Behind the loop: the configuration goes through the sanity check.
abbrev pub checked : Config → Option Bool → Loaded
checked config none = fault
checked config (some true) = loaded config
checked config (some false) = insane

-- How a line's setting goes on: the next line, or the end of the loop.
abbrev pub continue : Bytes → Parse Config → (Config → Loaded) → Loaded
continue line crash next = fault
continue line no_memory next = out_of_memory
continue line parse_error next = bad_line line
continue line (ok changed) next = next changed

module _ (alloc : ℕ → Bool) (r : Resolver) where
  -- `while (!error && *p1)`.
  unfoldable pub load_lines : ℕ → Config → Bytes → Loaded
  load_lines zero config p1 = stuck
  load_lines (suc fuel) config [] = checked config (config_sanity_check r config)
  load_lines (suc fuel) config (c ∷ p1) =
      let (line, p2) = split_line (c ∷ p1) in
      let next = skip_newlines p2 in
      let skip : Loaded = load_lines fuel config next in
      let set : Loaded =
        continue line (apply_setting alloc config (classify line))
          λ changed. load_lines fuel changed next in
      if alloc (length line + 1) then if is_skipped line then skip else set else out_of_memory

  unfoldable pub config_load_buffer : Bytes → Loaded
  config_load_buffer buffer =
      if alloc config_size
      then load_lines (suc (length buffer)) config_new buffer
      else out_of_memory
