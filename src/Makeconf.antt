-- ===== src/Makeconf.antt =====
-- The dialogue of makeconf.c's `main`: one turn of its loop for each answer. `alloc n` says whether
-- the allocator has `n` bytes to give, and a `Resolver` what the system says of addresses.
pub mod Reach
pub mod Complete
pub mod Password
pub mod Typed
pub mod Leaves
pub mod Hands
pub mod LeavesBouncer
pub mod Collects
pub mod Gathered
pub mod Saved
pub mod Printed
pub mod Loaded
pub mod Served
use ebbnc.Common.{
  ℕ, suc, ◌+◌, ◌-◌, Bool, true, false, ◌&&◌, Option, none, some, List, [], ◌∷◌, ◌++◌, leb,
  if◌then◌else◌, length, take, replicate, Bytes, codes, ℤ, is_negative, int_of_long,
}
use ebbnc.Libc.{strtok, same, same_case}
use ebbnc.Misc.{is_valid_port, str_to_long, str_to_int, prompt_input}
use ebbnc.Config.{Bouncer, Config, bouncer_new, bouncer_size, config_new}
use ebbnc.Config.Load.{Resolver}

-- `enum Stage`, and `finished` for the value behind its last one.
pub data Stage : Type 0 where
  bouncer_next bouncer_listen bouncer_remote bouncer_local bouncer_another : Stage
  idnt ident_timeout idle_timeout write_timeout dns_lookup pid_file welcome_msg : Stage
  password finished : Stage

-- `stage++`.
abbrev pub next_stage : Stage → Stage
next_stage bouncer_next = bouncer_listen
next_stage bouncer_listen = bouncer_remote
next_stage bouncer_remote = bouncer_local
next_stage bouncer_local = bouncer_another
next_stage bouncer_another = idnt
next_stage idnt = ident_timeout
next_stage ident_timeout = idle_timeout
next_stage idle_timeout = write_timeout
next_stage write_timeout = dns_lookup
next_stage dns_lookup = pid_file
next_stage pid_file = welcome_msg
next_stage welcome_msg = password
next_stage password = finished
next_stage finished = finished

-- `enum Error`: `plain`, `no_default`, `bad_value`, `no_memory`, `short_password`.
pub data Error : Type 0 where
  plain no_default bad_value no_memory short_password : Error

-- The variables of the loop; a null `bouncer` is `none`.
pub record Editor : Type 0 where
  pub stage : Stage
  pub config : Config
  pub bouncer : Option Bouncer
  pub bouncer_count : ℕ
  pub key : Bytes
  pub done : Bool
  pub error : Error

-- A turn writes through a null pointer, or leaves the variables.
pub data Turn : Type 0 where
  crash : Turn
  on : Editor → Turn

abbrev pub minimum_passlen : ℕ
minimum_passlen = 8

abbrev fail : Error → Editor → Turn
fail error ed = on (record ed { error = error })

-- Access through `bouncer`.
abbrev with_bouncer : Option Bouncer → (Bouncer → Turn) → Turn
with_bouncer none k = crash
with_bouncer (some b) k = k b

module _ (alloc : ℕ → Bool) (r : Resolver) where
  -- `strdup`, null without memory.
  pub dup : Bytes → Option Bytes
  dup s = if alloc (length s + 1) then some s else none

  pub dup_error : Bytes → Error
  dup_error s = if alloc (length s + 1) then plain else no_memory

  -- Behind the address in "Listen ip:port": the port, kept whatever it is, and its test.
  listen_port : Editor → Bouncer → Error → Option (Bytes × Bytes) → Turn
  listen_port ed b error none =
      on (record ed { bouncer = some (record b { listen_ip = none }); error = bad_value })
  listen_port ed b error (some (p, rest)) =
      let (port, number) = str_to_long p in
      let kept = record b { listen_port = port } in
      if number && is_valid_port (int_of_long port)
      then on (record ed { bouncer = some kept; error = error })
      else on (record ed { bouncer = some (record kept { listen_ip = none }); error = bad_value })

  pub ask_listen : Editor → Option (Bytes × Bytes) → Turn
  ask_listen ed none = fail bad_value ed
  ask_listen ed (some (p, rest)) =
      if r.valid_ip p
      then with_bouncer ed.bouncer
          (λ b. listen_port ed (record b { listen_ip = dup p }) (dup_error p) (strtok b' ' rest))
      else fail bad_value ed

  remote_port : Editor → Bouncer → Error → Option (Bytes × Bytes) → Turn
  remote_port ed b error none =
      on (record ed { bouncer = some (record b { remote_host = none }); error = bad_value })
  remote_port ed b error (some (p, rest)) =
      let (port, number) = str_to_long p in
      let kept = record b { remote_port = port } in
      if number && is_valid_port (int_of_long port)
      then on (record ed { bouncer = some kept; error = error })
      else on (record ed { bouncer = some (record kept { remote_host = none }); error = bad_value })

  pub ask_remote : Editor → Option (Bytes × Bytes) → Turn
  ask_remote ed none = fail bad_value ed
  ask_remote ed (some (p, rest)) =
      if r.valid_host (some p)
      then with_bouncer ed.bouncer
          (λ b. remote_port ed (record b { remote_host = dup p }) (dup_error p) (strtok b' ' rest))
      else fail bad_value ed

  pub ask_local : Editor → Bytes → Turn
  ask_local ed value =
      if same_case value (codes "None")
      then on ed
      else if r.valid_ip value
      then with_bouncer ed.bouncer (λ b.
        on (record ed {
          bouncer = some (record b { local_ip = dup value });
          error = dup_error value;
        }))
      else fail bad_value ed

  -- The bouncer joins the list before the answer is read.
  pub ask_another : Editor → Bytes → Turn
  ask_another ed value = with_bouncer ed.bouncer λ b.
      let kept = record ed.config { bouncers = b ∷ ed.config.bouncers } in
      let ed' = record ed { config = kept; bouncer = none } in
      if same_case value (codes "yes")
      then on (record ed' {
        stage = bouncer_next;
        bouncer_count = ed.bouncer_count + 1;
        bouncer = if alloc bouncer_size then some bouncer_new else none;
      })
      else if same_case value (codes "no")
      then on (record ed' { stage = next_stage ed.stage })
      else fail bad_value ed'

  -- A flag, whose answer is `true` or `false`.
  pub ask_flag : Editor → (Bool → Config) → Bytes → Turn
  ask_flag ed set value =
      if same_case value (codes "true")
      then on (record ed { config = set true })
      else if same_case value (codes "false")
      then on (record ed { config = set false })
      else fail bad_value ed

  set_timeout : Editor → (ℤ → Config) → Option ℤ → Turn
  set_timeout ed set none = fail bad_value ed
  set_timeout ed set (some timeout) = on (record ed {
    config = set timeout;
    error = if is_negative timeout then bad_value else ed.error;
  })

  pub ask_timeout : Editor → (ℤ → Config) → Bytes → Turn
  ask_timeout ed set [] = fail no_default ed
  ask_timeout ed set (c ∷ value) = set_timeout ed set (str_to_int (c ∷ value))

  -- An optional text; `none` in small letters leaves it out.
  pub ask_text : Editor → (Option Bytes → Config) → Bytes → Turn
  ask_text ed set value =
      if same value (codes "none")
      then on ed
      else on (record ed { config = set (dup value); error = dup_error value })

  -- `strncpy(key, value, sizeof(key) - 1)` into zeros.
  key_of : Bytes → Bytes
  key_of value = take 16 (value ++ replicate 16 0) ++ 0 ∷ []

  -- `getpass` returns null where there is no terminal.
  ask_password : Editor → Option Bytes → Turn
  ask_password ed none = crash
  ask_password ed (some value) =
      if leb minimum_passlen (length value)
      then on (record ed { key = key_of value })
      else fail short_password ed

  -- The switch on `stage`, with `error` reset; `input` is what `fgets` or `getpass` reads.
  pub ask : Stage → Editor → Option Bytes → Turn
  ask bouncer_next ed input = on (record ed { done = true })
  ask bouncer_listen ed input = ask_listen ed (strtok b':' (prompt_input input none))
  ask bouncer_remote ed input = ask_remote ed (strtok b':' (prompt_input input none))
  ask bouncer_local ed input = ask_local ed (prompt_input input (some (codes "None")))
  ask bouncer_another ed input = ask_another ed (prompt_input input (some (codes "yes")))
  ask idnt ed input =
      ask_flag ed (λ flag. record ed.config { idnt = flag })
        (prompt_input input (some (codes "true")))
  ask ident_timeout ed input =
      if ed.config.idnt
      then ask_timeout ed (λ t. record ed.config { ident_timeout = t })
          (prompt_input input (some (codes "10")))
      else on ed
  ask idle_timeout ed input =
      ask_timeout ed (λ t. record ed.config { idle_timeout = t })
        (prompt_input input (some (codes "0")))
  ask write_timeout ed input =
      ask_timeout ed (λ t. record ed.config { write_timeout = t })
        (prompt_input input (some (codes "30")))
  ask dns_lookup ed input =
      ask_flag ed (λ flag. record ed.config { dns_lookup = flag })
        (prompt_input input (some (codes "true")))
  ask pid_file ed input =
      ask_text ed (λ text. record ed.config { pid_file = text })
        (prompt_input input (some (codes "none")))
  ask welcome_msg ed input =
      ask_text ed (λ text. record ed.config { welcome_msg = text })
        (prompt_input input (some (codes "none")))
  ask password ed input = ask_password ed input
  ask finished ed input = on (record ed { done = true })

  -- The switch on `error`.
  settle : Error → Editor → Editor
  settle plain ed = record ed { stage = next_stage ed.stage }
  settle no_memory ed = record ed { done = true }
  settle _ ed = ed

  settle_turn : Turn → Turn
  settle_turn crash = crash
  settle_turn (on ed) = on (settle ed.error ed)

  -- One turn of the loop.
  unfoldable pub turn : Editor → Option Bytes → Turn
  unfolding ask settle settle_turn ask_listen ask_remote ask_local ask_another ask_flag ask_timeout
      ask_text ask_password listen_port remote_port set_timeout dup dup_error key_of
  turn ed input = settle_turn (ask ed.stage (record ed { error = plain }) input)

-- The variables before the loop.
abbrev pub opening : (ℕ → Bool) → Editor
opening alloc = record {
  stage = bouncer_listen;
  config = config_new;
  bouncer = if alloc bouncer_size then some bouncer_new else none;
  bouncer_count = 1;
  key = replicate 17 0;
  done = false;
  error = plain;
}
