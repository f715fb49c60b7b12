-- ===== src/Config/Free.antt =====
-- config.c: `Bouncer_free`, `Bouncer_freeList` and `Config_free`, on the memory. A function that takes
-- a pointer to a pointer takes the pointer and returns what it leaves in it.
pub mod Frees
use ebbnc.Common.{ℕ, ◌≡◌, refl, Option, none, some, ◌==◌, if◌then◌else◌}
use ebbnc.Memory.{
  Ptr, null, Block, bouncer_at, config_at, BouncerBlock, ConfigBlock, Cmd, pure, ◌>>=◌, load_as,
  free, free_list, Linked,
}

abbrev pub bouncer? : Block → Option BouncerBlock
bouncer? (bouncer_at b) = some b
bouncer? _ = none

abbrev pub config? : Block → Option ConfigBlock
config? (config_at c) = some c
config? _ = none

abbrev pub bouncers : Linked BouncerBlock
bouncers = record {
  block = bouncer_at;
  node? = bouncer?;
  next = λ b. b.next;
  relink = λ p b. record b { next = p };
  node?-block = λ b. refl;
  next-relink = λ p b. refl;
  relink-next = λ b. refl;
  relink-relink = λ p q b. refl;
}

unfoldable pub bouncer_free : Ptr → Cmd Ptr
bouncer_free p = if p == null then pure p else do
  b ← load_as bouncer? p
  _ ← free b.listen_ip
  c ← load_as bouncer? p
  _ ← free c.remote_host
  _ ← free p
  pure null

-- `fuel` turns of the loop and one more.
unfoldable pub bouncer_free_list : ℕ → Ptr → Cmd Ptr
unfolding bouncer_free
bouncer_free_list fuel = free_list bouncers bouncer_free fuel

unfoldable pub config_free : Ptr → Cmd Ptr
config_free p = if p == null then pure p else do
  c ← load_as config? p
  _ ← free c.pid_file
  d ← load_as config? p
  _ ← free d.welcome_msg
  _ ← free p
  pure null
