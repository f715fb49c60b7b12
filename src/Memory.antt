-- ===== src/Memory.antt =====
-- The memory of the program, for what frees it in config.c and server.c: blocks at addresses, and
-- the lists whose records point to the next one. Config/Free and Server/Free have the functions.
pub mod Release
pub mod Chain
pub mod Ends
pub mod Record
pub mod Links
pub mod Frees
use ebbnc.Common.{ℕ, zero, suc, ◌≡◌, Bool, Option, none, some, ◌==◌, if◌then◌else◌, Bytes, ℤ}
use ebbnc.System
use ebbnc.System.{Io, ret, Sockaddr}

abbrev pub Ptr : Type 0
Ptr = ℕ

abbrev pub null : Ptr
null = 0

-- The records of config.h and server.h as they lie in memory.
pub record BouncerBlock : Type 0 where
  pub listen_ip : Ptr
  pub listen_port : ℤ
  pub remote_host : Ptr
  pub remote_port : ℤ
  pub local_ip : Ptr
  pub next : Ptr

pub record ConfigBlock : Type 0 where
  pub bouncers : Ptr
  pub idnt : Bool
  pub ident_timeout : ℤ
  pub idle_timeout : ℤ
  pub write_timeout : ℤ
  pub dns_lookup : Bool
  pub pid_file : Ptr
  pub welcome_msg : Ptr

pub record ServerBlock : Type 0 where
  pub sock : ℤ
  pub addr : Sockaddr
  pub config : Ptr
  pub bouncer : Ptr
  pub next : Ptr

-- What an allocation holds: a string, or one of the records.
pub data Block : Type 0 where
  text : Bytes → Block
  bouncer_at : BouncerBlock → Block
  config_at : ConfigBlock → Block
  server_at : ServerBlock → Block

abbrev pub Heap : Type 0
Heap = Ptr → Option Block

abbrev pub write : Heap → Ptr → Option Block → Heap
write h p o a = if a == p then o else h a

-- How a command ends: with a result and the memory it leaves, with an access to what is no block of
-- the kind it takes, or with its fuel used up.
pub data Run (A : Type 0) : Type 0 where
  ok : A → Heap → Run A
  fault : Run A
  out_of_fuel : Run A

-- A command may call the system.
abbrev pub Cmd : Type 0 → Type 0
Cmd A = Heap → Io (Run A)

abbrev pub pure : {A : Type 0} → A → Cmd A
pure a h = ret (ok a h)

module _ {A B : Type 0} where
  abbrev pub and_then : (A → Cmd B) → Run A → Io (Run B)
  and_then f (ok a h) = f a h
  and_then f fault = ret fault
  and_then f out_of_fuel = ret out_of_fuel

  infixl 5 ◌>>=◌
  abbrev pub ◌>>=◌ : Cmd A → (A → Cmd B) → Cmd B
  m >>= f = λ h. System.◌>>=◌ (m h) (and_then f)

-- A call of the system in a command.
abbrev pub lift : Io (Unit {0}) → Cmd (Unit {0})
lift m = λ h. System.◌>>=◌ m (λ u. ret (ok tt h))

unfoldable pub load : Ptr → Cmd Block
load p h = if p == null then ret fault else elim (h p) [ none ↦ ret fault | some b ↦ ret (ok b h) ]

-- A read through a pointer to a record of one kind.
unfoldable pub load_as : {N : Type 0} → (Block → Option N) → Ptr → Cmd N
unfolding load
load_as node? p = load p >>= λ b. elim (node? b) [ none ↦ (λ h. ret fault) | some n ↦ pure n ]

abbrev pub store : Ptr → Block → Cmd (Unit {0})
store p b h = ret (ok tt (write h p (some b)))

-- `free` of the C library: nothing for a null pointer, and a fault for what is no block.
unfoldable pub free : Ptr → Cmd (Unit {0})
free p h =
    if p == null
    then ret (ok tt h)
    else elim (h p) [ none ↦ ret fault | some b ↦ ret (ok tt (write h p none)) ]

-- A record that a list is made of: how it lies in a block, and its pointer to the next one.
pub record Linked (N : Type 0) : Type 0 where
  pub block : N → Block
  pub node? : Block → Option N
  pub next : N → Ptr
  pub relink : Ptr → N → N
  pub node?-block : (n : N) → node? (block n) ≡ some n
  pub next-relink : (p : Ptr) (n : N) → next (relink p n) ≡ p
  pub relink-next : (n : N) → relink (next n) n ≡ n
  pub relink-relink : (p q : Ptr) (n : N) → relink p (relink q n) ≡ relink p n

module _ {N : Type 0} (l : Linked N) where
  unfoldable pub load_node : Ptr → Cmd N
  unfolding load_as
  load_node p = load_as l.node? p

  -- `p->next = q`.
  unfoldable pub set_next : Ptr → Ptr → Cmd (Unit {0})
  unfolding load_node
  set_next p q = load_node p >>= λ n. store p (l.block (l.relink q n))

  -- `Bouncer_freeList` and `Server_freeList`, which differ in the function that frees one record:
  -- it takes a pointer and returns what it leaves in it. First the loop, then the function.
  module _ (free_one : Ptr → Cmd Ptr) where
    unfoldable pub free_behind : ℕ → Ptr → Cmd (Unit {0})
    unfolding load_node set_next
    free_behind zero p = λ h. ret out_of_fuel
    free_behind (suc k) p = do
      n ← load_node p
      if l.next n == null then pure tt else do
        behind ← load_node (l.next n)
        freed ← free_one (l.next n)
        _ ← set_next p freed
        _ ← set_next p (l.next behind)
        free_behind k p

    unfoldable pub free_list : ℕ → Ptr → Cmd Ptr
    unfolding free_behind
    free_list k p = if p == null then pure p else do _ ← free_behind k p; _ ← free_one p; pure null
