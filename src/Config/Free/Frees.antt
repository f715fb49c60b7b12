-- ===== src/Config/Free/Frees.antt =====
-- Proofs on what config.c frees.
use ebbnc.Common.{ℕ, ◌≤◌, ◌≡◌, refl, ap, ◌∙◌, arith, true, false, some, List, [], ◌∷◌, ◌==◌, length}
use ebbnc.System
use ebbnc.System.{Io, ret}
use ebbnc.Memory.{Ptr, null, Heap, ok, config_at, BouncerBlock, ConfigBlock}
use ebbnc.Memory.Release.{has, Blocks, less, given}
use ebbnc.Memory.Chain.{Cells, Chain, Owning, owned, calls_of, calls_behind}
use ebbnc.Memory.Record.{has-given, free_record_lem}
use ebbnc.Memory.Frees.{FreesOne, free_list_lem}
use ebbnc.Config.Free.{bouncer?, config?, bouncers, bouncer_free, bouncer_free_list, config_free}

-- A bouncer goes with its first two strings.
abbrev pub bouncer_parts : Ptr → BouncerBlock → List Ptr
bouncer_parts p b = given b.listen_ip (given b.remote_host (p ∷ []))

pub has-bouncer_parts : (p : Ptr) (b : BouncerBlock) → has p (bouncer_parts p b) ≡ true
has-bouncer_parts p b = ground (arith, has-given p b.remote_host)

abbrev pub bouncer_owning : Owning BouncerBlock bouncers
bouncer_owning = record {
  owns = bouncer_parts;
  calls = λ b. ret tt;
  owns-self = has-bouncer_parts;
  owns-relink = λ p q b. refl;
  calls-relink = λ q b. refl;
}

bouncer_free-FreesOne : FreesOne bouncer_owning bouncer_free
unfolding bouncer_free
bouncer_free-FreesOne h p b (real, at) is =
    free_record_lem bouncer? (λ b. b.listen_ip) (λ b. b.remote_host) h p _ b real at refl is

no_calls_behind : (cells : Cells BouncerBlock) → calls_behind bouncer_owning cells ≡ ret tt
no_calls_behind [] = refl
no_calls_behind (c ∷ cells) = no_calls_behind cells

no_calls : (cells : Cells BouncerBlock) → calls_of bouncer_owning cells ≡ ret tt
no_calls [] = refl
no_calls (c ∷ cells) = rw (no_calls_behind cells) refl

-- On a list of bouncers in memory, where the bouncers and those of their strings `listenIP` and
-- `remoteHost` that are not null are blocks that differ from each other, with at least as many turns
-- as there are bouncers, `Bouncer_freeList` ends without an access to freed memory, leaves a null
-- pointer, and has freed these blocks and nothing else: a `localIP` in a block of its own is left as
-- it was.
pub bouncer_free_list_lem :
    (fuel : ℕ) (h : Heap) (p : Ptr) (cells : Cells BouncerBlock)
    → Chain bouncers h p cells
    → Blocks h (owned bouncer_owning cells)
    → length cells ≤ fuel
    → bouncer_free_list fuel p h ≡ ret (ok null (less (owned bouncer_owning cells) h))
unfolding bouncer_free_list
bouncer_free_list_lem fuel h p cells chain is enough =
    free_list_lem bouncer_owning bouncer_free bouncer_free-FreesOne fuel h p cells chain is enough
    ∙ ap (λ m. System.◌>>=◌ m (λ u. ret (ok null (less (owned bouncer_owning cells) h))))
        (no_calls cells)

-- A configuration goes with its two strings.
abbrev pub config_parts : Ptr → ConfigBlock → List Ptr
config_parts p c = given c.pid_file (given c.welcome_msg (p ∷ []))

pub config_free_lem :
    (h : Heap) (p : Ptr) (c : ConfigBlock)
    → (p == null) ≡ false
    → h p ≡ some (config_at c)
    → Blocks h (config_parts p c)
    → config_free p h ≡ ret (ok null (less (config_parts p c) h))
unfolding config_free
config_free_lem h p c real at is =
    free_record_lem config? (λ c. c.pid_file) (λ c. c.welcome_msg) h p _ c real at refl is
