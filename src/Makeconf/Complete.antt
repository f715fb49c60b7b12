-- ===== src/Makeconf/Complete.antt =====
-- Proofs on the bouncers that the dialogue of makeconf.c collects.
use ebbnc.Common.{
  sym, subst, ℕ, ◌≡◌, ◌≢◌, refl, arith, Bool, true, false, ◌&&◌, Option, none, some, List, [],
  Bytes, All, int_of_long,
}
use ebbnc.Config.{Bouncer}
use ebbnc.Config.Load.{Resolver}
use ebbnc.Misc.{is_valid_port}
use ebbnc.Makeconf.{
  Stage, bouncer_next, bouncer_listen, bouncer_remote, bouncer_local, bouncer_another, finished,
  Editor, on, turn,
}
use ebbnc.Makeconf.Reach.{Reach, start, next}

module _ (alloc : ℕ → Bool) (r : Resolver) where
  -- The listening address of a bouncer is one, and its port is in range; likewise the remote host.
  abbrev pub listens : Bouncer → Bool
  listens b = elim b.listen_ip [
    | none ↦ false
    | some ip ↦ r.valid_ip ip && is_valid_port (int_of_long b.listen_port)
  ]

  abbrev pub connects : Bouncer → Bool
  connects b = elim b.remote_host [
    | none ↦ false
    | some host ↦ r.valid_host (some host) && is_valid_port (int_of_long b.remote_port)
  ]

  abbrev pub IsComplete : Bouncer → Type 0
  IsComplete b = (listens b ≡ true) × (connects b ≡ true)

  -- What a stage knows of the bouncer at hand.
  abbrev Progress : Stage → Option Bouncer → Type 0
  Progress bouncer_remote (some b) = listens b ≡ true
  Progress bouncer_local (some b) = IsComplete b
  Progress bouncer_another (some b) = IsComplete b
  Progress _ _ = Unit

  abbrev Listed : Stage → List Bouncer → Type 0
  Listed bouncer_next bouncers = Unit
  Listed bouncer_listen bouncers = Unit
  Listed bouncer_remote bouncers = Unit
  Listed bouncer_local bouncers = Unit
  Listed bouncer_another bouncers = Unit
  Listed _ bouncers = bouncers ≢ []

  record Inv (ed : Editor) : Type 0 where
    progress : Progress ed.stage ed.bouncer
    listed : Listed ed.stage ed.config.bouncers
    complete : All IsComplete ed.config.bouncers

  turn-Inv :
      (s : Stage) (ed ed' : Editor) (input : Option Bytes)
      → ed.stage ≡ s
      → turn alloc r ed input ≡ on ed'
      → Inv ed
      → Inv ed'
  unfolding turn
  turn-Inv bouncer_listen ed ed' input e t v = ground arith
  turn-Inv s ed ed' input e t v = ground arith

  Reach-Inv : {ed : Editor} → Reach alloc r ed → Inv ed
  Reach-Inv (start e) = subst Inv (sym e) (ground arith)
  Reach-Inv (next {ed} {ed'} input past more t) =
      turn-Inv ed.stage ed ed' input refl t (Reach-Inv past)

  -- In every state behind the last question that the dialogue reaches, there is a bouncer, and each
  -- bouncer has a listening address and a remote host that the resolver accepts, with ports that
  -- lie in range as ints.
  pub Reach-IsComplete :
      {ed : Editor}
      → Reach alloc r ed
      → ed.stage ≡ finished
      → (ed.config.bouncers ≢ []) × All IsComplete ed.config.bouncers
  Reach-IsComplete {ed} past e =
      let v = Reach-Inv past in (subst (λ s. Listed s ed.config.bouncers) e v.listed, v.complete)
