-- ===== src/Makeconf/Reach.antt =====
-- The states that the dialogue of makeconf.c reaches, whatever is typed.
use ebbnc.Libc.{same_case}
use ebbnc.Misc.{prompt_input}
use ebbnc.Common.{
  codes, ◌∷◌, ℕ, ◌≡◌, ◌≢◌, refl, arith, Bool, true, false, Option, none, some, Bytes,
}
use ebbnc.Config.{Bouncer}
use ebbnc.Config.Load.{Resolver}
use ebbnc.Makeconf.{
  Stage, bouncer_next, bouncer_listen, bouncer_another, idnt, ident_timeout, Editor, plain,
  bad_value, crash, on, turn, opening,
}

-- One turn after another, while the loop runs; each reads some input or its end.
pub data Reach (alloc : ℕ → Bool) (r : Resolver) : Editor → Type 0 where
  start : {ed : Editor} → ed ≡ opening alloc → Reach alloc r ed
  next :
      {ed ed' : Editor} (input : Option Bytes)
      → Reach alloc r ed
      → ed.done ≡ false
      → turn alloc r ed input ≡ on ed'
      → Reach alloc r ed'

module _ (alloc : ℕ → Bool) (r : Resolver) where
  -- The question "Send idnt" has not been put.
  record IsUnasked (ed : Editor) : Type 0 where
    stage_ne : ed.stage ≢ idnt
    next_ne : ed.stage ≢ bouncer_next
    default : ed.config.idnt ≡ true

  turn-IsUnasked :
      (s : Stage) (ed ed' : Editor) (input : Option Bytes)
      → ed.stage ≡ s
      → turn alloc r ed input ≡ on ed'
      → IsUnasked ed
      → IsUnasked ed'
  unfolding turn
  turn-IsUnasked bouncer_listen ed ed' input e t u = ground arith
  turn-IsUnasked s ed ed' input e t u = ground arith

  Reach-IsUnasked : {ed : Editor} → Reach alloc r ed → IsUnasked ed
  Reach-IsUnasked (start e) = ground arith
  Reach-IsUnasked (next {ed} {ed'} input past more t) =
      turn-IsUnasked ed.stage ed ed' input refl t (Reach-IsUnasked past)

  -- In every state that the dialogue reaches, the question "Send idnt" is not the one to put, and the
  -- flag `idnt` has its default, true.
  pub Reach-idnt : {ed : Editor} → Reach alloc r ed → (ed.stage ≢ idnt) × (ed.config.idnt ≡ true)
  Reach-idnt past = let u = Reach-IsUnasked past in (u.stage_ne, u.default)

  -- At "Another bouncer?" with a bouncer at hand, an answer that is neither yes nor no keeps the
  -- question, and the turn behind it writes through a null pointer, whatever is typed.
  pub turn-another-crash :
      (ed : Editor) (b : Bouncer) (input again : Option Bytes)
      → ed.stage ≡ bouncer_another
      → ed.bouncer ≡ some b
      → same_case (prompt_input input (some (codes "yes"))) (codes "yes") ≡ false
      → same_case (prompt_input input (some (codes "yes"))) (codes "no") ≡ false
      → (ed' : Editor) × (turn alloc r ed input ≡ on ed')
        × (ed'.stage ≡ bouncer_another)
        × (turn alloc r ed' again ≡ crash)
  unfolding turn
  turn-another-crash ed b input again e hb ny nn = (
    record ed {
      config = record ed.config { bouncers = b ∷ ed.config.bouncers };
      bouncer = none;
      error = bad_value;
    },
    ground arith,
    e,
    ground arith,
  )

  -- Its answer "no" leads to the question behind "Send idnt", with the bouncer in the list.
  pub turn-another_no :
      (ed : Editor) (b : Bouncer) (input : Option Bytes)
      → ed.stage ≡ bouncer_another
      → ed.bouncer ≡ some b
      → same_case (prompt_input input (some (codes "yes"))) (codes "yes") ≡ false
      → same_case (prompt_input input (some (codes "yes"))) (codes "no") ≡ true
      → (ed' : Editor) × (turn alloc r ed input ≡ on ed')
        × (ed'.stage ≡ ident_timeout)
        × (ed'.config ≡ record ed.config { bouncers = b ∷ ed.config.bouncers })
  unfolding turn
  turn-another_no ed b input e hb ny nn = (
    record ed {
      stage = ident_timeout;
      config = record ed.config { bouncers = b ∷ ed.config.bouncers };
      bouncer = none;
      error = plain;
    },
    ground arith,
    refl,
    refl,
  )
