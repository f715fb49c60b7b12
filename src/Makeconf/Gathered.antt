-- ===== src/Makeconf/Gathered.antt =====
-- Proofs on what makeconf.c's dialogue has collected in any state that typed answers lead to.
use ebbnc.Common.{ℕ, ◌≡◌, refl, sym, subst, arith, Bool, true, Option, Bytes}
use ebbnc.Libc.Tokens.{IsToken}
use ebbnc.Config.{bouncer_size}
use ebbnc.Config.Load.{Resolver}
use ebbnc.Makeconf.{
  Error, plain, no_default, bad_value, no_memory, short_password, Editor, Turn, crash, on, ask,
  settle, settle_turn, turn, opening,
}
use ebbnc.Makeconf.Reach.{Reach-idnt}
use ebbnc.Makeconf.Typed.{IsTyped, Typed, start, next, Typed-Reach, Fits}
use ebbnc.Makeconf.Collects.{ask-Leaves}
use ebbnc.Makeconf.Leaves.{Behind, Leaves}

module _ (alloc : ℕ → Bool) (has_room : (n : ℕ) → alloc n ≡ true) (r : Resolver)
    (ip_token : (s : Bytes) → r.valid_ip s ≡ true → IsToken b' ' s) where
  abbrev EditorFits : Editor → Type 0
  EditorFits ed = Fits r ed.stage ed.config ed.bouncer

  abbrev Settled : Turn → Type 0
  Settled crash = Unit
  Settled (on ed) = EditorFits ed

  settle-Fits :
      (e : Error) (ed : Editor)
      → Fits r (Behind e ed.stage) ed.config ed.bouncer
      → EditorFits (settle alloc r e ed)
  unfolding settle
  settle-Fits plain ed v = v
  settle-Fits no_default ed v = v
  settle-Fits bad_value ed v = v
  settle-Fits no_memory ed v = v
  settle-Fits short_password ed v = v

  settle_turn-Settled : (t : Turn) → Leaves r t → Settled (settle_turn alloc r t)
  unfolding settle_turn
  settle_turn-Settled crash h = tt
  settle_turn-Settled (on ed) h = settle-Fits ed.error ed h

  turn-Settled :
      (ed : Editor) (input : Option Bytes)
      → ed.config.idnt ≡ true
      → EditorFits ed
      → IsTyped ed.stage input
      → Settled (turn alloc r ed input)
  unfolding turn
  turn-Settled ed input flag v typed =
      settle_turn-Settled (ask alloc r ed.stage (record ed { error = plain }) input) (
        ask-Leaves alloc has_room r ip_token ed.stage (record ed { error = plain }) input refl refl
          flag v typed)

  opening-Fits : EditorFits (opening alloc)
  opening-Fits = rw (has_room bouncer_size) (record {
    ident = record { seconds = 10; is = refl; seconds_lt = omega arith };
    idle = record { seconds = 0; is = refl; seconds_lt = omega arith };
    write = record { seconds = 30; is = refl; seconds_lt = omega arith };
    pid = tt;
    msg = tt;
    hand = tt;
    list = tt;
  })

  pub Typed-Fits : {ed : Editor} → Typed alloc r ed → Fits r ed.stage ed.config ed.bouncer
  Typed-Fits (start e) = subst EditorFits (sym e) opening-Fits
  Typed-Fits (next {ed} {ed'} input past typed more t) =
      subst Settled t
        (turn-Settled ed input (Reach-idnt alloc r (Typed-Reach past)).1 (Typed-Fits past) typed)
