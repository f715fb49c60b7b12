-- ===== src/Makeconf/Password.antt =====
-- Proofs on the key that the dialogue of makeconf.c makes of a password.
use ebbnc.Common.{
  ℕ, ◌≡◌, refl, sym, subst, arith, Bool, Option, none, some, [], ◌∷◌, ◌++◌, Bytes, length, take,
  replicate, length-append, length-take, length-replicate,
}
use ebbnc.Config.Load.{Resolver}
use ebbnc.Makeconf.{Stage, bouncer_listen, password, Editor, on, turn, key_of}
use ebbnc.Makeconf.Reach.{Reach, start, next}

module _ (alloc : ℕ → Bool) (r : Resolver) where
  length-key_of : (value : Bytes) → length (key_of alloc r value) ≡ 17
  unfolding key_of
  length-key_of value =
      let long = value ++ replicate 16 0 in
      omega (
        arith,
        length-append (take 16 long) (0 ∷ []),
        length-take 16 long,
        length-append value (replicate 16 0),
        length-replicate {A = ℕ} 16 0,
      )

  turn-key :
      (s : Stage) (ed ed' : Editor) (input : Option Bytes)
      → ed.stage ≡ s
      → turn alloc r ed input ≡ on ed'
      → length ed.key ≡ 17
      → length ed'.key ≡ 17
  unfolding turn
  turn-key bouncer_listen ed ed' input e t v = ground arith
  turn-key password ed ed' none e t v = ground arith
  turn-key password ed ed' (some value) e t v = ground (arith, length-key_of value)
  turn-key s ed ed' input e t v = ground arith

  -- In every state that the dialogue reaches, the array `key` has 17 bytes, whatever was typed.
  pub Reach-key : {ed : Editor} → Reach alloc r ed → length ed.key ≡ 17
  Reach-key (start e) = subst (λ (x : Editor). length x.key ≡ 17) (sym e) refl
  Reach-key (next {ed} {ed'} input past more t) =
      turn-key ed.stage ed ed' input refl t (Reach-key past)
