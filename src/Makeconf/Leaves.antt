-- ===== src/Makeconf/Leaves.antt =====
-- Proofs on the answers to makeconf.c's questions on flags, timeouts and texts, typed in printed
-- characters.
use ebbnc.Common.{
  ℕ, ◌+◌, ◌≡◌, refl, Bool, true, false, Option, none, some, [], ◌∷◌, length, if◌then◌else◌, Bytes,
  ℤ, is_negative, codes, Bool-cases, inl, inr,
}
use ebbnc.Libc.{same, same_case}
use ebbnc.Misc.{str_to_int}
use ebbnc.Config.{Bouncer, Config}
use ebbnc.Config.Load.{Resolver}
use ebbnc.Makeconf.{
  Stage, next_stage, Error, plain, bad_value, Editor, Turn, crash, on, dup, dup_error, ask_flag,
  set_timeout, ask_timeout, ask_text,
}
use ebbnc.Makeconf.Typed.{TextFits, TimeoutFits, Fits, IntFits, str_to_int-Fits}

-- The stage behind the switch on `error`.
abbrev pub Behind : Error → Stage → Stage
Behind plain s = next_stage s
Behind _ s = s

module _ (r : Resolver) where
  -- What a turn leaves, as the next turn finds it.
  abbrev pub Leaves : Turn → Type 0
  Leaves crash = Unit
  Leaves (on ed) = Fits r (Behind ed.error ed.stage) ed.config ed.bouncer

  pub if-Leaves :
      (b : Bool) (x y : Turn)
      → (b ≡ true → Leaves x)
      → (b ≡ false → Leaves y)
      → Leaves (if b then x else y)
  if-Leaves true x y h k = h refl
  if-Leaves false x y h k = k refl

  module _ (s : Stage) (ed : Editor) (at : ed.stage ≡ s) (fresh : ed.error ≡ plain) where
    pub plain-Leaves :
        (c : Config) (b : Option Bouncer)
        → Fits r (next_stage s) c b
        → Leaves (on (record ed { config = c; bouncer = b }))
    plain-Leaves c b v = rw (at, fresh) v

    pub bad-Leaves :
        (c : Config) (b : Option Bouncer)
        → Fits r s c b
        → Leaves (on (record ed { config = c; bouncer = b; error = bad_value }))
    bad-Leaves c b v = rw at v

    module _ (alloc : ℕ → Bool) where
      pub ask_flag-Leaves :
          (set : Bool → Config) (value : Bytes)
          → Fits r s ed.config ed.bouncer
          → ((f : Bool) → Fits r (next_stage s) (set f) ed.bouncer)
          → Leaves (ask_flag alloc r ed set value)
      unfolding ask_flag
      ask_flag-Leaves set value v h =
          if-Leaves (same_case value (codes "true")) _ _
            (λ e. plain-Leaves (set true) ed.bouncer (h true))
            (λ e.
              if-Leaves (same_case value (codes "false")) _ _
                (λ f. plain-Leaves (set false) ed.bouncer (h false))
                (λ f. bad-Leaves ed.config ed.bouncer v))

      set_timeout-Leaves :
          (set : ℤ → Config) (o : Option ℤ)
          → Fits r s ed.config ed.bouncer
          → ((t : ℤ) → Fits r s (set t) ed.bouncer)
          → ((t : ℤ) → TimeoutFits t → Fits r (next_stage s) (set t) ed.bouncer)
          → IntFits o
          → Leaves (set_timeout alloc r ed set o)
      unfolding set_timeout
      set_timeout-Leaves set none v any good h = bad-Leaves ed.config ed.bouncer v
      set_timeout-Leaves set (some t) v any good h = elim (Bool-cases (is_negative t)) [
        | inl e ↦ rw e (bad-Leaves (set t) ed.bouncer (any t))
        | inr e ↦ rw e (plain-Leaves (set t) ed.bouncer (good t (h e)))
      ]

      pub ask_timeout-Leaves :
          (set : ℤ → Config) (value : Bytes)
          → Fits r s ed.config ed.bouncer
          → ((t : ℤ) → Fits r s (set t) ed.bouncer)
          → ((t : ℤ) → TimeoutFits t → Fits r (next_stage s) (set t) ed.bouncer)
          → Leaves (ask_timeout alloc r ed set value)
      unfolding ask_timeout
      ask_timeout-Leaves set [] v any good = rw at v
      ask_timeout-Leaves set (c ∷ value) v any good =
          set_timeout-Leaves set (str_to_int (c ∷ value)) v any good (str_to_int-Fits (c ∷ value))

module _ (alloc : ℕ → Bool) (has_room : (n : ℕ) → alloc n ≡ true) (r : Resolver) where
  pub dup-some : (s : Bytes) → dup alloc r s ≡ some s
  unfolding dup
  dup-some s = rw (has_room (length s + 1)) refl

  pub dup_error-plain : (s : Bytes) → dup_error alloc r s ≡ plain
  unfolding dup_error
  dup_error-plain s = rw (has_room (length s + 1)) refl

  pub ask_text-Leaves :
      (s : Stage) (ed : Editor) (set : Option Bytes → Config) (value : Bytes)
      → ed.stage ≡ s
      → ed.error ≡ plain
      → Fits r (next_stage s) ed.config ed.bouncer
      → TextFits (some value)
      → ((o : Option Bytes) → TextFits o → Fits r (next_stage s) (set o) ed.bouncer)
      → Leaves r (ask_text alloc r ed set value)
  unfolding ask_text
  ask_text-Leaves s ed set value at fresh v h good =
      if-Leaves r (same value (codes "none")) _ _
        (λ e. plain-Leaves r s ed at fresh ed.config ed.bouncer v)
        (λ e. rw (at, dup-some value, dup_error-plain value) (good (some value) h))
