-- ===== src/Config/Lines.antt =====
-- Proofs on `Config_loadBuffer` of config.c on a text of lines.
use ebbnc.Common.{
  ℕ, zero, suc, ◌+◌, ◌<◌, ◌≤◌, ◌≡◌, refl, sym, ap, ◌∙◌, subst, arith, Bool, true, false, List, [],
  ◌∷◌, ◌++◌, ◌==◌, length, length-append, Bytes, All,
}
use ebbnc.Config.{Config, config_new, config_size, ok}
use ebbnc.Config.Load.{
  Resolver, config_sanity_check, classify, apply_setting, is_newline, split_line, skip_newlines,
  checked, load_lines, config_load_buffer,
}

-- The lines with a newline behind each.
abbrev pub text_of : List Bytes → Bytes
text_of [] = []
text_of (l ∷ ls) = l ++ (b'\n' ∷ text_of ls)

abbrev pub IsInner : ℕ → Type 0
IsInner c = is_newline c ≡ false

-- A line that sets an option: it is not empty, no comment, and has no newline.
abbrev pub IsLine : Bytes → Type 0
IsLine [] = ⊥
IsLine (c ∷ l) = ((c == b'#') ≡ false) × All IsInner (c ∷ l)

split_line-append : (l t : Bytes) → All IsInner l → split_line (l ++ (b'\n' ∷ t)) ≡ (l, b'\n' ∷ t)
unfolding split_line
split_line-append [] t h = refl
split_line-append (c ∷ l) t h = rw (h.0, split_line-append l t h.1) refl

skip_newlines-text_of : (ls : List Bytes) → All IsLine ls → skip_newlines (text_of ls) ≡ text_of ls
unfolding skip_newlines
skip_newlines-text_of [] h = refl
skip_newlines-text_of ([] ∷ ls) h = absurd h.0
skip_newlines-text_of ((c ∷ l) ∷ ls) h = rw h.0.1.0 refl

skip_newlines-cons :
    (ls : List Bytes) → All IsLine ls → skip_newlines (b'\n' ∷ text_of ls) ≡ text_of ls
unfolding skip_newlines
skip_newlines-cons ls h = skip_newlines-text_of ls h

pub length-text_of : (ls : List Bytes) → length ls ≤ length (text_of ls)
length-text_of [] = omega arith
length-text_of (l ∷ ls) = omega (arith, length-append l (b'\n' ∷ text_of ls), length-text_of ls)

module _ (alloc : ℕ → Bool) where
  -- The lines take one configuration to another, setting by setting.
  abbrev pub Run : Config → List Bytes → Config → Type 0
  Run c [] c' = c ≡ c'
  Run c (l ∷ ls) c' = (d : Config) × (apply_setting alloc c (classify l) ≡ ok d) × Run d ls c'

  pub Run-append :
      (c d c' : Config) (ls ms : List Bytes) → Run c ls d → Run d ms c' → Run c (ls ++ ms) c'
  Run-append c d c' [] ms e run = subst (λ x. Run x ms c') (sym e) run
  Run-append c d c' (l ∷ ls) ms (x, e, more) run = (x, e, Run-append x d c' ls ms more run)

module _ (alloc : ℕ → Bool) (has_room : (n : ℕ) → alloc n ≡ true) (r : Resolver) where
  load_lines-text_of :
      (fuel : ℕ) (c c' : Config) (ls : List Bytes)
      → length ls < fuel
      → All IsLine ls
      → Run alloc c ls c'
      → load_lines alloc r fuel c (text_of ls) ≡ checked c' (config_sanity_check r c')
  unfolding load_lines
  load_lines-text_of zero c c' ls hf hl run = absurd (omega arith)
  load_lines-text_of (suc fuel) c c' [] hf hl e = ap (λ d. checked d (config_sanity_check r d)) e
  load_lines-text_of (suc fuel) c c' ([] ∷ ls) hf hl run = absurd hl.0
  load_lines-text_of (suc fuel) c c' ((x ∷ l) ∷ ls) hf hl (d, e, run) =
      rw (split_line-append (x ∷ l) (text_of ls) hl.0.1, has_room (length (x ∷ l) + 1), hl.0.0, e)
        (ap (load_lines alloc r fuel d) (skip_newlines-cons ls hl.1)
          ∙ load_lines-text_of fuel d c' ls (omega arith) hl.1 run)

  pub config_load_buffer-text_of :
      (c' : Config) (ls : List Bytes)
      → All IsLine ls
      → Run alloc config_new ls c'
      → config_load_buffer alloc r (text_of ls) ≡ checked c' (config_sanity_check r c')
  unfolding config_load_buffer
  config_load_buffer-text_of c' ls hl run = rw (has_room config_size) (
      load_lines-text_of (suc (length (text_of ls))) config_new c' ls
        (omega (arith, length-text_of ls)) hl run)
