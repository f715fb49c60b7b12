-- ===== src/Libc/Tokens.antt =====
-- Proofs on `strtok`: a token in front of a delimiter, and one at the end of the text.
use ebbnc.Common.{
  ℕ, ◌≡◌, ◌≢◌, refl, arith, true, false, Option, none, some, inl, inr, Bool-cases, [], ◌∷◌, ◌++◌,
  ◌==◌, Bytes, All,
}
use ebbnc.Libc.{strtok, skip_delims, until_delim, some_token}

-- A text that `strtok` takes for one token: it has a character, and none is the delimiter.
abbrev pub IsToken : ℕ → Bytes → Type 0
IsToken d s = (s ≢ []) × All (λ c. c ≢ d) s

module _ (d : ℕ) where
  until_delim-append :
      (s rest : Bytes) → All (λ c. c ≢ d) s → until_delim d (s ++ (d ∷ rest)) ≡ (s, rest)
  unfolding until_delim
  until_delim-append [] rest h = let same : (d == d) ≡ true = ground arith in rw same refl
  until_delim-append (c ∷ s) rest h =
      let other : (c == d) ≡ false = ground arith in rw (other, until_delim-append s rest h.1) refl

  until_delim_end : (s : Bytes) → All (λ c. c ≢ d) s → until_delim d s ≡ (s, [])
  unfolding until_delim
  until_delim_end [] h = refl
  until_delim_end (c ∷ s) h =
      let other : (c == d) ≡ false = ground arith in rw (other, until_delim_end s h.1) refl

  pub strtok-append : (s rest : Bytes) → IsToken d s → strtok d (s ++ (d ∷ rest)) ≡ some (s, rest)
  unfolding strtok skip_delims
  strtok-append [] rest h = absurd (h.0 refl)
  strtok-append (c ∷ s) rest h =
      let other : (c == d) ≡ false = ground arith in
      rw (other, until_delim-append (c ∷ s) rest h.1) refl

  pub strtok_end : (s : Bytes) → IsToken d s → strtok d s ≡ some (s, [])
  unfolding strtok skip_delims
  strtok_end [] h = absurd (h.0 refl)
  strtok_end (c ∷ s) h =
      let other : (c == d) ≡ false = ground arith in rw (other, until_delim_end (c ∷ s) h.1) refl

  pub strtok-nil : strtok d [] ≡ none
  unfolding strtok skip_delims
  strtok-nil = refl

-- A token of a text and what is left of it, with a property of each of its characters.
abbrev pub Parts {ℓ} : ℕ → (ℕ → Type ℓ) → Option (Bytes × Bytes) → Type ℓ
Parts d P none = Unit
Parts d P (some (token, rest)) = IsToken d token × All P token × All P rest

module _ {ℓ} (d : ℕ) (P : ℕ → Type ℓ) where
  skip_delims-All : (s : Bytes) → All P s → All P (skip_delims d s)
  unfolding skip_delims
  skip_delims-All [] h = tt
  skip_delims-All (c ∷ s) h = elim (Bool-cases (c == d)) [
    | inl e ↦ rw e (skip_delims-All s h.1)
    | inr n ↦ rw n h
  ]

  until_delim-All : (s : Bytes) → All P s → All P (until_delim d s).0 × All P (until_delim d s).1
  unfolding until_delim
  until_delim-All [] h = (tt, tt)
  until_delim-All (c ∷ s) h = elim (Bool-cases (c == d)) [
    | inl e ↦ rw e (tt, h.1)
    | inr n ↦ let (left, right) = until_delim-All s h.1 in rw n ((h.0, left), right)
  ]

module _ (d : ℕ) where
  until_delim_free : (s : Bytes) → All (λ c. c ≢ d) (until_delim d s).0
  unfolding until_delim
  until_delim_free [] = tt
  until_delim_free (c ∷ s) = elim (Bool-cases (c == d)) [
    | inl e ↦ rw e tt
    | inr n ↦ rw n ((λ same. ground arith), until_delim_free s)
  ]

  -- The first character behind the delimiters is none.
  skip_delims_ne : (s : Bytes) (c : ℕ) (t : Bytes) → skip_delims d s ≡ c ∷ t → (c == d) ≡ false
  unfolding skip_delims
  skip_delims_ne [] c t e = absurd (ground arith)
  skip_delims_ne (x ∷ s) c t e = elim (Bool-cases (x == d)) [
    | inl same ↦ skip_delims_ne s c t (ground arith)
    | inr other ↦ ground arith
  ]

  until_delim_cons : (c : ℕ) (t : Bytes) → (c == d) ≡ false → (until_delim d (c ∷ t)).0 ≢ []
  unfolding until_delim
  until_delim_cons c t other e = ground arith

module _ {ℓ} (d : ℕ) (P : ℕ → Type ℓ) where
  some_token-Parts :
      (s t : Bytes) → skip_delims d s ≡ t → All P t → Parts d P (some_token t (until_delim d t))
  some_token-Parts s [] e h = tt
  some_token-Parts s (c ∷ t) e h =
      let (left, right) = until_delim-All d P (c ∷ t) h in
      ((until_delim_cons d c t (skip_delims_ne d s c t e), until_delim_free d (c ∷ t)), left, right)

  pub strtok-Parts : (s : Bytes) → All P s → Parts d P (strtok d s)
  unfolding strtok
  strtok-Parts s h = some_token-Parts s (skip_delims d s) refl (skip_delims-All d P s h)
