-- ===== src/Libc/Numbers.antt =====
-- Proofs on the decimal digits that %i prints and that `strtol` and %li read.
use ebbnc.Common.{
  ℕ, zero, suc, ◌+◌, ◌*◌, ◌/◌, ◌%◌, ◌^◌, ◌<◌, ◌≤◌, ◌≡◌, refl, sym, ap, subst, ◌∙◌, arith, true,
  false, some, [], ◌∷◌, ◌++◌, ltb, leb, ◌==◌, long_of, Bytes, All, All-append, pos, inl, inr,
  Bool-cases, ltb→lt, ltb→le, lt→ltb, le→ltb, append-nil, Option, none, ℤ,
}
use ebbnc.Libc.{
  isspace, strtol, starts_digit, skip_spaces, read_sign, digit_value, read_number, scan_number,
  scan_long, tolower, signed_long, sscanf_li, print_digits, print_int,
}

abbrev pub IsDigit : ℕ → Type 0
IsDigit c = (b'0' ≤ c) × (c ≤ b'9')

digit_value-digit : (k : ℕ) → k < 10 → digit_value (b'0' + k) ≡ k
unfolding digit_value
digit_value-digit k h = ground arith

digit_value-lt : (c : ℕ) → IsDigit c → digit_value c < 10
unfolding digit_value
digit_value-lt c h = ground arith

print_digits-IsDigit : (fuel n : ℕ) → All IsDigit (print_digits fuel n)
unfolding print_digits
print_digits-IsDigit zero n = tt
print_digits-IsDigit (suc fuel) n = elim (Bool-cases (ltb n 10)) [
  | inl small ↦ rw small (ground arith)
  | inr large ↦ rw large (
      All-append IsDigit (print_digits fuel (n / 10)) _ (print_digits-IsDigit fuel (n / 10))
        (ground arith))
]

read_number-append :
    (acc : ℕ) (xs ys : Bytes)
    → All IsDigit xs
    → read_number 10 acc (xs ++ ys) ≡ read_number 10 (read_number 10 acc xs).0 ys
unfolding read_number
read_number-append acc [] ys h = refl
read_number-append acc (c ∷ xs) ys h =
    let small : ltb (digit_value c) 10 ≡ true = lt→ltb _ _ (digit_value-lt c h.0) in
    rw small (read_number-append (acc * 10 + digit_value c) xs ys h.1)

read_number-last : (acc k : ℕ) → k < 10 → read_number 10 acc ((b'0' + k) ∷ []) ≡ (acc * 10 + k, [])
unfolding read_number
read_number-last acc k h =
    let value = digit_value-digit k h in
    let small : ltb k 10 ≡ true = lt→ltb k 10 h in rw (value, small) refl

-- The digits of a number are read as the number.
pub read_number-print_digits :
    (fuel n : ℕ) → n < fuel → read_number 10 0 (print_digits fuel n) ≡ (n, [])
unfolding print_digits
read_number-print_digits zero n h = absurd (omega arith)
read_number-print_digits (suc fuel) n h = elim (Bool-cases (ltb n 10)) [
  | inl small ↦
      rw small (read_number-last 0 n (ltb→lt n 10 small) ∙ ap (λ t. (t, [])) (omega arith))
  | inr large ↦
      let ten : 10 ≤ n = ltb→le n 10 large in
      rw large (
        read_number-append 0 (print_digits fuel (n / 10)) _ (print_digits-IsDigit fuel (n / 10))
        ∙ ap (λ t. read_number 10 t.0 ((b'0' + n % 10) ∷ []))
            (read_number-print_digits fuel (n / 10) (omega arith))
        ∙ read_number-last (n / 10) (n % 10) (omega arith)
        ∙ ap (λ t. (t, [])) (omega arith))
]

-- A number above zero starts with a digit above 0.
print_digits-leads :
    (fuel n : ℕ)
    → 0 < n
    → n < fuel
    → (c : ℕ) × (ds : Bytes) × (print_digits fuel n ≡ c ∷ ds) × (b'0' < c) × (c ≤ b'9')
unfolding print_digits
print_digits-leads zero n h0 h = absurd (omega arith)
print_digits-leads (suc fuel) n h0 h = elim (Bool-cases (ltb n 10)) [
  | inl small ↦ (
    b'0' + n,
    [],
    rw small refl,
    omega arith,
    let below : n < 10 = ltb→lt n 10 small in omega arith,
  )
  | inr large ↦
      let ten : 10 ≤ n = ltb→le n 10 large in
      let (c, ds, e, lo, hi) = print_digits-leads fuel (n / 10) (omega arith) (omega arith) in
      (c, ds ++ ((b'0' + n % 10) ∷ []), rw (large, e) refl, lo, hi)
]

-- What follows a number: nothing, or a character that is a digit in no base.
abbrev pub IsBreak : Bytes → Type 0
IsBreak [] = Unit
IsBreak (c ∷ s) = digit_value c ≡ 36

read_number-IsBreak :
    (base acc : ℕ) (rest : Bytes)
    → base ≤ 36
    → IsBreak rest
    → read_number base acc rest ≡ (acc, rest)
unfolding read_number
read_number-IsBreak base acc [] h b = refl
read_number-IsBreak base acc (c ∷ rest) h b =
    let large : ltb (digit_value c) base ≡ false = le→ltb _ _ (omega arith) in rw large refl

read_number-append_rest :
    (n : ℕ) (rest : Bytes)
    → IsBreak rest
    → read_number 10 0 (print_digits (suc n) n ++ rest) ≡ (n, rest)
read_number-append_rest n rest b =
    read_number-append 0 (print_digits (suc n) n) rest (print_digits-IsDigit (suc n) n)
    ∙ ap (λ t. read_number 10 t.0 rest) (read_number-print_digits (suc n) n (omega arith))
    ∙ read_number-IsBreak 10 n rest (omega arith) b

scan_number-eq-read_number :
    (c : ℕ) (s : Bytes)
    → b'0' < c
    → c ≤ b'9'
    → scan_number (c ∷ s) ≡ some (read_number 10 0 (c ∷ s))
unfolding scan_number read_number
scan_number-eq-read_number c [] lo hi =
    let small : ltb (digit_value c) 10 ≡ true = lt→ltb _ _ (digit_value-lt c (omega arith, hi)) in
    rw small (ap (λ t. some (t, [])) (omega arith))
scan_number-eq-read_number c (x ∷ s) lo hi =
    let small : ltb (digit_value c) 10 ≡ true = lt→ltb _ _ (digit_value-lt c (omega arith, hi)) in
    let other : (c == b'0') ≡ false = ground arith in rw (other, small) refl

scan_number_zero : (rest : Bytes) → IsBreak rest → scan_number (b'0' ∷ rest) ≡ some (0, rest)
unfolding scan_number digit_value
scan_number_zero [] b = refl
scan_number_zero (x ∷ s) b =
    let plain : (tolower x == b'x') ≡ false = ground arith in
    rw plain (ap some (unfold digit_value in read_number-IsBreak 8 0 (x ∷ s) (omega arith) b))

scan_number-print_digits :
    (n : ℕ) (rest : Bytes)
    → IsBreak rest
    → scan_number (print_digits (suc n) n ++ rest) ≡ some (n, rest)
scan_number-print_digits zero rest b = unfold print_digits in scan_number_zero rest b
scan_number-print_digits (suc n) rest b =
    let (c, ds, e, lo, hi) = print_digits-leads (suc (suc n)) (suc n) (omega arith) (omega arith) in
    ap (λ t. scan_number (t ++ rest)) e
    ∙ scan_number-eq-read_number c (ds ++ rest) lo hi
    ∙ ap (λ t. some (read_number 10 0 (t ++ rest))) (sym e)
    ∙ ap some (read_number-append_rest (suc n) rest b)

-- No white space and no sign stands in front of a digit.
scan_long-digit :
    (c : ℕ) (s : Bytes) → IsDigit c → scan_long (c ∷ s) ≡ signed_long false (scan_number (c ∷ s))
unfolding scan_long skip_spaces read_sign
scan_long-digit c s h =
    let solid : isspace c ≡ false = ground arith in
    let minus : (c == b'-') ≡ false = ground arith in
    let plus : (c == b'+') ≡ false = ground arith in rw (solid, minus, plus) refl

print_digits-cons : (n : ℕ) → (c : ℕ) × (ds : Bytes) × (print_digits (suc n) n ≡ c ∷ ds) × IsDigit c
print_digits-cons zero = (b'0', [], unfold print_digits in refl, (omega arith, omega arith))
print_digits-cons (suc n) =
    let (c, ds, e, lo, hi) = print_digits-leads (suc (suc n)) (suc n) (omega arith) (omega arith) in
    (c, ds, e, (omega arith, hi))

-- What %i prints of an int that is not negative is read as the number, up to what follows it.
pub scan_long-print_int :
    (n : ℕ) (rest : Bytes)
    → n < 2 ^ 63
    → IsBreak rest
    → scan_long (print_int (pos n) ++ rest) ≡ some (pos n, rest)
unfolding print_int
scan_long-print_int n rest h b =
    let (c, ds, e, digit) = print_digits-cons n in
    let small : leb (2 ^ 63) n ≡ false = ground arith in
    ap (λ t. scan_long (t ++ rest)) e
    ∙ scan_long-digit c (ds ++ rest) digit
    ∙ ap (λ t. signed_long false (scan_number (t ++ rest))) (sym e)
    ∙ ap (signed_long false) (scan_number-print_digits n rest b)
    ∙ rw small refl

pub sscanf_li-print_int : (n : ℕ) → n < 2 ^ 63 → sscanf_li (print_int (pos n)) ≡ some (pos n)
unfolding sscanf_li
sscanf_li-print_int n h =
    ap (λ (o : Option (ℤ × Bytes)). elim o [ none ↦ none | some (value, p) ↦ some value ])
      (ap scan_long (sym (append-nil (print_int (pos n)))) ∙ scan_long-print_int n [] h tt)

-- The digits of a number stand for one token of `strtok`, at any delimiter that is no digit.
pub print_int-cons :
    (n : ℕ) → (c : ℕ) × (ds : Bytes) × (print_int (pos n) ≡ c ∷ ds) × All IsDigit (c ∷ ds)
unfolding print_int
print_int-cons n =
    let (c, ds, e, digit) = print_digits-cons n in
    (c, ds, e, subst (All IsDigit) e (print_digits-IsDigit (suc n) n))

strtol-digit :
    (c : ℕ) (ds : Bytes)
    → IsDigit c
    → strtol (c ∷ ds) ≡ (long_of false (read_number 10 0 (c ∷ ds)).0, (read_number 10 0 (c ∷ ds)).1)
unfolding strtol skip_spaces read_sign starts_digit
strtol-digit c ds h =
    let solid : isspace c ≡ false = ground arith in
    let minus : (c == b'-') ≡ false = ground arith in
    let plus : (c == b'+') ≡ false = ground arith in
    let small : ltb (digit_value c) 10 ≡ true = lt→ltb _ _ (digit_value-lt c h) in
    rw (solid, minus, plus, small) refl

-- What %i prints of an int that is not negative, `strtol` reads to its end.
pub strtol-print_int : (n : ℕ) → n < 2 ^ 63 → strtol (print_int (pos n)) ≡ (pos n, [])
unfolding print_int
strtol-print_int n h =
    let (c, ds, e, digit) = print_digits-cons n in
    let small : leb (2 ^ 63) n ≡ false = ground arith in
    ap strtol e
    ∙ strtol-digit c ds digit
    ∙ ap (λ t. (long_of false (read_number 10 0 t).0, (read_number 10 0 t).1)) (sym e)
    ∙ ap (λ (t : ℕ × Bytes). (long_of false t.0, t.1))
        (read_number-print_digits (suc n) n (omega arith))
    ∙ rw small refl
