-- ===== src/Libc/Stream.antt =====
-- Proofs on the directives of `fscanf`.
use ebbnc.Common.{
  ℕ, zero, suc, ◌^◌, ◌≤◌, ◌<◌, ◌≡◌, ◌≢◌, refl, sym, ap, ◌∙◌, arith, true, false, Option, none, some,
  [], ◌∷◌, ◌++◌, ◌==◌, length, Bytes, All, ℤ, pos, int_of_long,
}
use ebbnc.Config.BouncerText.{int_of_long-pos}
use ebbnc.Libc.{isspace, skip_spaces, print_int}
use ebbnc.Libc.Numbers.{IsBreak, IsDigit, print_int-cons, scan_long-print_int}
use ebbnc.Libc.Scan.{scan_int, skip_until, take_word}

pub scan_int-print_int :
    (n : ℕ) (rest : Bytes)
    → n < 2 ^ 31
    → IsBreak rest
    → scan_int (print_int (pos n) ++ rest) ≡ some (pos n, rest)
unfolding scan_int
scan_int-print_int n rest h b =
    ap
      (λ (o : Option (ℤ × Bytes)). elim o [
        | none ↦ none
        | some (value, p) ↦ some (int_of_long value, p)
      ])
      (scan_long-print_int n rest (omega arith) b)
    ∙ ap (λ i. some (i, rest)) (int_of_long-pos n h)

skip_spaces-digit : (c : ℕ) (s : Bytes) → IsDigit c → skip_spaces (c ∷ s) ≡ c ∷ s
unfolding skip_spaces
skip_spaces-digit c s h = let solid : isspace c ≡ false = ground arith in rw solid refl

pub skip_spaces-print_int :
    (n : ℕ) (rest : Bytes) → skip_spaces (print_int (pos n) ++ rest) ≡ print_int (pos n) ++ rest
skip_spaces-print_int n rest =
    let (c, ds, e, digit) = print_int-cons n in
    ap (λ t. skip_spaces (t ++ rest)) e
    ∙ skip_spaces-digit c (ds ++ rest) digit.0
    ∙ ap (λ t. t ++ rest) (sym e)

pub skip_until-append :
    (d : ℕ) (s rest : Bytes) → All (λ c. c ≢ d) s → skip_until d (s ++ (d ∷ rest)) ≡ d ∷ rest
unfolding skip_until
skip_until-append d [] rest h = let same : (d == d) ≡ true = ground arith in rw same refl
skip_until-append d (c ∷ s) rest h =
    let other : (c == d) ≡ false = ground arith in rw (other, skip_until-append d s rest h.1) refl

-- A word in front of white space, or of the most that fits.
pub take_word-append :
    (width c : ℕ) (word rest : Bytes)
    → All (λ c. isspace c ≡ false) word
    → length word ≤ width
    → isspace c ≡ true
    → take_word width (word ++ (c ∷ rest)) ≡ word
unfolding take_word
take_word-append zero c [] rest h short space = refl
take_word-append (suc width) c [] rest h short space = rw space refl
take_word-append zero c (x ∷ word) rest h short space = absurd (omega arith)
take_word-append (suc width) c (x ∷ word) rest h short space =
    rw (h.0, take_word-append width c word rest h.1 (omega arith) space) refl
