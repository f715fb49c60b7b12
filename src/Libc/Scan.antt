-- ===== src/Libc/Scan.antt =====
-- The directives of `fscanf` that the program uses, on what a stream gives. `none` is a matching or
-- an input failure; the others leave what follows.
use ebbnc.Common.{
  ℕ, zero, suc, Option, none, some, [], ◌∷◌, ◌==◌, if◌then◌else◌, ◌>>=◌, Bytes, ℤ, int_of_long,
}
use ebbnc.Libc.{isspace, skip_spaces, scan_long}

-- `%i` into an int.
unfoldable pub scan_int : Bytes → Option (ℤ × Bytes)
scan_int s = elim (scan_long s) [ none ↦ none | some (value, p) ↦ some (int_of_long value, p) ]

-- A character of the format that is no white space.
unfoldable pub scan_char : ℕ → Bytes → Option Bytes
scan_char d [] = none
scan_char d (c ∷ s) = if c == d then some s else none

unfoldable pub scan_text : Bytes → Bytes → Option Bytes
scan_text [] s = some s
scan_text (d ∷ word) s = scan_char d s >>= scan_text word

-- `%*[^d]`: at least one character, up to `d`.
unfoldable pub skip_until : ℕ → Bytes → Bytes
skip_until d [] = []
skip_until d (c ∷ s) = if c == d then c ∷ s else skip_until d s

unfoldable pub scan_until : ℕ → Bytes → Option Bytes
scan_until d [] = none
scan_until d (c ∷ s) = let rest = skip_until d s in if c == d then none else some rest

-- The characters up to white space, `width` at most.
unfoldable pub take_word : ℕ → Bytes → Bytes
take_word zero s = []
take_word (suc width) [] = []
take_word (suc width) (c ∷ s) = let word = take_word width s in if isspace c then [] else c ∷ word

-- `%255s` and the like, as the last directive: the word behind white space.
abbrev pub some_word : Bytes → Option Bytes
some_word [] = none
some_word (c ∷ word) = some (c ∷ word)

unfoldable pub scan_word : ℕ → Bytes → Option Bytes
scan_word width s = some_word (take_word width (skip_spaces s))
