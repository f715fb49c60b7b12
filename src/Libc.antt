-- ===== src/Libc.antt =====
-- The functions of the C library on strings that the program calls, in the C locale. A C string is
-- the list of its bytes before the terminating zero.
pub mod Tokens
pub mod Numbers
pub mod Scan
pub mod Stream
use ebbnc.Common.{
  ℕ, zero, suc, ◌+◌, ◌-◌, ◌*◌, ◌/◌, ◌%◌, Bool, true, false, ◌&&◌, ◌||◌, Option, none, some, [], ◌∷◌,
  ◌++◌, ltb, leb, ◌==◌, if◌then◌else◌, Bytes, ℤ, pos, negsuc, long_of,
}

abbrev pub isspace : ℕ → Bool
isspace c = c == 32 || leb 9 c && leb c 13

abbrev pub tolower : ℕ → ℕ
tolower c = if leb b'A' c && leb c b'Z' then c + 32 else c

-- `!strcmp(a, b)`.
unfoldable pub same : Bytes → Bytes → Bool
same [] [] = true
same (x ∷ a) (y ∷ b) = x == y && same a b
same _ _ = false

-- `!strcasecmp(a, b)`.
unfoldable pub same_case : Bytes → Bytes → Bool
same_case [] [] = true
same_case (x ∷ a) (y ∷ b) = tolower x == tolower y && same_case a b
same_case _ _ = false

-- `!strncasecmp(line, word, strlen(word))`, and the rest of the line behind the word.
unfoldable pub strip_word : Bytes → Bytes → Option Bytes
strip_word [] line = some line
strip_word (y ∷ word) [] = none
strip_word (y ∷ word) (x ∷ line) = if tolower x == tolower y then strip_word word line else none

-- `strtok` with one delimiter: the token and what is left for the next call.
unfoldable pub skip_delims : ℕ → Bytes → Bytes
skip_delims d [] = []
skip_delims d (c ∷ s) = if c == d then skip_delims d s else c ∷ s

unfoldable pub until_delim : ℕ → Bytes → Bytes × Bytes
until_delim d [] = ([], [])
until_delim d (c ∷ s) =
    let (token, rest) = until_delim d s in if c == d then ([], s) else (c ∷ token, rest)

-- `none` is the null pointer, when only delimiters are left.
abbrev pub some_token : Bytes → Bytes × Bytes → Option (Bytes × Bytes)
some_token [] t = none
some_token (c ∷ s) t = some t

unfoldable pub strtok : ℕ → Bytes → Option (Bytes × Bytes)
unfolding skip_delims until_delim
strtok d s = let t = skip_delims d s in some_token t (until_delim d t)

unfoldable pub skip_spaces : Bytes → Bytes
skip_spaces [] = []
skip_spaces (c ∷ s) = if isspace c then skip_spaces s else c ∷ s

-- An optional sign; true is a minus.
unfoldable pub read_sign : Bytes → Bool × Bytes
read_sign [] = (false, [])
read_sign (c ∷ s) =
    if c == b'-' then (true, s) else if c == b'+' then (false, s) else (false, c ∷ s)

-- The value of a digit; 36 for what is none.
unfoldable pub digit_value : ℕ → ℕ
digit_value c =
    if leb b'0' c && leb c b'9'
    then c - b'0'
    else if leb b'a' c && leb c b'z'
    then c - b'a' + 10
    else if leb b'A' c && leb c b'Z'
    then c - b'A' + 10
    else 36

unfoldable pub starts_digit : ℕ → Bytes → Bool
starts_digit base [] = false
starts_digit base (c ∷ s) = ltb (digit_value c) base

-- The digits at the front, read on from `acc`, and what follows them.
unfoldable pub read_number : ℕ → ℕ → Bytes → ℕ × Bytes
read_number base acc [] = (acc, [])
read_number base acc (c ∷ s) =
    let rest = read_number base (acc * base + digit_value c) s in
    if ltb (digit_value c) base then rest else (acc, c ∷ s)

-- `strtol(s, &p, 10)`: the value and the string at `p`.
unfoldable pub strtol : Bytes → ℤ × Bytes
strtol s =
    let (minus, u) = read_sign (skip_spaces s) in
    let (m, p) = read_number 10 0 u in
    if starts_digit 10 u then (long_of minus m, p) else (pos 0, s)

-- The number at the front as `%li` and `%i` read it, with what follows it: 0x and 0 in front stand
-- for bases 16 and 8. No digits are a matching failure.
unfoldable pub scan_number : Bytes → Option (ℕ × Bytes)
scan_number [] = none
scan_number (z ∷ []) = if ltb (digit_value z) 10 then some (digit_value z, []) else none
scan_number (z ∷ x ∷ s) =
    if z == b'0'
    then if tolower x == b'x'
      then if starts_digit 16 s then some (read_number 16 0 s) else none
      else some (read_number 8 0 (x ∷ s))
    else if ltb (digit_value z) 10
    then some (read_number 10 0 (z ∷ x ∷ s))
    else none

abbrev pub signed_long : Bool → Option (ℕ × Bytes) → Option (ℤ × Bytes)
signed_long minus none = none
signed_long minus (some (m, p)) = some (long_of minus m, p)

unfoldable pub scan_long : Bytes → Option (ℤ × Bytes)
scan_long s = let (minus, u) = read_sign (skip_spaces s) in signed_long minus (scan_number u)

-- `sscanf(s, "%li", &value)`: the value, if it returns 1.
unfoldable pub sscanf_li : Bytes → Option ℤ
unfolding scan_long
sscanf_li s = elim (scan_long s) [ none ↦ none | some (value, p) ↦ some value ]

-- The decimal digits of a number; `fuel` above the number is enough.
unfoldable pub print_digits : ℕ → ℕ → Bytes
print_digits zero n = []
print_digits (suc fuel) n =
    let rest = print_digits fuel (n / 10) in
    if ltb n 10 then (b'0' + n) ∷ [] else rest ++ (b'0' + n % 10) ∷ []

-- `%i` of an int.
unfoldable pub print_int : ℤ → Bytes
unfolding print_digits
print_int (pos n) = print_digits (suc n) n
print_int (negsuc n) = b'-' ∷ print_digits (suc (suc n)) (suc n)
