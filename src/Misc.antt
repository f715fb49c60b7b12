-- ===== src/Misc.antt =====
-- misc.c: `isValidPort`, `strToLong`, `strToInt`, `stripCRLF`, `strCatPrintf`, `promptInput`.
pub mod Format
use ebbnc.Common.{
  ℕ, ◌+◌, Bool, false, ◌||◌, Option, none, some, [], ◌∷◌, ◌++◌, leb, ◌==◌, if◌then◌else◌, length,
  Bytes, ℤ, pos, negsuc, int_of_long,
}
use ebbnc.Libc.{strtol}

-- The argument is an int.
unfoldable pub is_valid_port : ℤ → Bool
is_valid_port (pos n) = leb n 65535
is_valid_port (negsuc n) = false

-- `*i` and the result. The value is stored whether or not the text is a number.
unfoldable pub str_to_long : Bytes → ℤ × Bool
str_to_long s = let (value, p) = strtol s in (value, length p == 0)

-- `none` leaves `*i` as it was and returns false.
unfoldable pub str_to_int : Bytes → Option ℤ
str_to_int s =
    let (value, result) = str_to_long s in if result then some (int_of_long value) else none

unfoldable pub strip_crlf : Bytes → Bytes
strip_crlf [] = []
strip_crlf (c ∷ buf) = if c == b'\n' || c == b'\r' then [] else c ∷ strip_crlf buf

-- `strCatPrintf`, with the formatted text as an argument; `alloc n` says whether `calloc` has `n`
-- bytes to give, and `none` is a null pointer.
unfoldable pub str_cat_printf : (ℕ → Bool) → Option Bytes → Bytes → Option Bytes
str_cat_printf alloc none text = if alloc (length text + 1) then some text else none
str_cat_printf alloc (some s) text =
    if alloc (length text + 1)
    then if alloc (length s + length text + 1) then some (s ++ text) else none
    else none

-- A character in front of what `promptInput` keeps of the rest.
abbrev pub keep : ℕ → Bytes → Bytes
keep c [] = if c == b'\n' || c == b'\r' then [] else c ∷ []
keep c (d ∷ buf) = c ∷ d ∷ buf

-- The loop at the end of `promptInput`, which takes the newlines off the end of what was read. The
-- byte before the static buffer, which it reads if there is nothing else, counts as no newline.
unfoldable pub strip_trailing : Bytes → Bytes
strip_trailing [] = []
strip_trailing (c ∷ buf) = keep c (strip_trailing buf)

abbrev pub with_default : Bytes → Option Bytes → Bytes
with_default [] none = []
with_default [] (some value) = value
with_default (c ∷ buffer) default = c ∷ buffer

-- `promptInput`: what `fgets` read, if it did, and the default value.
unfoldable pub prompt_input : Option Bytes → Option Bytes → Bytes
unfolding strip_trailing
prompt_input none default = []
prompt_input (some input) default = with_default (strip_trailing input) default
