-- ===== src/Hex.antt =====
-- hex.c: `hexEncode`, `hexDecodeChar`, `hexDecode`. `char` is signed, an `unsigned int` has 32
-- bits, and an `int` is kept as its bit pattern. The arrays do not overlap, `src` has `srcLen`
-- bytes and `dst` has `dstSize`.
pub mod Encode
pub mod Decode
use ebbnc.Common.{
  ℕ, ◌+◌, ◌-◌, ◌*◌, ◌/◌, ◌%◌, ◌^◌, Bool, ◌&&◌, ◌||◌, not, List, [], ◌∷◌, ◌++◌, ltb, leb, ◌==◌,
  if◌then◌else◌, length, get_or, Bytes, u8, u32, Outcome, fault, failed, done, or_fault, store,
}

-- The table `lookup[]`.
abbrev pub lookup : Bytes
lookup =
    b'0' ∷ b'1' ∷ b'2' ∷ b'3' ∷ b'4' ∷ b'5' ∷ b'6' ∷ b'7' ∷ b'8' ∷ b'9' ∷ b'A' ∷ b'B' ∷ b'C' ∷ b'D'
    ∷ b'E' ∷ b'F' ∷ []

-- `(unsigned int) *sp` of a byte that is a signed `char`.
unfoldable pub unsigned_of_char : ℕ → ℕ
unsigned_of_char c = if ltb c 128 then c else c + (2 ^ 32 - 256)

-- The two characters for one byte.
unfoldable pub digits_of : ℕ → Bytes
unfolding unsigned_of_char
digits_of c =
    let ascii = unsigned_of_char c in
    let digit2 = ascii % 16 in
    let digit1 = ascii / 16 % 16 in get_or lookup digit1 0 ∷ get_or lookup digit2 0 ∷ []

-- The loop and the two exits behind it. `out` is what lies before `dp`, so `dstLen` is its length,
-- and `dst` is the array from `dp` on.
unfoldable pub encode_loop : ℕ → Bytes → Bytes → Bytes → Outcome
encode_loop dst_size [] out dst =
    or_fault (store (0 ∷ []) dst) λ rest. done (length out) (out ++ 0 ∷ rest)
encode_loop dst_size (c ∷ src) out dst =
    let next = or_fault (store (digits_of c) dst) (encode_loop dst_size src (out ++ digits_of c)) in
    if ltb (length out + 2) dst_size then next else failed (out ++ dst)

unfoldable pub hex_encode : Bytes → Bytes → Outcome
hex_encode src dst = encode_loop (length dst) src [] dst

-- `isdigit` of the C locale.
abbrev pub isdigit : ℕ → Bool
isdigit ch = leb b'0' ch && leb ch b'9'

-- -1 as a bit pattern.
abbrev pub minus_one : ℕ
minus_one = 2 ^ 32 - 1

unfoldable pub hex_decode_char : ℕ → ℕ
hex_decode_char ch =
    if isdigit ch
    then u32 (ch + 2 ^ 32 - b'0')
    else if leb b'A' ch || leb ch b'F'
    then u32 (ch + 2 ^ 32 - b'A' + 10)
    else if leb b'a' ch || leb ch b'f'
    then u32 (ch + 2 ^ 32 - b'a' + 10)
    else minus_one

-- The loop and the exits behind it, as for `encode_loop`; two characters of `src` at a time.
unfoldable pub decode_loop : ℕ → Bytes → Bytes → Bytes → Outcome
decode_loop dst_size [] out dst =
    or_fault (store (0 ∷ []) dst) λ rest. done (length out) (out ++ 0 ∷ rest)
decode_loop dst_size (a ∷ []) out dst = fault
decode_loop dst_size (a ∷ b ∷ src) out dst =
    let digit1 = hex_decode_char (unsigned_of_char a) in
    let digit2 = hex_decode_char (unsigned_of_char b) in
    let byte = u8 (digit1 * 16 + digit2) in
    let next = or_fault (store (byte ∷ []) dst) (decode_loop dst_size src (out ++ byte ∷ [])) in
    if ltb (length out + 1) dst_size
    then if digit1 == minus_one
      then failed (out ++ dst)
      else if digit2 == minus_one
      then failed (out ++ dst)
      else next
    else failed (out ++ dst)

unfoldable pub hex_decode : Bytes → Bytes → Outcome
hex_decode src dst =
    if not (length src % 2 == 0) then failed dst else decode_loop (length dst) src [] dst
