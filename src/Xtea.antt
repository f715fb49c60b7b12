-- ===== src/Xtea.antt =====
-- The block cipher of xtea.c: `XTeaEncrypt`, `XTeaDecrypt`. A pointer into an array is the list of
-- the bytes from it to the end of the array; `none` is an access past that end.
pub mod Rounds
pub mod Block
pub mod Cbc
pub mod Ecb
use ebbnc.Common.{
  ℕ, zero, suc, ◌+◌, ◌*◌, ◌/◌, ◌%◌, ◌^◌, Option, none, some, List, [], ◌∷◌, ◌++◌, ◌&&◌, bit_xor,
  leb, if◌then◌else◌, length, get_or, drop, Bytes, u32, add32, sub32,
}

abbrev pub xtea_block_size : ℕ
xtea_block_size = 8

abbrev pub xtea_key_size : ℕ
xtea_key_size = 16

abbrev pub xtea_delta : ℕ
xtea_delta = 0x9E3779B9

abbrev pub xtea_num_rounds : ℕ
xtea_num_rounds = 32

-- The order in which the host keeps the bytes of a uint32_t, which the casts of `src`, `dst` and
-- `ckey` to `uint32_t*` depend on.
pub data Endian : Type 0 where
  little big : Endian

-- `s[i]` and `key[i]` of a pointer cast to `const uint32_t*`.
unfoldable pub word_at : Endian → Bytes → ℕ → ℕ
word_at little m i =
    get_or m (4 * i) 0
    + get_or m (4 * i + 1) 0 * 2 ^ 8
    + get_or m (4 * i + 2) 0 * 2 ^ 16
    + get_or m (4 * i + 3) 0 * 2 ^ 24
word_at big m i =
    get_or m (4 * i) 0 * 2 ^ 24
    + get_or m (4 * i + 1) 0 * 2 ^ 16
    + get_or m (4 * i + 2) 0 * 2 ^ 8
    + get_or m (4 * i + 3) 0

-- The bytes that `d[i] = w` stores.
unfoldable pub word_bytes : Endian → ℕ → Bytes
word_bytes little w =
    (w % 2 ^ 8) ∷ (w / 2 ^ 8 % 2 ^ 8) ∷ (w / 2 ^ 16 % 2 ^ 8) ∷ (w / 2 ^ 24 % 2 ^ 8) ∷ []
word_bytes big w =
    (w / 2 ^ 24 % 2 ^ 8) ∷ (w / 2 ^ 16 % 2 ^ 8) ∷ (w / 2 ^ 8 % 2 ^ 8) ∷ (w % 2 ^ 8) ∷ []

-- `(((s << 4) ^ (s >> 5)) + s) ^ (sum + k)`.
unfoldable pub mix : ℕ → ℕ → ℕ → ℕ
mix s sum k = bit_xor (add32 (bit_xor (u32 (s * 2 ^ 4)) (s / 2 ^ 5)) s) (add32 sum k)

-- The local variables of both loops.
pub record Halves : Type 0 where
  pub s0 : ℕ
  pub s1 : ℕ
  pub sum : ℕ

-- One round of `XTeaEncrypt`; `key` gives the four words of the key.
unfoldable pub encrypt_round : (ℕ → ℕ) → Halves → Halves
encrypt_round key h =
    let s0 = add32 h.s0 (mix h.s1 h.sum (key (h.sum % 4))) in
    let sum = add32 h.sum xtea_delta in
    let s1 = add32 h.s1 (mix s0 sum (key (sum / 2 ^ 11 % 4))) in
    record { s0 = s0; s1 = s1; sum = sum }

-- One round of `XTeaDecrypt`.
unfoldable pub decrypt_round : (ℕ → ℕ) → Halves → Halves
decrypt_round key h =
    let s1 = sub32 h.s1 (mix h.s0 h.sum (key (h.sum / 2 ^ 11 % 4))) in
    let sum = sub32 h.sum xtea_delta in
    let s0 = sub32 h.s0 (mix s1 sum (key (sum % 4))) in record { s0 = s0; s1 = s1; sum = sum }

-- `for (i = 0; i < n; i++)`, with the rounds left as the counter.
unfoldable pub rounds : (Halves → Halves) → ℕ → Halves → Halves
rounds f zero h = h
rounds f (suc n) h = rounds f n (f h)

-- The locals before the loop: `s[0]`, `s[1]` and the first value of `sum`.
unfoldable pub start : Endian → Bytes → ℕ → Halves
start e src sum = record { s0 = word_at e src 0; s1 = word_at e src 1; sum = sum }

-- `d[0] = s0; d[1] = s1;`.
unfoldable pub stored : Endian → Halves → Bytes
stored e h = word_bytes e h.s0 ++ word_bytes e h.s1

-- What the two functions store at `dst`, from the bytes at `src` and `ckey`.
unfoldable pub encrypt_block : Endian → Bytes → Bytes → Bytes
encrypt_block e ckey src =
    stored e (rounds (encrypt_round (word_at e ckey)) xtea_num_rounds (start e src 0))

unfoldable pub decrypt_block : Endian → Bytes → Bytes → Bytes
decrypt_block e ckey src =
    let sum = u32 (xtea_delta * xtea_num_rounds) in
    stored e (rounds (decrypt_round (word_at e ckey)) xtea_num_rounds (start e src sum))

-- The block is read at `src`, the key at `ckey`, and eight bytes are written at `dst`.
unfoldable pub transform :
    (Endian → Bytes → Bytes → Bytes) → Endian → Bytes → Bytes → Bytes → Option Bytes
transform block e src dst ckey =
    if leb xtea_block_size (length src)
      && leb xtea_block_size (length dst)
      && leb xtea_key_size (length ckey)
    then some (block e ckey src ++ drop xtea_block_size dst)
    else none

pub xtea_encrypt : Endian → Bytes → Bytes → Bytes → Option Bytes
xtea_encrypt = transform encrypt_block

pub xtea_decrypt : Endian → Bytes → Bytes → Bytes → Option Bytes
xtea_decrypt = transform decrypt_block
