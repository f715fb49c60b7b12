-- ===== src/Xtea/Cbc.antt =====
-- Cipher block chaining of xtea.c: `XTeaEncryptCBC`, `XTeaDecryptCBC`. The arrays do not overlap,
-- `src` has `srcLen` bytes and `dst` has `dstSize`; lengths are below 2 ^ 63.
pub mod Chain
pub mod Encrypt
pub mod EncryptCall
pub mod Decrypt
pub mod RoundTrip
use ebbnc.Common.{
  ℕ, zero, suc, ◌+◌, ◌-◌, ◌%◌, Option, none, some, List, [], ◌∷◌, ◌++◌, ◌||◌, not, bit_xor, ltb,
  leb, ◌==◌, if◌then◌else◌, ◌>>=◌, length, take, drop, replicate, Bytes, u8, Outcome, fault, failed,
  done, or_fault,
}
use ebbnc.Xtea.{Endian, xtea_block_size, xtea_encrypt, xtea_decrypt}

-- `memcpy(block, p, XTEA_BLOCK_SIZE)`.
abbrev pub read_block : Bytes → Option Bytes
read_block p = if leb xtea_block_size (length p) then some (take xtea_block_size p) else none

-- `for (i = 0; i < XTEA_BLOCK_SIZE; ++i) { block[i] = (unsigned char)block[i] ^ iv[i]; }`.
pub xor_block : Bytes → Bytes → Bytes
xor_block (x ∷ xs) (y ∷ ys) = bit_xor x y ∷ xor_block xs ys
xor_block _ _ = []

-- The pointers `src` and `dst`, the chaining block `iv`, and what lies before `dst` in its array.
-- The counter `remaining` is the length of `src`.
pub record State : Type 0 where
  pub src : Bytes
  pub iv : Bytes
  pub out : Bytes
  pub dst : Bytes

module _ (e : Endian) (key : Bytes) where
  -- One pass through the loop of `XTeaEncryptCBC`.
  pub encrypt_step : State → Option State
  encrypt_step s = do
    block ← read_block s.src
    dst ← xtea_encrypt e (xor_block block s.iv) s.dst key
    some record {
      src = drop xtea_block_size s.src;
      iv = take xtea_block_size dst;
      out = s.out ++ take xtea_block_size dst;
      dst = drop xtea_block_size dst;
    }

  -- `while (remaining >= XTEA_BLOCK_SIZE)`; `none` also when the fuel runs out.
  pub encrypt_loop : ℕ → State → Option State
  encrypt_loop zero s = none
  encrypt_loop (suc fuel) s =
      let rest = encrypt_step s >>= encrypt_loop fuel in
      if leb xtea_block_size (length s.src) then rest else some s

  -- The padded last block.
  pub encrypt_last : ℕ → ℕ → State → Outcome
  encrypt_last src_len padding s =
      let pad = u8 (b'0' + padding) in
      let block = s.src ++ replicate padding pad in
      or_fault (xtea_encrypt e (xor_block block s.iv) s.dst key)
        λ dst. done (src_len + padding) (s.out ++ dst)

  -- Behind the loop: the choice of the padding.
  pub encrypt_rest : ℕ → ℕ → State → Outcome
  encrypt_rest src_len dst_size s =
      let remaining = length s.src in
      if ltb 0 remaining
      then encrypt_last src_len (xtea_block_size - remaining) s
      else if leb (src_len + xtea_block_size) dst_size
      then encrypt_last src_len xtea_block_size s
      else failed (s.out ++ s.dst)

  pub xtea_encrypt_cbc : Bytes → Bytes → Bytes → Outcome
  xtea_encrypt_cbc src dst ivec =
      if ltb (length dst) (length src)
      then failed dst
      else or_fault (read_block ivec) λ iv.
        or_fault
          (encrypt_loop (suc (length src)) (record { src = src; iv = iv; out = []; dst = dst }))
          (encrypt_rest (length src) (length dst))

  -- One pass through the loop of `XTeaDecryptCBC`.
  pub decrypt_step : State → Option State
  decrypt_step s = do
    temp ← read_block s.src
    dst ← xtea_decrypt e s.src s.dst key
    some record {
      src = drop xtea_block_size s.src;
      iv = temp;
      out = s.out ++ xor_block (take xtea_block_size dst) s.iv;
      dst = drop xtea_block_size dst;
    }

  -- `while (remaining > 0)`.
  pub decrypt_loop : ℕ → State → Option State
  decrypt_loop zero s = none
  decrypt_loop (suc fuel) s =
      let rest = decrypt_step s >>= decrypt_loop fuel in
      if ltb 0 (length s.src) then rest else some s

-- `*(dst - 1)`; before the first byte of the array there is none.
pub last? : Bytes → Option ℕ
last? [] = none
last? (x ∷ []) = some x
last? (x ∷ y ∷ xs) = last? (y ∷ xs)

-- Behind the loop: `padding` is `c - '0'`, and must lie between 1 and `XTEA_BLOCK_SIZE`.
unfoldable pub decrypt_rest : ℕ → State → Outcome
decrypt_rest src_len s = or_fault (last? s.out) λ c.
    if ltb c (b'0' + 1) || ltb (b'0' + xtea_block_size) c
    then failed (s.out ++ s.dst)
    else done (src_len - (c - b'0')) (s.out ++ s.dst)

pub xtea_decrypt_cbc : Endian → Bytes → Bytes → Bytes → Bytes → Outcome
xtea_decrypt_cbc e key src dst ivec =
    if ltb (length dst) (length src) || not (length src % xtea_block_size == 0)
    then failed dst
    else or_fault (read_block ivec) λ iv.
      or_fault
        (decrypt_loop e key (suc (length src)) (record { src = src; iv = iv; out = []; dst = dst }))
        (decrypt_rest (length src))
