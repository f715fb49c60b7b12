-- ===== src/Xtea/Ecb.antt =====
-- The electronic code book of xtea.c: `XTeaEncryptECB`, `XTeaDecryptECB`. The arrays do not overlap,
-- `src` has `srcLen` bytes and `dst` has `dstSize`; lengths are below 2 ^ 63.
pub mod Loops
pub mod Calls
use ebbnc.Common.{
  ℕ, zero, suc, ◌+◌, ◌-◌, ◌%◌, Option, none, some, [], ◌++◌, ◌||◌, not, ltb, leb, ◌==◌,
  if◌then◌else◌, ◌>>=◌, length, take, drop, replicate, Bytes, u8, Outcome, fault, failed, done,
  or_fault,
}
use ebbnc.Xtea.{Endian, xtea_block_size, xtea_encrypt, xtea_decrypt}
use ebbnc.Xtea.Cbc.{last?}

-- The pointers `src` and `dst`, and what lies before `dst` in its array. The counter `remaining` is
-- the length of `src`.
pub record State : Type 0 where
  pub src : Bytes
  pub out : Bytes
  pub dst : Bytes

module _ (e : Endian) (key : Bytes) where
  -- One pass through the loop of `XTeaEncryptECB`.
  unfoldable pub encrypt_step : State → Option State
  encrypt_step s = do
    dst ← xtea_encrypt e s.src s.dst key
    some record {
      src = drop xtea_block_size s.src;
      out = s.out ++ take xtea_block_size dst;
      dst = drop xtea_block_size dst;
    }

  -- `while (remaining >= XTEA_BLOCK_SIZE)`; `none` also when the fuel runs out.
  unfoldable pub encrypt_loop : ℕ → State → Option State
  unfolding encrypt_step
  encrypt_loop zero s = none
  encrypt_loop (suc fuel) s =
      let rest = encrypt_step s >>= encrypt_loop fuel in
      if leb xtea_block_size (length s.src) then rest else some s

  -- The padded last block.
  unfoldable pub encrypt_last : ℕ → ℕ → State → Outcome
  encrypt_last src_len padding s =
      let block = s.src ++ replicate padding (u8 (b'0' + padding)) in
      or_fault (xtea_encrypt e block s.dst key) λ dst. done (src_len + padding) (s.out ++ dst)

  -- Behind the loop: the choice of the padding.
  unfoldable pub encrypt_rest : ℕ → ℕ → State → Outcome
  unfolding encrypt_last
  encrypt_rest src_len dst_size s =
      let remaining = length s.src in
      if ltb 0 remaining
      then encrypt_last src_len (xtea_block_size - remaining) s
      else if leb (src_len + xtea_block_size) dst_size
      then encrypt_last src_len xtea_block_size s
      else failed (s.out ++ s.dst)

  unfoldable pub xtea_encrypt_ecb : Bytes → Bytes → Outcome
  unfolding encrypt_loop encrypt_rest
  xtea_encrypt_ecb src dst =
      if ltb (length dst) (length src)
      then failed dst
      else or_fault (encrypt_loop (suc (length src)) (record { src = src; out = []; dst = dst }))
          (encrypt_rest (length src) (length dst))

  -- One pass through the loop of `XTeaDecryptECB`.
  unfoldable pub decrypt_step : State → Option State
  decrypt_step s = do
    dst ← xtea_decrypt e s.src s.dst key
    some record {
      src = drop xtea_block_size s.src;
      out = s.out ++ take xtea_block_size dst;
      dst = drop xtea_block_size dst;
    }

  -- `while (remaining > 0)`.
  unfoldable pub decrypt_loop : ℕ → State → Option State
  unfolding decrypt_step
  decrypt_loop zero s = none
  decrypt_loop (suc fuel) s =
      let rest = decrypt_step s >>= decrypt_loop fuel in
      if ltb 0 (length s.src) then rest else some s

-- Behind the loop: `padding` is `*(dst - 1) - '0'`, and must lie between 1 and `XTEA_BLOCK_SIZE`.
unfoldable pub decrypt_rest : ℕ → State → Outcome
decrypt_rest src_len s = or_fault (last? s.out) λ c.
    if ltb c (b'0' + 1) || ltb (b'0' + xtea_block_size) c
    then failed (s.out ++ s.dst)
    else done (src_len - (c - b'0')) (s.out ++ s.dst)

unfoldable pub xtea_decrypt_ecb : Endian → Bytes → Bytes → Bytes → Outcome
unfolding decrypt_loop decrypt_rest
xtea_decrypt_ecb e key src dst =
    if ltb (length dst) (length src) || not (length src % xtea_block_size == 0)
    then failed dst
    else or_fault
        (decrypt_loop e key (suc (length src)) (record { src = src; out = []; dst = dst }))
        (decrypt_rest (length src))
