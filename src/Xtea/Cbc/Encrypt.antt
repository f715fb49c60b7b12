-- ===== src/Xtea/Cbc/Encrypt.antt =====
-- Proofs on the loop of `XTeaEncryptCBC` of xtea.c, and on the end of a call.
use ebbnc.Common.{
  ℕ, zero, suc, ◌+◌, ◌-◌, ◌*◌, ◌%◌, ◌<◌, ◌≤◌, ◌≡◌, sym, ◌∙◌, arith, ◌++◌, append-nil, append_assoc,
  some, length, take, drop, replicate, Bytes, take-append, drop-append, length-append,
  length-replicate, length-drop, length-take, take-length, done, failed, fault, le→leb, lt→leb, u8,
  ◌⊎◌,
}
use ebbnc.Xtea.{Endian, encrypt_block, xtea_encrypt, transform}
use ebbnc.Xtea.Block.{transform-eq-some}
use ebbnc.Xtea.Cbc.{State, xor_block, encrypt_step, encrypt_loop, encrypt_last, encrypt_rest}
use ebbnc.Xtea.Cbc.Chain.{
  length-xor_block, cipher_block, chain_encrypt, chain_iv, skip, cipher_block-IsBlock,
}

module _ (e : Endian) (key : Bytes) (key_fits : 16 ≤ length key) where
  -- The variables after `n` passes.
  abbrev pub after : ℕ → State → State
  after n s = record {
    src = skip n s.src;
    iv = chain_iv e key n s.iv s.src;
    out = s.out ++ chain_encrypt e key n s.iv s.src;
    dst = skip n s.dst;
  }

  abbrev advance : State → State
  advance s = record {
    src = drop 8 s.src;
    iv = cipher_block e key s.iv s.src;
    out = s.out ++ cipher_block e key s.iv s.src;
    dst = drop 8 s.dst;
  }

  encrypt_step-eq-some :
      (s : State)
      → 8 ≤ length s.src
      → 8 ≤ length s.dst
      → length s.iv ≡ 8
      → encrypt_step e key s ≡ some (advance s)
  unfolding encrypt_step xtea_encrypt
  encrypt_step-eq-some s hs hd hv =
      let b = xor_block (take 8 s.src) s.iv in
      let n : 8 ≤ length b =
        omega (arith, length-xor_block (take 8 s.src) s.iv, length-take 8 s.src) in
      let c = cipher_block-IsBlock e key s.iv s.src in
      rw (
        le→leb 8 (length s.src) hs,
        transform-eq-some encrypt_block e b s.dst key n hd key_fits,
        take-append (encrypt_block e key b) (drop 8 s.dst) 8 c.0,
        drop-append (encrypt_block e key b) (drop 8 s.dst) 8 c.0,
      )

  -- With room for the whole blocks the loop ends, and has enciphered them.
  pub encrypt_loop-eq-some :
      (n fuel : ℕ) (s : State)
      → n < fuel
      → 8 * n ≤ length s.src
      → length s.src < 8 * n + 8
      → 8 * n ≤ length s.dst
      → length s.iv ≡ 8
      → encrypt_loop e key fuel s ≡ some (after n s)
  unfolding encrypt_loop
  encrypt_loop-eq-some n zero s hf lo hi hd hv = absurd (omega arith)
  encrypt_loop-eq-some zero (suc fuel) s hf lo hi hd hv =
      rw (lt→leb 8 (length s.src) (omega arith), append-nil s.out)
  encrypt_loop-eq-some (suc n) (suc fuel) s hf lo hi hd hv = rw (
    le→leb 8 (length s.src) (omega arith),
    encrypt_step-eq-some s (omega arith) (omega arith) hv,
    encrypt_loop-eq-some n fuel (advance s) (omega arith) (omega (arith, length-drop 8 s.src))
        (omega (arith, length-drop 8 s.src)) (omega (arith, length-drop 8 s.dst))
        (cipher_block-IsBlock e key s.iv s.src).0,
    append_assoc,
  )

  -- Behind the loop the padding fills the last block, unless a whole block of it lacks room.
  pub encrypt_rest-eq-last :
      (src_len dst_size : ℕ) (s : State)
      → length s.src ≡ src_len % 8
      → (0 < src_len % 8) ⊎ (src_len + 8 ≤ dst_size)
      → encrypt_rest e key src_len dst_size s ≡ encrypt_last e key src_len (8 - src_len % 8) s
  unfolding encrypt_rest
  encrypt_rest-eq-last src_len dst_size s h room = ground arith

  pub encrypt_rest-eq-failed :
      (src_len dst_size : ℕ) (s : State)
      → length s.src ≡ 0
      → dst_size < src_len + 8
      → encrypt_rest e key src_len dst_size s ≡ failed (s.out ++ s.dst)
  unfolding encrypt_rest
  encrypt_rest-eq-failed src_len dst_size s h room = ground arith

  pub encrypt_last-eq-done :
      (src_len p : ℕ) (s : State)
      → p ≤ 8
      → length s.src + p ≡ 8
      → length s.iv ≡ 8
      → 8 ≤ length s.dst
      → encrypt_last e key src_len p s
        ≡ done
            (src_len + p)
            (s.out ++ (cipher_block e key s.iv (s.src ++ replicate p (b'0' + p)) ++ drop 8 s.dst))
  unfolding encrypt_last xtea_encrypt
  encrypt_last-eq-done src_len p s hp hn hv hd =
      let block = s.src ++ replicate p (b'0' + p) in
      let full : length block ≡ 8 =
        omega
          (arith, length-append s.src (replicate p (b'0' + p)), length-replicate p (b'0' + p)) in
      let small : u8 (b'0' + p) ≡ b'0' + p = omega arith in
      rw (
        small,
        take-length 8 block full,
        transform-eq-some encrypt_block e (xor_block block s.iv) s.dst key
            (omega (arith, length-xor_block block s.iv (full ∙ sym hv))) hd key_fits,
      )

  pub encrypt_last-eq-fault :
      (src_len p : ℕ) (s : State) → length s.dst < 8 → encrypt_last e key src_len p s ≡ fault
  unfolding encrypt_last xtea_encrypt transform
  encrypt_last-eq-fault src_len p s h = ground arith
