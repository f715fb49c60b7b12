-- ===== src/Xtea/Cbc/Decrypt.antt =====
-- Proofs on the loop of `XTeaDecryptCBC` of xtea.c, and on the end of a call.
use ebbnc.Common.{
  ℕ, zero, suc, ◌*◌, ◌%◌, ◌<◌, ◌≤◌, ◌≡◌, refl, ◌∙◌, arith, [], ◌∷◌, ◌++◌, append-nil, append_assoc,
  some, length, take, drop, replicate, Bytes, take-append, drop-append, length-drop, le→leb, le→ltb,
  lt→ltb, ◌==◌, ==_iff, true,
}
use ebbnc.Xtea.{Endian, decrypt_block, xtea_decrypt}
use ebbnc.Xtea.Block.{decrypt_block-IsBlock, decrypt_block-take, transform-eq-some}
use ebbnc.Xtea.Cbc.{
  State, xor_block, decrypt_step, decrypt_loop, decrypt_rest, last?, xtea_decrypt_cbc,
}
use ebbnc.Xtea.Cbc.Chain.{chain_decrypt, skip}

abbrev pub last_block : ℕ → Bytes → Bytes → Bytes
last_block zero iv src = iv
last_block (suc n) iv src = last_block n (take 8 src) (drop 8 src)

last?-append : (xs : Bytes) (y : ℕ) (ys : Bytes) → last? (xs ++ (y ∷ ys)) ≡ last? (y ∷ ys)
unfolding last?
last?-append [] y ys = refl
last?-append (x ∷ []) y ys = refl
last?-append (x ∷ z ∷ xs) y ys = last?-append (z ∷ xs) y ys

last?-replicate : (n c : ℕ) → last? (replicate (suc n) c) ≡ some c
unfolding last?
last?-replicate zero c = refl
last?-replicate (suc n) c = last?-replicate n c

-- The last byte behind at least one byte of padding.
pub last?-append-replicate : (xs : Bytes) (n c : ℕ) → 0 < n → last? (xs ++ replicate n c) ≡ some c
last?-append-replicate xs zero c h = absurd (omega arith)
last?-append-replicate xs (suc n) c h = last?-append xs c (replicate n c) ∙ last?-replicate n c

module _ (e : Endian) (key : Bytes) (key_fits : 16 ≤ length key) where
  abbrev retreat : State → State
  retreat s = record {
    src = drop 8 s.src;
    iv = take 8 s.src;
    out = s.out ++ xor_block (decrypt_block e key (take 8 s.src)) s.iv;
    dst = drop 8 s.dst;
  }

  abbrev pub after : ℕ → State → State
  after n s = record {
    src = skip n s.src;
    iv = last_block n s.iv s.src;
    out = s.out ++ chain_decrypt e key n s.iv s.src;
    dst = skip n s.dst;
  }

  decrypt_step-eq-some :
      (s : State) → 8 ≤ length s.src → 8 ≤ length s.dst → decrypt_step e key s ≡ some (retreat s)
  unfolding decrypt_step xtea_decrypt
  decrypt_step-eq-some s hs hd =
      let c = decrypt_block-IsBlock e key s.src in
      rw (
        le→leb 8 (length s.src) hs,
        transform-eq-some decrypt_block e s.src s.dst key hs hd key_fits,
        take-append (decrypt_block e key s.src) (drop 8 s.dst) 8 c.0,
        drop-append (decrypt_block e key s.src) (drop 8 s.dst) 8 c.0,
        ← decrypt_block-take e key s.src,
      )

  decrypt_loop-eq-some :
      (n fuel : ℕ) (s : State)
      → n < fuel
      → length s.src ≡ 8 * n
      → 8 * n ≤ length s.dst
      → decrypt_loop e key fuel s ≡ some (after n s)
  unfolding decrypt_loop
  decrypt_loop-eq-some n zero s hf hs hd = absurd (omega arith)
  decrypt_loop-eq-some zero (suc fuel) s hf hs hd =
      rw (le→ltb 0 (length s.src) (omega arith), append-nil s.out)
  decrypt_loop-eq-some (suc n) (suc fuel) s hf hs hd = rw (
    lt→ltb 0 (length s.src) (omega arith),
    decrypt_step-eq-some s (omega arith) (omega arith),
    decrypt_loop-eq-some n fuel (retreat s) (omega arith) (omega (arith, length-drop 8 s.src))
        (omega (arith, length-drop 8 s.dst)),
    append_assoc,
  )

  -- With whole blocks and room for them, the padding decides how the call ends.
  pub xtea_decrypt_cbc-eq-rest :
      (n : ℕ) (src dst ivec : Bytes)
      → length src ≡ 8 * n
      → length src ≤ length dst
      → 8 ≤ length ivec
      → xtea_decrypt_cbc e key src dst ivec
        ≡ decrypt_rest
            (length src)
            (after n (record { src = src; iv = take 8 ivec; out = []; dst = dst }))
  unfolding xtea_decrypt_cbc
  xtea_decrypt_cbc-eq-rest n src dst ivec hn hd hv =
      let whole : (length src % 8 == 0) ≡ true = (==_iff (length src % 8) 0).1 (omega arith) in
      rw (
        le→ltb (length dst) (length src) hd,
        whole,
        le→leb 8 (length ivec) hv,
        decrypt_loop-eq-some n (suc (length src))
            (record { src = src; iv = take 8 ivec; out = []; dst = dst }) (omega arith) hn
            (omega arith),
      )
