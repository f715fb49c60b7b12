-- ===== src/Xtea/Ecb/Loops.antt =====
-- Proofs on the loops of the electronic code book of xtea.c: each block is enciphered by itself.
use ebbnc.Common.{
  ℕ, zero, suc, ◌+◌, ◌*◌, ◌<◌, ◌≤◌, ◌≡◌, refl, sym, ap, ◌∙◌, arith, [], ◌∷◌, ◌++◌, append-nil,
  append_assoc, some, length, take, drop, Bytes, IsByte, IsBytes, take-append, drop-append,
  take-append_le, drop-append_le, length-append, length-drop, length-take, All-take, All-drop,
  take-append-drop, le→leb, lt→leb, le→ltb, lt→ltb,
}
use ebbnc.Xtea.{Endian, encrypt_block, decrypt_block, xtea_encrypt, xtea_decrypt}
use ebbnc.Xtea.Block.{
  encrypt_block-IsBlock, decrypt_block-IsBlock, decrypt_block-encrypt_block, decrypt_block-take,
  encrypt_block-take, transform-eq-some,
}
use ebbnc.Xtea.Cbc.Chain.{skip}
use ebbnc.Xtea.Ecb.{State, encrypt_step, encrypt_loop, decrypt_step, decrypt_loop}

module _ (e : Endian) (key : Bytes) where
  -- The first `n` blocks, each by itself.
  abbrev pub encrypt_each : ℕ → Bytes → Bytes
  encrypt_each zero src = []
  encrypt_each (suc n) src = encrypt_block e key (take 8 src) ++ encrypt_each n (drop 8 src)

  abbrev pub decrypt_each : ℕ → Bytes → Bytes
  decrypt_each zero src = []
  decrypt_each (suc n) src = decrypt_block e key (take 8 src) ++ decrypt_each n (drop 8 src)

  pub length-encrypt_each : (n : ℕ) (src : Bytes) → length (encrypt_each n src) ≡ 8 * n
  length-encrypt_each zero src = omega arith
  length-encrypt_each (suc n) src = omega (
    arith,
    length-append (encrypt_block e key (take 8 src)) (encrypt_each n (drop 8 src)),
    length-encrypt_each n (drop 8 src),
    (encrypt_block-IsBlock e key (take 8 src)).0,
  )

  pub encrypt_each_last :
      (n : ℕ) (src : Bytes)
      → encrypt_each (suc n) src ≡ encrypt_each n src ++ encrypt_block e key (take 8 (skip n src))
  encrypt_each_last zero src = append-nil (encrypt_block e key (take 8 src))
  encrypt_each_last (suc n) src =
      ap (λ t. encrypt_block e key (take 8 src) ++ t) (encrypt_each_last n (drop 8 src))
      ∙ sym (append_assoc (encrypt_block e key (take 8 src)) _ _)

  pub encrypt_each-append :
      (n : ℕ) (xs ys : Bytes) → 8 * n ≤ length xs → encrypt_each n (xs ++ ys) ≡ encrypt_each n xs
  encrypt_each-append zero xs ys h = refl
  encrypt_each-append (suc n) xs ys h =
      rw (take-append_le 8 xs ys (omega arith), drop-append_le 8 xs ys (omega arith))
        (ap (λ t. encrypt_block e key (take 8 xs) ++ t)
          (encrypt_each-append n (drop 8 xs) ys (omega (arith, length-drop 8 xs))))

  pub decrypt_each-encrypt_each :
      (n : ℕ) (src : Bytes)
      → length src ≡ 8 * n
      → IsBytes src
      → decrypt_each n (encrypt_each n src) ≡ src
  decrypt_each-encrypt_each zero [] hn hs = refl
  decrypt_each-encrypt_each zero (x ∷ src) hn hs = absurd (omega arith)
  decrypt_each-encrypt_each (suc n) src hn hs =
      let c = encrypt_block e key (take 8 src) in
      rw
        (
          take-append c (encrypt_each n (drop 8 src)) 8
              (encrypt_block-IsBlock e key (take 8 src)).0,
          drop-append c (encrypt_each n (drop 8 src)) 8
              (encrypt_block-IsBlock e key (take 8 src)).0,
          decrypt_each-encrypt_each n (drop 8 src) (omega (arith, length-drop 8 src))
              (All-drop IsByte 8 src hs),
          decrypt_block-encrypt_block e key (take 8 src)
              (omega (arith, length-take 8 src), All-take IsByte 8 src hs),
        )
        (take-append-drop 8 src)

  module _ (key_fits : 16 ≤ length key) where
    encrypt_step-eq-some :
        (s : State)
        → 8 ≤ length s.src
        → 8 ≤ length s.dst
        → encrypt_step e key s
          ≡ some (record {
            src = drop 8 s.src;
            out = s.out ++ encrypt_block e key (take 8 s.src);
            dst = drop 8 s.dst;
          })
    unfolding encrypt_step xtea_encrypt
    encrypt_step-eq-some s hs hd =
        let c = encrypt_block-IsBlock e key s.src in
        rw (
          transform-eq-some encrypt_block e s.src s.dst key hs hd key_fits,
          take-append (encrypt_block e key s.src) (drop 8 s.dst) 8 c.0,
          drop-append (encrypt_block e key s.src) (drop 8 s.dst) 8 c.0,
          ← encrypt_block-take e key s.src,
        )

    -- With room for the whole blocks the loop ends, and has enciphered them.
    pub encrypt_loop-eq-some :
        (n fuel : ℕ) (s : State)
        → n < fuel
        → 8 * n ≤ length s.src
        → length s.src < 8 * n + 8
        → 8 * n ≤ length s.dst
        → encrypt_loop e key fuel s
          ≡ some (record {
            src = skip n s.src;
            out = s.out ++ encrypt_each n s.src;
            dst = skip n s.dst;
          })
    unfolding encrypt_loop
    encrypt_loop-eq-some n zero s hf lo hi hd = absurd (omega arith)
    encrypt_loop-eq-some zero (suc fuel) s hf lo hi hd =
        rw (lt→leb 8 (length s.src) (omega arith), append-nil s.out)
    encrypt_loop-eq-some (suc n) (suc fuel) s hf lo hi hd = rw (
      le→leb 8 (length s.src) (omega arith),
      encrypt_step-eq-some s (omega arith) (omega arith),
      encrypt_loop-eq-some n fuel
          (record {
            src = drop 8 s.src;
            out = s.out ++ encrypt_block e key (take 8 s.src);
            dst = drop 8 s.dst;
          })
          (omega arith) (omega (arith, length-drop 8 s.src)) (omega (arith, length-drop 8 s.src))
          (omega (arith, length-drop 8 s.dst)),
      append_assoc,
    )

    decrypt_step-eq-some :
        (s : State)
        → 8 ≤ length s.src
        → 8 ≤ length s.dst
        → decrypt_step e key s
          ≡ some (record {
            src = drop 8 s.src;
            out = s.out ++ decrypt_block e key (take 8 s.src);
            dst = drop 8 s.dst;
          })
    unfolding decrypt_step xtea_decrypt
    decrypt_step-eq-some s hs hd =
        let c = decrypt_block-IsBlock e key s.src in
        rw (
          transform-eq-some decrypt_block e s.src s.dst key hs hd key_fits,
          take-append (decrypt_block e key s.src) (drop 8 s.dst) 8 c.0,
          drop-append (decrypt_block e key s.src) (drop 8 s.dst) 8 c.0,
          ← decrypt_block-take e key s.src,
        )

    pub decrypt_loop-eq-some :
        (n fuel : ℕ) (s : State)
        → n < fuel
        → length s.src ≡ 8 * n
        → 8 * n ≤ length s.dst
        → decrypt_loop e key fuel s
          ≡ some (record {
            src = skip n s.src;
            out = s.out ++ decrypt_each n s.src;
            dst = skip n s.dst;
          })
    unfolding decrypt_loop
    decrypt_loop-eq-some n zero s hf hs hd = absurd (omega arith)
    decrypt_loop-eq-some zero (suc fuel) s hf hs hd =
        rw (le→ltb 0 (length s.src) (omega arith), append-nil s.out)
    decrypt_loop-eq-some (suc n) (suc fuel) s hf hs hd = rw (
      lt→ltb 0 (length s.src) (omega arith),
      decrypt_step-eq-some s (omega arith) (omega arith),
      decrypt_loop-eq-some n fuel
          (record {
            src = drop 8 s.src;
            out = s.out ++ decrypt_block e key (take 8 s.src);
            dst = drop 8 s.dst;
          })
          (omega arith) (omega (arith, length-drop 8 s.src)) (omega (arith, length-drop 8 s.dst)),
      append_assoc,
    )
