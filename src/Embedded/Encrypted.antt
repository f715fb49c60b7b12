-- ===== src/Embedded/Encrypted.antt =====
-- Proofs on `encrypt` of makeconf.c: the text that it makes of a configuration.
use ebbnc.Common.{
  ℕ, zero, suc, ◌+◌, ◌*◌, ◌/◌, ◌≤◌, ◌≡◌, refl, sym, ap, ◌∙◌, arith, Bool, [], ◌∷◌, ◌++◌,
  append_assoc, length, take, drop, replicate, Bytes, take-append, drop-append, length-append,
  length-drop, length-replicate, length-take, store-eq-some, true, some, ==_iff, at,
}
use ebbnc.Xtea.{Endian}
use ebbnc.Xtea.Cbc.Chain.{chain_encrypt, length-chain_encrypt, pad, length-pad}
use ebbnc.Xtea.Cbc.EncryptCall.{xtea_encrypt_cbc-eq-done}
use ebbnc.Hex.Encode.{hex_text, hex_encode-eq-done}
use ebbnc.Embedded.{Urandom, xtea_generate_ivec, encode, encrypt}

drop-replicate : (n : ℕ) (c : ℕ) → drop n (replicate n c) ≡ []
drop-replicate zero c = refl
drop-replicate (suc n) c = drop-replicate n c

module _ (e : Endian) (alloc : ℕ → Bool) (has_room : (n : ℕ) → alloc n ≡ true) where
  encode-eq-at :
      (len : ℕ) (cipher : Bytes)
      → len ≤ length cipher
      → encode e alloc len cipher ≡ at (hex_text (take len cipher) ++ (0 ∷ []))
  unfolding encode
  encode-eq-at len cipher h =
      let n : length (take len cipher) ≡ len = omega (arith, length-take len cipher) in
      let size = len * 2 + 1 in
      rw
        (
          has_room size,
          hex_encode-eq-done (take len cipher) (replicate size 0)
              (omega (arith, n, length-replicate {A = ℕ} size 0)),
        )
        (ap (λ t. at (hex_text (take len cipher) ++ 0 ∷ t))
          (ap (λ k. drop k (replicate size 0)) (omega (arith, n)) ∙ drop-replicate size 0))

  -- With memory and eight random bytes, the text is that of the vector and the chain.
  pub encrypt-eq-at :
      (u : Urandom) (iv plain key : Bytes)
      → u.opens ≡ true
      → u.gives ≡ some iv
      → length iv ≡ 8
      → 16 ≤ length key
      → encrypt e alloc u plain key
        ≡ at (
            hex_text (iv ++ chain_encrypt e key (suc (length plain / 8)) iv (pad plain))
            ++ (0 ∷ []))
  unfolding encrypt xtea_generate_ivec
  encrypt-eq-at u iv plain key ho hg hi hk =
      let size = length plain + 16 in
      let zeros : Bytes = replicate size 0 in
      let rest = drop (length iv) zeros in
      let cipher = iv ++ rest in
      let chain = chain_encrypt e key (suc (length plain / 8)) iv (pad plain) in
      let zn : length zeros ≡ size = length-replicate size 0 in
      let rn : length rest ≡ length plain + 8 =
        omega (arith, zn, length-drop (length iv) zeros, hi) in
      let cn : length chain ≡ length (pad plain) =
        length-chain_encrypt e key (suc (length plain / 8)) iv (pad plain)
        ∙ sym (length-pad plain) in
      let end = drop (length (pad plain)) rest in
      let n = length (pad plain) + 8 in
      rw
        (
          has_room size,
          ho,
          hg,
          store-eq-some iv zeros (omega (arith, zn, hi)),
          (==_iff (length iv) 8).1 hi,
          drop-append iv rest 8 hi,
          xtea_encrypt_cbc-eq-done e key cipher hk (omega (arith, hi, length-append iv rest)) plain
              rest (omega (arith, rn, length-pad plain)),
          take-append iv rest 8 hi,
          encode-eq-at n (iv ++ (chain ++ end))
              (omega (arith, hi, cn, length-append iv (chain ++ end), length-append chain end)),
        )
        (ap (λ t. at (hex_text t ++ 0 ∷ []))
          (ap (take n) (sym (append_assoc iv chain end))
            ∙ take-append (iv ++ chain) end n (omega (arith, hi, cn, length-append iv chain))))
