-- ===== src/Embedded/Decrypted.antt =====
-- Proofs on `Config_decryptEmbedded` of config.c behind `hexDecode`.
use ebbnc.Common.{
  ℕ, suc, ◌+◌, ◌-◌, ◌*◌, ◌/◌, ◌<◌, ◌≤◌, ◌≡◌, ◌≢◌, refl, arith, Bool, [], ◌∷◌, ◌++◌, append_assoc,
  length, take, drop, replicate, Bytes, All, IsBytes, take-append, drop-append, length-append,
  length-replicate, done, true, false, not, ◌&&◌, some, at, take-length, ◌==◌, le→ltb,
}
use ebbnc.Xtea.{Endian}
use ebbnc.Xtea.Block.{IsBlock}
use ebbnc.Xtea.Cbc.{xtea_decrypt_cbc}
use ebbnc.Xtea.Cbc.Chain.{chain_encrypt, length-chain_encrypt, pad, padding_of, length-pad}
use ebbnc.Xtea.Cbc.RoundTrip.{xtea_decrypt_cbc-chain_encrypt}
use ebbnc.Embedded.{iscntrl, isspace, is_text, terminate, check_text, decipher}

-- A byte of a text that the test for control characters lets pass.
abbrev pub IsClean : ℕ → Type 0
IsClean c = (c ≢ 0) × ((iscntrl c && not (isspace c)) ≡ false)

terminate-append :
    (xs ys : Bytes)
    → 0 < length ys
    → terminate (length xs) (xs ++ ys) ≡ some (xs ++ (0 ∷ drop 1 ys))
unfolding terminate
terminate-append [] [] h = absurd (omega arith)
terminate-append [] (y ∷ ys) h = refl
terminate-append (x ∷ xs) ys h = rw (terminate-append xs ys h)

is_text-append : (xs ys : Bytes) → All IsClean xs → is_text (xs ++ (0 ∷ ys)) ≡ some true
unfolding is_text
is_text-append [] ys h = refl
is_text-append (x ∷ xs) ys h =
    let zero_free : (x == 0) ≡ false = ground arith in
    rw (zero_free, h.0.1) (is_text-append xs ys h.1)

check_text-eq-at :
    (xs ys : Bytes)
    → 0 < length ys
    → All IsClean xs
    → check_text (length xs) (xs ++ ys) ≡ at (xs ++ (0 ∷ drop 1 ys))
unfolding check_text
check_text-eq-at xs ys h clean = rw (terminate-append xs ys h, is_text-append xs (drop 1 ys) clean)

module _ (e : Endian) (alloc : ℕ → Bool) (has_room : (n : ℕ) → alloc n ≡ true) where
  -- A vector and a chain over a clean text are deciphered to that text.
  pub decipher-chain_encrypt :
      (iv plain key rest : Bytes)
      → IsBlock iv
      → 16 ≤ length key
      → IsBytes plain
      → All IsClean plain
      → let chain = chain_encrypt e key (suc (length plain / 8)) iv (pad plain) in
        (tail : Bytes) × (decipher e alloc key (length (iv ++ chain)) ((iv ++ chain) ++ rest)
          ≡ at (plain ++ (0 ∷ tail)))
  unfolding decipher
  decipher-chain_encrypt iv plain key rest hi hk hb hc =
      let n = suc (length plain / 8) in
      let chain = chain_encrypt e key n iv (pad plain) in
      let cipher = (iv ++ chain) ++ rest in
      let size = length (iv ++ chain) in
      let whole : size ≡ 8 + 8 * n =
        omega (arith, length-append iv chain, length-chain_encrypt e key n iv (pad plain), hi.0) in
      let buffer : Bytes = replicate size 0 in
      let full : length buffer ≡ size = length-replicate size 0 in
      let p = padding_of plain in
      let padding = replicate p (b'0' + p) in
      let behind = padding ++ drop (length (pad plain)) buffer in
      let self : take 8 iv ≡ iv = take-length 8 iv hi.0 in
      let decrypts : xtea_decrypt_cbc e key chain buffer iv
          ≡ done (length plain) (pad plain ++ drop (length (pad plain)) buffer) =
        rw self at (
          xtea_decrypt_cbc-chain_encrypt e key hk plain iv iv buffer hb hi.1 (omega arith)
            (omega arith) refl (omega (arith, length-pad plain))) in
      (
        drop 1 behind,
        rw
            (
              le→ltb size 8 (omega arith),
              has_room size,
              append_assoc iv chain rest,
              drop-append iv (chain ++ rest) 8 hi.0,
              take-append iv (chain ++ rest) 8 hi.0,
              take-append chain rest (size - 8)
                  (omega (arith, length-chain_encrypt e key n iv (pad plain))),
              decrypts,
              append_assoc plain padding (drop (length (pad plain)) buffer),
            )
            (check_text-eq-at plain behind
              (omega (
                arith,
                length-append padding (drop (length (pad plain)) buffer),
                length-replicate p (b'0' + p),
              ))
              hc),
      )
