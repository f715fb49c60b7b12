-- ===== src/Embedded/RoundTrip.antt =====
-- From `encrypt` of makeconf.c to `Config_decryptEmbedded` and back.
use ebbnc.Common.{
  ℕ, suc, ◌+◌, ◌/◌, ◌<◌, ◌≤◌, ◌≡◌, ◌≢◌, arith, Bool, [], ◌∷◌, ◌++◌, get_or, length, drop, replicate,
  Bytes, All, All-append, All-get_or, IsByte, IsBytes, length-replicate, true, some, at,
}
use ebbnc.Xtea.{Endian}
use ebbnc.Xtea.Block.{IsBlock}
use ebbnc.Xtea.Cbc.Chain.{chain_encrypt, chain_encrypt-IsBytes, pad}
use ebbnc.Hex.{lookup, digits_of}
use ebbnc.Hex.Encode.{hex_text, length-hex_text}
use ebbnc.Hex.Decode.{hex_decode-hex_text}
use ebbnc.Embedded.{Urandom, encrypt, decrypt_embedded}
use ebbnc.Embedded.Encrypted.{encrypt-eq-at}
use ebbnc.Embedded.Decrypted.{IsClean, decipher-chain_encrypt}

-- A text that can stand in a C string: no byte of it is zero.
abbrev pub IsZeroFree : Bytes → Type 0
IsZeroFree = All (λ c. c ≢ 0)

get_or-lookup_ne : (d : ℕ) → d < 16 → get_or lookup d 0 ≢ 0
get_or-lookup_ne d h = All-get_or (λ c. c ≢ 0) lookup d 0 (omega arith) h

hex_text-IsZeroFree : (bytes : Bytes) → IsZeroFree (hex_text bytes)
unfolding digits_of
hex_text-IsZeroFree [] = tt
hex_text-IsZeroFree (c ∷ bytes) = (
  get_or-lookup_ne _ (omega arith),
  (get_or-lookup_ne _ (omega arith), hex_text-IsZeroFree bytes),
)

module _ (e : Endian) (alloc : ℕ → Bool) (has_room : (n : ℕ) → alloc n ≡ true) where
  decrypt_embedded-hex_text :
      (iv plain key : Bytes)
      → IsBlock iv
      → 16 ≤ length key
      → IsBytes plain
      → All IsClean plain
      → let chain = chain_encrypt e key (suc (length plain / 8)) iv (pad plain) in
        (tail : Bytes) × (decrypt_embedded e alloc (hex_text (iv ++ chain)) key
          ≡ at (plain ++ (0 ∷ tail)))
  unfolding decrypt_embedded
  decrypt_embedded-hex_text iv plain key hi hk hb hc =
      let chain = chain_encrypt e key (suc (length plain / 8)) iv (pad plain) in
      let data' = iv ++ chain in
      let conf = hex_text data' in
      let size = length conf / 2 + 1 in
      let zeros : Bytes = replicate size 0 in
      let rest = 0 ∷ drop (length data' + 1) zeros in
      let bytes : IsBytes data' =
        All-append IsByte iv chain hi.1
          (chain_encrypt-IsBytes e key (suc (length plain / 8)) iv (pad plain)) in
      let (tail, ends) = decipher-chain_encrypt e alloc has_room iv plain key rest hi hk hb hc in
      (
        tail,
        rw
            (
              has_room size,
              hex_decode-hex_text data' zeros bytes
                  (omega (arith, length-hex_text data', length-replicate {A = ℕ} size 0)),
            )
            ends,
      )

  -- With memory for every request, a block from /dev/urandom, a key of at least 16 bytes and a text
  -- without a zero or a control character that is no white space, makeconf's `encrypt` returns a
  -- C string, and `Config_decryptEmbedded` of that string under the same key returns an array that
  -- starts with the text and a terminating zero.
  pub decrypt_embedded-encrypt :
      (u : Urandom) (iv plain key : Bytes)
      → u.opens ≡ true
      → u.gives ≡ some iv
      → IsBlock iv
      → 16 ≤ length key
      → IsBytes plain
      → All IsClean plain
      → (text : Bytes) × (tail : Bytes) × (encrypt e alloc u plain key ≡ at (text ++ (0 ∷ [])))
        × IsZeroFree text
        × (decrypt_embedded e alloc text key ≡ at (plain ++ (0 ∷ tail)))
  decrypt_embedded-encrypt u iv plain key ho hg hi hk hb hc =
      let chain = chain_encrypt e key (suc (length plain / 8)) iv (pad plain) in
      let (tail, back) = decrypt_embedded-hex_text iv plain key hi hk hb hc in
      (
        hex_text (iv ++ chain),
        tail,
        encrypt-eq-at e alloc has_room u iv plain key ho hg hi.0 hk,
        hex_text-IsZeroFree (iv ++ chain),
        back,
      )
