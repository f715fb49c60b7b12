-- ===== src/Embedded.antt =====
-- The embedded configuration: `XTeaGenerateIVec` of xtea.c, `encrypt` of makeconf.c and
-- `Config_decryptEmbedded` of config.c. A C string is the list of its bytes before the zero. What
-- the system answers is a parameter: `alloc n` says whether `calloc` has `n` bytes to give.
pub mod Encrypted
pub mod Decrypted
pub mod RoundTrip
pub mod Safety
pub mod Load
use ebbnc.Common.{
  ℕ, zero, suc, ◌+◌, ◌-◌, ◌*◌, ◌/◌, Bool, true, false, ◌&&◌, ◌||◌, not, Option, none, some, List,
  [], ◌∷◌, ◌++◌, ltb, leb, ◌==◌, if◌then◌else◌, length, take, drop, replicate, Bytes, Outcome,
  fault, failed, done, or_fault, store, Pointer, crash, null, at,
}
use ebbnc.Xtea.{Endian, xtea_block_size}
use ebbnc.Xtea.Cbc.{xtea_encrypt_cbc, xtea_decrypt_cbc}
use ebbnc.Hex.{hex_encode, hex_decode}

-- The answers of the system about /dev/urandom: whether it can be opened, and the bytes that
-- `read` stores, at most `XTEA_BLOCK_SIZE`, or its failure.
pub record Urandom : Type 0 where
  pub opens : Bool
  pub gives : Option Bytes

-- What `ret == XTEA_BLOCK_SIZE ? 0 : -1` makes of the bytes read.
read_ivec : Option Bytes → Bytes → Outcome
read_ivec none ivec = failed ivec
read_ivec (some bytes) ivec = or_fault (store bytes ivec) λ rest.
    if length bytes == xtea_block_size then done 0 (bytes ++ rest) else failed (bytes ++ rest)

unfoldable pub xtea_generate_ivec : Urandom → Bytes → Outcome
unfolding read_ivec
xtea_generate_ivec u ivec = if u.opens then read_ivec u.gives ivec else failed ivec

-- What a caller does with an array that a routine has filled: -1 gives up with a null pointer.
abbrev pub unless_failed : Outcome → (ℕ → Bytes → Pointer) → Pointer
unless_failed fault k = crash
unless_failed (failed d) k = null
unless_failed (done n d) k = k n d

-- `calloc(size, 1)`.
abbrev pub calloc : (ℕ → Bool) → ℕ → (Bytes → Pointer) → Pointer
calloc alloc size k = if alloc size then k (replicate size 0) else null

module _ (e : Endian) (alloc : ℕ → Bool) where
  -- Behind the encryption: `len` bytes at `cipher` in hexadecimal.
  pub encode : ℕ → Bytes → Pointer
  encode len cipher =
      calloc alloc (len * 2 + 1)
        λ encoded. unless_failed (hex_encode (take len cipher) encoded) λ n text. at text

  pub encrypt : Urandom → Bytes → Bytes → Pointer
  encrypt u plain key = calloc alloc (length plain + xtea_block_size * 2) λ zeros.
      unless_failed (xtea_generate_ivec u zeros) λ _ cipher.
        unless_failed (xtea_encrypt_cbc e key plain (drop xtea_block_size cipher) cipher)
          λ len filled. encode (len + xtea_block_size) (take xtea_block_size cipher ++ filled)

-- `iscntrl` and `isspace` of the C locale.
abbrev pub iscntrl : ℕ → Bool
iscntrl c = ltb c 32 || c == 127

abbrev pub isspace : ℕ → Bool
isspace c = c == 32 || leb 9 c && leb c 13

-- The test of the last loop, up to the terminating zero; `none` is a read past the array.
pub is_text : Bytes → Option Bool
is_text [] = none
is_text (c ∷ plain) =
    if c == 0 then some true else if iscntrl c && not (isspace c) then some false else is_text plain

-- `plain[plainLen] = '\0'`.
pub terminate : ℕ → Bytes → Option Bytes
terminate zero [] = none
terminate zero (c ∷ plain) = some (0 ∷ plain)
terminate (suc n) [] = none
terminate (suc n) (c ∷ plain) = elim (terminate n plain) [ none ↦ none | some d ↦ some (c ∷ d) ]

abbrev pub or_crash {ℓ} : {A : Type ℓ} → Option A → (A → Pointer) → Pointer
or_crash none k = crash
or_crash (some a) k = k a

-- Behind the decryption: the terminating zero and the test for control characters.
pub check_text : ℕ → Bytes → Pointer
check_text plain_len plain =
    or_crash (terminate plain_len plain)
      λ text. or_crash (is_text text) λ okay. if okay then at text else null

module _ (e : Endian) (alloc : ℕ → Bool) where
  -- Behind `hexDecode`: `cipher_len` bytes at `cipher`, of which the first block is the vector.
  pub decipher : Bytes → ℕ → Bytes → Pointer
  decipher key cipher_len cipher =
      if ltb cipher_len xtea_block_size
      then null
      else calloc alloc cipher_len λ plain.
        unless_failed
          (xtea_decrypt_cbc e key
            (take (cipher_len - xtea_block_size) (drop xtea_block_size cipher)) plain
            (take xtea_block_size cipher))
          check_text

  -- `conf` is the text `CONF_EMBEDDED`.
  pub decrypt_embedded : Bytes → Bytes → Pointer
  decrypt_embedded conf key =
      calloc alloc (length conf / 2 + 1)
        λ zeros. unless_failed (hex_decode conf zeros) (decipher key)
