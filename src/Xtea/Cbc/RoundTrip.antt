-- ===== src/Xtea/Cbc/RoundTrip.antt =====
-- Proofs on a whole call of `XTeaDecryptCBC` of xtea.c.
use ebbnc.Common.{
  ℕ, zero, suc, ◌+◌, ◌*◌, ◌/◌, ◌%◌, ◌<◌, ◌≤◌, ◌≡◌, refl, sym, ap, ap₂, ◌∙◌, arith, [], ◌∷◌, ◌++◌,
  append_assoc, some, ◌||◌, length, take, drop, replicate, Bytes, IsByte, IsBytes, length-append,
  length-replicate, length-drop, length-take, Outcome, done, failed, fault, le→ltb, Bool-cases, ltb,
  inl, inr, false, All-take,
}
use ebbnc.Xtea.{Endian, decrypt_block}
use ebbnc.Xtea.Block.{IsBlock, decrypt_block-IsBlock}
use ebbnc.Xtea.Cbc.{State, xor_block, decrypt_rest, last?, xtea_encrypt_cbc, xtea_decrypt_cbc}
use ebbnc.Xtea.Cbc.Chain.{
  length-xor_block, chain_encrypt, chain_decrypt, chain_decrypt-chain_encrypt, length-chain_encrypt,
  length-skip, skip-eq-drop, pad, padding_of, length-pad, pad-IsBytes,
}
use ebbnc.Xtea.Cbc.Decrypt.{after, last?-append-replicate, xtea_decrypt_cbc-eq-rest}
use ebbnc.Xtea.Cbc.EncryptCall.{xtea_encrypt_cbc-eq-done}

-- Behind the loop, over a text that ends in its padding.
pub decrypt_rest-pad :
    (src_len : ℕ) (src : Bytes) (s : State)
    → s.out ≡ pad src
    → src_len ≡ length (pad src)
    → decrypt_rest src_len s ≡ done (length src) (pad src ++ s.dst)
unfolding decrypt_rest
decrypt_rest-pad src_len src s ho hn =
    let p = padding_of src in
    let last : last? s.out ≡ some (b'0' + p) =
      ap last? ho ∙ last?-append-replicate src p (b'0' + p) (omega arith) in
    let low : ltb (b'0' + p) (b'0' + 1) ≡ false = le→ltb (b'0' + p) (b'0' + 1) (omega arith) in
    let high : ltb (b'0' + 8) (b'0' + p) ≡ false = le→ltb (b'0' + 8) (b'0' + p) (omega arith) in
    rw (last, low, high)
      (ap₂ done
        (omega (arith, length-append src (replicate p (b'0' + p)), length-replicate p (b'0' + p)))
        (ap (λ t. t ++ s.dst) ho))

module _ (e : Endian) (key : Bytes) (key_fits : 16 ≤ length key) where
  -- The chain over the padded text is deciphered to that text, whose own length is returned.
  pub xtea_decrypt_cbc-chain_encrypt :
      (src ivec ivec' dst : Bytes)
      → IsBytes src
      → IsBytes ivec
      → 8 ≤ length ivec
      → 8 ≤ length ivec'
      → take 8 ivec' ≡ take 8 ivec
      → length (pad src) ≤ length dst
      → xtea_decrypt_cbc e key
          (chain_encrypt e key (suc (length src / 8)) (take 8 ivec) (pad src))
          dst
          ivec'
        ≡ done (length src) (pad src ++ drop (length (pad src)) dst)
  xtea_decrypt_cbc-chain_encrypt src ivec ivec' dst hs hi hv hv' same fits =
      let n = suc (length src / 8) in
      let cipher = chain_encrypt e key n (take 8 ivec) (pad src) in
      let whole : length cipher ≡ 8 * n = length-chain_encrypt e key n (take 8 ivec) (pad src) in
      let first : State = record { src = cipher; iv = take 8 ivec'; out = []; dst = dst } in
      let block : IsBlock (take 8 ivec) =
        (omega (arith, length-take 8 ivec), All-take IsByte 8 ivec hi) in
      let plain : chain_decrypt e key n (take 8 ivec') cipher ≡ pad src =
        ap (λ v. chain_decrypt e key n v cipher) same
        ∙ chain_decrypt-chain_encrypt e key n (take 8 ivec) (pad src) block (length-pad src)
            (pad-IsBytes src hs) in
      xtea_decrypt_cbc-eq-rest e key key_fits n cipher dst ivec' whole
        (omega (arith, length-pad src)) hv'
      ∙ decrypt_rest-pad (length cipher) src (after e key key_fits n first) plain
          (whole ∙ sym (length-pad src))
      ∙ ap (λ t. done (length src) (pad src ++ t))
          (skip-eq-drop n dst ∙ ap (λ k. drop k dst) (sym (length-pad src)))

  -- With a key of at least 16 bytes and a vector of at least eight, `XTeaEncryptCBC` succeeds on a
  -- text of bytes where `dst` has room for the padded text, keeps the size of `dst`, and
  -- `XTeaDecryptCBC` with the same key and vector gives the text and its length back from the bytes
  -- that it wrote, where its own `dst` has room for the padded text.
  pub xtea_decrypt_cbc-xtea_encrypt_cbc :
      (src ivec dst room : Bytes)
      → IsBytes src
      → IsBytes ivec
      → 8 ≤ length ivec
      → length (pad src) ≤ length dst
      → length (pad src) ≤ length room
      → (cipher : Bytes) × (rest : Bytes) × (tail : Bytes) × (xtea_encrypt_cbc e key src dst ivec
          ≡ done (length cipher) (cipher ++ rest))
        × (length (cipher ++ rest) ≡ length dst)
        × (xtea_decrypt_cbc e key cipher room ivec ≡ done (length src) (src ++ tail))
  xtea_decrypt_cbc-xtea_encrypt_cbc src ivec dst room hs hi hv hd hr =
      let n = suc (length src / 8) in
      let cipher = chain_encrypt e key n (take 8 ivec) (pad src) in
      let whole : length (pad src) ≡ length cipher =
        length-pad src ∙ sym (length-chain_encrypt e key n (take 8 ivec) (pad src)) in
      let rest = drop (length (pad src)) dst in
      let padding = replicate (padding_of src) (b'0' + padding_of src) in
      let tail = padding ++ drop (length (pad src)) room in
      (
        cipher,
        rest,
        tail,
        xtea_encrypt_cbc-eq-done e key ivec key_fits hv src dst hd
            ∙ ap (λ k. done k (cipher ++ rest)) whole,
        omega (arith, length-append cipher rest, length-drop (length (pad src)) dst),
        xtea_decrypt_cbc-chain_encrypt src ivec ivec room hs hi hv hv refl hr
            ∙ ap (done (length src)) (append_assoc src padding (drop (length (pad src)) room)),
      )

  -- The memory of a call on an empty text: the byte before `dst` is read.
  pub xtea_decrypt_cbc-empty :
      (dst ivec : Bytes) → 8 ≤ length ivec → xtea_decrypt_cbc e key [] dst ivec ≡ fault
  unfolding decrypt_rest last?
  xtea_decrypt_cbc-empty dst ivec hv =
      xtea_decrypt_cbc-eq-rest e key key_fits 0 [] dst ivec refl (omega arith) hv

  length-chain_decrypt :
      (n : ℕ) (iv src : Bytes)
      → length iv ≡ 8
      → length src ≡ 8 * n
      → length (chain_decrypt e key n iv src) ≡ 8 * n
  length-chain_decrypt zero iv src hv hs = omega arith
  length-chain_decrypt (suc n) iv src hv hs =
      let b = decrypt_block e key (take 8 src) in
      let full : length b ≡ 8 = (decrypt_block-IsBlock e key (take 8 src)).0 in
      omega (
        arith,
        length-append (xor_block b iv) (chain_decrypt e key n (take 8 src) (drop 8 src)),
        length-xor_block b iv (full ∙ sym hv),
        full,
        length-chain_decrypt n (take 8 src) (drop 8 src) (omega (arith, length-take 8 src))
            (omega (arith, length-drop 8 src)),
      )

-- A call on whole blocks that returns -1, or a length at most a block below the text's.
abbrev pub Settles : ℕ → ℕ → Outcome → Type 0
Settles src_len dst_size fault = ⊥
Settles src_len dst_size (failed d) = length d ≡ dst_size
Settles src_len dst_size (done m d) = (length d ≡ dst_size) × (m < src_len) × (src_len ≤ m + 8)

last?-total : (xs : Bytes) → 0 < length xs → (c : ℕ) × (last? xs ≡ some c)
unfolding last?
last?-total [] h = absurd (omega arith)
last?-total (x ∷ []) h = (x, refl)
last?-total (x ∷ y ∷ xs) h = last?-total (y ∷ xs) (omega arith)

decrypt_rest-Settles :
    (src_len dst_size : ℕ) (s : State)
    → 8 ≤ src_len
    → length s.out ≡ src_len
    → length (s.out ++ s.dst) ≡ dst_size
    → Settles src_len dst_size (decrypt_rest src_len s)
unfolding decrypt_rest
decrypt_rest-Settles src_len dst_size s h8 ho hd =
    let (c, last) = last?-total s.out (omega arith) in
    rw last (elim (Bool-cases (ltb c (b'0' + 1) || ltb (b'0' + 8) c)) [
      | inl bad ↦ rw bad hd
      | inr good ↦ rw good (hd, ground arith, ground arith)
    ])

-- With a key of at least 16 bytes, a vector of at least eight and a text of whole blocks, at least
-- one, that fits `dst`, `XTeaDecryptCBC` stays within its arrays whatever the text holds, keeps the
-- size of `dst`, and returns -1 or a length that lies one to eight bytes below `srcLen`.
pub xtea_decrypt_cbc-Settles :
    (e : Endian) (key src dst ivec : Bytes)
    → 16 ≤ length key
    → 8 ≤ length ivec
    → 0 < length src
    → length src % 8 ≡ 0
    → length src ≤ length dst
    → Settles (length src) (length dst) (xtea_decrypt_cbc e key src dst ivec)
xtea_decrypt_cbc-Settles e key src dst ivec hk hv h0 hm hd =
    let n = length src / 8 in
    let whole : length src ≡ 8 * n = omega arith in
    let first : State = record { src = src; iv = take 8 ivec; out = []; dst = dst } in
    let s = after e key hk n first in
    let full =
      length-chain_decrypt e key hk n (take 8 ivec) src (omega (arith, length-take 8 ivec)) whole in
    rw (xtea_decrypt_cbc-eq-rest e key hk n src dst ivec whole hd hv) (
      decrypt_rest-Settles (length src) (length dst) s (omega arith) (full ∙ sym whole)
        (omega (arith, full, length-append s.out s.dst, length-skip n dst)))

-- A text that is no sequence of whole blocks is refused, with nothing written.
pub xtea_decrypt_cbc-eq-failed :
    (e : Endian) (key src dst ivec : Bytes)
    → 0 < length src % 8
    → xtea_decrypt_cbc e key src dst ivec ≡ failed dst
unfolding xtea_decrypt_cbc
xtea_decrypt_cbc-eq-failed e key src dst ivec h = ground arith
