-- ===== src/Xtea/Cbc/EncryptCall.antt =====
-- Proofs on a whole call of `XTeaEncryptCBC` of xtea.c, for every size of `dst`.
use ebbnc.Common.{
  ℕ, zero, suc, ◌+◌, ◌*◌, ◌/◌, ◌%◌, ◌<◌, ◌≤◌, ◌≡◌, refl, sym, ap, ap₂, ◌∙◌, arith, [], ◌++◌,
  append_assoc, length, take, drop, replicate, Bytes, length-append, length-replicate, length-take,
  Outcome, done, failed, fault, le→leb, le→ltb, Bool-cases, ltb, leb, ◌==◌, if◌then◌else◌, inl, inr,
  ltb→le, leb→le, ==_iff, drop_add,
}
use ebbnc.Xtea.{Endian}
use ebbnc.Xtea.Cbc.{State, encrypt_rest, xtea_encrypt_cbc}
use ebbnc.Xtea.Cbc.Chain.{
  cipher_block, chain_encrypt, chain_iv, skip, length-skip, skip-eq-drop, chain_encrypt_last,
  chain_encrypt-append, skip-append_le, padding_of, pad, length-pad, cipher_block-IsBlock,
}
use ebbnc.Xtea.Cbc.Encrypt.{
  after, encrypt_loop-eq-some, encrypt_rest-eq-last, encrypt_rest-eq-failed, encrypt_last-eq-done,
  encrypt_last-eq-fault,
}

length-chain_iv :
    (e : Endian) (key : Bytes) (n : ℕ) (iv src : Bytes)
    → length iv ≡ 8
    → length (chain_iv e key n iv src) ≡ 8
length-chain_iv e key zero iv src h = h
length-chain_iv e key (suc n) iv src h =
    length-chain_iv e key n (cipher_block e key iv src) (drop 8 src)
      (cipher_block-IsBlock e key iv src).0

module _ (e : Endian) (key ivec : Bytes) (key_fits : 16 ≤ length key)
    (ivec_fits : 8 ≤ length ivec) where
  abbrev first : Bytes → Bytes → State
  first src dst = record { src = src; iv = take 8 ivec; out = []; dst = dst }

  -- The variables when the loop is left.
  abbrev left : Bytes → Bytes → State
  left src dst = after e key key_fits (length src / 8) (first src dst)

  length-iv : (src : Bytes) → length (chain_iv e key (length src / 8) (take 8 ivec) src) ≡ 8
  length-iv src =
      length-chain_iv e key (length src / 8) (take 8 ivec) src (omega (arith, length-take 8 ivec))

  xtea_encrypt_cbc-eq-rest :
      (src dst : Bytes)
      → length src ≤ length dst
      → xtea_encrypt_cbc e key src dst ivec
        ≡ encrypt_rest e key (length src) (length dst) (left src dst)
  unfolding xtea_encrypt_cbc
  xtea_encrypt_cbc-eq-rest src dst h = rw (
    le→ltb (length dst) (length src) h,
    le→leb 8 (length ivec) ivec_fits,
    encrypt_loop-eq-some e key key_fits (length src / 8) (suc (length src)) (first src dst)
        (omega arith) (omega arith) (omega arith) (omega arith) (omega (arith, length-take 8 ivec)),
  )

  -- The last block of the chain over the padded text is the one made behind the loop.
  chain_encrypt-pad :
      (src : Bytes)
      → let n = length src / 8 in
        chain_encrypt e key (suc n) (take 8 ivec) (pad src)
        ≡ chain_encrypt e key n (take 8 ivec) src
          ++ cipher_block e key
              (chain_iv e key n (take 8 ivec) src)
              (skip n src ++ replicate (padding_of src) (b'0' + padding_of src))
  chain_encrypt-pad src =
      let n = length src / 8 in
      let tail = replicate (padding_of src) (b'0' + padding_of src) in
      let (p, q) = chain_encrypt-append e key n (take 8 ivec) src tail (omega arith) in
      chain_encrypt_last e key n (take 8 ivec) (pad src)
      ∙ rw (p, q, skip-append_le n src tail (omega arith)) refl

  pub xtea_encrypt_cbc-eq-done :
      (src dst : Bytes)
      → length (pad src) ≤ length dst
      → xtea_encrypt_cbc e key src dst ivec
        ≡ done (length (pad src)) (
            chain_encrypt e key (suc (length src / 8)) (take 8 ivec) (pad src)
            ++ drop (length (pad src)) dst)
  xtea_encrypt_cbc-eq-done src dst h =
      let n = length src / 8 in
      let tail = replicate (padding_of src) (b'0' + padding_of src) in
      let s = left src dst in
      let sl : length s.src ≡ length src % 8 = omega (arith, length-skip n src) in
      let pl : length (pad src) ≡ length src + padding_of src = omega (
        arith,
        length-append src tail,
        length-replicate (padding_of src) (b'0' + padding_of src),
      ) in
      let rest : drop 8 (skip n dst) ≡ drop (length (pad src)) dst =
        ap (drop 8) (skip-eq-drop n dst)
        ∙ sym (drop_add (8 * n) 8 dst)
        ∙ ap (λ k. drop k dst) (omega (arith, length-pad src)) in
      xtea_encrypt_cbc-eq-rest src dst (omega arith)
      ∙ encrypt_rest-eq-last e key key_fits (length src) (length dst) s sl (ground (arith, pl))
      ∙ encrypt_last-eq-done e key key_fits (length src) (padding_of src) s (omega arith)
          (omega arith) (length-iv src) (omega (arith, length-skip n dst))
      ∙ ap₂ done (sym pl) (
          sym (
            append_assoc (chain_encrypt e key n (take 8 ivec) src)
              (cipher_block e key (chain_iv e key n (take 8 ivec) src) (skip n src ++ tail))
              (drop 8 (skip n dst)))
          ∙ ap₂ ◌++◌ (sym (chain_encrypt-pad src)) rest)

  xtea_encrypt_cbc-eq-failed :
      (src dst : Bytes)
      → length src % 8 ≡ 0
      → length src ≤ length dst
      → length dst < length src + 8
      → xtea_encrypt_cbc e key src dst ivec
        ≡ failed (chain_encrypt e key (length src / 8) (take 8 ivec) src ++ drop (length src) dst)
  xtea_encrypt_cbc-eq-failed src dst hz lo hi =
      let n = length src / 8 in
      xtea_encrypt_cbc-eq-rest src dst lo
      ∙ encrypt_rest-eq-failed e key key_fits (length src) (length dst) (left src dst)
          (omega (arith, length-skip n src)) hi
      ∙ ap failed (
          ap (λ t. chain_encrypt e key n (take 8 ivec) src ++ t)
            (skip-eq-drop n dst ∙ ap (λ k. drop k dst) (omega arith)))

  pub xtea_encrypt_cbc-eq-fault :
      (src dst : Bytes)
      → 0 < length src % 8
      → length src ≤ length dst
      → length dst < length (pad src)
      → xtea_encrypt_cbc e key src dst ivec ≡ fault
  xtea_encrypt_cbc-eq-fault src dst hz lo hi =
      let n = length src / 8 in
      xtea_encrypt_cbc-eq-rest src dst lo
      ∙ encrypt_rest-eq-last e key key_fits (length src) (length dst) (left src dst)
          (omega (arith, length-skip n src)) (inl hz)
      ∙ encrypt_last-eq-fault e key key_fits (length src) (padding_of src) (left src dst)
          (omega (arith, length-skip n dst, length-pad src))

  -- Too small an array for the text: -1 and nothing written. Room for the padded text: its chain is
  -- written. In between: -1 behind the blocks of a text of whole blocks, or a write past `dst`.
  abbrev pub encrypt_ending : Bytes → Bytes → Outcome
  encrypt_ending src dst =
      if ltb (length dst) (length src)
      then failed dst
      else if leb (length (pad src)) (length dst)
      then done (length (pad src)) (
          chain_encrypt e key (suc (length src / 8)) (take 8 ivec) (pad src)
          ++ drop (length (pad src)) dst)
      else if length src % 8 == 0
      then failed (chain_encrypt e key (length src / 8) (take 8 ivec) src ++ drop (length src) dst)
      else fault

  -- With a key of at least 16 bytes and a vector of at least eight, a call of `XTeaEncryptCBC` ends
  -- on every text and every `dst` as `encrypt_ending` says: -1 with `dst` untouched where it is
  -- shorter than the text, the chain over the padded text where that fits, and in between -1 for a
  -- text of whole blocks and a write past the end of `dst` for any other text.
  pub xtea_encrypt_cbc-eq-ending :
      (src dst : Bytes) → xtea_encrypt_cbc e key src dst ivec ≡ encrypt_ending src dst
  xtea_encrypt_cbc-eq-ending src dst = elim (Bool-cases (ltb (length dst) (length src))) [
    | inl short ↦ unfold xtea_encrypt_cbc in rw short refl
    | inr long ↦ rw long (fits (ltb→le (length dst) (length src) long))
  ]
    where
      room :
          length src ≤ length dst
          → length dst < length (pad src)
          → xtea_encrypt_cbc e key src dst ivec ≡ (
              if length src % 8 == 0
              then failed
                  (chain_encrypt e key (length src / 8) (take 8 ivec) src ++ drop (length src) dst)
              else fault)
      room lo hi = elim (Bool-cases (length src % 8 == 0)) [
        | inl whole ↦ rw whole (
            xtea_encrypt_cbc-eq-failed src dst ((==_iff (length src % 8) 0).0 whole) lo
              (omega (arith, (==_iff (length src % 8) 0).0 whole, length-pad src)))
        | inr part ↦ rw part (xtea_encrypt_cbc-eq-fault src dst (ground arith) lo hi)
      ]

      fits :
          length src ≤ length dst
          → xtea_encrypt_cbc e key src dst ivec ≡ (
              if leb (length (pad src)) (length dst)
              then done (length (pad src)) (
                  chain_encrypt e key (suc (length src / 8)) (take 8 ivec) (pad src)
                  ++ drop (length (pad src)) dst)
              else if length src % 8 == 0
              then failed
                  (chain_encrypt e key (length src / 8) (take 8 ivec) src ++ drop (length src) dst)
              else fault)
      fits lo = elim (Bool-cases (leb (length (pad src)) (length dst))) [
        | inl wide ↦
            rw wide (xtea_encrypt_cbc-eq-done src dst (leb→le (length (pad src)) (length dst) wide))
        | inr tight ↦ rw tight (room lo (ground arith))
      ]
