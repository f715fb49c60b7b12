-- ===== src/Xtea/Ecb/Calls.antt =====
-- Proofs on whole calls of the electronic code book of xtea.c.
use ebbnc.Common.{
  ℕ, suc, ◌+◌, ◌-◌, ◌*◌, ◌/◌, ◌%◌, ◌<◌, ◌≤◌, ◌≡◌, refl, sym, ap, ap₂, ◌∙◌, arith, true, [], ◌++◌,
  append_assoc, length, drop, replicate, Bytes, IsBytes, length-append, length-replicate, done,
  failed, fault, le→ltb, ◌==◌, ==_iff, drop_add, u8, ◌⊎◌,
}
use ebbnc.Xtea.{Endian, encrypt_block, xtea_encrypt, transform}
use ebbnc.Xtea.Block.{encrypt_block-take, transform-eq-some}
use ebbnc.Xtea.Cbc.{last?}
use ebbnc.Xtea.Cbc.Chain.{
  skip, length-skip, skip-eq-drop, skip-append_le, pad, padding_of, length-pad, pad-IsBytes,
}
use ebbnc.Xtea.Cbc
use ebbnc.Xtea.Cbc.RoundTrip.{decrypt_rest-pad}
use ebbnc.Xtea.Ecb.{
  State, encrypt_last, encrypt_rest, xtea_encrypt_ecb, decrypt_rest, xtea_decrypt_ecb,
}
use ebbnc.Xtea.Ecb.Loops.{
  encrypt_each, decrypt_each, length-encrypt_each, encrypt_each_last, encrypt_each-append,
  decrypt_each-encrypt_each, encrypt_loop-eq-some, decrypt_loop-eq-some,
}

module _ (e : Endian) (key : Bytes) (key_fits : 16 ≤ length key) where
  -- The variables when the loop is left.
  abbrev left : Bytes → Bytes → State
  left src dst =
      let n = length src / 8 in
      record { src = skip n src; out = encrypt_each e key n src; dst = skip n dst }

  xtea_encrypt_ecb-eq-rest :
      (src dst : Bytes)
      → length src ≤ length dst
      → xtea_encrypt_ecb e key src dst ≡ encrypt_rest e key (length src) (length dst) (left src dst)
  unfolding xtea_encrypt_ecb
  xtea_encrypt_ecb-eq-rest src dst h = rw (
    le→ltb (length dst) (length src) h,
    encrypt_loop-eq-some e key key_fits (length src / 8) (suc (length src))
        (record { src = src; out = []; dst = dst }) (omega arith) (omega arith) (omega arith)
        (omega arith),
  )

  encrypt_rest-eq-last :
      (src_len dst_size : ℕ) (s : State)
      → length s.src ≡ src_len % 8
      → (0 < src_len % 8) ⊎ (src_len + 8 ≤ dst_size)
      → encrypt_rest e key src_len dst_size s ≡ encrypt_last e key src_len (8 - src_len % 8) s
  unfolding encrypt_rest
  encrypt_rest-eq-last src_len dst_size s h room = ground arith

  encrypt_rest-eq-failed :
      (src_len dst_size : ℕ) (s : State)
      → length s.src ≡ 0
      → dst_size < src_len + 8
      → encrypt_rest e key src_len dst_size s ≡ failed (s.out ++ s.dst)
  unfolding encrypt_rest
  encrypt_rest-eq-failed src_len dst_size s h room = ground arith

  encrypt_last-eq-done :
      (src_len p : ℕ) (s : State)
      → p ≤ 8
      → length s.src + p ≡ 8
      → 8 ≤ length s.dst
      → encrypt_last e key src_len p s
        ≡ done
            (src_len + p)
            (s.out ++ (encrypt_block e key (s.src ++ replicate p (b'0' + p)) ++ drop 8 s.dst))
  unfolding encrypt_last xtea_encrypt
  encrypt_last-eq-done src_len p s hp hn hd =
      let block = s.src ++ replicate p (b'0' + p) in
      let full : length block ≡ 8 =
        omega
          (arith, length-append s.src (replicate p (b'0' + p)), length-replicate p (b'0' + p)) in
      let small : u8 (b'0' + p) ≡ b'0' + p = omega arith in
      rw
        (small, transform-eq-some encrypt_block e block s.dst key (omega (arith, full)) hd key_fits)

  encrypt_last-eq-fault :
      (src_len p : ℕ) (s : State) → length s.dst < 8 → encrypt_last e key src_len p s ≡ fault
  unfolding encrypt_last xtea_encrypt transform
  encrypt_last-eq-fault src_len p s h = ground arith

  -- The last block of the padded text is the one made behind the loop.
  encrypt_each-pad :
      (src : Bytes)
      → let n = length src / 8 in
        encrypt_each e key (suc n) (pad src)
        ≡ encrypt_each e key n src
          ++ encrypt_block e key (skip n src ++ replicate (padding_of src) (b'0' + padding_of src))
  encrypt_each-pad src =
      let n = length src / 8 in
      let tail = replicate (padding_of src) (b'0' + padding_of src) in
      encrypt_each_last e key n (pad src)
      ∙ rw
          (
            encrypt_each-append e key n src tail (omega arith),
            skip-append_le n src tail (omega arith),
            encrypt_block-take e key (skip n src ++ tail),
          )
          refl

  -- With a key of at least 16 bytes and room for the padded text, `XTeaEncryptECB` returns the length
  -- of that text and has written each of its blocks enciphered by itself, and nothing behind them.
  pub xtea_encrypt_ecb-eq-done :
      (src dst : Bytes)
      → length (pad src) ≤ length dst
      → xtea_encrypt_ecb e key src dst
        ≡ done
            (length (pad src))
            (encrypt_each e key (suc (length src / 8)) (pad src) ++ drop (length (pad src)) dst)
  xtea_encrypt_ecb-eq-done src dst h =
      let n = length src / 8 in
      let tail = replicate (padding_of src) (b'0' + padding_of src) in
      let s = left src dst in
      let sl : length s.src ≡ length src % 8 = omega (arith, length-skip n src) in
      let pl : length (pad src) ≡ length src + padding_of src = omega (
        arith,
        length-append src tail,
        length-replicate (padding_of src) (b'0' + padding_of src),
      ) in
      let rest : drop 8 (skip n dst) ≡ drop (length (pad src)) dst =
        ap (drop 8) (skip-eq-drop n dst)
        ∙ sym (drop_add (8 * n) 8 dst)
        ∙ ap (λ k. drop k dst) (omega (arith, length-pad src)) in
      xtea_encrypt_ecb-eq-rest src dst (omega arith)
      ∙ encrypt_rest-eq-last (length src) (length dst) s sl (ground (arith, pl))
      ∙ encrypt_last-eq-done (length src) (padding_of src) s (omega arith) (omega arith)
          (omega (arith, length-skip n dst))
      ∙ ap₂ done (sym pl) (
          sym (
            append_assoc (encrypt_each e key n src) (encrypt_block e key (skip n src ++ tail))
              (drop 8 (skip n dst)))
          ∙ ap₂ ◌++◌ (sym (encrypt_each-pad src)) rest)

  xtea_decrypt_ecb-eq-rest :
      (n : ℕ) (src dst : Bytes)
      → length src ≡ 8 * n
      → length src ≤ length dst
      → xtea_decrypt_ecb e key src dst
        ≡ decrypt_rest
            (length src)
            (record { src = skip n src; out = decrypt_each e key n src; dst = skip n dst })
  unfolding xtea_decrypt_ecb
  xtea_decrypt_ecb-eq-rest n src dst hn hd =
      let whole : (length src % 8 == 0) ≡ true = (==_iff (length src % 8) 0).1 (omega arith) in
      rw (
        le→ltb (length dst) (length src) hd,
        whole,
        decrypt_loop-eq-some e key key_fits n (suc (length src))
            (record { src = src; out = []; dst = dst }) (omega arith) hn (omega arith),
      )

  decrypt_rest-eq-done :
      (src_len : ℕ) (text : Bytes) (s : State)
      → s.out ≡ pad text
      → src_len ≡ length (pad text)
      → decrypt_rest src_len s ≡ done (length text) (pad text ++ s.dst)
  unfolding decrypt_rest Cbc.decrypt_rest
  decrypt_rest-eq-done src_len text s ho hn =
      decrypt_rest-pad src_len text (record { src = s.src; iv = []; out = s.out; dst = s.dst }) ho
        hn

  -- With a key of at least 16 bytes, what `XTeaEncryptECB` writes for a text of bytes is given back
  -- by `XTeaDecryptECB` under the same key, with the length of the text, where both arrays have
  -- room for the padded text.
  pub xtea_decrypt_ecb-xtea_encrypt_ecb :
      (src dst room : Bytes)
      → IsBytes src
      → length (pad src) ≤ length dst
      → length (pad src) ≤ length room
      → (cipher : Bytes) × (rest : Bytes) × (tail : Bytes) × (xtea_encrypt_ecb e key src dst
          ≡ done (length cipher) (cipher ++ rest))
        × (xtea_decrypt_ecb e key cipher room ≡ done (length src) (src ++ tail))
  xtea_decrypt_ecb-xtea_encrypt_ecb src dst room hs hd hr =
      let n = suc (length src / 8) in
      let cipher = encrypt_each e key n (pad src) in
      let whole : length cipher ≡ 8 * n = length-encrypt_each e key n (pad src) in
      let padding = replicate (padding_of src) (b'0' + padding_of src) in
      let plain : decrypt_each e key n cipher ≡ pad src =
        decrypt_each-encrypt_each e key n (pad src) (length-pad src) (pad-IsBytes src hs) in
      (
        cipher,
        drop (length (pad src)) dst,
        padding ++ skip n room,
        xtea_encrypt_ecb-eq-done src dst hd
            ∙ ap (λ k. done k (cipher ++ drop (length (pad src)) dst)) (length-pad src ∙ sym whole),
        xtea_decrypt_ecb-eq-rest n cipher room whole (omega (arith, length-pad src))
            ∙ decrypt_rest-eq-done (length cipher) src
                (record {
                  src = skip n cipher;
                  out = decrypt_each e key n cipher;
                  dst = skip n room;
                })
                plain (whole ∙ sym (length-pad src))
            ∙ ap (done (length src)) (append_assoc src padding (skip n room)),
      )
