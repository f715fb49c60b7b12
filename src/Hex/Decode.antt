-- ===== src/Hex/Decode.antt =====
-- Proofs on `hexDecode` of hex.c.
use ebbnc.Common.{
  ℕ, zero, suc, ◌+◌, ◌*◌, ◌%◌, ◌^◌, ◌<◌, ◌≤◌, ◌≡◌, ◌≢◌, refl, sym, ap, ap₂, ◌∙◌, arith, [], ◌∷◌,
  ◌++◌, append_assoc, length, drop, get_or, Bytes, IsByte, IsBytes, length-append, length-drop,
  drop_add, done, failed, store-eq-some, lt→ltb, Bool-cases, ◌==◌, ==_iff, inl, inr, true, false,
  passes, passes_sound, u8,
}
use ebbnc.Hex.{
  lookup, digits_of, unsigned_of_char, hex_decode_char, minus_one, decode_loop, hex_decode,
}
use ebbnc.Hex.Encode.{hex_text, length-hex_text}

-- The -1 for a bad digit is out of reach: whatever the character, the answer is another.
pub hex_decode_char-ne-minus_one : (ch : ℕ) → ch < 2 ^ 32 → hex_decode_char ch ≢ minus_one
unfolding hex_decode_char
hex_decode_char-ne-minus_one ch h = ground arith

digit_good : (c : ℕ) → IsByte c → (hex_decode_char (unsigned_of_char c) == minus_one) ≡ false
unfolding unsigned_of_char
digit_good c h =
    let ne = hex_decode_char-ne-minus_one (unsigned_of_char c) (ground arith) in
    elim (Bool-cases (hex_decode_char (unsigned_of_char c) == minus_one)) [
      | inl e ↦ absurd (ne ((==_iff (hex_decode_char (unsigned_of_char c)) minus_one).0 e))
      | inr e ↦ e
    ]

-- A lower-case digit is read as a number from 42 on.
pub hex_decode_char_lower : (d : ℕ) → d < 6 → hex_decode_char (b'a' + d) ≡ 42 + d
unfolding hex_decode_char
hex_decode_char_lower d h = ground arith

abbrev decoded : ℕ → ℕ → ℕ
decoded a b = u8 (hex_decode_char (unsigned_of_char a) * 16 + hex_decode_char (unsigned_of_char b))

byte_back : ℕ → ℕ
byte_back c = decoded (get_or (digits_of c) 0 0) (get_or (digits_of c) 1 0)

byte_table : passes (λ c. byte_back c == c) 256 ≡ true
unfolding passes byte_back hex_decode_char unsigned_of_char digits_of
byte_table = refl

-- What the characters stand for, two by two.
abbrev pub decoded_text : Bytes → Bytes
decoded_text [] = []
decoded_text (a ∷ []) = []
decoded_text (a ∷ b ∷ src) = decoded a b ∷ decoded_text src

pub length-decoded_text : (n : ℕ) (src : Bytes) → length src ≡ 2 * n → length (decoded_text src) ≡ n
length-decoded_text zero [] h = refl
length-decoded_text zero (a ∷ src) h = absurd (omega arith)
length-decoded_text (suc n) [] h = absurd (omega arith)
length-decoded_text (suc n) (a ∷ []) h = absurd (omega arith)
length-decoded_text (suc n) (a ∷ b ∷ src) h = ap suc (length-decoded_text n src (omega arith))

decode_step :
    (dst_size a b : ℕ) (src out dst : Bytes)
    → IsByte a
    → IsByte b
    → length out + 1 < dst_size
    → 1 ≤ length dst
    → decode_loop dst_size (a ∷ b ∷ src) out dst
      ≡ decode_loop dst_size src (out ++ decoded a b ∷ []) (drop 1 dst)
unfolding decode_loop
decode_step dst_size a b src out dst ha hb h hd = rw (
  lt→ltb (length out + 1) dst_size h,
  digit_good a ha,
  digit_good b hb,
  store-eq-some (decoded a b ∷ []) dst hd,
)

decode_loop-eq-done :
    (n dst_size : ℕ) (src out dst : Bytes)
    → IsBytes src
    → length src ≡ 2 * n
    → length out + length dst ≡ dst_size
    → n < length dst
    → decode_loop dst_size src out dst
      ≡ done (length out + n) (out ++ (decoded_text src ++ (0 ∷ drop (n + 1) dst)))
decode_loop-eq-done zero dst_size [] out dst hb hs hn h =
    unfold decode_loop in
    rw (store-eq-some (0 ∷ []) dst (omega arith))
      (ap₂ done (omega arith) (ap (λ k. out ++ 0 ∷ drop k dst) {x = 1} {y = 0 + 1} (omega arith)))
decode_loop-eq-done zero dst_size (a ∷ src) out dst hb hs hn h = absurd (omega arith)
decode_loop-eq-done (suc n) dst_size [] out dst hb hs hn h = absurd (omega arith)
decode_loop-eq-done (suc n) dst_size (a ∷ []) out dst hb hs hn h = absurd (omega arith)
decode_loop-eq-done (suc n) dst_size (a ∷ b ∷ src) out dst hb hs hn h =
    decode_step dst_size a b src out dst hb.0 hb.1.0 (omega arith) (omega arith)
    ∙ decode_loop-eq-done n dst_size src (out ++ decoded a b ∷ []) (drop 1 dst) hb.1.1 (omega arith)
        (omega (arith, length-append out (decoded a b ∷ []), length-drop 1 dst))
        (omega (arith, length-drop 1 dst))
    ∙ ap₂ done (omega (arith, length-append out (decoded a b ∷ []))) (
        append_assoc out (decoded a b ∷ []) _
        ∙ ap (λ t. out ++ decoded a b ∷ (decoded_text src ++ 0 ∷ t))
            (sym (drop_add 1 (n + 1) dst) ∙ ap (λ k. drop k dst) (omega arith)))

-- `hexDecode` accepts any text of bytes of even length that `dst` has room for, whatever its
-- characters are, and writes `decoded_text`, one byte for two characters, and a zero.
pub hex_decode-eq-done :
    (n : ℕ) (src dst : Bytes)
    → IsBytes src
    → length src ≡ 2 * n
    → n < length dst
    → hex_decode src dst ≡ done n (decoded_text src ++ (0 ∷ drop (n + 1) dst))
unfolding hex_decode
hex_decode-eq-done n src dst hb hs h =
    let even : (length src % 2 == 0) ≡ true = (==_iff (length src % 2) 0).1 (omega arith) in
    rw even (
      decode_loop-eq-done n (length dst) src [] dst hb hs (omega arith) h
      ∙ ap (λ k. done k (decoded_text src ++ (0 ∷ drop (n + 1) dst))) (omega arith))

decoded_text-hex_text : (bytes : Bytes) → IsBytes bytes → decoded_text (hex_text bytes) ≡ bytes
unfolding digits_of
decoded_text-hex_text [] h = refl
decoded_text-hex_text (c ∷ bytes) h =
    ap₂ ◌∷◌ (unfold byte_back in (==_iff (byte_back c) c).0 (passes_sound _ 256 c h.0 byte_table))
      (decoded_text-hex_text bytes h.1)

get_or-IsByte : (xs : Bytes) (i : ℕ) → IsBytes xs → IsByte (get_or xs i 0)
get_or-IsByte [] i h = omega arith
get_or-IsByte (x ∷ xs) zero h = h.0
get_or-IsByte (x ∷ xs) (suc i) h = get_or-IsByte xs i h.1

pub hex_text-IsBytes : (bytes : Bytes) → IsBytes (hex_text bytes)
unfolding digits_of
hex_text-IsBytes [] = tt
hex_text-IsBytes (c ∷ bytes) = (
  get_or-IsByte lookup _ (omega arith),
  (get_or-IsByte lookup _ (omega arith), hex_text-IsBytes bytes),
)

-- On the text `hex_text` that `hexEncode` writes for some bytes, `hexDecode` gives the bytes back
-- with a terminating zero, where `dst` has room for both.
pub hex_decode-hex_text :
    (bytes dst : Bytes)
    → IsBytes bytes
    → length bytes < length dst
    → hex_decode (hex_text bytes) dst
      ≡ done (length bytes) (bytes ++ (0 ∷ drop (length bytes + 1) dst))
hex_decode-hex_text bytes dst h fits =
    hex_decode-eq-done (length bytes) (hex_text bytes) dst (hex_text-IsBytes bytes)
      (length-hex_text bytes) fits
    ∙ ap (λ t. done (length bytes) (t ++ (0 ∷ drop (length bytes + 1) dst)))
        (decoded_text-hex_text bytes h)

-- An odd number of characters is refused.
pub hex_decode-eq-failed : (src dst : Bytes) → length src % 2 ≡ 1 → hex_decode src dst ≡ failed dst
unfolding hex_decode
hex_decode-eq-failed src dst h = ground arith
