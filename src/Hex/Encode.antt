-- ===== src/Hex/Encode.antt =====
-- Proofs on `hexEncode` of hex.c: what it writes, and how it ends for every size of `dst`.
use ebbnc.Common.{
  ℕ, ◌+◌, ◌*◌, ◌<◌, ◌≤◌, ◌≡◌, refl, sym, ap, ap₂, ◌∙◌, arith, [], ◌∷◌, ◌++◌, append_assoc, length,
  drop, Bytes, length-append, length-drop, drop_add, Outcome, done, failed, fault, store,
  store-eq-some, some, lt→ltb, Bool-cases, ltb, inl, inr, ltb→lt, ltb→le,
}
use ebbnc.Hex.{digits_of, encode_loop, hex_encode}

-- The text of a sequence of bytes: two characters for each.
abbrev pub hex_text : Bytes → Bytes
hex_text [] = []
hex_text (c ∷ src) = digits_of c ++ hex_text src

pub length-hex_text : (src : Bytes) → length (hex_text src) ≡ 2 * length src
unfolding digits_of
length-hex_text [] = refl
length-hex_text (c ∷ src) = omega (arith, length-hex_text src)

length-digits_of : (c : ℕ) → length (digits_of c) ≡ 2
unfolding digits_of
length-digits_of c = refl

store-digits_of :
    (c : ℕ) (dst : Bytes) → 2 ≤ length dst → store (digits_of c) dst ≡ some (drop 2 dst)
unfolding digits_of
store-digits_of c dst h = store-eq-some (digits_of c) dst h

-- The whole text and its terminating zero are written, if they fit.
encode_loop-eq-done :
    (dst_size : ℕ) (src out dst : Bytes)
    → length out + length dst ≡ dst_size
    → 2 * length src < length dst
    → encode_loop dst_size src out dst
      ≡ done
          (length out + 2 * length src)
          (out ++ (hex_text src ++ (0 ∷ drop (2 * length src + 1) dst)))
unfolding encode_loop
encode_loop-eq-done dst_size [] out dst hn h =
    rw (store-eq-some (0 ∷ []) dst (omega arith))
      (ap (λ k. done k (out ++ 0 ∷ drop 1 dst)) (omega arith))
encode_loop-eq-done dst_size (c ∷ src) out dst hn h =
    rw
      (
        lt→ltb (length out + 2) dst_size (omega arith),
        store-digits_of c dst (omega arith),
        encode_loop-eq-done dst_size src (out ++ digits_of c) (drop 2 dst)
            (omega (arith, length-append out (digits_of c), length-digits_of c, length-drop 2 dst))
            (omega (arith, length-drop 2 dst)),
      )
      (ap₂ done (omega (arith, length-append out (digits_of c), length-digits_of c)) (
        append_assoc out (digits_of c) _
        ∙ ap (λ t. out ++ t)
            (sym (append_assoc (digits_of c) (hex_text src) _)
              ∙ ap (λ t. (digits_of c ++ hex_text src) ++ 0 ∷ t)
                  (sym (drop_add 2 (2 * length src + 1) dst)
                    ∙ ap (λ k. drop k dst) (omega arith)))))

-- Otherwise the loop stops at its bound with bytes left to encode.
encode_loop-eq-failed :
    (dst_size : ℕ) (src out dst : Bytes)
    → length out + length dst ≡ dst_size
    → 0 < length src
    → length dst ≤ 2 * length src
    → (d : Bytes) × (encode_loop dst_size src out dst ≡ failed d) × (length d ≡ dst_size)
unfolding encode_loop
encode_loop-eq-failed dst_size [] out dst hn h0 h = absurd (omega arith)
encode_loop-eq-failed dst_size (c ∷ src) out dst hn h0 h =
    elim (Bool-cases (ltb (length out + 2) dst_size)) [
      | inl room ↦
          rw (room, store-digits_of c dst (omega (arith, ltb→lt (length out + 2) dst_size room)))
            (encode_loop-eq-failed dst_size src (out ++ digits_of c) (drop 2 dst)
              (omega (
                arith,
                ltb→lt (length out + 2) dst_size room,
                length-append out (digits_of c),
                length-digits_of c,
                length-drop 2 dst,
              ))
              (omega (arith, ltb→lt (length out + 2) dst_size room))
              (omega (arith, length-drop 2 dst)))
      | inr full ↦ rw full (out ++ dst, refl, omega (arith, length-append out dst))
    ]

-- Where `dst` has room for two characters a byte and the zero, it gets the text and the zero.
pub hex_encode-eq-done :
    (src dst : Bytes)
    → 2 * length src < length dst
    → hex_encode src dst
      ≡ done (2 * length src) (hex_text src ++ (0 ∷ drop (2 * length src + 1) dst))
unfolding hex_encode
hex_encode-eq-done src dst h =
    encode_loop-eq-done (length dst) src [] dst (omega arith) h
    ∙ ap (λ k. done k (hex_text src ++ (0 ∷ drop (2 * length src + 1) dst))) (omega arith)

-- How a call ends, by the room that `dst` has.
abbrev pub Ends : Bytes → Bytes → Outcome → Type 0
Ends src dst (done n d) =
    (2 * length src < length dst)
    × (n ≡ 2 * length src)
    × (d ≡ hex_text src ++ (0 ∷ drop (2 * length src + 1) dst))
Ends src dst (failed d) = (length dst ≤ 2 * length src) × (0 < length src) × (length d ≡ length dst)
Ends src dst fault = (src ≡ []) × (dst ≡ [])

hex_encode-Ends_empty : (dst : Bytes) → length dst ≤ 0 → Ends [] dst (hex_encode [] dst)
unfolding hex_encode encode_loop
hex_encode-Ends_empty [] h = (refl, refl)
hex_encode-Ends_empty (x ∷ dst) h = absurd (omega arith)

-- Where `dst` has room for twice the length of `src` and a zero, `hexEncode` writes `hex_text` of
-- `src` and a terminating zero, and returns the length of that text; elsewhere it returns -1 with
-- the size of `dst` kept, but for an empty `src` and an empty `dst`, where it writes past `dst`.
pub hex_encode-Ends : (src dst : Bytes) → Ends src dst (hex_encode src dst)
hex_encode-Ends src dst = elim (Bool-cases (ltb (2 * length src) (length dst))) [
  | inl room ↦
      let h : 2 * length src < length dst = ltb→lt (2 * length src) (length dst) room in
      rw (hex_encode-eq-done src dst h) (h, refl, refl)
  | inr tight ↦ ends src (ltb→le (2 * length src) (length dst) tight)
]
  where
    ends : (xs : Bytes) → length dst ≤ 2 * length xs → Ends xs dst (hex_encode xs dst)
    ends [] h = hex_encode-Ends_empty dst h
    ends (c ∷ xs) h =
        let (d, e, n) =
          encode_loop-eq-failed (length dst) (c ∷ xs) [] dst (omega arith) (omega arith) h in
        unfold hex_encode in rw e (h, omega arith, n)
