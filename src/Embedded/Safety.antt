-- ===== src/Embedded/Safety.antt =====
-- Proofs on `Config_decryptEmbedded` of config.c on any text.
use ebbnc.Common.{
  ℕ, zero, suc, ◌+◌, ◌-◌, ◌*◌, ◌/◌, ◌%◌, ◌<◌, ◌≤◌, ◌≡◌, ◌≢◌, refl, ap, arith, Bool, [], ◌∷◌, ◌++◌,
  length, take, drop, replicate, Bytes, All, IsBytes, length-append, length-drop, length-replicate,
  length-take, Outcome, done, failed, fault, true, false, not, ◌&&◌, some, Pointer, crash, null, at,
  if◌then◌else◌, ==_iff, ◌==◌, ltb, ltb→le, Bool-cases, inl, inr,
}
use ebbnc.Xtea.{Endian}
use ebbnc.Xtea.Cbc.{xtea_decrypt_cbc}
use ebbnc.Xtea.Cbc.RoundTrip.{
  xtea_decrypt_cbc-Settles, xtea_decrypt_cbc-empty, xtea_decrypt_cbc-eq-failed, Settles,
}
use ebbnc.Hex.{hex_decode}
use ebbnc.Hex.Decode.{hex_decode-eq-done, hex_decode-eq-failed, decoded_text, length-decoded_text}
use ebbnc.Embedded.{
  iscntrl, isspace, is_text, terminate, check_text, decipher, decrypt_embedded, or_crash,
  unless_failed,
}
use ebbnc.Embedded.Decrypted.{IsClean}

-- A null pointer, or an array that starts with a clean C string.
abbrev pub Checked : Pointer → Type 0
Checked crash = ⊥
Checked null = Unit
Checked (at d) = (text : Bytes) × (rest : Bytes) × (d ≡ text ++ (0 ∷ rest)) × All IsClean text

-- The test, on an array that holds a zero.
data Tested (d : Bytes) : Type 0 where
  dirty : is_text d ≡ some false → Tested d
  clean :
      (text rest : Bytes)
      → d ≡ text ++ (0 ∷ rest)
      → All IsClean text
      → is_text d ≡ some true
      → Tested d

Tested-cons : (c : ℕ) (d : Bytes) → Tested d → Tested (c ∷ d)
Tested-cons c d t = elim (Bool-cases (c == 0)) [
  | inl ends ↦ clean [] d (ap (λ k. k ∷ d) ((==_iff c 0).0 ends)) tt (unfold is_text in rw ends)
  | inr more ↦ elim (Bool-cases (iscntrl c && not (isspace c))) [
    | inl control ↦ dirty (unfold is_text in rw (more, control))
    | inr printable ↦ pass more printable t
  ]
]
  where
    pass : (c == 0) ≡ false → (iscntrl c && not (isspace c)) ≡ false → Tested d → Tested (c ∷ d)
    pass z p (dirty e) = dirty (unfold is_text in rw (z, p) e)
    pass z p (clean text rest s a e) =
        clean (c ∷ text) rest (ap (◌∷◌ c) s) ((ground arith, p), a) (unfold is_text in rw (z, p) e)

terminate-Tested :
    (n : ℕ) (plain : Bytes)
    → n < length plain
    → (d : Bytes) × (terminate n plain ≡ some d) × Tested d
unfolding terminate
terminate-Tested n [] h = absurd (omega arith)
terminate-Tested zero (c ∷ plain) h =
    (0 ∷ plain, refl, clean [] plain refl tt (unfold is_text in refl))
terminate-Tested (suc n) (c ∷ plain) h =
    let (d, e, t) = terminate-Tested n plain (omega arith) in (c ∷ d, rw e refl, Tested-cons c d t)

-- Where the zero fits the array, nothing is read behind it.
check_text-Checked : (n : ℕ) (plain : Bytes) → n < length plain → Checked (check_text n plain)
unfolding check_text
check_text-Checked n plain h = let (d, e, t) = terminate-Tested n plain h in rw e (tested d t)
  where
    tested :
        (d : Bytes)
        → Tested d
        → Checked (or_crash (is_text d) (λ okay. if okay then at d else null))
    tested d (dirty e) = rw e tt
    tested d (clean text rest s a e) = rw e (text, rest, s, a)

Settles-Checked :
    (n size : ℕ) (o : Outcome) → n ≤ size → Settles n size o → Checked (unless_failed o check_text)
Settles-Checked n size fault h s = absurd s
Settles-Checked n size (failed d) h s = tt
Settles-Checked n size (done m d) h s = check_text-Checked m d (omega arith)

-- Whatever the text, the decryption of at least one byte ends well.
decrypt_cbc-Checked :
    (e : Endian) (key src dst ivec : Bytes)
    → 16 ≤ length key
    → 8 ≤ length ivec
    → 0 < length src
    → length src ≤ length dst
    → Checked (unless_failed (xtea_decrypt_cbc e key src dst ivec) check_text)
decrypt_cbc-Checked e key src dst ivec hk hv h0 hd = elim (Bool-cases (length src % 8 == 0)) [
  | inl whole ↦ Settles-Checked (length src) (length dst) _ hd (
      xtea_decrypt_cbc-Settles e key src dst ivec hk hv h0 ((==_iff (length src % 8) 0).0 whole) hd)
  | inr part ↦ rw (xtea_decrypt_cbc-eq-failed e key src dst ivec (ground arith)) tt
]

module _ (e : Endian) (alloc : ℕ → Bool) where
  decipher-Checked :
      (key cipher : Bytes) (len : ℕ)
      → 16 ≤ length key
      → len ≤ length cipher
      → len ≢ 8
      → Checked (decipher e alloc key len cipher)
  unfolding decipher
  decipher-Checked key cipher len hk hl ne =
      let src = take (len - 8) (drop 8 cipher) in
      elim (Bool-cases (ltb len 8)) [
        | inl short ↦ rw short tt
        | inr long ↦ elim (Bool-cases (alloc len)) [
          | inl got ↦
              rw (long, got)
                (decrypt_cbc-Checked e key src (replicate len 0) (take 8 cipher) hk
                  (omega (arith, ltb→le len 8 long, length-take 8 cipher))
                  (omega (
                    arith,
                    ltb→le len 8 long,
                    length-take (len - 8) (drop 8 cipher),
                    length-drop 8 cipher,
                  ))
                  (omega
                    (arith, length-take (len - 8) (drop 8 cipher), length-replicate {A = ℕ} len 0)))
          | inr out ↦ rw (long, out) tt
        ]
      ]

  -- With a text of bytes of any length but 16 and a key of at least 16 bytes,
  -- `Config_decryptEmbedded` stays within its arrays, whatever `calloc` answers: it returns a null
  -- pointer, or an array whose C string holds no control character that is no white space.
  pub decrypt_embedded-Checked :
      (conf key : Bytes)
      → IsBytes conf
      → 16 ≤ length key
      → length conf ≢ 16
      → Checked (decrypt_embedded e alloc conf key)
  unfolding decrypt_embedded
  decrypt_embedded-Checked conf key hc hk ne = elim (Bool-cases (alloc (length conf / 2 + 1))) [
    | inl got ↦
        rw got
          (allocated (replicate (length conf / 2 + 1) 0) (length-replicate (length conf / 2 + 1) 0))
    | inr out ↦ rw out tt
  ]
    where
      allocated :
          (zeros : Bytes)
          → length zeros ≡ length conf / 2 + 1
          → Checked (unless_failed (hex_decode conf zeros) (decipher e alloc key))
      allocated zeros n = elim (Bool-cases (length conf % 2 == 0)) [
        | inl even ↦
            let half : length conf ≡ 2 * (length conf / 2) =
              omega (arith, (==_iff (length conf % 2) 0).0 even) in
            let k = length conf / 2 in
            let filled = decoded_text conf ++ (0 ∷ drop (k + 1) zeros) in
            rw (hex_decode-eq-done k conf zeros hc half (omega arith)) (
              decipher-Checked key filled k hk
                (omega (
                  arith,
                  length-append (decoded_text conf) (0 ∷ drop (k + 1) zeros),
                  length-decoded_text k conf half,
                ))
                (λ eight. ne (omega arith)))
        | inr odd ↦ rw (hex_decode-eq-failed conf zeros (ground arith)) tt
      ]

  -- With a text of 16 bytes, which is one block, a key of at least 16 bytes and memory for every
  -- request, `Config_decryptEmbedded` reads out of the range of its array.
  pub decrypt_embedded-eq-crash :
      (conf key : Bytes)
      → IsBytes conf
      → 16 ≤ length key
      → ((n : ℕ) → alloc n ≡ true)
      → length conf ≡ 16
      → decrypt_embedded e alloc conf key ≡ crash
  unfolding decrypt_embedded decipher
  decrypt_embedded-eq-crash conf key hc hk has_room n =
      let zeros : Bytes = replicate (length conf / 2 + 1) 0 in
      let cipher = decoded_text conf ++ (0 ∷ drop 9 zeros) in
      rw (
        has_room (length conf / 2 + 1),
        hex_decode-eq-done 8 conf zeros hc (omega arith)
            (omega (arith, length-replicate {A = ℕ} (length conf / 2 + 1) 0)),
        has_room 8,
        xtea_decrypt_cbc-empty e key hk (replicate 8 0) (take 8 cipher) (
            omega (
              arith,
              length-take 8 cipher,
              length-append (decoded_text conf) (0 ∷ drop 9 zeros),
              length-decoded_text 8 conf n,
            )),
      )
