-- ===== src/Xtea/Cbc/Chain.antt =====
-- What the routines of xtea.c for cipher block chaining compute, without arrays: the chain of blocks,
-- and the padding of the plain text.
use ebbnc.Common.{
  ℕ, zero, suc, ◌+◌, ◌-◌, ◌*◌, ◌/◌, ◌%◌, ◌≤◌, ◌≡◌, refl, sym, ap, ap₂, ◌∙◌, arith, [], ◌∷◌, ◌++◌,
  append-nil, append_assoc, length, take, drop, replicate, Bytes, IsByte, IsBytes, bit_xor_cancel,
  bit_xor-lt, take-append, drop-append, take-append_le, drop-append_le, length-append,
  length-replicate, length-drop, length-take, All-take, All-drop, All-append, All-replicate,
  take-append-drop, drop_add,
}
use ebbnc.Xtea.{Endian, encrypt_block, decrypt_block}
use ebbnc.Xtea.Block.{IsBlock, encrypt_block-IsBlock, decrypt_block-encrypt_block}
use ebbnc.Xtea.Cbc.{xor_block}

pub length-xor_block :
    (xs ys : Bytes) → length xs ≡ length ys → length (xor_block xs ys) ≡ length xs
unfolding xor_block
length-xor_block [] [] e = refl
length-xor_block [] (y ∷ ys) e = refl
length-xor_block (x ∷ xs) [] e = absurd (omega arith)
length-xor_block (x ∷ xs) (y ∷ ys) e = ap suc (length-xor_block xs ys (omega arith))

xor_block-IsBytes : (xs ys : Bytes) → IsBytes xs → IsBytes ys → IsBytes (xor_block xs ys)
unfolding xor_block
xor_block-IsBytes [] ys hx hy = tt
xor_block-IsBytes (x ∷ xs) [] hx hy = tt
xor_block-IsBytes (x ∷ xs) (y ∷ ys) hx hy =
    (bit_xor-lt 8 x y hx.0 hy.0, xor_block-IsBytes xs ys hx.1 hy.1)

pub xor_block-IsBlock : (xs ys : Bytes) → IsBlock xs → IsBlock ys → IsBlock (xor_block xs ys)
xor_block-IsBlock xs ys hx hy =
    (omega (arith, length-xor_block xs ys (omega arith)), xor_block-IsBytes xs ys hx.1 hy.1)

pub xor_block_cancel : (xs ys : Bytes) → length xs ≡ length ys → xor_block (xor_block xs ys) ys ≡ xs
unfolding xor_block
xor_block_cancel [] [] e = refl
xor_block_cancel [] (y ∷ ys) e = refl
xor_block_cancel (x ∷ xs) [] e = absurd (omega arith)
xor_block_cancel (x ∷ xs) (y ∷ ys) e =
    ap₂ ◌∷◌ (bit_xor_cancel x y) (xor_block_cancel xs ys (omega arith))

-- The pointer `n` blocks further on.
abbrev pub skip : ℕ → Bytes → Bytes
skip zero xs = xs
skip (suc n) xs = skip n (drop 8 xs)

pub length-skip : (n : ℕ) (xs : Bytes) → length (skip n xs) ≡ length xs - 8 * n
length-skip zero xs = omega arith
length-skip (suc n) xs = omega (arith, length-skip n (drop 8 xs), length-drop 8 xs)

pub skip-eq-drop : (n : ℕ) (xs : Bytes) → skip n xs ≡ drop (8 * n) xs
skip-eq-drop zero xs = refl
skip-eq-drop (suc n) xs =
    skip-eq-drop n (drop 8 xs) ∙ sym (drop_add 8 (8 * n) xs) ∙ ap (λ k. drop k xs) (omega arith)

pub skip-append_le :
    (n : ℕ) (xs ys : Bytes) → 8 * n ≤ length xs → skip n (xs ++ ys) ≡ skip n xs ++ ys
skip-append_le zero xs ys h = refl
skip-append_le (suc n) xs ys h =
    ap (skip n) (drop-append_le 8 xs ys (omega arith))
    ∙ skip-append_le n (drop 8 xs) ys (omega (arith, length-drop 8 xs))

module _ (e : Endian) (key : Bytes) where
  -- The cipher block of the first block at `src`, chained to `iv`.
  abbrev pub cipher_block : Bytes → Bytes → Bytes
  cipher_block iv src = encrypt_block e key (xor_block (take 8 src) iv)

  -- The first `n` blocks at `src`, enciphered and deciphered.
  abbrev pub chain_encrypt : ℕ → Bytes → Bytes → Bytes
  chain_encrypt zero iv src = []
  chain_encrypt (suc n) iv src =
      cipher_block iv src ++ chain_encrypt n (cipher_block iv src) (drop 8 src)

  abbrev pub chain_decrypt : ℕ → Bytes → Bytes → Bytes
  chain_decrypt zero iv src = []
  chain_decrypt (suc n) iv src =
      xor_block (decrypt_block e key (take 8 src)) iv ++ chain_decrypt n (take 8 src) (drop 8 src)

  -- The block to which the block after the first `n` is chained.
  abbrev pub chain_iv : ℕ → Bytes → Bytes → Bytes
  chain_iv zero iv src = iv
  chain_iv (suc n) iv src = chain_iv n (cipher_block iv src) (drop 8 src)

  pub cipher_block-IsBlock : (iv src : Bytes) → IsBlock (cipher_block iv src)
  cipher_block-IsBlock iv src = encrypt_block-IsBlock e key (xor_block (take 8 src) iv)

  pub length-chain_encrypt : (n : ℕ) (iv src : Bytes) → length (chain_encrypt n iv src) ≡ 8 * n
  length-chain_encrypt zero iv src = omega arith
  length-chain_encrypt (suc n) iv src = omega (
    arith,
    length-append (cipher_block iv src) (chain_encrypt n (cipher_block iv src) (drop 8 src)),
    length-chain_encrypt n (cipher_block iv src) (drop 8 src),
    (cipher_block-IsBlock iv src).0,
  )

  pub chain_encrypt-IsBytes : (n : ℕ) (iv src : Bytes) → IsBytes (chain_encrypt n iv src)
  chain_encrypt-IsBytes zero iv src = tt
  chain_encrypt-IsBytes (suc n) iv src =
      All-append IsByte (cipher_block iv src) _ (cipher_block-IsBlock iv src).1
        (chain_encrypt-IsBytes n (cipher_block iv src) (drop 8 src))

  -- One block more at the end.
  pub chain_encrypt_last :
      (n : ℕ) (iv src : Bytes)
      → chain_encrypt (suc n) iv src
        ≡ chain_encrypt n iv src ++ cipher_block (chain_iv n iv src) (skip n src)
  chain_encrypt_last zero iv src = append-nil (cipher_block iv src)
  chain_encrypt_last (suc n) iv src =
      ap (λ t. cipher_block iv src ++ t) (chain_encrypt_last n (cipher_block iv src) (drop 8 src))
      ∙ sym (append_assoc (cipher_block iv src) _ _)

  -- The first `n` blocks do not depend on what follows them.
  pub chain_encrypt-append :
      (n : ℕ) (iv xs ys : Bytes)
      → 8 * n ≤ length xs
      → (chain_encrypt n iv (xs ++ ys) ≡ chain_encrypt n iv xs)
        × (chain_iv n iv (xs ++ ys) ≡ chain_iv n iv xs)
  chain_encrypt-append zero iv xs ys h = (refl, refl)
  chain_encrypt-append (suc n) iv xs ys h =
      rw (take-append_le 8 xs ys (omega arith), drop-append_le 8 xs ys (omega arith))
        (let (p, q) =
            chain_encrypt-append n (cipher_block iv xs) (drop 8 xs) ys
              (omega (arith, length-drop 8 xs)) in
          (ap (λ t. cipher_block iv xs ++ t) p, q))

  -- Deciphering the chain gives the plain blocks back.
  pub chain_decrypt-chain_encrypt :
      (n : ℕ) (iv src : Bytes)
      → IsBlock iv
      → length src ≡ 8 * n
      → IsBytes src
      → chain_decrypt n iv (chain_encrypt n iv src) ≡ src
  chain_decrypt-chain_encrypt zero iv [] hv hn hs = refl
  chain_decrypt-chain_encrypt zero iv (x ∷ src) hv hn hs = absurd (omega arith)
  chain_decrypt-chain_encrypt (suc n) iv src hv hn hs =
      let c = cipher_block iv src in
      let first : IsBlock (take 8 src) =
        (omega (arith, length-take 8 src), All-take IsByte 8 src hs) in
      rw
        (
          take-append c (chain_encrypt n c (drop 8 src)) 8 (cipher_block-IsBlock iv src).0,
          drop-append c (chain_encrypt n c (drop 8 src)) 8 (cipher_block-IsBlock iv src).0,
          chain_decrypt-chain_encrypt n c (drop 8 src) (cipher_block-IsBlock iv src)
              (omega (arith, length-drop 8 src)) (All-drop IsByte 8 src hs),
          decrypt_block-encrypt_block e key _ (xor_block-IsBlock (take 8 src) iv first hv),
          xor_block_cancel (take 8 src) iv (first.0 ∙ sym hv.0),
        )
        (take-append-drop 8 src)

-- How many bytes of padding the plain text gets: one to eight, up to a whole block.
abbrev pub padding_of : Bytes → ℕ
padding_of src = 8 - length src % 8

abbrev pub pad : Bytes → Bytes
pad src = src ++ replicate (padding_of src) (b'0' + padding_of src)

pub length-pad : (src : Bytes) → length (pad src) ≡ 8 * suc (length src / 8)
length-pad src = omega (
  arith,
  length-append src (replicate (padding_of src) (b'0' + padding_of src)),
  length-replicate (padding_of src) (b'0' + padding_of src),
)

pub pad-IsBytes : (src : Bytes) → IsBytes src → IsBytes (pad src)
pad-IsBytes src h =
    All-append IsByte src _ h (All-replicate IsByte (padding_of src) _ (omega arith))
