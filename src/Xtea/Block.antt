-- ===== src/Xtea/Block.antt =====
-- Proofs on one block: `XTeaEncrypt` and `XTeaDecrypt` of xtea.c.
use ebbnc.Common.{
  ℕ, ◌*◌, ◌^◌, ◌<◌, ◌≤◌, ◌≡◌, refl, sym, ap, ◌∙◌, arith, [], ◌∷◌, ◌++◌, some, length, get_or-take,
  take, drop, u32, Bytes, IsBytes, le→leb,
}
use ebbnc.Xtea.{
  Endian, little, big, Halves, word_at, word_bytes, start, stored, encrypt_round, decrypt_round,
  rounds, encrypt_block, decrypt_block, transform, xtea_delta, xtea_num_rounds,
}
use ebbnc.Xtea.Rounds.{IsWords, rounds_undo, rounds-sum_final, rounds-IsWords}

-- Eight bytes: what fits an `unsigned char[XTEA_BLOCK_SIZE]`.
abbrev pub IsBlock : Bytes → Type 0
IsBlock b = (length b ≡ 8) × IsBytes b

stored-IsBlock : (e : Endian) (h : Halves) → IsBlock (stored e h)
unfolding stored word_bytes
stored-IsBlock little h = omega arith
stored-IsBlock big h = omega arith

pub encrypt_block-IsBlock : (e : Endian) (ckey src : Bytes) → IsBlock (encrypt_block e ckey src)
unfolding encrypt_block
encrypt_block-IsBlock e ckey src = stored-IsBlock e _

pub decrypt_block-IsBlock : (e : Endian) (ckey src : Bytes) → IsBlock (decrypt_block e ckey src)
unfolding decrypt_block
decrypt_block-IsBlock e ckey src = stored-IsBlock e _

-- Loading what was stored gives the words back, and storing what was loaded the bytes.
start-stored : (e : Endian) (h : Halves) → IsWords h → start e (stored e h) h.sum ≡ h
unfolding start stored word_at word_bytes
start-stored little h w = ground arith
start-stored big h w = ground arith

data Eight : Bytes → Type 0 where
  eight : (a b c d f g h i : ℕ) → Eight (a ∷ b ∷ c ∷ d ∷ f ∷ g ∷ h ∷ i ∷ [])

Eight-of : (b : Bytes) → length b ≡ 8 → Eight b
Eight-of (a ∷ b ∷ c ∷ d ∷ f ∷ g ∷ h ∷ i ∷ []) n = eight a b c d f g h i
Eight-of _ n = absurd (omega arith)

stored-start-Eight :
    (e : Endian) {b : Bytes} (sum : ℕ) → Eight b → IsBytes b → stored e (start e b sum) ≡ b
unfolding start stored word_at word_bytes
stored-start-Eight little sum (eight a b c d f g h i) w = ground arith
stored-start-Eight big sum (eight a b c d f g h i) w = ground arith

start-IsWords-Eight :
    (e : Endian) {b : Bytes} (sum : ℕ)
    → Eight b
    → IsBytes b
    → sum < 2 ^ 32
    → IsWords (start e b sum)
unfolding start word_at
start-IsWords-Eight little sum (eight a b c d f g h i) w l = omega arith
start-IsWords-Eight big sum (eight a b c d f g h i) w l = omega arith

-- `XTeaDecrypt` gives back the block of eight bytes that `XTeaEncrypt` was given, under the same
-- key, on a host of either byte order.
pub decrypt_block-encrypt_block :
    (e : Endian) (ckey b : Bytes) → IsBlock b → decrypt_block e ckey (encrypt_block e ckey b) ≡ b
unfolding encrypt_block decrypt_block
decrypt_block-encrypt_block e ckey b (n, w) =
    let key = word_at e ckey in
    let h = start e b 0 in
    let words : IsWords h = start-IsWords-Eight e 0 (Eight-of b n) w (omega arith) in
    let last = rounds (encrypt_round key) xtea_num_rounds h in
    let reloaded : start e (stored e last) (u32 (xtea_delta * xtea_num_rounds)) ≡ last =
      ap (start e (stored e last)) (sym (rounds-sum_final key h start-sum))
      ∙ start-stored e last (rounds-IsWords key xtea_num_rounds h words) in
    ap (λ x. stored e (rounds (decrypt_round key) xtea_num_rounds x)) reloaded
    ∙ ap (stored e) (rounds_undo key xtea_num_rounds h words)
    ∙ stored-start-Eight e 0 (Eight-of b n) w
  where
    start-sum : (start e b 0).sum ≡ 0
    start-sum = unfold start in refl

-- Of `src` the first eight bytes are read.
start-take : (e : Endian) (src : Bytes) (sum : ℕ) → start e (take 8 src) sum ≡ start e src sum
unfolding start word_at
start-take little src sum = rw (
  get_or-take 8 src 0 0 (omega arith),
  get_or-take 8 src 1 0 (omega arith),
  get_or-take 8 src 2 0 (omega arith),
  get_or-take 8 src 3 0 (omega arith),
  get_or-take 8 src 4 0 (omega arith),
  get_or-take 8 src 5 0 (omega arith),
  get_or-take 8 src 6 0 (omega arith),
  get_or-take 8 src 7 0 (omega arith),
)
start-take big src sum = rw (
  get_or-take 8 src 0 0 (omega arith),
  get_or-take 8 src 1 0 (omega arith),
  get_or-take 8 src 2 0 (omega arith),
  get_or-take 8 src 3 0 (omega arith),
  get_or-take 8 src 4 0 (omega arith),
  get_or-take 8 src 5 0 (omega arith),
  get_or-take 8 src 6 0 (omega arith),
  get_or-take 8 src 7 0 (omega arith),
)

pub decrypt_block-take :
    (e : Endian) (ckey src : Bytes) → decrypt_block e ckey (take 8 src) ≡ decrypt_block e ckey src
unfolding decrypt_block
decrypt_block-take e ckey src =
    ap (λ h. stored e (rounds (decrypt_round (word_at e ckey)) xtea_num_rounds h))
      (start-take e src (u32 (xtea_delta * xtea_num_rounds)))

pub encrypt_block-take :
    (e : Endian) (ckey src : Bytes) → encrypt_block e ckey (take 8 src) ≡ encrypt_block e ckey src
unfolding encrypt_block
encrypt_block-take e ckey src =
    ap (λ h. stored e (rounds (encrypt_round (word_at e ckey)) xtea_num_rounds h))
      (start-take e src 0)

-- Within the three arrays nothing faults, and only the first eight bytes at `dst` change.
pub transform-eq-some :
    (block : Endian → Bytes → Bytes → Bytes) (e : Endian) (src dst ckey : Bytes)
    → 8 ≤ length src
    → 8 ≤ length dst
    → 16 ≤ length ckey
    → transform block e src dst ckey ≡ some (block e ckey src ++ drop 8 dst)
unfolding transform
transform-eq-some block e src dst ckey hs hd hk =
    rw (le→leb 8 (length src) hs, le→leb 8 (length dst) hd, le→leb 16 (length ckey) hk)
