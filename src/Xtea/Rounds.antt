-- ===== src/Xtea/Rounds.antt =====
-- Proofs on the rounds of `XTeaEncrypt` and `XTeaDecrypt` of xtea.c.
use ebbnc.Common.{
  ℕ, zero, suc, ◌+◌, ◌*◌, ◌^◌, ◌<◌, ◌≡◌, refl, ap, ◌∙◌, arith, u32, add32, add32-lt, sub32-add32,
}
use ebbnc.Xtea.{Halves, encrypt_round, decrypt_round, rounds, xtea_delta, xtea_num_rounds}

abbrev pub IsWords : Halves → Type 0
IsWords h = (h.s0 < 2 ^ 32) × (h.s1 < 2 ^ 32) × (h.sum < 2 ^ 32)

module _ (key : ℕ → ℕ) where
  encrypt_round-IsWords : (h : Halves) → IsWords (encrypt_round key h)
  unfolding encrypt_round
  encrypt_round-IsWords h = (add32-lt _ _, add32-lt _ _, add32-lt _ _)

  decrypt_round-encrypt_round :
      (h : Halves) → IsWords h → decrypt_round key (encrypt_round key h) ≡ h
  unfolding encrypt_round decrypt_round
  decrypt_round-encrypt_round h w =
      simp (sub32-add32 h.sum xtea_delta w.2, sub32-add32 h.s0 _ w.0, sub32-add32 h.s1 _ w.1)

  rounds_last : (f : Halves → Halves) (n : ℕ) (h : Halves) → rounds f (suc n) h ≡ f (rounds f n h)
  unfolding rounds
  rounds_last f zero h = refl
  rounds_last f (suc n) h = rounds_last f n (f h)

  pub rounds-IsWords : (n : ℕ) (h : Halves) → IsWords h → IsWords (rounds (encrypt_round key) n h)
  unfolding rounds
  rounds-IsWords zero h w = w
  rounds-IsWords (suc n) h w = rounds-IsWords n (encrypt_round key h) (encrypt_round-IsWords h)

  pub rounds_undo :
      (n : ℕ) (h : Halves)
      → IsWords h
      → rounds (decrypt_round key) n (rounds (encrypt_round key) n h) ≡ h
  unfolding rounds
  rounds_undo zero h w = refl
  rounds_undo (suc n) h w =
      rounds_last (decrypt_round key) n (rounds (encrypt_round key) n (encrypt_round key h))
      ∙ ap (decrypt_round key) (rounds_undo n (encrypt_round key h) (encrypt_round-IsWords h))
      ∙ decrypt_round-encrypt_round h w

  -- The running sum after `n` rounds does not depend on the data.
  rounds-sum :
      (n : ℕ) (h : Halves)
      → h.sum < 2 ^ 32
      → (rounds (encrypt_round key) n h).sum ≡ u32 (h.sum + n * xtea_delta)
  unfolding rounds encrypt_round add32
  rounds-sum zero h w = omega arith
  rounds-sum (suc n) h w = omega (arith, rounds-sum n (encrypt_round key h) (add32-lt _ _))

  pub rounds-sum_final :
      (h : Halves)
      → h.sum ≡ 0
      → (rounds (encrypt_round key) xtea_num_rounds h).sum ≡ u32 (xtea_delta * xtea_num_rounds)
  rounds-sum_final h e = rounds-sum xtea_num_rounds h (omega arith) ∙ rw e refl
