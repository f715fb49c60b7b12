-- ===== src/Memory/Ends.antt =====
-- Proofs that the records of a list in memory are different blocks: the list comes to its end.
use ebbnc.Common.{
  suc, ◌≤◌, ◌≡◌, refl, sym, ap, ◌∙◌, arith, true, some, List, [], ◌∷◌, ◌==◌, ==_iff, Bool-cases,
  inl, inr, length, subst,
}
use ebbnc.Memory.{Ptr, Heap, Linked}
use ebbnc.Memory.Release.{has, Blocks}
use ebbnc.Memory.Chain.{Cells, Chain, nil, cons}

abbrev pub addresses : {N : Type 0} → Cells N → List Ptr
addresses [] = []
addresses ((p, n) ∷ cells) = p ∷ addresses cells

some-injective : {A : Type 0} {a b : A} → some a ≡ some b → a ≡ b
some-injective e = cc

module _ {N : Type 0} (l : Linked N) (h : Heap) where
  -- A pointer leads to one list only.
  Chain-length :
      {p q : Ptr} {xs ys : Cells N}
      → p ≡ q
      → Chain l h p xs
      → Chain l h q ys
      → length xs ≡ length ys
  Chain-length e nil nil = refl
  Chain-length e nil (cons real at rest) = absurd (ground arith)
  Chain-length e (cons real at rest) nil = absurd (ground arith)
  Chain-length e (cons {p} {n} real at rest) (cons {p = q} {n = m} real2 at2 rest2) =
      ap suc (Chain-length (ap l.next same) rest rest2)
    where
      same : n ≡ m
      same = some-injective (
          sym (l.node?-block n)
          ∙ ap l.node? (some-injective (sym at ∙ ap h e ∙ at2))
          ∙ l.node?-block m)

  Chain-from :
      {p : Ptr} {cells : Cells N} (q : Ptr)
      → Chain l h p cells
      → has q (addresses cells) ≡ true
      → (rest : Cells N) × Chain l h q rest × (length rest ≤ length cells)
  Chain-from q nil found = absurd (ground arith)
  Chain-from q (cons {p} {n} {cells} real at rest) found = elim (Bool-cases (q == p)) [
    | inl here ↦ (
      (p, n) ∷ cells,
      subst (λ r. Chain l h r ((p, n) ∷ cells)) (sym ((==_iff q p).0 here)) (cons real at rest),
      omega arith,
    )
    | inr other ↦
        let (found_rest, chain, short) = Chain-from q rest (ground arith) in
        (found_rest, chain, omega (arith, short))
  ]

  -- The records of a list are different blocks.
  pub Chain-Blocks : {p : Ptr} {cells : Cells N} → Chain l h p cells → Blocks h (addresses cells)
  Chain-Blocks nil = tt
  Chain-Blocks (cons {p} {n} {cells} real at rest) = (
    real,
    (l.block n, at),
    elim (Bool-cases (has p (addresses cells))) [
      | inr new ↦ new
      | inl found ↦
          let (again, chain, short) = Chain-from p rest found in
          absurd (omega (arith, short, Chain-length refl (cons real at rest) chain))
    ],
    Chain-Blocks rest,
  )
