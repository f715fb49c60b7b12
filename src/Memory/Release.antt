-- ===== src/Memory/Release.antt =====
-- What it means that some addresses are freed, and the rule for `free`.
use ebbnc.Common.{
  ◌≡◌, refl, subst, ◌∙◌, arith, ==_iff, Bool, true, false, ◌||◌, none, some, List, [], ◌∷◌, ◌++◌,
  ◌==◌, if◌then◌else◌, Bool-cases, inl, inr,
}
use mathlib.Core.Path.{fun_ext}
use ebbnc.System.{ret}
use ebbnc.Memory.{Ptr, null, Block, Heap, write, ok, free}

abbrev pub has : Ptr → List Ptr → Bool
has a [] = false
has a (p ∷ ps) = (a == p) || has a ps

-- Addresses that differ from each other and from null, with a block at each.
abbrev pub Blocks : Heap → List Ptr → Type 0
Blocks h [] = Unit
Blocks h (p ∷ ps) =
    ((p == null) ≡ false) × ((b : Block) × (h p ≡ some b)) × (has p ps ≡ false) × Blocks h ps

-- The memory less the blocks at some addresses.
abbrev pub less : List Ptr → Heap → Heap
less ps h a = if has a ps then none else h a

-- A pointer in front of others, if it is one.
abbrev pub given : Ptr → List Ptr → List Ptr
given p ps = if p == null then ps else p ∷ ps

pub has-append : (a : Ptr) (ps qs : List Ptr) → has a (ps ++ qs) ≡ (has a ps || has a qs)
has-append a [] qs = refl
has-append a (p ∷ ps) qs = ground (arith, has-append a ps qs)

-- A memory that has a block wherever another one has, at some addresses.
pub Blocks-kept :
    (g h : Heap) (ps : List Ptr)
    → ((a : Ptr) (b : Block) → has a ps ≡ true → h a ≡ some b → (c : Block) × (g a ≡ some c))
    → Blocks h ps
    → Blocks g ps
Blocks-kept g h [] kept is = tt
Blocks-kept g h (p ∷ ps) kept (real, (b, at), new, is) = (
  real,
  kept p b (ground arith) at,
  new,
  Blocks-kept g h ps (λ a c i. kept a c (ground arith)) is,
)

-- Two memories that agree at some addresses have the same blocks there.
pub Blocks-same :
    (g h : Heap) (ps : List Ptr)
    → ((a : Ptr) → has a ps ≡ true → g a ≡ h a)
    → Blocks h ps
    → Blocks g ps
Blocks-same g h ps same = Blocks-kept g h ps (λ a b i at. (b, same a i ∙ at))

module _ (h : Heap) where
  pub Blocks-first : (ps qs : List Ptr) → Blocks h (ps ++ qs) → Blocks h ps
  Blocks-first [] qs is = tt
  Blocks-first (p ∷ ps) qs (real, at, new, is) =
      (real, at, ground (arith, has-append p ps qs), Blocks-first ps qs is)

  pub Blocks-behind : (ps qs : List Ptr) → Blocks h (ps ++ qs) → Blocks h qs
  Blocks-behind [] qs is = is
  Blocks-behind (p ∷ ps) qs (real, at, new, is) = Blocks-behind ps qs is

  pub Blocks-apart :
      (ps qs : List Ptr) → Blocks h (ps ++ qs) → (a : Ptr) → has a qs ≡ true → has a ps ≡ false
  Blocks-apart [] qs is a i = refl
  Blocks-apart (p ∷ ps) qs (real, at, new, is) a i = elim (Bool-cases (a == p)) [
    | inl here ↦ absurd (ground (arith, has-append p ps qs, (==_iff a p).0 here))
    | inr other ↦ ground (arith, Blocks-apart ps qs is a i)
  ]

-- `free` of a block, and of a pointer that may be null, where more is freed behind it.
module _ (h : Heap) (p : Ptr) (ps : List Ptr) where
  free-null : (p == null) ≡ true → free p h ≡ ret (ok tt h)
  unfolding free
  free-null nothing = rw nothing refl

  pub free_block :
      Blocks h (p ∷ ps) → (free p h ≡ ret (ok tt (write h p none))) × Blocks (write h p none) ps
  unfolding free
  free_block (real, (b, at), new, is) =
      (rw (real, at) refl, Blocks-same (write h p none) h ps (λ a i. ground arith) is)

  pub less-cons : less (p ∷ ps) h ≡ less ps (write h p none)
  less-cons = fun_ext λ a. ground arith

module _ (h : Heap) (p : Ptr) (ps : List Ptr) where
  given_false : (p == null) ≡ true → given p ps ≡ ps
  given_false nothing = rw nothing refl

  given_true : (p == null) ≡ false → given p ps ≡ p ∷ ps
  given_true there = rw there refl

  pub free-given :
      Blocks h (given p ps)
      → (free p h ≡ ret (ok tt (less (given p []) h)))
        × Blocks (less (given p []) h) ps
        × ((a : Ptr) → has a ps ≡ true → less (given p []) h a ≡ h a)
  free-given is = elim (Bool-cases (p == null)) [
    | inl nothing ↦
        rw nothing
          (free-null h p ps nothing, subst (Blocks h) (given_false nothing) is, λ a i. refl)
    | inr there ↦
        let blocks : Blocks h (p ∷ ps) = subst (Blocks h) (given_true there) is in
        let freed = free_block h p ps blocks in
        rw there (
          rw (less-cons h p []) freed.0,
          rw (less-cons h p []) freed.1,
          λ a i. ground (arith, blocks.2, (==_iff a p).0),
        )
  ]

  pub less-given : less (given p ps) h ≡ less ps (less (given p []) h)
  less-given = fun_ext λ a. ground arith
