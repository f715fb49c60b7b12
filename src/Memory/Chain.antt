-- ===== src/Memory/Chain.antt =====
-- Lists of records in memory.
use ebbnc.Common.{◌≡◌, ◌∙◌, arith, true, false, some, List, [], ◌∷◌, ◌++◌, ◌==◌}
use ebbnc.System
use ebbnc.System.{Io, ret, call}
use ebbnc.Memory.{Ptr, null, Heap, Linked}
use ebbnc.Memory.Release.{has, has-append}

-- The records of a list with their addresses, from its head on.
abbrev pub Cells : Type 0 → Type 0
Cells N = List (Ptr × N)

module _ {N : Type 0} (l : Linked N) where
  -- From the pointer, the records of the cells follow each other up to a null pointer.
  pub data Chain (h : Heap) : Ptr → Cells N → Type 0 where
    nil : Chain h null []
    cons :
        {p : Ptr} {n : N} {cells : Cells N}
        → (p == null) ≡ false
        → h p ≡ some (l.block n)
        → Chain h (l.next n) cells
        → Chain h p ((p, n) ∷ cells)

-- What is freed with one record of a list, and which calls of the system this takes; the pointer to
-- the next record is no matter.
pub record Owning (N : Type 0) (l : Linked N) : Type 1 where
  pub owns : Ptr → N → List Ptr
  pub calls : N → Io (Unit {0})
  pub owns-self : (p : Ptr) (n : N) → has p (owns p n) ≡ true
  pub owns-relink : (p q : Ptr) (n : N) → owns p (l.relink q n) ≡ owns p n
  pub calls-relink : (q : Ptr) (n : N) → calls (l.relink q n) ≡ calls n

module _ {N : Type 0} {l : Linked N} (o : Owning N l) where
  abbrev pub owned : Cells N → List Ptr
  owned [] = []
  owned ((p, n) ∷ cells) = o.owns p n ++ owned cells

  -- The calls of the loop, and of the function, which comes to the first record last.
  abbrev pub calls_behind : Cells N → Io (Unit {0})
  calls_behind [] = ret tt
  calls_behind ((p, n) ∷ cells) = System.◌>>=◌ (o.calls n) (λ u. calls_behind cells)

  abbrev pub calls_of : Cells N → Io (Unit {0})
  calls_of [] = ret tt
  calls_of ((p, n) ∷ cells) = System.◌>>=◌ (calls_behind cells) (λ u. o.calls n)

  pub Chain-same :
      {g h : Heap} {p : Ptr} {cells : Cells N}
      → ((a : Ptr) → has a (owned cells) ≡ true → g a ≡ h a)
      → Chain l h p cells
      → Chain l g p cells
  Chain-same same nil = nil
  Chain-same same (cons {p} {n} {cells} real at rest) =
      cons real
        (same p (ground (arith, has-append p (o.owns p n) (owned cells), o.owns-self p n)) ∙ at)
        (Chain-same (λ a i. same a (ground (arith, has-append a (o.owns p n) (owned cells)))) rest)
