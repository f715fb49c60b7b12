-- ===== src/Memory/Record.antt =====
-- Proofs on a function that frees a record with two strings of it.
use ebbnc.Common.{
  ◌≡◌, refl, ◌∙◌, arith, true, false, Option, some, List, [], ◌∷◌, ◌==◌, if◌then◌else◌,
}
use ebbnc.System.{ret}
use ebbnc.Memory.{Ptr, null, Block, Heap, ok, Cmd, pure, ◌>>=◌, load, load_as, free}
use ebbnc.Memory.Release.{has, Blocks, less, given, less-cons, less-given, free-given, free_block}

pub has-given : (p q : Ptr) → has p (given q (p ∷ [])) ≡ true
has-given p q = ground arith

module _ {N : Type 0} (node? : Block → Option N) where
  pub load_as-ok :
      (h : Heap) (p : Ptr) (b : Block) (n : N)
      → (p == null) ≡ false
      → h p ≡ some b
      → node? b ≡ some n
      → load_as node? p h ≡ ret (ok n h)
  unfolding load load_as
  load_as-ok h p b n real at is = rw (real, at, is) refl

  -- The body that `Bouncer_free` and `Config_free` share, for the pointers to the two strings.
  abbrev pub free_record : (N → Ptr) → (N → Ptr) → Ptr → Cmd Ptr
  free_record first second p = if p == null then pure p else do
    n ← load_as node? p
    _ ← free (first n)
    m ← load_as node? p
    _ ← free (second m)
    _ ← free p
    pure null

  module _ (first second : N → Ptr) (h : Heap) (p : Ptr) (b : Block) (n : N) where
    abbrev pub parts : List Ptr
    parts = given (first n) (given (second n) (p ∷ []))

    pub free_record_lem :
        (p == null) ≡ false
        → h p ≡ some b
        → node? b ≡ some n
        → Blocks h parts
        → free_record first second p h ≡ ret (ok null (less parts h))
    free_record_lem real at kind is =
        let step = free-given h (first n) (given (second n) (p ∷ [])) is in
        let h1 : Heap = less (given (first n) []) h in
        let step2 = free-given h1 (second n) (p ∷ []) step.1 in
        let h2 : Heap = less (given (second n) []) h1 in
        rw
          (
            real,
            load_as-ok h p b n real at kind,
            step.0,
            load_as-ok h1 p b n real (step.2 p (has-given p (second n)) ∙ at) kind,
            step2.0,
            (free_block h2 p [] step2.1).0,
            less-given h (first n) (given (second n) (p ∷ [])),
            less-given h1 (second n) (p ∷ []),
            less-cons h2 p [],
          )
          refl
