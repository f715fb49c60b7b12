-- ===== src/Memory/Frees.antt =====
-- Proofs on the functions that free a list.
use mathlib.Core.Path.{fun_ext}
use ebbnc.Common.{
  ℕ, zero, suc, ◌≤◌, ◌<◌, ◌≡◌, refl, sym, ap, Bool-cases, inl, inr, ==_iff, subst, ◌∙◌, arith, true,
  false, some, List, [], ◌∷◌, ◌++◌, ◌==◌, length,
}
use ebbnc.System
use ebbnc.System.{Io, ret, call}
use ebbnc.Memory.{
  Ptr, null, Block, Heap, write, ok, Cmd, pure, and_then, free_behind, free_list, Linked,
}
use ebbnc.Memory.Release.{
  has, has-append, Blocks, Blocks-kept, Blocks-same, Blocks-first, Blocks-behind, Blocks-apart,
  less,
}
use ebbnc.Memory.Chain.{Cells, Chain, nil, cons, Owning, owned, calls_behind, calls_of, Chain-same}
use ebbnc.Memory.Links.{bind_assoc, Holds, load_node-ok, write_self, relink_twice}

new_first : (p : Ptr) (ps qs : List Ptr) → has p (ps ++ qs) ≡ false → has p ps ≡ false
new_first p ps qs new = ground (arith, has-append p ps qs)

new_behind : (p : Ptr) (ps qs : List Ptr) → has p (ps ++ qs) ≡ false → has p qs ≡ false
new_behind p ps qs new = ground (arith, has-append p ps qs)

-- A turn of the loop leaves alone what later turns free.
between_same :
    (h : Heap) (p : Ptr) (b : Block) (ps qs : List Ptr)
    → Blocks h (ps ++ qs)
    → has p qs ≡ false
    → (a : Ptr) → has a qs ≡ true
    → write (less ps h) p (some b) a ≡ h a
between_same h p b ps qs is new a i = ground (arith, Blocks-apart h ps qs is a i, (==_iff a p).0)

-- What the function that frees one record has to do.
abbrev pub FreesOne : {N : Type 0} {l : Linked N} → Owning N l → (Ptr → Cmd Ptr) → Type 0
FreesOne {N} {l} o free_one =
    (h : Heap) (p : Ptr) (n : N)
    → Holds l h p n
    → Blocks h (o.owns p n)
    → free_one p h ≡ System.◌>>=◌ (o.calls n) (λ u. ret (ok null (less (o.owns p n) h)))

module _ {N : Type 0} {l : Linked N} (o : Owning N l) (free_one : Ptr → Cmd Ptr)
    (frees : FreesOne o free_one) where
  -- The memory behind a turn of the loop, which takes the record at `q` out.
  abbrev taken_out : Heap → Ptr → Ptr → N → N → Heap
  taken_out h p q n m = write (less (o.owns q m) h) p (some (l.block (l.relink (l.next m) n)))

  -- One turn of the loop takes the second record out.
  free_behind-round :
      (k : ℕ) (h : Heap) (p q : Ptr) (n m : N)
      → Holds l h p n
      → l.next n ≡ q
      → Holds l h q m
      → Blocks h (o.owns q m)
      → has p (o.owns q m) ≡ false
      → free_behind l free_one (suc k) p h
        ≡ System.◌>>=◌ (o.calls m) (λ u. free_behind l free_one k p (taken_out h p q n m))
  unfolding free_behind
  free_behind-round k h p q n m holds to second is new =
      rw
        (
          load_node-ok l h p n holds,
          to,
          second.0,
          load_node-ok l h q m second,
          frees h q m second is,
          bind_assoc,
        )
        (ap (System.◌>>=◌ (o.calls m)) (
          fun_ext λ u.
            relink_twice l (less (o.owns q m) h) p n null (l.next m) (free_behind l free_one k p)
              (holds.0, ground (arith, holds.1))))

  free_behind-last :
      (k : ℕ) (h : Heap) (p : Ptr) (n : N)
      → Holds l h p n
      → l.next n ≡ null
      → free_behind l free_one (suc k) p h
        ≡ ret (ok tt (write h p (some (l.block (l.relink null n)))))
  unfolding free_behind
  free_behind-last k h p n holds to =
      rw (load_node-ok l h p n holds, to, unlinked, write_self h p (l.block n) holds.1) refl
    where
      unlinked : l.relink null n ≡ n
      unlinked = subst (λ q. l.relink q n ≡ n) to (l.relink-next n)

  free_behind_lem :
      (k : ℕ) (h : Heap) (p q : Ptr) (n : N) (cells : Cells N)
      → Holds l h p n
      → l.next n ≡ q
      → Chain l h q cells
      → Blocks h (owned o cells)
      → has p (owned o cells) ≡ false
      → length cells < k
      → free_behind l free_one k p h
        ≡ System.◌>>=◌
            (calls_behind o cells)
            (λ u. ret (ok tt (write (less (owned o cells) h) p (some (l.block (l.relink null n))))))
  free_behind_lem zero h p q n cells holds to chain is new fuel = absurd (omega arith)
  free_behind_lem (suc k) h p q n [] holds to nil is new fuel = free_behind-last k h p n holds to
  free_behind_lem (suc k) h p q n (c ∷ cells) holds to (cons {n = m} real at chain) is new fuel =
      free_behind-round k h p q n m holds to (real, at)
        (Blocks-first h (o.owns q m) (owned o cells) is)
        (new_first p (o.owns q m) (owned o cells) new)
      ∙ ap (System.◌>>=◌ (o.calls m)) (
          fun_ext λ u.
            free_behind_lem k (taken_out h p q n m) p (l.next m) (l.relink (l.next m) n) cells
              (holds.0, ground arith) (l.next-relink (l.next m) n) (Chain-same o same chain)
              (Blocks-same (taken_out h p q n m) h (owned o cells) same
                (Blocks-behind h (o.owns q m) (owned o cells) is))
              new_left (omega (arith, fuel))
            ∙ ap (λ g. System.◌>>=◌ (calls_behind o cells) (λ u2. ret (ok tt g))) left)
      ∙ sym (bind_assoc (o.calls m) (λ u. calls_behind o cells) _)
    where
      new_left : has p (owned o cells) ≡ false
      new_left = new_behind p (o.owns q m) (owned o cells) new

      same : (a : Ptr) → has a (owned o cells) ≡ true → (taken_out h p q n m) a ≡ h a
      same =
          between_same h p (l.block (l.relink (l.next m) n)) (o.owns q m) (owned o cells) is
            new_left

      left :
          write
            (less (owned o cells) (taken_out h p q n m))
            p
            (some (l.block (l.relink null (l.relink (l.next m) n))))
          ≡ write (less (o.owns q m ++ owned o cells) h) p (some (l.block (l.relink null n)))
      left =
          rw (l.relink-relink null (l.next m) n)
            (fun_ext λ a. ground (arith, has-append a (o.owns q m) (owned o cells)))

  spared :
      (h : Heap) (p : Ptr) (n : N) (cells : Cells N)
      → Blocks h (owned o ((p, n) ∷ cells))
      → (a : Ptr) → has a (o.owns p n) ≡ true
      → has a (owned o cells) ≡ false
  spared h p n cells is a i = elim (Bool-cases (has a (owned o cells))) [
    | inr new ↦ new
    | inl found ↦ absurd (ground (arith, Blocks-apart h (o.owns p n) (owned o cells) is a found))
  ]

  -- The memory behind the loop, with the first record the last one of its list.
  abbrev alone : Heap → Ptr → N → Cells N → Heap
  alone h p n cells = write (less (owned o cells) h) p (some (l.block (l.relink null n)))

  less-alone :
      (h : Heap) (p : Ptr) (n : N) (cells : Cells N)
      → less (o.owns p n) (alone h p n cells) ≡ less (owned o ((p, n) ∷ cells)) h
  less-alone h p n cells = fun_ext λ a.
      ground (arith, has-append a (o.owns p n) (owned o cells), o.owns-self p n, (==_iff a p).0)

  Blocks-alone :
      (h : Heap) (p : Ptr) (n : N) (cells : Cells N)
      → Blocks h (owned o ((p, n) ∷ cells))
      → Blocks (alone h p n cells) (o.owns p (l.relink null n))
  Blocks-alone h p n cells is = rw (o.owns-relink p null n) (
      Blocks-kept (alone h p n cells) h (o.owns p n)
        (λ a b i at. elim (Bool-cases (a == p)) [
          | inl here ↦ (l.block (l.relink null n), ground arith)
          | inr other ↦ (b, rw (other, spared h p n cells is a i) at)
        ])
        (Blocks-first h (o.owns p n) (owned o cells) is))

  free_first :
      (h : Heap) (p : Ptr) (n : N) (cells : Cells N)
      → Holds l h p n
      → Blocks h (owned o ((p, n) ∷ cells))
      → System.◌>>=◌ (free_one p (alone h p n cells)) (and_then λ q. pure null)
        ≡ System.◌>>=◌ (o.calls n) (λ u. ret (ok null (less (owned o ((p, n) ∷ cells)) h)))
  free_first h p n cells holds is =
      rw
        (
          frees (alone h p n cells) p (l.relink null n) (holds.0, ground arith)
              (Blocks-alone h p n cells is),
          bind_assoc,
          o.owns-relink p null n,
          o.calls-relink null n,
          less-alone h p n cells,
        )
        refl

  -- The function on a whole list: the calls of the system, and the memory less what it owns.
  pub free_list_lem :
      (k : ℕ) (h : Heap) (p : Ptr) (cells : Cells N)
      → Chain l h p cells
      → Blocks h (owned o cells)
      → length cells ≤ k
      → free_list l free_one k p h
        ≡ System.◌>>=◌ (calls_of o cells) (λ u. ret (ok null (less (owned o cells) h)))
  unfolding free_list
  free_list_lem k h p [] nil is fuel = refl
  free_list_lem k h p (c ∷ cells) (cons {n} real at chain) is fuel =
      rw
        (
          real,
          free_behind_lem k h p (l.next n) n cells (real, at) refl chain
              (Blocks-behind h (o.owns p n) (owned o cells) is)
              (spared h p n cells is p (o.owns-self p n)) (omega (arith, fuel)),
          bind_assoc,
          bind_assoc,
        )
        (ap (System.◌>>=◌ (calls_behind o cells))
          (fun_ext λ u. free_first h p n cells (real, at) is))
