-- ===== src/Memory/Links.antt =====
-- Proofs on what is read and written through a pointer to a record of a list.
use mathlib.Core.Path.{fun_ext}
use ebbnc.Common.{◌≡◌, refl, ap, arith, false, some, ◌==◌}
use ebbnc.System
use ebbnc.System.{Io, ret, call}
use ebbnc.Memory.{
  Ptr, null, Block, Heap, write, Run, ok, and_then, load, load_node, set_next, Linked,
}

pub bind_assoc :
    {A B C : Type 0} (m : Io A) (f : A → Io B) (g : B → Io C)
    → System.◌>>=◌ (System.◌>>=◌ m f) g ≡ System.◌>>=◌ m (λ a. System.◌>>=◌ (f a) g)
bind_assoc (ret a) f g = refl
bind_assoc (call c k) f g = ap (call c) (fun_ext λ r. bind_assoc (k r) f g)

module _ {N : Type 0} (l : Linked N) (h : Heap) (p : Ptr) (n : N) where
  -- A pointer to a record.
  abbrev pub Holds : Type 0
  Holds = ((p == null) ≡ false) × (h p ≡ some (l.block n))

  pub load_node-ok : Holds → load_node l p h ≡ ret (ok n h)
  unfolding load load_node
  load_node-ok (real, at) = rw (real, at, l.node?-block n) refl

  pub set_next-ok :
      (q : Ptr) → Holds → set_next l p q h ≡ ret (ok tt (write h p (some (l.block (l.relink q n)))))
  unfolding set_next
  set_next-ok q holds = rw (load_node-ok holds) refl

pub write-write :
    (h : Heap) (p : Ptr) (a b : Block) → write (write h p (some a)) p (some b) ≡ write h p (some b)
write-write h p a b = fun_ext λ q. ground arith

pub write_self : (h : Heap) (p : Ptr) (b : Block) → h p ≡ some b → write h p (some b) ≡ h
write_self h p b at = fun_ext λ q. ground (arith, at)

module _ {N : Type 0} (l : Linked N) (h : Heap) (p : Ptr) (n : N) where
  Holds-write : (p == null) ≡ false → Holds l (write h p (some (l.block n))) p n
  Holds-write real = (real, ground arith)

  -- `p->next = r; p->next = q;`.
  pub relink_twice :
      (r q : Ptr) (f : Heap → Io (Run (Unit {0})))
      → Holds l h p n
      → System.◌>>=◌
          (set_next l p r h)
          (and_then λ u g. System.◌>>=◌ (set_next l p q g) (and_then λ u2. f))
        ≡ f (write h p (some (l.block (l.relink q n))))
  relink_twice r q f holds =
      rw
        (
          set_next-ok l h p n r holds,
          set_next-ok l (write h p (some (l.block (l.relink r n)))) p (l.relink r n) q
              (real, ground arith),
          l.relink-relink q r n,
          write-write,
        )
        refl
    where
      real : (p == null) ≡ false
      real = holds.0
