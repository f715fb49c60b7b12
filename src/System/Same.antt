-- ===== src/System/Same.antt =====
-- Two programs in lockstep: they make the same calls, whatever is answered, and their results stand in
-- a relation.
use ebbnc.System.{Io, ret, call, ◌>>=◌, Call, Reply}

pub data Same {A B : Type 0} (R : A → B → Type 0) : Io A → Io B → Type 0 where
  done : {a : A} {b : B} → R a b → Same R (ret a) (ret b)
  step :
      {c : Call} {f : Reply c → Io A} {g : Reply c → Io B}
      → ((reply : Reply c) → Same R (f reply) (g reply))
      → Same R (call c f) (call c g)

module _ {A B C D : Type 0} {R : A → B → Type 0} (S : C → D → Type 0) where
  pub Same-bind :
      {m : Io A} {n : Io B} (f : A → Io C) (g : B → Io D)
      → Same R m n
      → ((a : A) (b : B) → R a b → Same S (f a) (g b))
      → Same S (m >>= f) (n >>= g)
  Same-bind f g (done r) next = next _ _ r
  Same-bind f g (step k) next = step (λ reply. Same-bind f g (k reply) next)
