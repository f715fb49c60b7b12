-- ===== src/System/Keeps.antt =====
-- Programs that leave the open descriptors as they find them.
use ebbnc.Common.{
  ℕ, ◌≡◌, arith, Bool, true, false, Option, none, some, List, [], ◌∷◌, if◌then◌else◌,
}
use ebbnc.System.{Io, ◌>>=◌}
use ebbnc.System.Wp.{Wp, Wp-stays, Wp-if}
use ebbnc.System.Descriptors.{descriptors, holds, without}

-- The program keeps the open descriptors, and uses no other.
abbrev pub Keeps : {A : Type 0} → Io A → List ℕ → Type 0
Keeps m s = Wp descriptors m (λ a t. t ≡ s) s

-- What the rest needs holds behind a part that keeps the descriptors.
pub Keeps-Wp :
    {A B : Type 0} (m : Io A) (f : A → Io B) (Q : B → List ℕ → Type 0) (s : List ℕ)
    → Keeps m s
    → ((a : A) → Wp descriptors (f a) Q s)
    → Wp descriptors (m >>= f) Q s
Keeps-Wp m f Q s h n = Wp-stays descriptors m f Q s h n

pub Keeps-then :
    {A B : Type 0} (m : Io A) (f : A → Io B) (s : List ℕ)
    → Keeps m s
    → ((a : A) → Keeps (f a) s)
    → Keeps (m >>= f) s
Keeps-then m f s h n = Keeps-Wp m f (λ a t. t ≡ s) s h n

pub if-Wp :
    {A : Type 0} (b : Bool) (x y : Io A) (Q : A → List ℕ → Type 0) (s : List ℕ)
    → Wp descriptors x Q s
    → Wp descriptors y Q s
    → Wp descriptors (if b then x else y) Q s
if-Wp b x y Q s h k = Wp-if descriptors b x y Q s h k

pub if-Keeps :
    {A : Type 0} (b : Bool) (x y : Io A) (s : List ℕ)
    → Keeps x s
    → Keeps y s
    → Keeps (if b then x else y) s
if-Keeps b x y s h k = if-Wp b x y (λ a t. t ≡ s) s h k

pub option-Wp :
    {A B : Type 0} (o : Option A) (x : Io B) (f : A → Io B) (Q : B → List ℕ → Type 0) (s : List ℕ)
    → Wp descriptors x Q s
    → ((a : A) → Wp descriptors (f a) Q s)
    → Wp descriptors (elim o [ none ↦ x | some a ↦ f a ]) Q s
option-Wp none x f Q s h k = h
option-Wp (some a) x f Q s h k = k a

pub holds_first : (fd : ℕ) (s : List ℕ) → holds fd (fd ∷ s) ≡ true
holds_first fd s = ground arith

pub holds_behind : (fd x : ℕ) (s : List ℕ) → holds fd s ≡ true → holds fd (x ∷ s) ≡ true
holds_behind fd x s h = ground arith

pub without_first : (fd : ℕ) (s : List ℕ) → without fd (fd ∷ s) ≡ s
without_first fd s = ground arith

pub without_second :
    (fd x : ℕ) (s : List ℕ) → holds x (fd ∷ []) ≡ false → without fd (x ∷ fd ∷ s) ≡ x ∷ s
without_second fd x s h = ground arith
