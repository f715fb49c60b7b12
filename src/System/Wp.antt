-- ===== src/System/Wp.antt =====
-- What holds of a program whatever the system answers. A monitor follows the calls with a state of
-- its own: which calls the state allows, which answers the system may give, and the state behind.
use ebbnc.Common.{◌≡◌, refl, sym, subst, Bool, true, false, if◌then◌else◌, List, [], ◌∷◌}
use ebbnc.System.{Call, Reply, Io, ret, call, ◌>>=◌, Event, run}

pub record Monitor (S : Type 0) : Type 1 where
  pub Allowed : Call → S → Type 0
  pub Legal : (c : Call) → Reply c → S → Type 0
  pub after : (c : Call) → Reply c → S → S

module _ {S : Type 0} (M : Monitor S) where
  -- Every call is allowed, and the result and the last state are in `Q`, for all legal answers.
  abbrev pub Wp : {A : Type 0} → Io A → (A → S → Type 0) → S → Type 0
  Wp (ret a) Q s = Q a s
  Wp (call c k) Q s = M.Allowed c s × ((r : Reply c) → M.Legal c r s → Wp (k r) Q (M.after c r s))

  pub Wp-bind :
      {A B : Type 0} (m : Io A) (f : A → Io B) (Q : B → S → Type 0) (s : S)
      → Wp m (λ a t. Wp (f a) Q t) s
      → Wp (m >>= f) Q s
  Wp-bind (ret a) f Q s h = h
  Wp-bind (call c k) f Q s (allowed, h) =
      (allowed, λ r legal. Wp-bind (k r) f Q (M.after c r s) (h r legal))

  pub Wp-mono :
      {A : Type 0} (m : Io A) (P Q : A → S → Type 0) (s : S)
      → ((a : A) (t : S) → P a t → Q a t)
      → Wp m P s
      → Wp m Q s
  Wp-mono (ret a) P Q s imp h = imp a s h
  Wp-mono (call c k) P Q s imp (allowed, h) =
      (allowed, λ r legal. Wp-mono (k r) P Q (M.after c r s) imp (h r legal))

  -- Both rules at once: what a part establishes is what the rest needs.
  pub Wp-then :
      {A B : Type 0} (m : Io A) (f : A → Io B) (P : A → S → Type 0) (Q : B → S → Type 0) (s : S)
      → Wp m P s
      → ((a : A) (t : S) → P a t → Wp (f a) Q t)
      → Wp (m >>= f) Q s
  Wp-then m f P Q s h n = Wp-bind m f Q s (Wp-mono m P (λ a t. Wp (f a) Q t) s n h)

  -- What the rest needs holds behind a part that keeps the state.
  pub Wp-stays :
      {A B : Type 0} (m : Io A) (f : A → Io B) (Q : B → S → Type 0) (s : S)
      → Wp m (λ a t. t ≡ s) s
      → ((a : A) → Wp (f a) Q s)
      → Wp (m >>= f) Q s
  Wp-stays m f Q s h n =
      Wp-then m f (λ a t. t ≡ s) Q s h (λ a t e. subst (λ u. Wp (f a) Q u) (sym e) (n a))

  -- The rules for a test, with what it found and without.
  pub Wp-test :
      {A : Type 0} (b : Bool) (x y : Io A) (Q : A → S → Type 0) (s : S)
      → (b ≡ true → Wp x Q s)
      → (b ≡ false → Wp y Q s)
      → Wp (if b then x else y) Q s
  Wp-test true x y Q s h k = h refl
  Wp-test false x y Q s h k = k refl

  pub Wp-if :
      {A : Type 0} (b : Bool) (x y : Io A) (Q : A → S → Type 0) (s : S)
      → Wp x Q s
      → Wp y Q s
      → Wp (if b then x else y) Q s
  Wp-if b x y Q s h k = Wp-test b x y Q s (λ e. h) (λ e. k)

  -- The state behind some calls, and answers that are legal whatever came before.
  unfoldable pub state_after : S → List Event → S
  state_after s [] = s
  state_after s ((c, r) ∷ past) = M.after c r (state_after s past)

  -- A run that the system answers legally ends in `Q`.
  pub Wp-run :
      {A : Type 0} (answer : List Event → (c : Call) → Reply c) (m : Io A) (Q : A → S → Type 0)
      (s : S) (past : List Event)
      → ((before : List Event) (c : Call)
          → M.Allowed c (state_after s before)
          → M.Legal c (answer before c) (state_after s before))
      → Wp m Q (state_after s past)
      → Q (run answer past m).1 (state_after s (run answer past m).0)
  unfolding run state_after
  Wp-run answer (ret a) Q s past legal h = h
  Wp-run answer (call c k) Q s past legal (allowed, h) =
      let r = answer past c in
      Wp-run answer (k r) Q s ((c, r) ∷ past) legal (h r (legal past c allowed))
