-- ===== src/System/Channel.antt =====
-- What passes from one descriptor to another, as a monitor: the bytes that `read` gave of the one,
-- and the bytes that `write` took for the other. With `whole`, the latter takes all that it is
-- given.
use ebbnc.Common.{
  ℕ, ◌≡◌, ◌≤◌, refl, sym, subst, arith, Bool, true, false, [], ◌++◌, append-nil, ◌==◌, ==_iff,
  if◌then◌else◌, take, length, Bytes,
}
use ebbnc.System.{Call, Reply, Io, call, Result, ok, err, Errno}
use ebbnc.System.Wp.{Monitor, Wp}

-- What came out of the source, and what went into the sink.
pub record Channel : Type 0 where
  pub got : Bytes
  pub put : Bytes

-- The bytes of a list that begins another.
abbrev pub Starts : Bytes → Bytes → Type 0
Starts xs ys = (rest : Bytes) × (xs ++ rest ≡ ys)

pub Starts-eq : {xs ys : Bytes} → xs ≡ ys → Starts xs ys
Starts-eq {xs} {ys} e = ([], subst (λ z. xs ++ [] ≡ z) e (append-nil xs))

pub same : (n : ℕ) → (n == n) ≡ true
same n = (==_iff n n).1 refl

pub differ : (m n : ℕ) → ¬ (m ≡ n) → (m == n) ≡ false
differ m n h = ground arith

abbrev pub Takes : Bool → Bytes → Result ℕ → Type 0
Takes true bytes (ok n) = n ≡ length bytes
Takes true bytes (err errno) = ⊥
Takes false bytes (ok n) = n ≤ length bytes
Takes false bytes (err errno) = Unit

module _ (from to : ℕ) (whole : Bool) where
  abbrev Gives : (c : Call) → Reply c → Channel → Type 0
  Gives (Call.read fd size) (ok bytes) s = length bytes ≤ size
  Gives (Call.write fd bytes) r s = Takes (if fd == to then whole else false) bytes r
  Gives _ r s = Unit

  abbrev passed : (c : Call) → Reply c → Channel → Channel
  passed (Call.read fd size) (ok bytes) s =
      if fd == from then record s { got = s.got ++ bytes } else s
  passed (Call.write fd bytes) (ok n) s =
      if fd == to then record s { put = s.put ++ take n bytes } else s
  passed _ r s = s

  abbrev pub channel : Monitor Channel
  channel = record { Allowed = λ c s. Unit; Legal = Gives; after = passed }

  module _ {A : Type 0} (Q : A → Channel → Type 0) (s : Channel) where
    -- The rules for the two calls, given whether the descriptor is the source or the sink.
    pub Wp-read :
        (fd size : ℕ) (k : Result Bytes → Io A) (b : Bool)
        → (fd == from) ≡ b
        → ((bytes : Bytes)
            → length bytes ≤ size
            → Wp channel (k (ok bytes)) Q (if b then record s { got = s.got ++ bytes } else s))
        → ((errno : Errno) → Wp channel (k (err errno)) Q s)
        → Wp channel (call (Call.read fd size) k) Q s
    Wp-read fd size k b e h g = (
      tt,
      elim [
        | ok bytes ↦ λ l.
            subst
              (λ b.
                Wp channel (k (ok bytes)) Q (if b then record s { got = s.got ++ bytes } else s))
              (sym e) (h bytes l)
        | err errno ↦ λ l. g errno
      ],
    )

    pub Wp-write :
        (fd : ℕ) (bytes : Bytes) (k : Result ℕ → Io A) (b : Bool)
        → (fd == to) ≡ b
        → ((n : ℕ)
            → Takes (if b then whole else false) bytes (ok n)
            → Wp channel (k (ok n)) Q (if b then record s { put = s.put ++ take n bytes } else s))
        → ((errno : Errno)
            → Takes (if b then whole else false) bytes (err errno)
            → Wp channel (k (err errno)) Q s)
        → Wp channel (call (Call.write fd bytes) k) Q s
    Wp-write fd bytes k b e h g = (
      tt,
      elim [
        | ok n ↦ λ l.
            subst
              (λ b.
                Wp channel (k (ok n)) Q (if b then record s { put = s.put ++ take n bytes } else s))
              (sym e) (h n (subst (λ b. Takes (if b then whole else false) bytes (ok n)) e l))
        | err errno ↦
            λ l. g errno (subst (λ b. Takes (if b then whole else false) bytes (err errno)) e l)
      ],
    )
