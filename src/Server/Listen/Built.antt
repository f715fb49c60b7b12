-- ===== src/Server/Listen/Built.antt =====
-- Proofs on the servers that the loop of `Server_listenAll` has made in memory so far.
use ebbnc.Common.{
  ℕ, ◌≤◌, ◌<◌, ◌≡◌, refl, sym, subst, ◌∙◌, arith, true, false, Option, none, some, List, [], ◌∷◌,
  ◌==◌, ==_iff, Bytes, length, Bool-cases, inl, inr,
}
use ebbnc.System
use ebbnc.System.{Io, ret, call}
use ebbnc.System.Same.{Same, done, step}
use ebbnc.Config.{Config, Bouncer}
use ebbnc.Memory.{Ptr, null, Block, text, bouncer_at, BouncerBlock, ServerBlock, Heap, Run}
use ebbnc.Memory.Release.{has, less}
use ebbnc.Memory.Chain.{Cells, Chain, nil, cons}
use ebbnc.Memory.Ends.{addresses}
use ebbnc.Server.{Server, AllListening, all_refused, all_listening, server_free_list}
use ebbnc.Server.Free.{servers, free_server_list}
use ebbnc.Server.Free.Frees.{Stand, free_server_list-server_free_list}
use ebbnc.Server.Listen.Lockstep.{At, At-beside, TextAt, StandsFor, Refers}

-- Bouncers in memory that stand for those of a list.
abbrev pub AllStand : Heap → Cells BouncerBlock → List Bouncer → Type 0
AllStand h [] [] = Unit
AllStand h [] (bouncer ∷ list) = ⊥
AllStand h (c ∷ cells) [] = ⊥
AllStand h (c ∷ cells) (bouncer ∷ list) = StandsFor h c.0 c.1 bouncer × AllStand h cells list

-- Bouncers with their addresses in memory in front of others, the last one first.
abbrev pub met : Cells BouncerBlock → List Bouncer → List (Ptr × Bouncer) → List (Ptr × Bouncer)
met [] list owners = owners
met (c ∷ cells) [] owners = owners
met (c ∷ cells) (bouncer ∷ list) owners = met cells list ((c.0, bouncer) ∷ owners)

-- Records that point to the configuration and each to its bouncer, and servers that have them.
abbrev pub AllRefer : Config → Ptr → List (Ptr × Bouncer) → Cells ServerBlock → List Server → Type 0
AllRefer config c [] [] [] = Unit
AllRefer config c (owner ∷ owners) (cell ∷ cells) (server ∷ list) =
    Refers config c owner cell.1 server × AllRefer config c owners cells list
AllRefer config c _ _ _ = ⊥

-- What `Server_listenAll` leaves of a memory: the same, or a list of servers beside it, each with a
-- bouncer.
abbrev pub Kept : Config → Ptr → List (Ptr × Bouncer) → Heap → Run Ptr → AllListening → Type 0
Kept config c owners h (Run.ok p g) all_refused = (p ≡ null) × ((a : Ptr) → g a ≡ h a)
Kept config c owners h (Run.ok p g) (all_listening list) =
    (cells : Cells ServerBlock) × Chain servers g p cells
    × Stand cells list
    × AllRefer config c owners cells list
    × ((a : Ptr) → has a (addresses cells) ≡ false → g a ≡ h a)
Kept config c owners h _ _ = ⊥

-- The addresses that `calloc` gives are blocks that are not in use, each another one.
pub record AreFresh (h : Heap) (fresh : ℕ → Ptr) : Type 0 where
  pub real : (k : ℕ) → (fresh k == null) ≡ false
  pub unused : (k : ℕ) → h (fresh k) ≡ none
  pub apart : (j k : ℕ) → j < k → (fresh j == fresh k) ≡ false

-- The servers that are made so far, in the memory `g`, beside the memory `h`.
pub record Built (h g : Heap) (p : Ptr) (cells : Cells ServerBlock) (list : List Server)
    : Type 0 where
  pub chain : Chain servers g p cells
  pub stand : Stand cells list
  pub same : (a : Ptr) → has a (addresses cells) ≡ false → g a ≡ h a
  pub unused : (a : Ptr) → has a (addresses cells) ≡ true → h a ≡ none

Same-self :
    {A B : Type 0} {R : A → B → Type 0} (m : Io (Unit {0})) (a : A) (b : B)
    → R a b
    → Same R (System.◌>>=◌ m (λ u. ret a)) (System.◌>>=◌ m (λ u. ret b))
Same-self (ret u) a b r = done r
Same-self (call c k) a b r = step (λ reply. Same-self (k reply) a b r)

Chain-beside :
    (g : Heap) (p : Ptr) (s : ServerBlock) {q : Ptr} {cells : Cells ServerBlock}
    → g p ≡ none
    → Chain servers g q cells
    → Chain servers (At g p s) q cells
Chain-beside g p s unused nil = nil
Chain-beside g p s unused (cons {p = q} real at rest) =
    cons real (At-beside g p s q _ unused at) (Chain-beside g p s unused rest)

module _ {h g : Heap} {p : Ptr} {cells : Cells ServerBlock} {list : List Server}
    (built : Built h g p cells list) where
  -- What was in use is as it was.
  pub Built-kept : (a : Ptr) (b : Block) → h a ≡ some b → g a ≡ some b
  Built-kept a b at = elim (Bool-cases (has a (addresses cells))) [
    | inl new ↦ absurd (ground (arith, built.unused a new, at))
    | inr old ↦ built.same a old ∙ at
  ]

  TextAt-kept : (q : Ptr) (o : Option Bytes) → TextAt h q o → TextAt g q o
  TextAt-kept q none at = at
  TextAt-kept q (some ip) (real, at) = (real, Built-kept q (text ip) at)

  pub StandsFor-kept :
      (q : Ptr) (b : BouncerBlock) (bouncer : Bouncer)
      → StandsFor h q b bouncer
      → StandsFor g q b bouncer
  StandsFor-kept q b bouncer (real, at, given, port) =
      (real, Built-kept q (bouncer_at b) at, TextAt-kept b.listen_ip bouncer.listen_ip given, port)

  fresh_unused : (fresh : Ptr) → g fresh ≡ none → h fresh ≡ none
  fresh_unused fresh unused = elim (Bool-cases (has fresh (addresses cells))) [
    | inl new ↦ built.unused fresh new
    | inr old ↦ sym (built.same fresh old) ∙ unused
  ]

  -- One server more.
  pub Built-more :
      (fresh : Ptr) (s : ServerBlock) (server : Server)
      → (fresh == null) ≡ false
      → g fresh ≡ none
      → s.next ≡ p
      → Stand ((fresh, s) ∷ cells) (server ∷ list)
      → Built h (At g fresh s) fresh ((fresh, s) ∷ cells) (server ∷ list)
  Built-more fresh s server real unused is stand = record {
    chain = cons real (ground arith) (
        subst (λ q. Chain servers (At g fresh s) q cells) (sym is)
          (Chain-beside g fresh s unused built.chain));
    stand = stand;
    same = λ a old. ground (arith, built.same a);
    unused = λ a new. elim (Bool-cases (a == fresh)) [
      | inl here ↦
          subst (λ x. h x ≡ none) (sym ((==_iff a fresh).0 here)) (fresh_unused fresh unused)
      | inr other ↦ built.unused a (ground arith)
    ];
  }

  -- The list is given up.
  pub Built-freed :
      (config : Config) (c : Ptr) (owners : List (Ptr × Bouncer)) (size : ℕ)
      → length cells ≤ size
      → Same
          (Kept config c owners h)
          (free_server_list size p g)
          (System.◌>>=◌ (server_free_list list) (λ u. ret all_refused))
  Built-freed config c owners size enough =
      subst
        (λ m.
          Same (Kept config c owners h) m
            (System.◌>>=◌ (server_free_list list) (λ u. ret all_refused)))
        (sym (free_server_list-server_free_list size g p cells list built.chain built.stand enough))
        (Same-self {R = Kept config c owners h} (server_free_list list)
          (Run.ok null (less (addresses cells) g)) all_refused
          (refl, λ a. ground (arith, built.same a, built.unused a)))
