-- ===== src/Client/Idnt/Questions.antt =====
-- Proofs on whom `Client_sendIdnt` of client.c asks, and on the user that `identLookup` of ident.c then
-- returns.
use ebbnc.Common.{
  ℕ, ◌≡◌, refl, true, false, ◌&&◌, inl, inr, Bool-cases, Option, none, some, List, [], ◌∷◌, ◌++◌,
  ◌==◌, if◌then◌else◌, take, length, Bytes, ◌≤◌, ℤ, same_int, same_int_iff, arith,
}
use ebbnc.System.{Call, Reply, Io, Result, ok, err, Sockaddr}
use ebbnc.System.Wp.{Monitor, Wp, Wp-if}
use ebbnc.Address.{port_from_sockaddr, set_read_timeout, set_write_timeout}
use ebbnc.Ident.{scan_reply, accept_reply, converse, ask_server, is_internet, ident_lookup}
use ebbnc.Ident.Accepts.{IsName}
use ebbnc.Ident.Names.{Third, scan_reply-Third}

-- What was written to the remote host, the last addresses of the client's host and of the program
-- that were told, the text that was received, and what `getnameinfo` answered, newest first.
pub record Asked : Type 0 where
  pub put : Bytes
  pub peer : Option Sockaddr
  pub local : Option Sockaddr
  pub heard : Option Bytes
  pub hosts : List (Option Bytes)

-- Of the client's socket the two addresses are asked, of the client's address the name, and only
-- port 113 of the client's host is connected to. A new socket is not that to the remote host, on
-- which there is no stream.
module _ (c r : ℕ) (addr : Sockaddr) where
  abbrev AsksOf : Call → Asked → Type 0
  AsksOf (Call.getpeername fd) s = fd ≡ c
  AsksOf (Call.getsockname fd) s = fd ≡ c
  AsksOf (Call.getnameinfo a) s = a ≡ addr
  AsksOf (Call.connect fd a len) s =
      (peer : Sockaddr) × (s.peer ≡ some peer) × (a ≡ record peer { port = 113 })
  AsksOf (Call.fprintf fd bytes) s = ¬ (fd ≡ r)
  AsksOf _ s = Unit

  abbrev Answers : (c : Call) → Reply c → Asked → Type 0
  Answers (Call.socket family) (ok fd) s = ¬ (fd ≡ r)
  Answers (Call.write fd bytes) (ok n) s = n ≤ length bytes
  Answers _ reply s = Unit

  abbrev learnt : (c : Call) → Reply c → Asked → Asked
  learnt (Call.getpeername fd) (ok a) s = record s { peer = some a }
  learnt (Call.getsockname fd) (ok a) s = record s { local = some a }
  learnt (Call.receive fd) text s = record s { heard = some text }
  learnt (Call.getnameinfo a) o s = record s { hosts = o ∷ s.hosts }
  learnt (Call.write fd bytes) (ok n) s =
      if fd == r then record s { put = s.put ++ take n bytes } else s
  learnt _ reply s = s

  abbrev pub asking : Monitor Asked
  asking = record { Allowed = AsksOf; Legal = Answers; after = learnt }

-- The user in the text that was received, if its ports are those of the two addresses.
abbrev pub Gave : Option Bytes → Option Sockaddr → Option Sockaddr → Bytes → Type 0
Gave none peer local user = ⊥
Gave (some text) none local user = ⊥
Gave (some text) (some peer) none user = ⊥
Gave (some text) (some peer) (some local) user =
    scan_reply text ≡ some (port_from_sockaddr peer, port_from_sockaddr local, user)

-- Nothing is written, and no name asked for.
abbrev pub before : Option Sockaddr → Option Sockaddr → Option Bytes → Asked
before peer local heard = record { put = []; peer = peer; local = local; heard = heard; hosts = [] }

-- The user that was given, or none where none was.
abbrev pub Found : Option Bytes → Option Sockaddr → Option Sockaddr → Option Bytes → Type 0
Found heard peer local none = (user : Bytes) → ¬ Gave heard peer local user
Found heard peer local (some user) = Gave heard peer local user × IsName user

abbrev pub FoundIn : Option Bytes → Asked → Type 0
FoundIn o t =
    (peer : Option Sockaddr) × (local : Option Sockaddr) × (heard : Option Bytes) × (t
      ≡ before peer local heard)
    × Found heard peer local o

-- What the last test makes of a reply that was read.
abbrev Accepted : ℤ → ℤ → Option (ℤ × ℤ × Bytes) → Option Bytes → Type 0
Accepted remote local o none = (user : Bytes) → ¬ (o ≡ some (remote, local, user))
Accepted remote local o (some user) = (o ≡ some (remote, local, user)) × IsName user

if-Accepted :
    (remote local r l : ℤ) (user : Bytes)
    → IsName user
    → Accepted remote local
        (some (r, l, user))
        (if same_int l local && same_int r remote then some user else none)
if-Accepted remote local r l user h = elim (Bool-cases (same_int l local)) [
  | inr other ↦ rw other (λ u e. ground (arith, same_int_iff l local, e))
  | inl same ↦ elim (Bool-cases (same_int r remote)) [
    | inr other ↦ rw (same, other) (λ u e. ground (arith, same_int_iff r remote, e))
    | inl same2 ↦ rw (same, same2) (ground (arith, same_int_iff l local, same_int_iff r remote), h)
  ]
]

accept_reply-Accepted :
    (remote local : ℤ) (o : Option (ℤ × ℤ × Bytes))
    → Third o
    → Accepted remote local o (accept_reply remote local o)
unfolding accept_reply
accept_reply-Accepted remote local none h = λ user e. ground arith
accept_reply-Accepted remote local (some (r, l, user)) h = if-Accepted remote local r l user h

accept_reply-Found :
    (peer local : Sockaddr) (text : Bytes) (o : Option Bytes)
    → Accepted (port_from_sockaddr peer) (port_from_sockaddr local) (scan_reply text) o
    → Found (some text) (some peer) (some local) o
accept_reply-Found peer local text none h = h
accept_reply-Found peer local text (some user) h = h

module _ (c r : ℕ) (addr : Sockaddr) where
  abbrev Finds : Option Sockaddr → Option Sockaddr → Io (Option Bytes) → Type 0
  Finds peer local m = Wp (asking c r addr) m FoundIn (before peer local none)

  nobody : (peer local : Option Sockaddr) → FoundIn none (before peer local none)
  nobody peer local = (peer, local, none, refl, λ user e. e)

  converse-Finds :
      (peer local : Sockaddr) (sock : ℕ)
      → ¬ (sock ≡ r)
      → Finds
          (some peer)
          (some local)
          (converse sock (port_from_sockaddr peer) (port_from_sockaddr local))
  unfolding converse
  converse-Finds peer local sock apart =
      let nobody_here = nobody (some peer) (some local) in
      (
        tt,
        elim [
          | false ↦ λ l. (tt, λ u l2. nobody_here)
          | true ↦ λ l. (
            apart,
            elim [
              | false ↦ λ l2. (tt, λ u l3. nobody_here)
              | true ↦ λ l2. (
                tt,
                λ text l3. (
                  tt,
                  λ u l4. (
                    some peer,
                    some local,
                    some text,
                    refl,
                    accept_reply-Found peer local text _ (
                        accept_reply-Accepted (port_from_sockaddr peer) (port_from_sockaddr local)
                          (scan_reply text) (scan_reply-Third text)),
                  ),
                ),
              )
            ],
          )
        ],
      )

  ask_server-Finds :
      (peer local : Sockaddr) (timeout : ℤ) (made : Result ℕ)
      → Answers c r addr (Call.socket peer.family) made (before (some peer) (some local) none)
      → Finds (some peer) (some local) (ask_server peer local timeout made)
  unfolding ask_server set_read_timeout set_write_timeout
  ask_server-Finds peer local timeout (err errno) apart = nobody (some peer) (some local)
  ask_server-Finds peer local timeout (ok sock) apart = (
    tt,
    λ u l. (
      tt,
      λ u2 l2. (
        (peer, refl, refl),
        elim [
          | ok u3 ↦ λ l3. converse-Finds peer local sock apart
          | err errno ↦ λ l3. (tt, λ u3 l4. nobody (some peer) (some local))
        ],
      ),
    ),
  )

  -- The user that `identLookup` returns is the one in the text that it received.
  pub ident_lookup-Finds :
      (peer local : Option Sockaddr) (timeout : ℤ) → Finds peer local (ident_lookup c timeout)
  unfolding ident_lookup
  ident_lookup-Finds peer local timeout = (
    refl,
    elim [
      | err errno ↦ λ l. nobody peer local
      | ok a ↦ λ l. (
        refl,
        elim [
          | err errno ↦ λ l2. nobody (some a) local
          | ok b ↦ λ l2.
              Wp-if (asking c r addr) (is_internet a.family) _ _ FoundIn
                (before (some a) (some b) none)
                (tt, λ made l3. ask_server-Finds a b timeout made l3) (nobody (some a) (some b))
        ],
      )
    ],
  )
