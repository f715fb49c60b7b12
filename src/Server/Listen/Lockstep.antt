-- ===== src/Server/Listen/Lockstep.antt =====
-- Proofs on one server in memory: the functions on the memory make the calls of those on lists.
use mathlib.Core.Path.{fun_ext}
use ebbnc.Common.{
  ℕ, ◌≡◌, refl, sym, ap, subst, ◌∙◌, arith, Bool, true, false, Option, none, some, [], ◌∷◌, ◌==◌,
  ==_iff, if◌then◌else◌, Bytes, ℤ, pos, negsuc, int_of_long, Option-cases, Bool-cases, inl, inr,
}
use ebbnc.System
use ebbnc.System.{Io, ret, ok, err, Sockaddr, perform, close}
use ebbnc.System.Same.{Same, done, step, Same-bind}
use ebbnc.Address.{Inet, ip_port_to_sockaddr}
use ebbnc.Config.{Config, Bouncer}
use ebbnc.Config.Free.{bouncer?}
use ebbnc.Memory.{
  Ptr, null, Block, text, bouncer_at, server_at, BouncerBlock, ServerBlock, Heap, write, Run,
  and_then, pure, load_as,
}
use ebbnc.Memory.Release.{less}
use ebbnc.Memory.Record.{load_as-ok}
use ebbnc.Server.{
  Server, Listen2, no_socket, unbound, bound, Listening, refused, listening, bind_server,
  server_listen2, settle, server_listen,
}
use ebbnc.Server
use ebbnc.Server.Free.{server?, close_sock, free_server}
use ebbnc.Server.Free.Frees.{free_server-FreesOne}
use ebbnc.Server.Listen.{
  text?, server_new, change, make_server, bind_at, listen2_at, listen_with, listen_at,
}

-- A server at an address that was free.
abbrev pub At : Heap → Ptr → ServerBlock → Heap
At h p s = write h p (some (server_at s))

module _ (h : Heap) (p : Ptr) (real : (p == null) ≡ false) where
  load-At : (s : ServerBlock) → load_as server? p (At h p s) ≡ ret (Run.ok s (At h p s))
  load-At s = load_as-ok server? (At h p s) p (server_at s) s real (ground arith) refl

  change-At :
      (f : ServerBlock → ServerBlock) (s : ServerBlock)
      → change p f (At h p s) ≡ ret (Run.ok tt (At h p (f s)))
  unfolding change
  change-At f s = rw (load-At s) (ap (λ g. ret (Run.ok tt g)) (fun_ext λ a. ground arith))

  less-At : (s : ServerBlock) → h p ≡ none → less (p ∷ []) (At h p s) ≡ h
  less-At s unused = fun_ext λ a. ground (arith, unused, (==_iff a p).0)

  free_server-At :
      (s : ServerBlock)
      → h p ≡ none
      → free_server p (At h p s) ≡ System.◌>>=◌ (close_sock s.sock) (λ u. ret (Run.ok null h))
  free_server-At s unused =
      free_server-FreesOne (At h p s) p s (real, ground arith)
        (real, (server_at s, ground arith), refl, tt)
      ∙ ap (λ g. System.◌>>=◌ (close_sock s.sock) (λ u. ret (Run.ok null g))) (less-At s unused)

-- What `Server_listen2` leaves in memory, where the list has a `Listen2`.
abbrev Left : Heap → Ptr → Ptr → Ptr → Run Bool → Listen2 → Type 0
Left h p c q (Run.ok false g) no_socket = (s : ServerBlock) × (g ≡ At h p s) × (s.sock ≡ negsuc 0)
Left h p c q (Run.ok false g) (unbound sock) =
    (s : ServerBlock) × (g ≡ At h p s) × (s.sock ≡ pos sock)
Left h p c q (Run.ok true g) (bound sock addr) =
    (s : ServerBlock) × (g ≡ At h p s)
    × (s.sock ≡ pos sock)
    × (s.addr ≡ addr)
    × (s.config ≡ c)
    × (s.bouncer ≡ q)
Left h p c q _ _ = ⊥

module _ (net : Inet) (fresh : Ptr) (h : Heap) (p : Ptr) (real : (p == null) ≡ false)
    (c q : Ptr) where
  bind_at-Left :
      (addr : Sockaddr) (sock : ℕ) (s : ServerBlock)
      → s.sock ≡ pos sock
      → s.addr ≡ addr
      → s.config ≡ c
      → s.bouncer ≡ q
      → Same (Left h p c q) (bind_at net fresh addr sock (At h p s)) (bind_server net addr sock)
  unfolding bind_at bind_server
  bind_at-Left addr sock s is its of by = step λ u. step (elim [
    | err errno ↦ done (s, refl, is)
    | ok u2 ↦
        step (elim [ err errno ↦ done (s, refl, is) | ok u3 ↦ done (s, refl, is, its, of, by) ])
  ])

  listen2_at-Left :
      (ip : Bytes) (port : ℤ) (s : ServerBlock)
      → s.sock ≡ negsuc 0
      → s.config ≡ c
      → s.bouncer ≡ q
      → Same (Left h p c q) (listen2_at net fresh p ip port (At h p s)) (server_listen2 net ip port)
  unfolding listen2_at server_listen2
  listen2_at-Left ip port s unset of by = elim (Option-cases (ip_port_to_sockaddr net ip port)) [
    | inl bad ↦ rw (server_listen2, listen2_at, bad) (done (s, refl, unset))
    | inr (addr, good) ↦
        rw (server_listen2, listen2_at, good, change-At h p real (λ t. record t { addr = addr }) s)
          (step (elim [
            | err errno ↦
                rw
                  (change-At h p real (λ t. record t { sock = negsuc 0 })
                    (record s { addr = addr }))
                  (done (_, refl, refl))
            | ok sock ↦
                rw
                  (change-At h p real (λ t. record t { sock = pos sock })
                    (record s { addr = addr }))
                  (bind_at-Left addr sock (record s { addr = addr; sock = pos sock }) refl refl of
                    by)
          ]))
  ]

-- A pointer to a string, or null.
abbrev pub TextAt : Heap → Ptr → Option Bytes → Type 0
TextAt h p none = ⊥
TextAt h p (some s) = ((p == null) ≡ false) × (h p ≡ some (text s))

-- A record in memory that stands for a bouncer with a listening address.
abbrev pub StandsFor : Heap → Ptr → BouncerBlock → Bouncer → Type 0
StandsFor h q b bouncer =
    ((q == null) ≡ false)
    × (h q ≡ some (bouncer_at b))
    × TextAt h b.listen_ip bouncer.listen_ip
    × (b.listen_port ≡ bouncer.listen_port)

-- A record with the pointers to the configuration and to a bouncer, and a server with the two.
abbrev pub Refers : Config → Ptr → Ptr × Bouncer → ServerBlock → Server → Type 0
Refers config c (q, bouncer) s server =
    (s.config ≡ c) × (server.config ≡ config) × (s.bouncer ≡ q) × (server.bouncer ≡ bouncer)

-- What `Server_listen` leaves in memory.
abbrev pub Made : Config → Ptr → Ptr × Bouncer → Heap → Ptr → Run Ptr → Listening → Type 0
Made config c owner h fresh (Run.ok p g) refused = (p ≡ null) × (g ≡ h)
Made config c owner h fresh (Run.ok p g) (listening server) =
    (p ≡ fresh)
    × ((p == null) ≡ false)
    × (h p ≡ none)
    × ((s : ServerBlock) × (g ≡ At h p s)
        × (s.sock ≡ pos server.sock)
        × (s.addr ≡ server.addr)
        × Refers config c owner s server)
Made config c owner h fresh _ _ = ⊥

module _ (net : Inet) (fresh : Ptr) (config : Config) (h : Heap) (p : Ptr)
    (real : (p == null) ≡ false) (unused : h p ≡ none) (c q : Ptr) (bouncer : Bouncer) where
  settled-Made :
      (a : Run Bool) (l : Listen2)
      → Left h p c q a l
      → Same
          (Made config c (q, bouncer) h p)
          (and_then (λ okay. if okay then pure p else free_server p) a)
          (settle net config bouncer l)
  unfolding settle
  settled-Made (Run.ok false g) no_socket (s, e, is) =
      rw (e, free_server-At h p real s unused, is) (done (refl, refl))
  settled-Made (Run.ok false g) (unbound sock) (s, e, is) =
      rw (e, free_server-At h p real s unused, is) (step λ u. done (refl, refl))
  settled-Made (Run.ok true g) (bound sock addr) (s, e, is, its, of, by) =
      done (refl, real, unused, (s, e, is, its, (of, refl, by, refl)))
  settled-Made (Run.ok true g) no_socket h = elim h [ ]
  settled-Made (Run.ok true g) (unbound sock) h = elim h [ ]
  settled-Made (Run.ok false g) (bound sock addr) h = elim h [ ]
  settled-Made Run.fault no_socket h = elim h [ ]
  settled-Made Run.fault (unbound sock) h = elim h [ ]
  settled-Made Run.fault (bound sock addr) h = elim h [ ]
  settled-Made Run.out_of_fuel no_socket h = elim h [ ]
  settled-Made Run.out_of_fuel (unbound sock) h = elim h [ ]
  settled-Made Run.out_of_fuel (bound sock addr) h = elim h [ ]

-- A block that was in use is the same beside a new one.
pub At-beside :
    (h : Heap) (p : Ptr) (s : ServerBlock) (q : Ptr) (b : Block)
    → h p ≡ none
    → h q ≡ some b
    → At h p s q ≡ some b
At-beside h p s q b unused at = elim (Bool-cases (q == p)) [
  | inl same ↦ absurd (ground (arith, (==_iff q p).0 same))
  | inr other ↦ rw other at
]

pub if_false {ℓ} : {A : Type ℓ} {b : Bool} (x y : A) → b ≡ false → (if b then x else y) ≡ y
if_false x y e = ap (λ b. if b then x else y) e

module _ (net : Inet) (fresh : Ptr) (config : Config) (c : Ptr) (h : Heap) where
  listen_with-Made :
      (p q : Ptr) (b : BouncerBlock) (bouncer : Bouncer) (ip : Bytes)
      → (p == null) ≡ false
      → h p ≡ none
      → StandsFor h q b bouncer
      → bouncer.listen_ip ≡ some ip
      → Same
          (Made config c (q, bouncer) h p)
          (listen_with net fresh c q p (At h p server_new))
          (Server.listen_at net config bouncer (some ip))
  unfolding listen_with Server.listen_at
  listen_with-Made p q b bouncer ip real unused (there, at, given, port) is =
      let s = record server_new { config = c; bouncer = q } in
      let (there2, at2) = subst (TextAt h b.listen_ip) is given in
      rw
        (
          change-At h p real (λ s. record s { config = c; bouncer = q }) server_new,
          load_as-ok bouncer? (At h p s) q (bouncer_at b) b there
              (At-beside h p s q (bouncer_at b) unused at) refl,
          load_as-ok text? (At h p s) b.listen_ip (text ip) ip there2
              (At-beside h p s b.listen_ip (text ip) unused at2) refl,
          port,
        )
        (Same-bind (Made config c (q, bouncer) h p) _ (settle net config bouncer)
          (listen2_at-Left net fresh h p real c q ip (int_of_long bouncer.listen_port) s refl refl
            refl)
          (settled-Made net fresh config h p real unused c q bouncer))

  pub listen_at-Made :
      (q : Ptr) (b : BouncerBlock) (bouncer : Bouncer) (ip : Bytes)
      → (fresh == null) ≡ false
      → h fresh ≡ none
      → StandsFor h q b bouncer
      → bouncer.listen_ip ≡ some ip
      → Same
          (Made config c (q, bouncer) h fresh)
          (listen_at net fresh c q h)
          (server_listen net config bouncer)
  unfolding listen_at make_server server_listen
  listen_at-Made q b bouncer ip real unused stands is = step (elim [
    | false ↦ done (refl, refl)
    | true ↦
        subst
          (λ (m : Heap → Io (Run Ptr)).
            Same (Made config c (q, bouncer) h fresh) (m (At h fresh server_new))
              (Server.listen_at net config bouncer bouncer.listen_ip))
          (sym (if_false (pure fresh) (listen_with net fresh c q fresh) real))
          (subst
            (λ o.
              Same (Made config c (q, bouncer) h fresh)
                (listen_with net fresh c q fresh (At h fresh server_new))
                (Server.listen_at net config bouncer o))
            (sym is) (listen_with-Made fresh q b bouncer ip real unused stands is))
  ])
