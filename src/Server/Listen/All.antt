-- ===== src/Server/Listen/All.antt =====
-- Proofs on all the servers in memory: `Server_listenAll` makes the list that `Server_freeList` takes.
use ebbnc.Common.{
  ℕ, zero, suc, ◌+◌, ◌≤◌, ◌<◌, ◌≡◌, refl, sym, subst, ◌∙◌, arith, false, Option, none, some, List,
  [], ◌∷◌, ◌==◌, if◌then◌else◌, Bytes, length,
}
use ebbnc.System
use ebbnc.System.{Io, ret, call}
use ebbnc.System.Same.{Same, done, Same-bind}
use ebbnc.Address.{Inet}
use ebbnc.Config.{Config, Bouncer}
use ebbnc.Config.Free.{bouncer?, bouncers}
use ebbnc.Memory.{
  Ptr, null, bouncer_at, server_at, BouncerBlock, ServerBlock, Heap, Run, and_then, load_as,
  set_next,
}
use ebbnc.Memory.Release.{has}
use ebbnc.Memory.Chain.{Cells, Chain, nil, cons}
use ebbnc.Memory.Ends.{addresses}
use ebbnc.Memory.Record.{load_as-ok}
use ebbnc.Memory.Links.{set_next-ok, write-write}
use ebbnc.Server.{
  Server, Listening, fault, refused, listening, AllListening, all_fault, all_refused,
  server_free_list, listen_each, server_listen_all,
}
use ebbnc.Server.Free.{servers, free_server_list}
use ebbnc.Server.Listen.{listen_each_at, listen_all_at}
use ebbnc.Server.Listen.Lockstep.{At, At-beside, TextAt, StandsFor, Made, if_false, listen_at-Made}
use ebbnc.Server.Listen.Built.{
  AllStand, met, AllRefer, Kept, AreFresh, Built, StandsFor-kept, Built-more, Built-freed,
}

given_ip : (h : Heap) (p : Ptr) (o : Option Bytes) → TextAt h p o → (ip : Bytes) × (o ≡ some ip)
given_ip h p none at = elim at [ ]
given_ip h p (some ip) at = (ip, refl)

-- `server->next = servers;`, and the step to the next bouncer.
linked :
    (g : Heap) (p p' q : Ptr) (s : ServerBlock) (b : BouncerBlock) (f : Ptr → Heap → Io (Run Ptr))
    → (p' == null) ≡ false
    → g p' ≡ none
    → (q == null) ≡ false
    → g q ≡ some (bouncer_at b)
    → System.◌>>=◌
        (set_next servers p' p (At g p' s))
        (and_then λ u k. System.◌>>=◌ (load_as bouncer? q k) (and_then λ d. f d.next))
      ≡ f b.next (At g p' (record s { next = p }))
linked g p p' q s b f real unused there at =
    rw
      (
        set_next-ok servers (At g p' s) p' s p (real, ground arith),
        write-write g p' (server_at s) (server_at (record s { next = p })),
        load_as-ok bouncer? (At g p' (record s { next = p })) q (bouncer_at b) b there
            (At-beside g p' (record s { next = p }) q (bouncer_at b) unused at) refl,
      )
      refl

module _ (net : Inet) (fresh : ℕ → Ptr) (config : Config) (c : Ptr) (h : Heap)
    (are : AreFresh h fresh) (size : ℕ) where
  -- The addresses of the turns that are left are not in use.
  abbrev Left : ℕ → Cells ServerBlock → Type 0
  Left fuel cells = (k : ℕ) → k < fuel → has (fresh k) (addresses cells) ≡ false

  -- Behind `Server_listen`, in the memory `g` with the list at `p`.
  abbrev Behind : ℕ → Ptr → Ptr → Run Ptr → Io (Run Ptr)
  Behind fuel p q = and_then λ p'. if p' == null then free_server_list size p else λ k.
      System.◌>>=◌ (set_next servers p' p k) (
        and_then λ u k2.
          System.◌>>=◌ (load_as bouncer? q k2)
            (and_then λ d. listen_each_at net fresh c size fuel p' d.next))

  abbrev BehindList : List Server → List Bouncer → Listening → Io AllListening
  BehindList list bs l = elim l [
    | fault ↦ ret all_fault
    | refused ↦ System.◌>>=◌ (server_free_list list) (λ u. ret all_refused)
    | listening server ↦ listen_each net config (server ∷ list) bs
  ]

  Behind-Same :
      (final owners : List (Ptr × Bouncer)) (fuel : ℕ) {g : Heap} {p : Ptr} (q : Ptr)
      {cells : Cells ServerBlock} {list : List Server} (b : BouncerBlock) (bouncer : Bouncer)
      (bs : List Bouncer)
      → Built h g p cells list
      → AllRefer config c owners cells list
      → (q == null) ≡ false
      → g q ≡ some (bouncer_at b)
      → length cells ≤ size
      → ((k : Heap) (p' : Ptr) (s : ServerBlock) (server : Server)
          → p' ≡ fresh fuel
          → Built h k p' ((p', s) ∷ cells) (server ∷ list)
          → AllRefer config c ((q, bouncer) ∷ owners) ((p', s) ∷ cells) (server ∷ list)
          → Same
              (Kept config c final h)
              (listen_each_at net fresh c size fuel p' b.next k)
              (listen_each net config (server ∷ list) bs))
      → (a : Run Ptr) (l : Listening) → Made config c (q, bouncer) g (fresh fuel) a l
      → Same (Kept config c final h) (Behind fuel p q a) (BehindList list bs l)
  Behind-Same final owners fuel {g} {p} q {list} b bouncer bs built refer there at room again
        (Run.ok p' k) refused (e, same) =
      subst
        (λ x.
          Same (Kept config c final h) (Behind fuel p q (Run.ok x k)) (BehindList list bs refused))
        (sym e)
        (subst
          (λ y.
            Same (Kept config c final h) (free_server_list size p y) (BehindList list bs refused))
          (sym same) (Built-freed built config c final size room))
  Behind-Same final owners fuel {g} {p} q {cells} {list} b bouncer bs built refer there at room
        again (Run.ok p' k) (listening server) (new, real, unused, (s, e, is, its, by)) =
      subst
        (λ y.
          Same (Kept config c final h) (Behind fuel p q (Run.ok p' y))
            (BehindList list bs (listening server)))
        (sym e)
        (subst
          (λ (m : Heap → Io (Run Ptr)).
            Same (Kept config c final h) (m (At g p' s)) (BehindList list bs (listening server)))
          (sym (if_false _ _ real))
          (subst (λ t. Same (Kept config c final h) t (BehindList list bs (listening server)))
            (sym
              (linked g p p' q s b (listen_each_at net fresh c size fuel p') real unused there at))
            (again _ p' (record s { next = p }) server new
              (Built-more built p' (record s { next = p }) server real unused refl
                (is, its, built.stand))
              (by, refer))))
  Behind-Same final owners fuel q b bouncer bs built refer there at room again Run.fault l made =
      elim made [ ]
  Behind-Same final owners fuel q b bouncer bs built refer there at room again Run.out_of_fuel l
        made =
      elim made [ ]
  Behind-Same final owners fuel q b bouncer bs built refer there at room again (Run.ok p' k) fault
        made =
      elim made [ ]

  Left-more :
      (fuel : ℕ) (cells : Cells ServerBlock) (p : Ptr) (s : ServerBlock)
      → p ≡ fresh fuel
      → Left (suc fuel) cells
      → Left fuel ((p, s) ∷ cells)
  Left-more fuel cells p s e left k less_than =
      rw (e, are.apart k fuel less_than, left k (omega (arith, less_than))) refl

  listen_each-Same :
      (owners : List (Ptr × Bouncer)) (fuel : ℕ) {g : Heap} {p : Ptr} (q : Ptr)
      {cells : Cells ServerBlock} {list : List Server} (bcells : Cells BouncerBlock)
      (bs : List Bouncer)
      → Built h g p cells list
      → AllRefer config c owners cells list
      → Left fuel cells
      → Chain bouncers h q bcells
      → AllStand h bcells bs
      → length bcells < fuel
      → length cells + length bcells ≤ size
      → Same
          (Kept config c (met bcells bs owners) h)
          (listen_each_at net fresh c size fuel p q g)
          (listen_each net config list bs)
  unfolding listen_each_at listen_each
  listen_each-Same owners zero q bcells bs built refer left chain stands enough room =
      absurd (omega arith)
  listen_each-Same owners (suc fuel) q {cells} [] [] built refer left nil stands enough room =
      done (cells, built.chain, built.stand, refer, built.same)
  listen_each-Same owners (suc fuel) q [] (b ∷ bs) built refer left chain stands enough room =
      elim stands [ ]
  listen_each-Same owners (suc fuel) q (x ∷ bcells) [] built refer left chain stands enough room =
      elim stands [ ]
  listen_each-Same owners (suc fuel) {g} {p} q {cells} {list} (x ∷ bcells) (bouncer ∷ bs) built
        refer left (cons {n = b} real at chain) stands enough room =
      let final = met bcells bs ((q, bouncer) ∷ owners) in
      let here : StandsFor g q b bouncer = StandsFor-kept built q b bouncer stands.0 in
      let (ip, is) = given_ip g b.listen_ip bouncer.listen_ip here.2 in
      let unused : g (fresh fuel) ≡ none =
        built.same (fresh fuel) (left fuel (omega arith)) ∙ are.unused fuel in
      subst
        (λ (m : Heap → Io (Run Ptr)).
          Same (Kept config c final h) (m g) (listen_each net config list (bouncer ∷ bs)))
        (sym (if_false _ _ real))
        (Same-bind (Kept config c final h) _ _
          (listen_at-Made net (fresh fuel) config c g q b bouncer ip (are.real fuel) unused here is)
          (Behind-Same final owners fuel q b bouncer bs built refer real here.1
            (omega (arith, room))
            (λ k p' s server new more refer_more.
              listen_each-Same ((q, bouncer) ∷ owners) fuel b.next bcells bs more refer_more
                (Left-more fuel cells p' s new left) chain stands.1 (omega (arith, enough))
                (omega (arith, room)))))

-- Where `calloc` gives addresses that are not in use, each another one, on a list of records in memory
-- that stand for the bouncers of a configuration, each with a listening address, and with more turns
-- than there are bouncers, `Server_listenAll` ends without a read of what is no block and makes the
-- calls of the same function on the list, whatever is answered. Where that refuses, it leaves a
-- null pointer and the memory as it was. Where that returns a list of servers, it leaves a pointer
-- to a list of as many records, with the socket and the address of the servers, and all else in
-- the memory as it was: each record points to the configuration, and in reversed order to the
-- record of one bouncer after the other, where the server has this configuration and this bouncer.
pub listen_all_at-server_listen_all :
    (net : Inet) (fresh : ℕ → Ptr) (config : Config) (c : Ptr) (h : Heap) (fuel : ℕ) (q : Ptr)
    (bcells : Cells BouncerBlock)
    → AreFresh h fresh
    → Chain bouncers h q bcells
    → AllStand h bcells config.bouncers
    → length bcells < fuel
    → Same
        (Kept config c (met bcells config.bouncers []) h)
        (listen_all_at net fresh c fuel q h)
        (server_listen_all net config)
unfolding listen_all_at server_listen_all
listen_all_at-server_listen_all net fresh config c h fuel q bcells are chain stands enough =
    listen_each-Same net fresh config c h are fuel [] fuel q bcells config.bouncers
      (record {
        chain = nil;
        stand = tt;
        same = λ a old. refl;
        unused = λ a new. absurd (ground arith);
      })
      tt (λ k less_than. refl) chain stands enough (omega (arith, enough))
