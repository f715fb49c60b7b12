-- ===== src/Server/Listen.antt =====
-- server.c: `Server_new`, `Server_listen2`, `Server_listen` and `Server_listenAll` on the memory, where the
-- servers and the bouncers are records with pointers to the next one. `server_listen_all` is the same on
-- lists. `fresh` is the address that `calloc` gives where it has the memory, in a loop that of the turn
-- with so many turns left.
pub mod Lockstep
pub mod Built
pub mod All
use ebbnc.Common.{
  ℕ, zero, suc, Bool, true, false, Option, none, some, [], ◌==◌, if◌then◌else◌, Bytes, ℤ, pos,
  negsuc, int_of_long,
}
use ebbnc.System
use ebbnc.System.{
  Io, ret, perform, Call, Reply, Result, ok, err, Sockaddr, unspec, calloc, socket, setsockopt,
  reuseaddr, bind, listen,
}
use ebbnc.Address.{Inet, ip_port_to_sockaddr, sockaddr_len}
use ebbnc.Memory.{
  Ptr, null, Block, text, server_at, ServerBlock, Heap, write, Run, fault, out_of_fuel, Cmd, pure,
  ◌>>=◌, load, load_as, store, set_next,
}
use ebbnc.Config.Free.{bouncer?}
use ebbnc.Server.{server_size}
use ebbnc.Server.Free.{server?, servers, free_server, free_server_list}

-- A call of the system in a command.
abbrev pub ask : (c : Call) → Cmd (Reply c)
ask c h = System.◌>>=◌ (perform c) (λ reply. ret (Run.ok reply h))

abbrev pub text? : Block → Option Bytes
text? (text s) = some s
text? _ = none

-- The zeros of `calloc`, and the -1 that `Server_new` puts in.
abbrev pub server_new : ServerBlock
server_new = record {
  sock = negsuc 0;
  addr = record { family = unspec 0; address = []; port = 0 };
  config = null;
  bouncer = null;
  next = null;
}

-- A write to some fields of a server.
unfoldable pub change : Ptr → (ServerBlock → ServerBlock) → Cmd (Unit {0})
change p f = load_as server? p >>= λ s. store p (server_at (f s))

module _ (net : Inet) (fresh : Ptr) where
  unfoldable pub make_server : Cmd Ptr
  make_server = ask (calloc server_size) >>= λ okay h.
      if okay
      then ret (Run.ok fresh (write h fresh (some (server_at server_new))))
      else ret (Run.ok null h)

  -- Behind `socket`, which gave a descriptor.
  unfoldable pub bind_at : Sockaddr → ℕ → Cmd Bool
  bind_at addr sock = do
    _ ← ask (setsockopt sock reuseaddr)
    bound ← ask (bind sock addr (sockaddr_len addr))
    elim bound [
      | err errno ↦ pure false
      | ok u ↦ (do
        listens ← ask (listen sock)
        elim listens [ err errno ↦ pure false | ok u2 ↦ pure true ])
    ]

  unfoldable pub listen2_at : Ptr → Bytes → ℤ → Cmd Bool
  unfolding change bind_at
  listen2_at p ip port = elim (ip_port_to_sockaddr net ip port) [
    | none ↦ pure false
    | some addr ↦ (do
      _ ← change p (λ s. record s { addr = addr })
      made ← ask (socket addr.family)
      elim made [
        | err errno ↦ (do _ ← change p (λ s. record s { sock = negsuc 0 }); pure false)
        | ok sock ↦ (do _ ← change p (λ s. record s { sock = pos sock }); bind_at addr sock)
      ])
  ]

  module _ (config : Ptr) where
    -- `Server_listen` for the bouncer at `q`: behind `Server_new`, and the whole.
    unfoldable pub listen_with : Ptr → Ptr → Cmd Ptr
    unfolding change listen2_at free_server
    listen_with q p = do
      _ ← change p (λ s. record s { config = config; bouncer = q })
      b ← load_as bouncer? q
      ip ← load_as text? b.listen_ip
      okay ← listen2_at p ip (int_of_long b.listen_port)
      if okay then pure p else free_server p

    unfoldable pub listen_at : Ptr → Cmd Ptr
    unfolding make_server listen_with
    listen_at q = make_server >>= λ p. if p == null then pure p else listen_with q p

module _ (net : Inet) (fresh : ℕ → Ptr) (config : Ptr) where
  -- The loop of `Server_listenAll`, from the bouncer at `q` on; `size` turns are enough to free what
  -- it has made.
  unfoldable pub listen_each_at : ℕ → ℕ → Ptr → Ptr → Cmd Ptr
  unfolding listen_at free_server_list
  listen_each_at size zero list q = λ h. ret out_of_fuel
  listen_each_at size (suc fuel) list q = if q == null then pure list else do
    p ← listen_at net (fresh fuel) config q
    (if p == null then free_server_list size list else (do
      _ ← set_next servers p list
      b ← load_as bouncer? q
      listen_each_at size fuel p b.next))

  unfoldable pub listen_all_at : ℕ → Ptr → Cmd Ptr
  unfolding listen_each_at
  listen_all_at fuel q = listen_each_at fuel fuel null q
