-- ===== src/Server.antt =====
-- server.c: the sockets that listen, and the loop that takes connections. The messages for the user
-- are left out, and so are the two lines that bring FD_SETs about: `select` has their descriptors.
pub mod Descriptors
pub mod Loop
pub mod Loaded
pub mod Threads
pub mod Free
pub mod Listen
use ebbnc.Common.{
  ℕ, zero, suc, Bool, true, false, Option, none, some, List, [], ◌∷◌, map, if◌then◌else◌, Bytes, ℤ,
  int_of_long,
}
use ebbnc.Config.{Config, Bouncer}
use ebbnc.System.{
  Io, ret, ◌>>=◌, perform, Result, ok, err, Sockaddr, calloc, socket, setsockopt, reuseaddr, bind,
  listen, close, select, usleep, accept,
}
use ebbnc.Address.{Inet, ip_port_to_sockaddr, sockaddr_len}
use ebbnc.Client.{client_launch}

-- A server in the list, which has a socket; `next` is the rest of the list.
pub record Server : Type 0 where
  pub sock : ℕ
  pub addr : Sockaddr
  pub config : Config
  pub bouncer : Bouncer

-- `sizeof(Server)`.
abbrev pub server_size : ℕ
server_size = 56

-- What `Server_listen2` leaves: false without a socket, false with one, or true.
pub data Listen2 : Type 0 where
  no_socket : Listen2
  unbound : ℕ → Listen2
  bound : ℕ → Sockaddr → Listen2

-- What `Server_listen` returns: nothing, for an address that is a null pointer, null, or a server.
pub data Listening : Type 0 where
  fault refused : Listening
  listening : Server → Listening

-- The same of `Server_listenAll`; without bouncers the list is empty, which is null as well.
pub data AllListening : Type 0 where
  all_fault all_refused : AllListening
  all_listening : List Server → AllListening

module _ (net : Inet) where
  -- Behind `socket`: the option, `bind` and `listen`.
  unfoldable pub bind_server : Sockaddr → ℕ → Io Listen2
  bind_server addr sock = do
    _ ← perform (setsockopt sock reuseaddr)
    bound_to ← perform (bind sock addr (sockaddr_len addr))
    elim bound_to [
      | err errno ↦ ret (unbound sock)
      | ok u ↦ (do
        listens ← perform (listen sock)
        elim listens [ err errno ↦ ret (unbound sock) | ok u2 ↦ ret (bound sock addr) ])
    ]

  unfoldable pub server_listen2 : Bytes → ℤ → Io Listen2
  unfolding bind_server
  server_listen2 ip port = elim (ip_port_to_sockaddr net ip port) [
    | none ↦ ret no_socket
    | some addr ↦ (do
      made ← perform (socket addr.family)
      elim made [ err errno ↦ ret no_socket | ok sock ↦ bind_server addr sock ])
  ]

  module _ (config : Config) (bouncer : Bouncer) where
    -- Behind `Server_listen2`: on false `Server_free` closes the socket, if there is one.
    unfoldable pub settle : Listen2 → Io Listening
    settle no_socket = ret refused
    settle (unbound sock) = perform (close sock) >>= λ u. ret refused
    settle (bound sock addr) =
        ret (listening (record { sock = sock; addr = addr; config = config; bouncer = bouncer }))

    unfoldable pub listen_at : Option Bytes → Io Listening
    unfolding settle server_listen2
    listen_at none = ret fault
    listen_at (some ip) = server_listen2 ip (int_of_long bouncer.listen_port) >>= settle

    unfoldable pub server_listen : Io Listening
    unfolding listen_at
    server_listen = do
      okay ← perform (calloc server_size)
      elim okay [ false ↦ ret refused | true ↦ listen_at bouncer.listen_ip ]

-- `Server_free` of a server with a socket.
unfoldable pub server_free : Server → Io Unit
server_free server = perform (close server.sock)

-- The loop of `Server_freeList` over the servers behind the first, and the function.
unfoldable pub free_behind : List Server → Io Unit
unfolding server_free
free_behind [] = ret tt
free_behind (server ∷ rest) = server_free server >>= λ u. free_behind rest

unfoldable pub server_free_list : List Server → Io Unit
unfolding server_free free_behind
server_free_list [] = ret tt
server_free_list (server ∷ rest) = free_behind rest >>= λ u. server_free server

module _ (net : Inet) (config : Config) where
  -- The loop, with the list that it has made.
  unfoldable pub listen_each : List Server → List Bouncer → Io AllListening
  unfolding server_listen server_free_list
  listen_each servers [] = ret (all_listening servers)
  listen_each servers (bouncer ∷ bouncers) = do
    l ← server_listen net config bouncer
    elim l [
      | fault ↦ ret all_fault
      | refused ↦ server_free_list servers >>= λ u. ret all_refused
      | listening server ↦ listen_each (server ∷ servers) bouncers
    ]

  unfoldable pub server_listen_all : Io AllListening
  unfolding listen_each
  server_listen_all = listen_each [] config.bouncers

abbrev pub socks : List Server → List ℕ
socks [] = []
socks (server ∷ servers) = server.sock ∷ socks servers

-- The loop over the servers behind `select`, which found `set` ready.
unfoldable pub accept_each : (ℕ → Bool) → List Server → Io Unit
unfolding client_launch
accept_each set [] = ret tt
accept_each set (server ∷ servers) =
    let rest = accept_each set servers in
    if set server.sock
    then (perform (accept server.sock) >>= λ made. elim made [
      | err errno ↦ ret tt
      | ok (sock, addr) ↦ client_launch server.config server.bouncer sock addr >>= λ u. rest
    ])
    else rest

unfoldable pub server_accept : List Server → Io Unit
unfolding accept_each
server_accept servers = do
  found ← perform (select (socks servers))
  elim found [ err errno ↦ perform (usleep 10000) | ok set ↦ accept_each set servers ]

-- `Server_loop`, `fuel` turns of it.
unfoldable pub server_loop : ℕ → List Server → Io Unit
unfolding server_accept
server_loop zero servers = ret tt
server_loop (suc fuel) servers = server_accept servers >>= λ u. server_loop fuel servers
