-- ===== src/Client.antt =====
-- client.c: the replies to a client, the connection to the remote host, and the thread. A
-- descriptor of -1 is `none`. The greeting of the remote host is in Client/Greeting, and the relay
-- in Client/Relay.
mod Reply
mod Greeting
mod Relay
pub mod Descriptors
pub mod Replies
pub mod Deadline
pub mod Serves
pub mod Closes
pub mod Contents
pub mod Idnt
pub mod Returned
unfoldable pub use Reply.*
unfoldable pub use Greeting.*
unfoldable pub use Relay.*
use ebbnc.Common.{
  ℕ, suc, Bool, true, false, Option, none, some, [], ◌∷◌, ◌++◌, if◌then◌else◌, Bytes, ℤ, pos, codes,
  int_of_long, is_positive,
}
use ebbnc.Config.{Config, Bouncer}
use ebbnc.System.{
  Io, ret, ◌>>=◌, perform, Result, ok, err, Sockaddr, Lookup, found, system_error, lookup_error,
  socket, setsockopt, nodelay, bind, connect, close, calloc, create_thread,
}
use ebbnc.Address.{
  Inet, ip_port_to_sockaddr, host_port_to_sockaddr, sockaddr_len, set_write_timeout,
}
use Reply.{Client, error_reply, errno_reply}
use Greeting.{Step, fault, stop, go, send_idnt, welcome}
use Relay.{Pass, again, ended, poll_timeout, relay}
use ebbnc.Misc.Format.{str_printf}

module _ (net : Inet) where
  -- `bind` to the local address, if there is one.
  unfoldable pub bind_local : Client → ℕ → Io Bool
  unfolding error_reply errno_reply
  bind_local client sock = elim client.bouncer.local_ip [
    | none ↦ ret true
    | some ip ↦ elim (ip_port_to_sockaddr net ip (pos 0)) [
      | none ↦ error_reply client.c_sock (codes "invalid localip") >>= λ u. ret false
      | some addr ↦ (do
        bound ← perform (bind sock addr (sockaddr_len addr))
        elim bound [
          | ok u ↦ ret true
          | err errno ↦ errno_reply client.c_sock (codes "bind") errno >>= λ u. ret false
        ])
    ]
  ]

  -- The socket's options, its local address and the connection to `r_addr`.
  unfoldable pub connect_socket : Client → Sockaddr → ℕ → Io Bool
  unfolding bind_local
  connect_socket client r_addr sock = do
    _ ←
        if is_positive client.config.write_timeout
        then set_write_timeout sock client.config.write_timeout
        else ret tt
    _ ← perform (setsockopt sock nodelay)
    bound ← bind_local client sock
    elim bound [
      | false ↦ ret false
      | true ↦ (do
        connected ← perform (connect sock r_addr (sockaddr_len r_addr))
        elim connected [
          | ok u ↦ ret true
          | err errno ↦ errno_reply client.c_sock (codes "connect") errno >>= λ u. ret false
        ])
    ]

  -- The client with its `rSock`, and what the function returns.
  unfoldable pub client_connect : Client → Io (Client × Bool)
  unfolding connect_socket str_printf
  client_connect client = do
    host ← host_port_to_sockaddr client.bouncer.remote_host (int_of_long client.bouncer.remote_port)
    elim host [
      | system_error errno ↦
          errno_reply client.c_sock (codes "hostPortToSockaddr") errno >>= λ u. ret (client, false)
      | lookup_error message ↦ (do
        msg ← str_printf (codes "hostPortToSockaddr: " ++ message)
        elim msg [
          | none ↦ ret (client, false)
          | some text ↦ error_reply client.c_sock text >>= λ u. ret (client, false)
        ])
      | found r_addr ↦ (do
        made ← perform (socket r_addr.family)
        elim made [
          | err errno ↦
              errno_reply client.c_sock (codes "socket") errno >>= λ u. ret (client, false)
          | ok sock ↦ (do
            connected ← connect_socket client r_addr sock
            ret (record client { r_sock = some sock }, connected))
        ])
    ]

-- `Client_free`.
unfoldable pub client_free : Client → Io Unit
client_free client = do
  _ ← perform (close client.c_sock)
  elim client.r_sock [ none ↦ ret tt | some sock ↦ perform (close sock) ]

-- How far a thread has come: still in the loop, at its end, or beyond a fault.
pub data Thread : Type 0 where
  running finished broken : Thread

-- `Client_relay`, where the timeout does not overflow.
unfoldable pub client_relay : ℕ → ℕ → ℕ → ℤ → Io Thread
client_relay fuel c r idle_timeout = elim (poll_timeout idle_timeout) [
  | none ↦ ret broken
  | some timeout ↦
      relay c r fuel timeout >>= λ p. elim p [ ended ↦ ret finished | again ↦ ret running ]
]

module _ (net : Inet) where
  -- `Client_sendIdnt(client) && Client_welcome(client)` and the relay.
  unfoldable pub client_serve : ℕ → Client → Option ℕ → Io Thread
  unfolding client_relay
  client_serve fuel client none = ret broken
  client_serve fuel client (some r) = do
    sent ← send_idnt net client
    elim sent [
      | fault ↦ ret broken
      | stop ↦ ret finished
      | go ↦ (do
        welcomed ← welcome client
        elim welcomed [
          | fault ↦ ret broken
          | stop ↦ ret finished
          | go ↦ client_relay fuel client.c_sock r client.config.idle_timeout
        ])
    ]

  -- Behind `Client_connect`: the rest of the condition, the relay and `Client_free`.
  unfoldable pub client_proceed : ℕ → Client × Bool → Io Thread
  unfolding client_serve client_free
  client_proceed fuel (client, okay) = do
    t ← if okay then client_serve fuel client client.r_sock else ret finished
    elim t [
      | running ↦ ret running
      | broken ↦ ret broken
      | finished ↦ client_free client >>= λ u. ret finished
    ]

  -- `Client_threadMain`, with `fuel` passes of the relay at most.
  unfoldable pub client_thread_main : ℕ → Client → Io Thread
  unfolding client_connect client_proceed
  client_thread_main fuel client = do
    _ ←
        if is_positive client.config.write_timeout
        then set_write_timeout client.c_sock client.config.write_timeout
        else ret tt
    client_connect net client >>= client_proceed fuel

-- `sizeof(Client)`.
abbrev pub client_size : ℕ
client_size = 304

-- `Client_launch`: what `pthread_create` returns is not looked at.
unfoldable pub client_launch : Config → Bouncer → ℕ → Sockaddr → Io Unit
client_launch config bouncer sock addr = do
  okay ← perform (calloc client_size)
  elim okay [
    | true ↦ perform (create_thread sock addr config bouncer) >>= λ created. ret tt
    | false ↦ ret tt
  ]
