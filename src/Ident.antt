-- ===== src/Ident.antt =====
-- ident.c: `identLookup`.
mod Reply
pub mod Descriptors
pub mod Accepts
pub mod Names
unfoldable pub use Reply.*
use ebbnc.Common.{
  ℕ, Bool, true, false, ◌&&◌, Option, none, some, [], ◌∷◌, ◌++◌, ◌==◌, if◌then◌else◌, Bytes, ℤ, pos,
  negsuc, same_int,
}
use ebbnc.Libc.{print_int}
use ebbnc.System.{
  Io, ret, ◌>>=◌, perform, Result, ok, err, Family, inet, inet6, unspec, Sockaddr, getpeername,
  getsockname, socket, connect, close, fdopen, fprintf, receive, fclose,
}
use ebbnc.Address.{port_from_sockaddr, sockaddr_len, set_read_timeout, set_write_timeout}

abbrev pub ident_port : ℕ
ident_port = 113

-- The line that asks: "%i,%i\r\n".
unfoldable pub ident_request : ℤ → ℤ → Bytes
ident_request remote local = print_int remote ++ (b',' ∷ (print_int local ++ (b'\r' ∷ b'\n' ∷ [])))

-- The last test: all three were assigned, and the ports are those that were asked for.
unfoldable pub accept_reply : ℤ → ℤ → Option (ℤ × ℤ × Bytes) → Option Bytes
accept_reply remote local none = none
accept_reply remote local (some (reply_remote, reply_local, user)) =
    if same_int reply_local local && same_int reply_remote remote then some user else none

-- Behind `connect`: the conversation on the stream.
unfoldable pub converse : ℕ → ℤ → ℤ → Io (Option Bytes)
converse sock remote local = do
  opened ← perform (fdopen sock)
  elim opened [
    | false ↦ (do _ ← perform (close sock); ret none)
    | true ↦ (do
      sent ← perform (fprintf sock (ident_request remote local))
      elim sent [
        | false ↦ (do _ ← perform (fclose sock); ret none)
        | true ↦ (do
          text ← perform (receive sock)
          _ ← perform (fclose sock)
          ret (accept_reply remote local (scan_reply text)))
      ])
  ]

-- The socket, with its timeouts, and the connection.
unfoldable pub ask_server : Sockaddr → Sockaddr → ℤ → Result ℕ → Io (Option Bytes)
unfolding converse
ask_server peer local timeout (err errno) = ret none
ask_server peer local timeout (ok sock) = do
  _ ← set_read_timeout sock timeout
  _ ← set_write_timeout sock timeout
  let addr = record peer { port = ident_port }
  connected ← perform (connect sock addr (sockaddr_len addr))
  elim connected [
    | ok u ↦ converse sock (port_from_sockaddr peer) (port_from_sockaddr local)
    | err errno ↦ (do _ ← perform (close sock); ret none)
  ]

-- The switch on the family.
abbrev pub is_internet : Family → Bool
is_internet inet = true
is_internet inet6 = true
is_internet (unspec family) = false

-- `none` returns false; the user is what `user` holds otherwise.
unfoldable pub ident_lookup : ℕ → ℤ → Io (Option Bytes)
unfolding ask_server
ident_lookup sock timeout = do
  peer ← perform (getpeername sock)
  elim peer [
    | err errno ↦ ret none
    | ok peer_addr ↦ (do
      local ← perform (getsockname sock)
      elim local [
        | err errno ↦ ret none
        | ok local_addr ↦
            if is_internet peer_addr.family
            then perform (socket peer_addr.family) >>= ask_server peer_addr local_addr timeout
            else ret none
      ])
  ]
