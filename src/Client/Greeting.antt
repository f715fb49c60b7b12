-- ===== src/Client/Greeting.antt =====
-- What client.c says before it relays: `Client_sendIdnt` to the remote host, and `Client_welcome` to
-- the client.
use ebbnc.Common.{
  ℕ, Bool, true, false, Option, none, some, [], ◌∷◌, ◌++◌, ◌==◌, if◌then◌else◌, length, Bytes,
  codes,
}
use ebbnc.System.{Io, ret, ◌>>=◌, perform, ok, err, write, getsockname, getnameinfo}
use ebbnc.Misc.Format.{str_printf}
use ebbnc.Address.{Inet, ip_from_sockaddr}
use ebbnc.Ident.{ident_lookup}
use ebbnc.Client.Reply.{Client}

-- What a part of the thread returns: false, true, or nothing, after a read of an array that is not
-- set.
pub data Step : Type 0 where
  fault stop go : Step

-- `write(sock, buf, len) == len`; a descriptor of -1 fails.
unfoldable pub write_all : Option ℕ → Bytes → Io Step
write_all none buf = ret stop
write_all (some sock) buf = perform (write sock buf) >>= λ r. elim r [
  | err errno ↦ ret stop
  | ok n ↦ ret (if n == length buf then go else stop)
]

-- "IDNT %s@%s:%s\n".
unfoldable pub idnt_text : Bytes → Bytes → Bytes → Bytes
idnt_text user ip hostname =
    codes "IDNT " ++ (user ++ (b'@' ∷ (ip ++ (b':' ∷ (hostname ++ (b'\n' ∷ []))))))

abbrev pub or_star : Option Bytes → Bytes
or_star none = codes "*"
or_star (some user) = user

module _ (net : Inet) where
  -- The name of the client's host, or its address.
  unfoldable pub find_hostname : Client → Bytes → Io Bytes
  find_hostname client ip =
      if client.config.dns_lookup
      then (perform (getnameinfo client.c_addr) >>= λ o. elim o [
        | none ↦ ret ip
        | some name ↦ ret name
      ])
      else ret ip

  -- Behind the lookup of the user: what `ipFromSockaddr` returns and stores, and the line.
  unfoldable pub send_user : Client → Bytes → Bool × Option Bytes → Io Step
  unfolding find_hostname str_printf write_all
  send_user client user (false, text) = ret stop
  send_user client user (true, none) = ret fault
  send_user client user (true, some ip) = do
    hostname ← find_hostname client ip
    buf ← str_printf (idnt_text user ip hostname)
    elim buf [ none ↦ ret stop | some text ↦ write_all client.r_sock text ]

  unfoldable pub send_idnt : Client → Io Step
  unfolding send_user
  send_idnt client =
      let lookup : Io Step = (do
        local ← perform (getsockname client.c_sock)
        elim local [
          | err errno ↦ ret stop
          | ok addr ↦ (do
            user ← ident_lookup client.c_sock client.config.ident_timeout
            send_user client (or_star user) (ip_from_sockaddr net client.c_addr))
        ]) in
      if client.config.idnt then lookup else ret go

-- "220-%s\r\n".
unfoldable pub welcome_text : Bytes → Bytes
welcome_text msg = codes "220-" ++ (msg ++ (b'\r' ∷ b'\n' ∷ []))

unfoldable pub welcome : Client → Io Step
unfolding str_printf write_all
welcome client = elim client.config.welcome_msg [
  | none ↦ ret go
  | some msg ↦ (do
    buf ← str_printf (welcome_text msg)
    elim buf [ none ↦ ret stop | some text ↦ write_all (some client.c_sock) text ])
]
