-- ===== src/Client/Idnt.antt =====
-- Proofs on the IDNT line that client.c sends to the remote host.
pub mod Questions
use ebbnc.Common.{
  ℕ, ◌≡◌, refl, arith, sym, ap, subst, ◌∙◌, Bool, true, false, ◌⊎◌, inl, inr, Option, none, some,
  List, [], ◌∷◌, ◌++◌, ◌==◌, ==_iff, if◌then◌else◌, take, take-length, length, Bytes, codes,
}
use ebbnc.System.{ret, ok, err, Sockaddr}
use ebbnc.System.Wp.{Wp, Wp-then, Wp-test}
use ebbnc.System.Channel.{same}
use ebbnc.Address.{Inet, ip_from_sockaddr}
use ebbnc.Ident.{ident_lookup}
use ebbnc.Ident.Accepts.{IsName}
use ebbnc.Misc.Format.{str_printf}
use ebbnc.Client.{
  Client, Step, stop, go, or_star, write_all, find_hostname, send_user, send_idnt, idnt_text,
}
use ebbnc.Client.Idnt.Questions.{Asked, asking, Gave, before, Found, FoundIn, ident_lookup-Finds}

-- A user that the line names: the one that the ident server gave, or a star where it gave none.
abbrev pub IsUser : Asked → Bytes → Type 0
IsUser t user =
    (Gave t.heard t.peer t.local user × IsName user)
    ⊎ ((user ≡ codes "*") × ((u : Bytes) → ¬ Gave t.heard t.peer t.local u))

-- The host that the line names: what `getnameinfo` answered when it was asked once, or the address
-- where it has no answer, or where names are not looked up and it is not asked.
abbrev pub IsHost : Bool → Bytes → List (Option Bytes) → Bytes → Type 0
IsHost false ip [] host = host ≡ ip
IsHost true ip (none ∷ []) host = host ≡ ip
IsHost true ip (some name ∷ []) host = host ≡ name
IsHost _ ip _ host = ⊥

-- The line that a remote host reads.
abbrev idnt_line : Bytes → Bytes → Bytes → Bytes
idnt_line user ip host =
    codes "IDNT " ++ (user ++ (codes "@" ++ (ip ++ (codes ":" ++ (host ++ codes "\n")))))

-- Where the step goes on, the line has been written.
abbrev pub Idnt : Bool → Bytes → Step → Asked → Type 0
Idnt dns_lookup ip go t =
    (user : Bytes) × (host : Bytes) × IsUser t user
    × IsHost dns_lookup ip t.hosts host
    × (t.put ≡ idnt_line user ip host)
Idnt dns_lookup ip _ t = Unit

module _ (net : Inet) (client : Client) (r : ℕ) (ip : Bytes)
    (known : ip_from_sockaddr net client.c_addr ≡ (true, some ip))
    (r_sock : client.r_sock ≡ some r) where
  module _ (peer local : Option Sockaddr) (heard : Option Bytes) where
    abbrev named : List (Option Bytes) → Asked
    named hosts = record { put = []; peer = peer; local = local; heard = heard; hosts = hosts }

    or_star-IsUser :
        (o : Option Bytes) (hosts : List (Option Bytes))
        → Found heard peer local o
        → IsUser (named hosts) (or_star o)
    or_star-IsUser none hosts h = inr (refl, h)
    or_star-IsUser (some user) hosts h = inl h

    module _ (user : Bytes) (hosts : List (Option Bytes)) (host : Bytes)
        (is_user : IsUser (named hosts) user)
        (is_host : IsHost client.config.dns_lookup ip hosts host) where
      written :
          (n : ℕ) (b : Bool)
          → (n == length (idnt_text user ip host)) ≡ b
          → Idnt client.config.dns_lookup ip
              (if b then go else stop)
              (record (named hosts) { put = [] ++ take n (idnt_text user ip host) })
      unfolding idnt_text
      written n false e = tt
      written n true e =
          let line = idnt_text user ip host in
          (user, host, is_user, is_host, take-length n line (sym ((==_iff n (length line)).0 e)))

      write_all-Idnt :
          Wp
            (asking client.c_sock r client.c_addr)
            (write_all client.r_sock (idnt_text user ip host))
            (Idnt client.config.dns_lookup ip)
            (named hosts)
      unfolding write_all
      write_all-Idnt =
          subst
            (λ o.
              Wp (asking client.c_sock r client.c_addr) (write_all o (idnt_text user ip host))
                (Idnt client.config.dns_lookup ip) (named hosts))
            (sym r_sock)
            (
              tt,
              elim [
                | err errno ↦ λ l. tt
                | ok n ↦ λ l.
                    subst
                      (λ b.
                        Idnt client.config.dns_lookup ip
                          (if n == length (idnt_text user ip host) then go else stop)
                          (if b
                            then record (named hosts) {
                              put = [] ++ take n (idnt_text user ip host);
                            }
                            else named hosts))
                      (sym (same r)) (written n _ refl)
              ],
            )

    find_hostname-IsHost :
        Wp
          (asking client.c_sock r client.c_addr)
          (find_hostname net client ip)
          (λ host t.
            (hosts : List (Option Bytes)) × (t ≡ named hosts)
            × IsHost client.config.dns_lookup ip hosts host)
          (named [])
    unfolding find_hostname
    find_hostname-IsHost =
        Wp-test (asking client.c_sock r client.c_addr) client.config.dns_lookup _ _ _ (named [])
          (λ e. (
            refl,
            elim [
              | none ↦ λ l. (none ∷ [], refl, subst (λ b. IsHost b ip (none ∷ []) ip) (sym e) refl)
              | some name ↦ λ l. (
                some name ∷ [],
                refl,
                subst (λ b. IsHost b ip (some name ∷ []) name) (sym e) refl,
              )
            ],
          ))
          (λ e. ([], refl, subst (λ b. IsHost b ip [] ip) (sym e) refl))

    send_user-Idnt :
        (o : Option Bytes)
        → Found heard peer local o
        → Wp
            (asking client.c_sock r client.c_addr)
            (send_user net client (or_star o) (ip_from_sockaddr net client.c_addr))
            (Idnt client.config.dns_lookup ip)
            (before peer local heard)
    unfolding send_user str_printf
    send_user-Idnt o found =
        let system = asking client.c_sock r client.c_addr in
        subst
          (λ p.
            Wp system (send_user net client (or_star o) p) (Idnt client.config.dns_lookup ip)
              (before peer local heard))
          (sym known)
          (Wp-then system (find_hostname net client ip) _
            (λ host t.
              (hosts : List (Option Bytes)) × (t ≡ named hosts)
              × IsHost client.config.dns_lookup ip hosts host)
            (Idnt client.config.dns_lookup ip) (named []) find_hostname-IsHost
            (λ host t h. (
              tt,
              elim [
                | false ↦ λ l. tt
                | true ↦ λ l.
                    subst
                      (λ t.
                        Wp system (write_all client.r_sock (idnt_text (or_star o) ip host))
                          (Idnt client.config.dns_lookup ip) t)
                      (sym h.1)
                      (write_all-Idnt (or_star o) h.0 host (or_star-IsUser o h.0 found) h.2)
              ],
            )))

  -- With "idnt" set, a client's address of a known family, a socket to the remote host on which
  -- nothing was written, no `write` that takes more than it is given, and new sockets that are not
  -- that one, `Client_sendIdnt` asks only for the addresses of the client's socket and the name of
  -- the client's address, connects only to port 113 of the client's host, and goes on only if it
  -- has written to the remote host the IDNT text and nothing else, with the client's address. The
  -- user in it is the one that the received text gives for the ports of the two addresses, not
  -- empty and without white space, or a star where it gives none. The host is what
  -- `getnameinfo` answered, asked once, if "dnslookup" is set and it has an answer, and the
  -- address otherwise.
  pub send_idnt-Idnt :
      client.config.idnt ≡ true
      → Wp
          (asking client.c_sock r client.c_addr)
          (send_idnt net client)
          (Idnt client.config.dns_lookup ip)
          (before none none none)
  unfolding send_idnt
  send_idnt-Idnt on =
      let system = asking client.c_sock r client.c_addr in
      Wp-test system client.config.idnt _ _ (Idnt client.config.dns_lookup ip)
        (before none none none)
        (λ e. (
          refl,
          elim [
            | err errno ↦ λ l. tt
            | ok addr ↦ λ l.
                Wp-then system (ident_lookup client.c_sock client.config.ident_timeout) _ FoundIn
                  (Idnt client.config.dns_lookup ip) (before none (some addr) none)
                  (ident_lookup-Finds client.c_sock r client.c_addr none (some addr)
                    client.config.ident_timeout)
                  (λ o t (peer, local, heard, is, found).
                    subst
                      (λ t.
                        Wp system
                          (send_user net client (or_star o) (ip_from_sockaddr net client.c_addr))
                          (Idnt client.config.dns_lookup ip) t)
                      (sym is) (send_user-Idnt peer local heard o found))
          ],
        ))
        (λ e. ground (arith, on, e))
