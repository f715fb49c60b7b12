-- ===== src/Address/Port.antt =====
-- Proofs on the ports that misc.c puts into an address, and on the listening addresses of a loaded
-- configuration.
use ebbnc.Common.{
  ◌≤◌, ◌≡◌, sym, ap, ◌∙◌, arith, true, some, Bytes, ℤ, pos, negsuc, int_of_long, leb→le,
  Option-cases, inl, inr,
}
use ebbnc.Misc.{is_valid_port}
use ebbnc.Config.{Bouncer}
use ebbnc.Config.Load.{Resolver}
use ebbnc.Config.LoadSound.{IsServable}
use ebbnc.System.{inet, inet6, Sockaddr}
use ebbnc.Address.{Inet, port_of_int, ip_port_to_sockaddr, ip_is_valid, port_from_sockaddr}

port_of_int-is_valid_port : (port : ℤ) → is_valid_port port ≡ true → pos (port_of_int port) ≡ port
unfolding is_valid_port port_of_int
port_of_int-is_valid_port (pos n) h =
    let small : n ≤ 65535 = leb→le n 65535 h in ap pos (omega arith)
port_of_int-is_valid_port (negsuc n) h = cc

-- An address that `isValidIP` takes, with a port that `isValidPort` takes, makes a socket address, and
-- `portFromSockaddr` gives the port back.
pub port_from_sockaddr-ip_port_to_sockaddr :
    (net : Inet) (ip : Bytes) (port : ℤ)
    → ip_is_valid net ip ≡ true
    → is_valid_port port ≡ true
    → (addr : Sockaddr) × (ip_port_to_sockaddr net ip port ≡ some addr)
      × (port_from_sockaddr addr ≡ port)
unfolding ip_is_valid ip_port_to_sockaddr port_from_sockaddr
port_from_sockaddr-ip_port_to_sockaddr net ip port v p =
    let same = port_of_int-is_valid_port port p in
    elim (Option-cases (net.pton4 ip)) [
      | inr (a, e) ↦
          (record { family = inet; address = a; port = port_of_int port }, ground arith, same)
      | inl e ↦ elim (Option-cases (net.pton6 ip)) [
        | inr (a, f) ↦
            (record { family = inet6; address = a; port = port_of_int port }, ground arith, same)
        | inl f ↦ absurd (ground arith)
      ]
    ]

-- Where the resolver of the sanity check is `isValidIP`, each bouncer that has passed it has a
-- listening address that `ipPortToSockaddr` takes with the port, and the port of the socket address
-- is the bouncer's, as an int.
pub IsServable-listens :
    (net : Inet) (r : Resolver) (b : Bouncer)
    → ((ip : Bytes) → r.valid_ip ip ≡ ip_is_valid net ip)
    → IsServable r b
    → (ip : Bytes) × (addr : Sockaddr) × (b.listen_ip ≡ some ip)
      × (ip_port_to_sockaddr net ip (int_of_long b.listen_port) ≡ some addr)
      × (port_from_sockaddr addr ≡ int_of_long b.listen_port)
IsServable-listens net r b same s =
    let (addr, e, f) =
      port_from_sockaddr-ip_port_to_sockaddr net s.ip (int_of_long b.listen_port)
        (sym (same s.ip) ∙ s.ip_valid) s.listen_port in
    (s.ip, addr, s.listen_ip, e, f)
