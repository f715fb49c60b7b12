-- ===== src/Address.antt =====
-- Socket addresses and options: misc.c. An `Inet` is what `inet_pton` and `inet_ntop` make of an
-- address, as text and as bytes, in the two families.
pub mod Port
use ebbnc.Common.{
  ℕ, ◌-◌, ◌%◌, ◌^◌, Bool, true, false, Option, none, some, take, Bytes, ℤ, pos, negsuc,
}
use ebbnc.Libc.{print_int}
use ebbnc.System.{
  Io, ret, ◌>>=◌, perform, Family, inet, inet6, unspec, Sockaddr, Lookup, found, system_error,
  lookup_error, getaddrinfo, setsockopt, sndtimeo, rcvtimeo,
}

pub record Inet : Type 0 where
  pub pton4 : Bytes → Option Bytes
  pub pton6 : Bytes → Option Bytes
  pub ntop4 : Bytes → Bytes
  pub ntop6 : Bytes → Bytes

-- `ntohs(htons(port))` of an int: its low 16 bits.
unfoldable pub port_of_int : ℤ → ℕ
port_of_int (pos n) = n % 2 ^ 16
port_of_int (negsuc n) = 2 ^ 16 - 1 - n % 2 ^ 16

module _ (net : Inet) where
  -- `none` returns false, with `errno` set to EAFNOSUPPORT.
  unfoldable pub ip_port_to_sockaddr : Bytes → ℤ → Option Sockaddr
  ip_port_to_sockaddr ip port = elim (net.pton4 ip) [
    | some a ↦ some (record { family = inet; address = a; port = port_of_int port })
    | none ↦ elim (net.pton6 ip) [
      | some a ↦ some (record { family = inet6; address = a; port = port_of_int port })
      | none ↦ none
    ]
  ]

  -- `isValidIP`.
  unfoldable pub ip_is_valid : Bytes → Bool
  ip_is_valid ip = elim (ip_port_to_sockaddr ip (pos 0)) [ none ↦ false | some addr ↦ true ]

  -- The result, and the text at `ip`, which an unknown family leaves unset.
  unfoldable pub ip_from_sockaddr : Sockaddr → Bool × Option Bytes
  ip_from_sockaddr addr = elim addr.family [
    | inet ↦ (true, some (net.ntop4 addr.address))
    | inet6 ↦ (true, some (net.ntop6 addr.address))
    | unspec family ↦ (true, none)
  ]

-- The text that `snprintf` leaves in `service[6]`.
unfoldable pub service_of : ℤ → Bytes
service_of port = take 5 (print_int port)

-- `hostPortToSockaddr`, with `*errmsg` as `lookup_error` and null as `system_error`.
unfoldable pub host_port_to_sockaddr : Option Bytes → ℤ → Io Lookup
host_port_to_sockaddr host port = perform (getaddrinfo host (service_of port))

abbrev pub is_found : Lookup → Bool
is_found (found addr) = true
is_found (system_error errno) = false
is_found (lookup_error message) = false

-- `isValidHost`.
unfoldable pub host_is_valid : Option Bytes → Io Bool
host_is_valid host = host_port_to_sockaddr host (pos 0) >>= λ l. ret (is_found l)

unfoldable pub port_from_sockaddr : Sockaddr → ℤ
port_from_sockaddr addr = elim addr.family [
  | inet ↦ pos addr.port
  | inet6 ↦ pos addr.port
  | unspec family ↦ negsuc 0
]

-- `sizeof` of the two structures.
unfoldable pub sockaddr_len : Sockaddr → ℕ
sockaddr_len addr = elim addr.family [ inet ↦ 16 | inet6 ↦ 28 | unspec family ↦ 28 ]

unfoldable pub set_read_timeout : ℕ → ℤ → Io Unit
set_read_timeout sock timeout = perform (setsockopt sock (rcvtimeo timeout))

unfoldable pub set_write_timeout : ℕ → ℤ → Io Unit
set_write_timeout sock timeout = perform (setsockopt sock (sndtimeo timeout))
