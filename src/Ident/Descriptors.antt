-- ===== src/Ident/Descriptors.antt =====
-- Proofs on the descriptors that `identLookup` of ident.c uses: it closes its socket on every path.
use ebbnc.Common.{ℕ, ◌≡◌, refl, true, false, List, ◌∷◌, ℤ}
use ebbnc.System.{ok, err, Sockaddr}
use ebbnc.System.Wp.{Wp}
use ebbnc.System.Descriptors.{descriptors, holds}
use ebbnc.System.Keeps.{Keeps, if-Keeps, holds_first, without_first}
use ebbnc.Address.{set_read_timeout, set_write_timeout, port_from_sockaddr}
use ebbnc.Ident.{converse, ask_server, is_internet, ident_lookup}

module _ (s : List ℕ) (sock : ℕ) where
  converse_closes :
      (remote local : ℤ) → Wp descriptors (converse sock remote local) (λ a t. t ≡ s) (sock ∷ s)
  unfolding converse
  converse_closes remote local = (
    holds_first sock s,
    elim [
      | false ↦ λ l. (holds_first sock s, λ u l2. without_first sock s)
      | true ↦ λ l. (
        holds_first sock s,
        elim [
          | false ↦ λ l2. (holds_first sock s, λ u l3. without_first sock s)
          | true ↦ λ l2.
              (holds_first sock s, λ text l3. (holds_first sock s, λ u l4. without_first sock s))
        ],
      )
    ],
  )

  ask_server_closes :
      (peer local : Sockaddr) (timeout : ℤ)
      → Wp descriptors (ask_server peer local timeout (ok sock)) (λ a t. t ≡ s) (sock ∷ s)
  unfolding ask_server set_read_timeout set_write_timeout
  ask_server_closes peer local timeout = (
    holds_first sock s,
    λ u l. (
      holds_first sock s,
      λ u2 l2. (
        holds_first sock s,
        elim [
          | ok u3 ↦ λ l3. converse_closes (port_from_sockaddr peer) (port_from_sockaddr local)
          | err errno ↦ λ l3. (holds_first sock s, λ u3 l4. without_first sock s)
        ],
      ),
    ),
  )

-- Given an open socket, `identLookup` uses open descriptors only, whatever the system answers, and on
-- every path it has closed the socket that it made.
pub ident_lookup-Keeps :
    (c : ℕ) (s : List ℕ) (timeout : ℤ) → holds c s ≡ true → Keeps (ident_lookup c timeout) s
unfolding ident_lookup
ident_lookup-Keeps c s timeout c_open = (
  c_open,
  elim [
    | err errno ↦ λ l. refl
    | ok peer ↦ λ l. (
      c_open,
      elim [
        | err errno ↦ λ l2. refl
        | ok local ↦ λ l2.
            if-Keeps (is_internet peer.family) _ _ s
              (
                tt,
                elim [
                  | err errno ↦ λ l3. refl
                  | ok sock ↦ λ l3. ask_server_closes s sock peer local timeout
                ],
              )
              refl
      ],
    )
  ],
)
