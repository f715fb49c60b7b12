-- ===== src/Server/Descriptors.antt =====
-- Proofs on the descriptors of server.c.
use ebbnc.Common.{
  ℕ, ◌≡◌, refl, sym, subst, arith, true, false, some, List, All, [], ◌∷◌, ◌++◌, Bytes, ℤ,
  int_of_long,
}
use ebbnc.Config.{Config, Bouncer}
use ebbnc.Config.RoundTrip.{turned}
use ebbnc.System.{ret, ◌>>=◌, ok, err, Sockaddr}
use ebbnc.System.Wp.{Wp, Wp-then}
use ebbnc.System.Descriptors.{descriptors, holds, without}
use ebbnc.System.Keeps.{option-Wp, holds_first, holds_behind, without_first}
use ebbnc.Address.{Inet, ip_port_to_sockaddr}
use ebbnc.Server.{
  Server, Listen2, no_socket, unbound, bound, Listening, fault, refused, listening, AllListening,
  all_fault, all_refused, all_listening, bind_server, settle, listen_at, server_listen2,
  server_listen, server_free, free_behind, server_free_list, listen_each, server_listen_all, socks,
}

-- A socket that is open beside those in `s` exactly where `Server_listen2` leaves one.
abbrev Leaves : List ℕ → Listen2 → List ℕ → Type 0
Leaves s no_socket t = t ≡ s
Leaves s (unbound sock) t = (t ≡ sock ∷ s) × (holds sock s ≡ false)
Leaves s (bound sock addr) t = (t ≡ sock ∷ s) × (holds sock s ≡ false)

-- The same of `Server_listen`, for the bouncer that it served.
abbrev Serves : Bouncer → List ℕ → Listening → List ℕ → Type 0
Serves bouncer s fault t = ⊥
Serves bouncer s refused t = t ≡ s
Serves bouncer s (listening server) t =
    (t ≡ server.sock ∷ s) × (holds server.sock s ≡ false) × (server.bouncer ≡ bouncer)

module _ (net : Inet) (s : List ℕ) where
  bind_server-Leaves :
      (addr : Sockaddr) (sock : ℕ)
      → holds sock s ≡ false
      → Wp descriptors (bind_server net addr sock) (Leaves s) (sock ∷ s)
  unfolding bind_server
  bind_server-Leaves addr sock new = (
    holds_first sock s,
    λ u l. (
      holds_first sock s,
      elim [
        | err errno ↦ λ l2. (refl, new)
        | ok u2 ↦ λ l2.
            (holds_first sock s, elim [ err errno ↦ λ l3. (refl, new) | ok u3 ↦ λ l3. (refl, new) ])
      ],
    ),
  )

  server_listen2-Leaves :
      (ip : Bytes) (port : ℤ) → Wp descriptors (server_listen2 net ip port) (Leaves s) s
  unfolding server_listen2
  server_listen2-Leaves ip port =
      option-Wp (ip_port_to_sockaddr net ip port) _ _ (Leaves s) s refl (λ addr.
        (tt, elim [ err errno ↦ λ l. refl | ok sock ↦ λ l. bind_server-Leaves addr sock l ]))

  settle-Serves :
      (config : Config) (bouncer : Bouncer) (l : Listen2) (t : List ℕ)
      → Leaves s l t
      → Wp descriptors (settle net config bouncer l) (Serves bouncer s) t
  unfolding settle
  settle-Serves config bouncer no_socket t e = e
  settle-Serves config bouncer (unbound sock) t (e, new) =
      subst (λ u. Wp descriptors (settle net config bouncer (unbound sock)) (Serves bouncer s) u)
        (sym e) (holds_first sock s, λ u l. without_first sock s)
  settle-Serves config bouncer (bound sock addr) t (e, new) = (e, new, refl)

  server_listen-Serves :
      (config : Config) (bouncer : Bouncer) (ip : Bytes)
      → bouncer.listen_ip ≡ some ip
      → Wp descriptors (server_listen net config bouncer) (Serves bouncer s) s
  unfolding server_listen listen_at
  server_listen-Serves config bouncer ip given = (
    tt,
    elim [
      | false ↦ λ l. refl
      | true ↦ λ l.
          subst (λ o. Wp descriptors (listen_at net config bouncer o) (Serves bouncer s) s)
            (sym given)
            (Wp-then descriptors (server_listen2 net ip (int_of_long bouncer.listen_port))
              (settle net config bouncer) (Leaves s) (Serves bouncer s) s
              (server_listen2-Leaves ip (int_of_long bouncer.listen_port))
              (settle-Serves config bouncer))
    ],
  )

without_behind : (x y : ℕ) (s : List ℕ) → holds x (y ∷ s) ≡ false → without y (x ∷ y ∷ s) ≡ x ∷ s
without_behind x y s h = ground arith

holds_tail : (x y : ℕ) (s : List ℕ) → holds x (y ∷ s) ≡ false → holds x s ≡ false
holds_tail x y s h = ground arith

module _ (s : List ℕ) where
  -- The sockets of a list of servers, on top of `s`; the first of them is none of the others.
  abbrev Apart : List Server → Type 0
  Apart [] = Unit
  Apart (server ∷ servers) = holds server.sock (socks servers ++ s) ≡ false

  free_behind_closes :
      (x : ℕ) (servers : List Server)
      → holds x (socks servers ++ s) ≡ false
      → Wp descriptors (free_behind servers) (λ u t. t ≡ x ∷ s) (x ∷ (socks servers ++ s))
  unfolding free_behind server_free
  free_behind_closes x [] new = refl
  free_behind_closes x (server ∷ servers) new = (
    holds_behind server.sock x (server.sock ∷ (socks servers ++ s))
        (holds_first server.sock (socks servers ++ s)),
    λ u l.
        subst (λ t. Wp descriptors (free_behind servers) (λ u t. t ≡ x ∷ s) t)
          (sym (without_behind x server.sock (socks servers ++ s) new))
          (free_behind_closes x servers (holds_tail x server.sock (socks servers ++ s) new)),
  )

  server_free_list_closes :
      (servers : List Server)
      → Apart servers
      → Wp descriptors (server_free_list servers) (λ u t. t ≡ s) (socks servers ++ s)
  unfolding server_free_list server_free
  server_free_list_closes [] new = refl
  server_free_list_closes (server ∷ servers) new =
      Wp-then descriptors (free_behind servers) (λ u. server_free server)
        (λ u t. t ≡ server.sock ∷ s) (λ u t. t ≡ s) (server.sock ∷ (socks servers ++ s))
        (free_behind_closes server.sock servers new)
        (λ u t e.
          subst (λ t. Wp descriptors (server_free server) (λ u t. t ≡ s) t) (sym e)
            (holds_first server.sock s, λ u2 l. without_first server.sock s))

abbrev pub served : List Server → List Bouncer
served [] = []
served (server ∷ servers) = server.bouncer ∷ served servers

abbrev pub HasListenIp : Bouncer → Type 0
HasListenIp bouncer = (ip : Bytes) × (bouncer.listen_ip ≡ some ip)

-- What `Server_listenAll` leaves of the descriptors `s`, for some bouncers.
abbrev pub ListensAll : List Bouncer → List ℕ → AllListening → List ℕ → Type 0
ListensAll bouncers s all_fault t = ⊥
ListensAll bouncers s all_refused t = t ≡ s
ListensAll bouncers s (all_listening servers) t =
    (t ≡ socks servers ++ s) × (served servers ≡ bouncers)

module _ (net : Inet) (config : Config) (s : List ℕ) where
  refused-ListensAll :
      (servers : List Server) (bouncers : List Bouncer)
      → Apart s servers
      → Wp descriptors
          (server_free_list servers >>= λ u. ret all_refused)
          (ListensAll bouncers s)
          (socks servers ++ s)
  refused-ListensAll servers bouncers apart =
      Wp-then descriptors (server_free_list servers) (λ u. ret all_refused) (λ u t. t ≡ s)
        (ListensAll bouncers s) (socks servers ++ s) (server_free_list_closes s servers apart)
        (λ u t e. e)

  listen_each-ListensAll :
      (servers : List Server) (bouncers : List Bouncer)
      → Apart s servers
      → All HasListenIp bouncers
      → Wp descriptors
          (listen_each net config servers bouncers)
          (ListensAll (turned bouncers (served servers)) s)
          (socks servers ++ s)
  unfolding listen_each
  listen_each-ListensAll servers [] apart has = (refl, refl)
  listen_each-ListensAll servers (bouncer ∷ bouncers) apart ((ip, given), has) =
      Wp-then descriptors (server_listen net config bouncer) _ (Serves bouncer (socks servers ++ s))
        _ (socks servers ++ s)
        (server_listen-Serves net (socks servers ++ s) config bouncer ip given)
        (elim [
          | fault ↦ λ t h. elim h [ ]
          | refused ↦ λ t h.
              subst
                (λ t.
                  Wp descriptors (server_free_list servers >>= λ u. ret all_refused)
                    (ListensAll (turned bouncers (bouncer ∷ served servers)) s) t)
                (sym h)
                (refused-ListensAll servers (turned bouncers (bouncer ∷ served servers)) apart)
          | listening server ↦ λ t (at, new, serves).
              subst
                (λ t.
                  Wp descriptors (listen_each net config (server ∷ servers) bouncers)
                    (ListensAll (turned bouncers (bouncer ∷ served servers)) s) t)
                (sym at)
                (subst
                  (λ b.
                    Wp descriptors (listen_each net config (server ∷ servers) bouncers)
                      (ListensAll (turned bouncers (b ∷ served servers)) s)
                      (socks (server ∷ servers) ++ s))
                  serves (listen_each-ListensAll (server ∷ servers) bouncers new has))
        ])

  -- If each bouncer has a listening address, and `socket` gives a descriptor that is not open,
  -- then whatever else the system answers, `Server_listenAll` uses open descriptors only, and
  -- either it refuses and has closed every socket that it opened, or the sockets that it leaves
  -- open are those of its list, which has one server for each bouncer, in the opposite order.
  pub server_listen_all-ListensAll :
      All HasListenIp config.bouncers
      → Wp descriptors (server_listen_all net config) (ListensAll (turned config.bouncers []) s) s
  unfolding server_listen_all
  server_listen_all-ListensAll has = listen_each-ListensAll [] config.bouncers tt has
