-- ===== src/Server/Loop.antt =====
-- Proofs on the loop of server.c: which descriptors stay with it.
use ebbnc.Common.{ℕ, zero, suc, ◌≡◌, refl, sym, subst, arith, Bool, true, false, All, List, [], ◌∷◌}
use ebbnc.Config.{Config, Bouncer}
use ebbnc.System.{Call, Reply, ok, err, Sockaddr}
use ebbnc.System.Wp.{Monitor, Wp, Wp-then, Wp-stays, Wp-if}
use ebbnc.System.Descriptors.{Uses, Fresh, opened, holds}
use ebbnc.System.Keeps.{holds_first, without_first}
use ebbnc.Client.{client_launch}
use ebbnc.Server.{Server, socks, accept_each, server_accept, server_loop}

-- The system has memory and threads for every request.
abbrev Grants : (c : Call) → Reply c → Type 0
Grants (Call.calloc n) okay = okay ≡ true
Grants (Call.create_thread sock addr config bouncer) created = created ≡ true
Grants _ r = Unit

abbrev pub granting : Monitor (List ℕ)
granting = record { Allowed = Uses; Legal = λ c r s. Fresh c r s × Grants c r; after = opened }

abbrev ListeningOn : List ℕ → List Server → Type 0
ListeningOn s servers = All (λ server. holds server.sock s ≡ true) servers

module _ (s : List ℕ) where
  client_launch_hands_over :
      (config : Config) (bouncer : Bouncer) (sock : ℕ) (addr : Sockaddr)
      → Wp granting (client_launch config bouncer sock addr) (λ u t. t ≡ s) (sock ∷ s)
  unfolding client_launch
  client_launch_hands_over config bouncer sock addr = (
    tt,
    elim [
      | true ↦ λ l. (
        holds_first sock s,
        elim [ true ↦ λ l2. without_first sock s | false ↦ λ l2. ground arith ],
      )
      | false ↦ λ l. ground arith
    ],
  )

  accept_each_keeps :
      (set : ℕ → Bool) (servers : List Server)
      → ListeningOn s servers
      → Wp granting (accept_each set servers) (λ u t. t ≡ s) s
  unfolding accept_each
  accept_each_keeps set [] on = refl
  accept_each_keeps set (server ∷ servers) (sock_open, on) =
      Wp-if granting (set server.sock) _ _ (λ u t. t ≡ s) s
        (
          sock_open,
          elim [
            | err errno ↦ λ l. refl
            | ok (sock, addr) ↦ λ l.
                Wp-then granting (client_launch server.config server.bouncer sock addr)
                  (λ u. accept_each set servers) (λ u t. t ≡ s) (λ u t. t ≡ s) (sock ∷ s)
                  (client_launch_hands_over server.config server.bouncer sock addr)
                  (λ u t e.
                    subst (λ t. Wp granting (accept_each set servers) (λ u t. t ≡ s) t) (sym e)
                      (accept_each_keeps set servers on))
          ],
        )
        (accept_each_keeps set servers on)

socks-All :
    (s : List ℕ) (servers : List Server)
    → ListeningOn s servers
    → All (λ fd. holds fd s ≡ true) (socks servers)
socks-All s [] on = tt
socks-All s (server ∷ servers) (h, on) = (h, socks-All s servers on)

-- Where the servers' sockets are open, `accept` gives a descriptor that is not open, and the
-- system has memory and a thread for every request, `Server_loop` calls the system with open
-- descriptors only, and after any number of turns the descriptors that it keeps are those that it
-- had: the thread of each client has taken the client's socket over.
pub server_loop_keeps :
    (fuel : ℕ) (servers : List Server) (s : List ℕ)
    → ListeningOn s servers
    → Wp granting (server_loop fuel servers) (λ u t. t ≡ s) s
unfolding server_loop server_accept
server_loop_keeps zero servers s on = refl
server_loop_keeps (suc fuel) servers s on = (
  socks-All s servers on,
  elim [
    | err errno ↦ λ l. (tt, λ u l2. server_loop_keeps fuel servers s on)
    | ok set ↦ λ l.
        Wp-stays granting (accept_each set servers) (λ u. server_loop fuel servers) (λ u t. t ≡ s) s
          (accept_each_keeps s set servers on) (λ u. server_loop_keeps fuel servers s on)
  ],
)
