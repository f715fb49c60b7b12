-- ===== src/Server/Threads.antt =====
-- Proofs on the threads that one turn of the loop of server.c makes.
use ebbnc.Common.{
  ℕ, ◌≡◌, refl, sym, subst, ◌∙◌, arith, Bool, true, false, List, [], ◌∷◌, ◌++◌, append-nil,
  append_assoc, if◌then◌else◌,
}
use ebbnc.Config.{Bouncer}
use ebbnc.System.{Call, Reply, ok, err, Sockaddr}
use ebbnc.System.Wp.{Monitor, Wp, Wp-mono, Wp-then, Wp-test}
use ebbnc.Client.{client_launch}
use ebbnc.Server.{Server, accept_each}

-- `accept` gives a connection, and there is memory for every request.
abbrev Accepts : (c : Call) → Reply c → Type 0
Accepts (Call.accept fd) (ok made) = Unit
Accepts (Call.accept fd) (err errno) = ⊥
Accepts (Call.calloc n) okay = okay ≡ true
Accepts c r = Unit

-- The bouncers that threads were made for, in their order.
abbrev launched : (c : Call) → Reply c → List Bouncer → List Bouncer
launched (Call.create_thread sock addr config bouncer) created s = s ++ (bouncer ∷ [])
launched c r s = s

abbrev pub threads : Monitor (List Bouncer)
threads = record { Allowed = λ c s. Unit; Legal = λ c r s. Accepts c r; after = launched }

-- The bouncers of the servers that are ready.
abbrev pub ready_bouncers : (ℕ → Bool) → List Server → List Bouncer
ready_bouncers set [] = []
ready_bouncers set (server ∷ servers) =
    let rest = ready_bouncers set servers in if set server.sock then server.bouncer ∷ rest else rest

client_launch_adds :
    (server : Server) (sock : ℕ) (addr : Sockaddr) (s : List Bouncer)
    → Wp threads
        (client_launch server.config server.bouncer sock addr)
        (λ u t. t ≡ s ++ (server.bouncer ∷ []))
        s
unfolding client_launch
client_launch_adds server sock addr s =
    (tt, elim [ true ↦ λ l. (tt, λ created l2. refl) | false ↦ λ l. ground arith ])

-- Behind `select`, one turn of the loop makes a thread for each server that was found ready, for
-- that server's bouncer and in the order of the list, and no other, where `accept` succeeds and
-- there is memory.
pub accept_each-ready_bouncers :
    (set : ℕ → Bool) (servers : List Server) (s : List Bouncer)
    → Wp threads (accept_each set servers) (λ u t. t ≡ s ++ ready_bouncers set servers) s
unfolding accept_each
accept_each-ready_bouncers set [] s = sym (append-nil s)
accept_each-ready_bouncers set (server ∷ servers) s =
    Wp-test threads (set server.sock) _ _ (λ u t. t ≡ s ++ ready_bouncers set (server ∷ servers)) s
      (λ e. rw e (
        tt,
        elim [
          | err errno ↦ λ l. elim l [ ]
          | ok (sock, addr) ↦ λ l.
              Wp-then threads (client_launch server.config server.bouncer sock addr)
                (λ u. accept_each set servers) (λ u t. t ≡ s ++ (server.bouncer ∷ []))
                (λ u t. t ≡ s ++ (server.bouncer ∷ ready_bouncers set servers)) s
                (client_launch_adds server sock addr s)
                (λ u t f.
                  subst
                    (λ t.
                      Wp threads (accept_each set servers)
                        (λ u t. t ≡ s ++ (server.bouncer ∷ ready_bouncers set servers)) t)
                    (sym f)
                    (Wp-mono threads (accept_each set servers)
                      (λ u t. t ≡ (s ++ (server.bouncer ∷ [])) ++ ready_bouncers set servers)
                      (λ u t. t ≡ s ++ (server.bouncer ∷ ready_bouncers set servers))
                      (s ++ (server.bouncer ∷ []))
                      (λ u t h.
                        h ∙ append_assoc s (server.bouncer ∷ []) (ready_bouncers set servers))
                      (accept_each-ready_bouncers set servers (s ++ (server.bouncer ∷ [])))))
        ],
      ))
      (λ e. rw e (accept_each-ready_bouncers set servers s))
