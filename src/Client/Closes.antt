-- ===== src/Client/Closes.antt =====
-- Proofs that the thread of a client in client.c closes what it opened, and its client's socket.
use ebbnc.Common.{
  ℕ, ◌≡◌, refl, sym, subst, Bool, true, false, none, some, List, [], ◌∷◌, ◌++◌, if◌then◌else◌,
  Bytes, ℤ, pos, codes, is_positive,
}
use ebbnc.Config.{Config, Bouncer}
use ebbnc.System.{Io, ret, ◌>>=◌, ok, err, Sockaddr, found, system_error, lookup_error}
use ebbnc.System.Wp.{Wp, Wp-bind, Wp-then}
use ebbnc.System.Descriptors.{descriptors, holds, without}
use ebbnc.System.Keeps.{
  Keeps, Keeps-Wp, Keeps-then, if-Wp, if-Keeps, option-Wp, holds_first, holds_behind, without_first,
  without_second,
}
use ebbnc.Address.{
  Inet, ip_from_sockaddr, ip_port_to_sockaddr, host_port_to_sockaddr, set_write_timeout,
}
use ebbnc.Misc.Format.{str_printf}
use ebbnc.Client.{
  Client, new_client, Step, fault, stop, go, send_idnt, welcome, bind_local, connect_socket,
  client_connect, client_free, client_relay, client_serve, client_proceed, client_thread_main,
  Thread, running, finished, broken, poll_timeout, relay, again, ended,
}
use ebbnc.Client.Replies.{Replies, reply-Wp, errno-Wp}
use ebbnc.Client.Serves.{IsSafe, Serves, send_idnt-Serves, welcome-Serves}
use ebbnc.Client.Descriptors.{replies, reply-Keeps, errno-Keeps, relay-Keeps}

Serves-then :
    (m : Io Step) (f : Step → Io Thread) (Q : Thread → List ℕ → Type 0) (s : List ℕ)
    → Serves m s
    → Wp descriptors (f stop) Q s
    → Wp descriptors (f go) Q s
    → Wp descriptors (m >>= f) Q s
Serves-then m f Q s h k n =
    Wp-then descriptors m f (λ a t. (t ≡ s) × IsSafe a) Q s h
      (elim [
        | fault ↦ λ t e. elim e.1 [ ]
        | stop ↦ λ t e. subst (λ u. Wp descriptors (f stop) Q u) (sym e.0) k
        | go ↦ λ t e. subst (λ u. Wp descriptors (f go) Q u) (sym e.0) n
      ])

module _ (net : Inet) (client : Client) (s : List ℕ) (c_open : holds client.c_sock s ≡ true) where
  bind_local-Keeps : (sock : ℕ) → holds sock s ≡ true → Keeps (bind_local net client sock) s
  unfolding bind_local
  bind_local-Keeps sock sock_open = option-Wp client.bouncer.local_ip _ _ _ s refl (λ ip.
      option-Wp (ip_port_to_sockaddr net ip (pos 0)) _ _ _ s
        (reply-Keeps client.c_sock s c_open false (codes "invalid localip"))
        (λ addr. (
          sock_open,
          elim [
            | ok u ↦ λ l. refl
            | err errno ↦ λ l. errno-Keeps client.c_sock s c_open false (codes "bind") errno
          ],
        )))

  connect_socket-Keeps :
      (r_addr : Sockaddr) (sock : ℕ)
      → holds sock s ≡ true
      → Keeps (connect_socket net client r_addr sock) s
  unfolding connect_socket set_write_timeout
  connect_socket-Keeps r_addr sock sock_open =
      Keeps-then _ _ s
        (if-Keeps (is_positive client.config.write_timeout) _ _ s (sock_open, λ u l. refl) refl)
        (λ u. (
          sock_open,
          λ u2 l.
              Keeps-then (bind_local net client sock) _ s (bind_local-Keeps sock sock_open) (elim [
                | false ↦ refl
                | true ↦ (
                  sock_open,
                  elim [
                    | ok u3 ↦ λ l2. refl
                    | err errno ↦
                        λ l2. errno-Keeps client.c_sock s c_open false (codes "connect") errno
                  ],
                )
              ]),
        ))

module _ (net : Inet) (client : Client) (s : List ℕ) (c_open : holds client.c_sock s ≡ true) where
  answers : Replies descriptors s client.c_sock
  answers = replies client.c_sock s c_open

  client_connect-Wp :
      (P : Client × Bool → List ℕ → Type 0)
      → P (client, false) s
      → ((r : ℕ) (okay : Bool)
          → holds r s ≡ false
          → P (record client { r_sock = some r }, okay) (r ∷ s))
      → Wp descriptors (client_connect net client) P s
  unfolding client_connect str_printf host_port_to_sockaddr
  client_connect-Wp P refused made = (
    tt,
    elim [
      | system_error errno ↦ λ l.
          errno-Wp descriptors s client.c_sock answers (client, false) P refused
            (codes "hostPortToSockaddr") errno
      | lookup_error message ↦ λ l. (
        tt,
        elim [
          | false ↦ λ l2. refused
          | true ↦ λ l2.
              reply-Wp descriptors s client.c_sock answers (client, false) P refused
                (codes "hostPortToSockaddr: " ++ message)
        ],
      )
      | found r_addr ↦ λ l. (
        tt,
        elim [
          | err errno ↦ λ l2.
              errno-Wp descriptors s client.c_sock answers (client, false) P refused
                (codes "socket") errno
          | ok r ↦ λ l2.
              Keeps-Wp (connect_socket net client r_addr r) _ P (r ∷ s)
                (connect_socket-Keeps net client (r ∷ s) (holds_behind client.c_sock r s c_open)
                  r_addr r (holds_first r s))
                (λ okay. made r okay l2)
        ],
      )
    ],
  )

-- The descriptors behind the thread that was given `c`.
abbrev pub Closes : ℕ → Thread → List ℕ → Type 0
Closes c running s = (r : ℕ) × (s ≡ r ∷ c ∷ [])
Closes c finished s = s ≡ []
Closes c broken s = ⊥

module _ (net : Inet) (c : ℕ) (addr : Sockaddr) (config : Config) (bouncer : Bouncer) where
  module _ (r : ℕ) (r_new : holds r (c ∷ []) ≡ false) (fuel : ℕ) (timeout : ℤ)
      (timeout_fits : poll_timeout config.idle_timeout ≡ some timeout) (ip : Bytes)
      (known : ip_from_sockaddr net addr ≡ (true, some ip)) where
    abbrev connected : Client
    connected = record (new_client c addr config bouncer) { r_sock = some r }

    abbrev both : List ℕ
    both = r ∷ c ∷ []

    -- The last lines of the thread.
    abbrev end_of : Thread → Io Thread
    end_of t = elim t [
      | running ↦ ret running
      | broken ↦ ret broken
      | finished ↦ client_free connected >>= λ u. ret finished
    ]

    -- A part of the thread that leaves both sockets to the rest.
    abbrev Open : Thread → List ℕ → Type 0
    Open broken s = ⊥
    Open _ s = s ≡ both

    c_open : holds c both ≡ true
    c_open = holds_behind c r (c ∷ []) (holds_first c [])

    client_relay-Open : Wp descriptors (client_relay fuel c r config.idle_timeout) Open both
    unfolding client_relay
    client_relay-Open =
        subst
          (λ o.
            Wp descriptors
              (elim o [
                | none ↦ ret broken
                | some timeout ↦ relay c r fuel timeout >>= λ p. elim p [
                  | ended ↦ ret finished
                  | again ↦ ret running
                ]
              ])
              Open both)
          (sym timeout_fits)
          (Keeps-Wp (relay c r fuel timeout) _ Open both
            (relay-Keeps c both c_open r (holds_first r (c ∷ [])) fuel timeout)
            (elim [ ended ↦ refl | again ↦ refl ]))

    client_serve-Open : Wp descriptors (client_serve net fuel connected (some r)) Open both
    unfolding client_serve
    client_serve-Open =
        Serves-then (send_idnt net connected) _ Open both
          (send_idnt-Serves net connected r both (holds_first r (c ∷ [])) c_open refl ip known) refl
          (Serves-then (welcome connected) _ Open both
            (welcome-Serves net connected r both (holds_first r (c ∷ [])) c_open refl) refl
            client_relay-Open)

    still_open : holds r (without c both) ≡ true
    still_open =
        subst (λ u. holds r u ≡ true) (sym (without_second c r [] r_new)) (holds_first r [])

    all_closed : without r (without c both) ≡ []
    all_closed =
        subst (λ u. without r u ≡ []) (sym (without_second c r [] r_new)) (without_first r [])

    free-Closes : (t : Thread) (s : List ℕ) → Open t s → Wp descriptors (end_of t) (Closes c) s
    unfolding client_free
    free-Closes running s e = (r, e)
    free-Closes broken s e = elim e [ ]
    free-Closes finished s e =
        subst (λ u. Wp descriptors (client_free connected >>= λ u. ret finished) (Closes c) u)
          (sym e) (c_open, λ u l. (still_open, λ u2 l2. all_closed))

    proceed-Closes :
        (okay : Bool) → Wp descriptors (client_proceed net fuel (connected, okay)) (Closes c) both
    unfolding client_proceed
    proceed-Closes okay =
        Wp-then descriptors
          (if okay then client_serve net fuel connected (some r) else ret finished) end_of Open
          (Closes c) both (if-Wp okay _ _ Open both client_serve-Open refl) free-Closes

  -- With a client's address of a known family and an idle timeout that does not overflow, and
  -- where `socket` gives a descriptor that is not open, the thread of a client that owns its
  -- socket calls the system with open descriptors only, for any number of passes of the relay and
  -- whatever else the system answers, reads nothing that is not set, and when it ends it has
  -- closed the client's socket and, if it made one, its own, each once.
  pub client_thread_main-Closes :
      (fuel : ℕ) (timeout : ℤ) (ip : Bytes)
      → poll_timeout config.idle_timeout ≡ some timeout
      → ip_from_sockaddr net addr ≡ (true, some ip)
      → Wp descriptors
          (client_thread_main net fuel (new_client c addr config bouncer))
          (Closes c)
          (c ∷ [])
  unfolding client_thread_main client_proceed client_free set_write_timeout
  client_thread_main-Closes fuel timeout ip timeout_fits known =
      Keeps-Wp
        (if is_positive config.write_timeout
          then set_write_timeout c config.write_timeout
          else ret tt)
        _ (Closes c) (c ∷ [])
        (if-Keeps (is_positive config.write_timeout) _ _ (c ∷ []) (holds_first c [], λ u l. refl)
          refl)
        (λ u.
          Wp-bind descriptors (client_connect net (new_client c addr config bouncer))
            (client_proceed net fuel) (Closes c) (c ∷ [])
            (client_connect-Wp net (new_client c addr config bouncer) (c ∷ []) (holds_first c [])
              (λ p s. Wp descriptors (client_proceed net fuel p) (Closes c) s)
              (holds_first c [], λ u2 l. without_first c [])
              (λ r okay new. proceed-Closes r new fuel timeout timeout_fits ip known okay)))
