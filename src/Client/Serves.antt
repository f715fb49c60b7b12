-- ===== src/Client/Serves.antt =====
-- Proofs on what client.c says before it relays: it uses open descriptors and set arrays only.
use ebbnc.Common.{
  ℕ, ◌≡◌, refl, sym, subst, Bool, true, false, none, some, List, if◌then◌else◌, ◌==◌, length, Bytes,
}
use ebbnc.System.{Io, ok, err}
use ebbnc.System.Wp.{Wp}
use ebbnc.System.Descriptors.{descriptors, holds}
use ebbnc.System.Keeps.{Keeps, Keeps-Wp, if-Wp, if-Keeps, option-Wp}
use ebbnc.Address.{Inet, ip_from_sockaddr}
use ebbnc.Ident.{ident_lookup}
use ebbnc.Ident.Descriptors.{ident_lookup-Keeps}
use ebbnc.Misc.Format.{str_printf}
use ebbnc.Client.{
  Client, Step, fault, stop, go, or_star, write_all, find_hostname, send_user, send_idnt, welcome,
  welcome_text, idnt_text,
}

abbrev pub IsSafe : Step → Type 0
IsSafe fault = ⊥
IsSafe _ = Unit

-- The descriptors stay, and no array that is not set was read.
abbrev pub Serves : Io Step → List ℕ → Type 0
Serves m s = Wp descriptors m (λ a t. (t ≡ s) × IsSafe a) s

step_IsSafe : (b : Bool) → IsSafe (if b then go else stop)
step_IsSafe true = tt
step_IsSafe false = tt

write_all-Serves :
    (fd : ℕ) (s : List ℕ) (buf : Bytes) → holds fd s ≡ true → Serves (write_all (some fd) buf) s
unfolding write_all
write_all-Serves fd s buf fd_open = (
  fd_open,
  elim [ err errno ↦ λ l. (refl, tt) | ok n ↦ λ l. (refl, step_IsSafe (n == length buf)) ],
)

module _ (net : Inet) (client : Client) (r : ℕ) (s : List ℕ) (r_open : holds r s ≡ true)
    (c_open : holds client.c_sock s ≡ true) (r_sock : client.r_sock ≡ some r) where
  find_hostname-Keeps : (ip : Bytes) → Keeps (find_hostname net client ip) s
  unfolding find_hostname
  find_hostname-Keeps ip =
      if-Keeps client.config.dns_lookup _ _ s
        (tt, elim [ none ↦ λ l. refl | some name ↦ λ l. refl ]) refl

  send_user-Serves : (user ip : Bytes) → Serves (send_user net client user (true, some ip)) s
  unfolding send_user str_printf
  send_user-Serves user ip =
      Keeps-Wp (find_hostname net client ip) _ _ s (find_hostname-Keeps ip) (λ hostname. (
        tt,
        elim [
          | false ↦ λ l. (refl, tt)
          | true ↦ λ l.
              subst (λ o. Serves (write_all o (idnt_text user ip hostname)) s) (sym r_sock)
                (write_all-Serves r s (idnt_text user ip hostname) r_open)
        ],
      ))

  pub send_idnt-Serves :
      (ip : Bytes)
      → ip_from_sockaddr net client.c_addr ≡ (true, some ip)
      → Serves (send_idnt net client) s
  unfolding send_idnt
  send_idnt-Serves ip known =
      if-Wp client.config.idnt _ _ _ s
        (
          c_open,
          elim [
            | err errno ↦ λ l. (refl, tt)
            | ok addr ↦ λ l.
                Keeps-Wp (ident_lookup client.c_sock client.config.ident_timeout) _ _ s
                  (ident_lookup-Keeps client.c_sock s client.config.ident_timeout c_open)
                  (λ user.
                    subst (λ p. Serves (send_user net client (or_star user) p) s) (sym known)
                      (send_user-Serves (or_star user) ip))
          ],
        )
        (refl, tt)

  pub welcome-Serves : Serves (welcome client) s
  unfolding welcome str_printf
  welcome-Serves =
      option-Wp client.config.welcome_msg _ _ _ s (refl, tt)
        (λ msg. (
          tt,
          elim [
            | false ↦ λ l. (refl, tt)
            | true ↦ λ l. write_all-Serves client.c_sock s (welcome_text msg) c_open
          ],
        ))
