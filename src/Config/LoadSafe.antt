-- ===== src/Config/LoadSafe.antt =====
-- Proofs on `Config_loadBuffer` of config.c where there is memory for every request.
use ebbnc.Common.{
  ℕ, zero, suc, ◌+◌, ◌<◌, ◌≡◌, ◌≢◌, refl, arith, Bool, true, false, Option, none, some, List, [],
  ◌∷◌, Bytes, All, length, Bool-cases, inl, inr,
}
use ebbnc.Libc.{strtok}
use ebbnc.Config.{
  Bouncer, Config, config_new, config_size, bouncer_size, Parse, crash, no_memory, parse_error, ok,
  ◌>>=◌, next_token, read_port, strdup, allocated, parse_local, bouncer_parse,
}
use ebbnc.Config.Load.{
  Resolver, Loaded, fault, out_of_memory, stuck, undeciphered, is_sane, all_sane, sane_list,
  config_sanity_check, Setting, bouncer, idnt, ident_timeout, idle_timeout, write_timeout,
  dns_lookup, pid_file, welcome_msg, unknown, classify, read_flag, read_timeout, apply_setting,
  is_skipped, split_line, skip_newlines, checked, continue, load_lines, config_load_buffer,
}
use ebbnc.Config.LoadSound.{length-next_line}

-- A parser that does not crash or run out of memory, and whose value, if it has one, is in `Q`.
abbrev pub Holds : {A : Type 0} → (A → Type 0) → Parse A → Type 0
Holds Q crash = ⊥
Holds Q no_memory = ⊥
Holds Q parse_error = Unit
Holds Q (ok a) = Q a

Holds-bind :
    {A B : Type 0} (Q : A → Type 0) (R : B → Type 0) (p : Parse A) (f : A → Parse B)
    → Holds Q p
    → ((a : A) → Q a → Holds R (f a))
    → Holds R (p >>= f)
Holds-bind Q R crash f h n = h
Holds-bind Q R no_memory f h n = h
Holds-bind Q R parse_error f h n = tt
Holds-bind Q R (ok a) f h n = n a h

-- Both of a bouncer's own addresses are there.
abbrev pub Addressed : Bouncer → Type 0
Addressed b = (b.listen_ip ≢ none) × (b.local_ip ≢ none)

abbrev Any {ℓ} : {A : Type ℓ} → A → Type 0
Any a = Unit

next_token-Holds : (d : ℕ) (s : Bytes) → Holds Any (next_token d s)
unfolding next_token
next_token-Holds d s = ground arith

read_port-Holds : (p : Bytes) → Holds Any (read_port p)
unfolding read_port
read_port-Holds p = ground arith

module _ (alloc : ℕ → Bool) (has_room : (n : ℕ) → alloc n ≡ true) where
  strdup-Holds : (p : Bytes) → Holds Any (strdup alloc p)
  unfolding strdup
  strdup-Holds p = rw (has_room (length p + 1)) tt

  parse_local-Holds : (ip s : Bytes) → Holds Any (parse_local alloc ip s)
  unfolding parse_local
  parse_local-Holds ip s = from (strtok b' ' s)
    where
      behind :
          (local : Bytes) (o : Option (Bytes × Bytes))
          → Holds (Any {A = Bytes}) (elim o [ none ↦ ok local | some t ↦ parse_error ])
      behind local none = tt
      behind local (some t) = tt

      from :
          (o : Option (Bytes × Bytes))
          → Holds (Any {A = Bytes}) (elim o [
            | none ↦ strdup alloc ip
            | some (p, rest) ↦ strdup alloc p >>= λ local_ip. elim (strtok b' ' rest) [
              | none ↦ ok local_ip
              | some t ↦ parse_error
            ]
          ])
      from none = strdup-Holds ip
      from (some (p, rest)) =
          Holds-bind Any Any (strdup alloc p) _ (strdup-Holds p)
            (λ local h. behind local (strtok b' ' rest))

  allocated-Holds : Holds Any (allocated alloc)
  unfolding allocated
  allocated-Holds = rw (has_room bouncer_size) tt

  bouncer_parse-Holds : (s : Bytes) → Holds Addressed (bouncer_parse alloc s)
  unfolding bouncer_parse
  bouncer_parse-Holds s = Holds-bind Any Addressed (strdup alloc s) _ (strdup-Holds s) λ temp h0.
      Holds-bind Any Addressed (next_token b':' temp) _ (next_token-Holds b':' temp)
        λ (ip, after_ip) h1. Holds-bind Any Addressed (allocated alloc) _ allocated-Holds λ u h2.
          Holds-bind Any Addressed (strdup alloc ip) _ (strdup-Holds ip) λ listen_ip h3.
            Holds-bind Any Addressed (next_token b' ' after_ip) _ (next_token-Holds b' ' after_ip)
              λ (p, after_port) h4.
                Holds-bind Any Addressed (read_port p) _ (read_port-Holds p) λ listen_port h5.
                  Holds-bind Any Addressed (next_token b':' after_port) _
                    (next_token-Holds b':' after_port)
                    λ (host, after_host) h6.
                      Holds-bind Any Addressed (strdup alloc host) _ (strdup-Holds host)
                        λ remote_host h7.
                          Holds-bind Any Addressed (next_token b' ' after_host) _
                            (next_token-Holds b' ' after_host)
                            λ (q, rest) h8.
                              Holds-bind Any Addressed (read_port q) _ (read_port-Holds q)
                                λ remote_port h9.
                                  Holds-bind Any Addressed (parse_local alloc listen_ip rest) _
                                    (parse_local-Holds listen_ip rest)
                                    λ local_ip h10. ((λ e. cc), (λ e. cc))

  abbrev pub IsAddressed : Config → Type 0
  IsAddressed c = All Addressed c.bouncers

  read_flag-Holds : (value : Bytes) → Holds Any (read_flag value)
  unfolding read_flag
  read_flag-Holds value = ground arith

  read_timeout-Holds : (value : Bytes) → Holds Any (read_timeout value)
  unfolding read_timeout
  read_timeout-Holds value = ground arith

  apply_setting-Holds :
      (c : Config) (s : Setting) → IsAddressed c → Holds IsAddressed (apply_setting alloc c s)
  unfolding apply_setting
  apply_setting-Holds c (bouncer value) h =
      Holds-bind Addressed IsAddressed (bouncer_parse alloc value) _ (bouncer_parse-Holds value)
        λ b hb. (hb, h)
  apply_setting-Holds c (idnt value) h =
      Holds-bind Any IsAddressed (read_flag value) _ (read_flag-Holds value) λ flag f. h
  apply_setting-Holds c (ident_timeout value) h =
      Holds-bind Any IsAddressed (read_timeout value) _ (read_timeout-Holds value) λ timeout f. h
  apply_setting-Holds c (idle_timeout value) h =
      Holds-bind Any IsAddressed (read_timeout value) _ (read_timeout-Holds value) λ timeout f. h
  apply_setting-Holds c (write_timeout value) h =
      Holds-bind Any IsAddressed (read_timeout value) _ (read_timeout-Holds value) λ timeout f. h
  apply_setting-Holds c (dns_lookup value) h =
      Holds-bind Any IsAddressed (read_flag value) _ (read_flag-Holds value) λ flag f. h
  apply_setting-Holds c (pid_file value) h =
      Holds-bind Any IsAddressed (strdup alloc value) _ (strdup-Holds value) λ path f. h
  apply_setting-Holds c (welcome_msg value) h =
      Holds-bind Any IsAddressed (strdup alloc value) _ (strdup-Holds value) λ msg f. h
  apply_setting-Holds c unknown h = tt

-- The endings that are left where there is memory: a message about the text, or a configuration.
abbrev pub Safe : Loaded → Type 0
Safe fault = ⊥
Safe out_of_memory = ⊥
Safe stuck = ⊥
Safe undeciphered = ⊥
Safe _ = Unit

module _ (r : Resolver) where
  is_sane-ne-none : (b : Bouncer) → Addressed b → is_sane r b ≢ none
  unfolding is_sane
  is_sane-ne-none b h = ground arith

  all_sane-ne-none : (bs : List Bouncer) → All Addressed bs → all_sane r bs ≢ none
  unfolding all_sane
  all_sane-ne-none [] h e = ground arith
  all_sane-ne-none (b ∷ bs) h e = ground (arith, is_sane-ne-none b h.0, all_sane-ne-none bs h.1)

  checked-Safe : (c : Config) (o : Option Bool) → o ≢ none → Safe (checked c o)
  checked-Safe c none h = h refl
  checked-Safe c (some true) h = tt
  checked-Safe c (some false) h = tt

  sane_list-ne-none : (bs : List Bouncer) → All Addressed bs → sane_list r bs ≢ none
  unfolding sane_list
  sane_list-ne-none [] h e = ground arith
  sane_list-ne-none (b ∷ bs) h e = all_sane-ne-none (b ∷ bs) h e

continue-Safe :
    (Q : Config → Type 0) (line : Bytes) (p : Parse Config) (next : Config → Loaded)
    → Holds Q p
    → ((c : Config) → Q c → Safe (next c))
    → Safe (continue line p next)
continue-Safe Q line crash next h n = h
continue-Safe Q line no_memory next h n = h
continue-Safe Q line parse_error next h n = tt
continue-Safe Q line (ok c) next h n = n c h

module _ (alloc : ℕ → Bool) (has_room : (n : ℕ) → alloc n ≡ true) (r : Resolver) where
  load_lines-Safe :
      (fuel : ℕ) (c : Config) (p1 : Bytes)
      → length p1 < fuel
      → All Addressed c.bouncers
      → Safe (load_lines alloc r fuel c p1)
  unfolding load_lines config_sanity_check
  load_lines-Safe zero c p1 hf h = absurd (omega arith)
  load_lines-Safe (suc fuel) c [] hf h =
      checked-Safe r c (sane_list r c.bouncers) (sane_list-ne-none r c.bouncers h)
  load_lines-Safe (suc fuel) c (b ∷ p1) hf h =
      let line = (split_line (b ∷ p1)).0 in
      let next = skip_newlines (split_line (b ∷ p1)).1 in
      let shorter : length next < fuel = omega (arith, length-next_line b p1) in
      elim (Bool-cases (is_skipped line)) [
        | inl skip ↦ rw (has_room (length line + 1), skip) (load_lines-Safe fuel c next shorter h)
        | inr set ↦
            rw (has_room (length line + 1), set)
              (continue-Safe (λ d. All Addressed d.bouncers) line _ _
                (apply_setting-Holds alloc has_room c (classify line) h)
                (λ changed there. load_lines-Safe fuel changed next shorter there))
      ]

  -- With memory for every request, `Config_loadBuffer` ends on every text with a configuration or a
  -- message about the text: it reads through no null pointer and does not give up for memory.
  pub config_load_buffer-Safe : (text : Bytes) → Safe (config_load_buffer alloc r text)
  unfolding config_load_buffer
  config_load_buffer-Safe text =
      rw (has_room config_size)
        (load_lines-Safe (suc (length text)) config_new text (omega arith) tt)
