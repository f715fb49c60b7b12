-- ===== src/Config/LoadSound.antt =====
-- Proofs on `Config_loadBuffer` of config.c: its end, and the configuration that it returns.
use ebbnc.Common.{
  ℕ, zero, suc, ◌+◌, ◌<◌, ◌≤◌, ◌≡◌, ◌≢◌, refl, sym, subst, arith, Bool, true, false, Option, none,
  some, List, [], ◌∷◌, Bytes, All, length, is_negative, int_of_long, Bool-cases, Option-cases, inl,
  inr,
}
use ebbnc.Misc.{is_valid_port}
use ebbnc.Config.{
  Bouncer, Config, config_new, config_size, Parse, crash, no_memory, parse_error, ok,
}
use ebbnc.Config.Load.{
  Resolver, Loaded, stuck, loaded, is_sane, all_sane, config_sanity_check, sane_list, Setting,
  bouncer, classify, read_timeout, apply_setting, is_newline, is_skipped, split_line, skip_newlines,
  checked, continue, load_lines, config_load_buffer,
}

length-skip_newlines : (p : Bytes) → length (skip_newlines p) ≤ length p
unfolding skip_newlines
length-skip_newlines [] = omega arith
length-skip_newlines (c ∷ p) = ground (arith, length-skip_newlines p)

length-split_line : (p : Bytes) → length (split_line p).1 ≤ length p
unfolding split_line
length-split_line [] = omega arith
length-split_line (c ∷ p) = ground (arith, length-split_line p)

-- Each pass moves `p1` on.
pub length-next_line :
    (c : ℕ) (p : Bytes) → length (skip_newlines (split_line (c ∷ p)).1) ≤ length p
unfolding split_line
length-next_line c p = elim (Bool-cases (is_newline c)) [
  | inl at_end ↦ rw at_end (unfold skip_newlines in rw at_end (length-skip_newlines p))
  | inr inside ↦
      rw inside (omega (arith, length-skip_newlines (split_line p).1, length-split_line p))
]

-- No timeout is negative.
abbrev pub IsTimed : Config → Type 0
IsTimed c =
    (is_negative c.ident_timeout ≡ false)
    × (is_negative c.idle_timeout ≡ false)
    × (is_negative c.write_timeout ≡ false)

abbrev Timed : Parse Config → Type 0
Timed (ok c) = IsTimed c
Timed _ = Unit

module _ (alloc : ℕ → Bool) where
  apply_setting-Timed : (c : Config) (s : Setting) → IsTimed c → Timed (apply_setting alloc c s)
  unfolding apply_setting read_timeout
  apply_setting-Timed c (bouncer v) h = ground arith
  apply_setting-Timed c s h = ground arith

module _ (r : Resolver) where
  -- The checks of `Config_sanityCheck` on one bouncer.
  pub record IsServable (b : Bouncer) : Type 0 where
    pub ip : Bytes
    pub host : Bytes
    pub local : Bytes
    pub listen_ip : b.listen_ip ≡ some ip
    pub ip_valid : r.valid_ip ip ≡ true
    pub listen_port : is_valid_port (int_of_long b.listen_port) ≡ true
    pub remote_host : b.remote_host ≡ some host
    pub host_valid : r.valid_host (some host) ≡ true
    pub remote_port : is_valid_port (int_of_long b.remote_port) ≡ true
    pub local_ip : b.local_ip ≡ some local
    pub local_valid : r.valid_ip local ≡ true

  is_sane-IsServable : (b : Bouncer) → is_sane r b ≡ some true → IsServable b
  unfolding is_sane
  is_sane-IsServable b h = elim (Option-cases b.listen_ip) [
    | inl e ↦ absurd (ground arith)
    | inr (ip, e) ↦ elim (Option-cases b.remote_host) [
      | inl f ↦ absurd (ground arith)
      | inr (host, f) ↦ elim (Option-cases b.local_ip) [
        | inl g ↦ absurd (ground arith)
        | inr (local, g) ↦ record {
          ip = ip;
          host = host;
          local = local;
          listen_ip = e;
          ip_valid = ground arith;
          listen_port = ground arith;
          remote_host = f;
          host_valid = ground arith;
          remote_port = ground arith;
          local_ip = g;
          local_valid = ground arith;
        }
      ]
    ]
  ]

  all_sane-All : (bs : List Bouncer) → all_sane r bs ≡ some true → All IsServable bs
  unfolding all_sane
  all_sane-All [] h = tt
  all_sane-All (b ∷ bs) h = (is_sane-IsServable b (ground arith), all_sane-All bs (ground arith))

  -- What `Config_loadBuffer` promises of the configuration that it returns.
  pub record IsSound (c : Config) : Type 0 where
    pub required : c.bouncers ≢ []
    pub servable : All IsServable c.bouncers
    pub timed : IsTimed c

  -- A result that is no configuration, or a sound one; a model out of fuel is neither.
  abbrev pub Sound : Loaded → Type 0
  Sound stuck = ⊥
  Sound (loaded c) = IsSound c
  Sound _ = Unit

  checked-Sound : (c : Config) → IsTimed c → Sound (checked c (config_sanity_check r c))
  unfolding config_sanity_check
  checked-Sound c h = sound c.bouncers refl
    where
      judged :
          (bs : List Bouncer)
          → c.bouncers ≡ bs
          → bs ≢ []
          → (o : Option Bool) → all_sane r bs ≡ o
          → Sound (checked c o)
      judged bs e ne none a = tt
      judged bs e ne (some false) a = tt
      judged bs e ne (some true) a = record {
        required = subst (λ l. l ≢ []) (sym e) ne;
        servable = subst (All IsServable) (sym e) (all_sane-All bs a);
        timed = h;
      }

      sound : (bs : List Bouncer) → c.bouncers ≡ bs → Sound (checked c (sane_list r c.bouncers))
      sound [] e = rw e (unfold sane_list in tt)
      sound (b ∷ bs) e =
          subst (λ l. Sound (checked c (sane_list r l))) (sym e)
            (unfold sane_list in judged (b ∷ bs) e (λ z. cc) (all_sane r (b ∷ bs)) refl)

  continue-Sound :
      (line : Bytes) (p : Parse Config) (next : Config → Loaded)
      → Timed p
      → ((c : Config) → IsTimed c → Sound (next c))
      → Sound (continue line p next)
  continue-Sound line crash next h n = tt
  continue-Sound line no_memory next h n = tt
  continue-Sound line parse_error next h n = tt
  continue-Sound line (ok c) next h n = n c h

module _ (alloc : ℕ → Bool) (r : Resolver) where
  load_lines-Sound :
      (fuel : ℕ) (c : Config) (p1 : Bytes)
      → length p1 < fuel
      → IsTimed c
      → Sound r (load_lines alloc r fuel c p1)
  unfolding load_lines
  load_lines-Sound zero c p1 hf h = absurd (omega arith)
  load_lines-Sound (suc fuel) c [] hf h = checked-Sound r c h
  load_lines-Sound (suc fuel) c (b ∷ p1) hf h =
      let line = (split_line (b ∷ p1)).0 in
      let next = skip_newlines (split_line (b ∷ p1)).1 in
      let shorter : length next < fuel = omega (arith, length-next_line b p1) in
      elim (Bool-cases (alloc (length line + 1))) [
        | inr out ↦ rw out tt
        | inl got ↦ elim (Bool-cases (is_skipped line)) [
          | inl skip ↦ rw (got, skip) (load_lines-Sound fuel c next shorter h)
          | inr set ↦
              rw (got, set)
                (continue-Sound r line _ _ (apply_setting-Timed alloc c (classify line) h)
                  (λ changed timed. load_lines-Sound fuel changed next shorter timed))
        ]
      ]

  -- On every text, `Config_loadBuffer` ends, and a configuration that it returns has at least one
  -- bouncer, no negative timeout, and in each bouncer addresses that the resolver accepts and ports
  -- that lie in range as ints.
  pub config_load_buffer-Sound : (text : Bytes) → Sound r (config_load_buffer alloc r text)
  unfolding config_load_buffer
  config_load_buffer-Sound text = elim (Bool-cases (alloc config_size)) [
    | inl got ↦
        rw got
          (load_lines-Sound (suc (length text)) config_new text (omega arith) (refl, refl, refl))
    | inr out ↦ rw out tt
  ]
