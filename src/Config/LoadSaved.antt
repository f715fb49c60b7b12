-- ===== src/Config/LoadSaved.antt =====
-- Proofs on `Config_loadBuffer` of config.c on the text that `Config_saveBuffer` makes.
use ebbnc.Common.{
  ℕ, ◌^◌, ◌<◌, ◌≡◌, ◌≢◌, refl, sym, ap, ◌∙◌, subst, arith, Bool, true, false, Option, none, some,
  [], ◌∷◌, ◌++◌, ◌==◌, if◌then◌else◌, length, Bytes, All, All-append, ℤ, pos, codes, int_of_long,
  is_negative,
}
use ebbnc.Libc.{print_int, same_case, strip_word}
use ebbnc.Libc.Numbers.{IsDigit, print_int-cons, strtol-print_int}
use ebbnc.Misc.{str_to_int, str_to_long}
use ebbnc.Config.{Bouncer, Config, ok, parse_error, bouncer_parse}
use ebbnc.Config.Load.{classify, apply_setting, read_flag, read_timeout}
use ebbnc.Config.Save.{print_bouncer, print_flag}
use ebbnc.Config.Lines.{IsInner, IsLine}
use ebbnc.Config.BouncerText.{
  IsPlain, bouncer_parse-print_bouncer, int_of_long-pos, >>=-ok, print_bouncer-eq-line,
  strdup-eq-ok,
}

IsInner-digits : (s : Bytes) → All IsDigit s → All IsInner s
IsInner-digits [] h = tt
IsInner-digits (c ∷ s) h = (ground arith, IsInner-digits s h.1)

pub print_int-IsInner : (n : ℕ) → All IsInner (print_int (pos n))
print_int-IsInner n =
    let (c, ds, e, digits) = print_int-cons n in
    subst (All IsInner) (sym e) (IsInner-digits (c ∷ ds) digits)

pub append-IsLine : (word value : Bytes) → IsLine word → All IsInner value → IsLine (word ++ value)
append-IsLine [] value h v = absurd h
append-IsLine (c ∷ word) value h v = (h.0, All-append IsInner (c ∷ word) value h.1 v)

pub print_flag-IsInner : (f : Bool) → All IsInner (print_flag f)
print_flag-IsInner true = ground arith
print_flag-IsInner false = ground arith

str_to_int-print_int : (n : ℕ) → n < 2 ^ 31 → str_to_int (print_int (pos n)) ≡ some (pos n)
unfolding str_to_int str_to_long
str_to_int-print_int n h =
    ap (λ (t : ℤ × Bytes). if (length t.1 == 0) then some (int_of_long t.0) else none)
      (strtol-print_int n (omega arith))
    ∙ ap some (int_of_long-pos n h)

read_timeout-print_int : (n : ℕ) → n < 2 ^ 31 → read_timeout (print_int (pos n)) ≡ ok (pos n)
unfolding read_timeout
read_timeout-print_int n h =
    ap
      (λ (o : Option ℤ). elim o [
        | none ↦ parse_error
        | some timeout ↦ if is_negative timeout then parse_error else ok timeout
      ])
      (str_to_int-print_int n h)

append-cons : (xs ys : Bytes) (c : ℕ) → xs ++ (c ∷ ys) ≢ []
append-cons [] ys c e = cc
append-cons (x ∷ xs) ys c e = cc

module _ (alloc : ℕ → Bool) (has_room : (n : ℕ) → alloc n ≡ true) where
  pub set_idnt :
      (c : Config) (f : Bool)
      → apply_setting alloc c (classify (codes "idnt=" ++ print_flag f))
        ≡ ok (record c { idnt = f })
  unfolding apply_setting classify strip_word read_flag same_case
  set_idnt c true = refl
  set_idnt c false = refl

  pub set_dns_lookup :
      (c : Config) (f : Bool)
      → apply_setting alloc c (classify (codes "dnslookup=" ++ print_flag f))
        ≡ ok (record c { dns_lookup = f })
  unfolding apply_setting classify strip_word read_flag same_case
  set_dns_lookup c true = refl
  set_dns_lookup c false = refl

  pub set_ident_timeout :
      (c : Config) (n : ℕ)
      → n < 2 ^ 31
      → apply_setting alloc c (classify (codes "identtimeout=" ++ print_int (pos n)))
        ≡ ok (record c { ident_timeout = pos n })
  unfolding apply_setting classify strip_word
  set_ident_timeout c n h =
      let (d, ds, e, digits) = print_int-cons n in
      ap (λ v. apply_setting alloc c (classify (codes "identtimeout=" ++ v))) e
      ∙ >>=-ok _ (ap read_timeout (sym e) ∙ read_timeout-print_int n h)

  pub set_idle_timeout :
      (c : Config) (n : ℕ)
      → n < 2 ^ 31
      → apply_setting alloc c (classify (codes "idletimeout=" ++ print_int (pos n)))
        ≡ ok (record c { idle_timeout = pos n })
  unfolding apply_setting classify strip_word
  set_idle_timeout c n h =
      let (d, ds, e, digits) = print_int-cons n in
      ap (λ v. apply_setting alloc c (classify (codes "idletimeout=" ++ v))) e
      ∙ >>=-ok _ (ap read_timeout (sym e) ∙ read_timeout-print_int n h)

  pub set_write_timeout :
      (c : Config) (n : ℕ)
      → n < 2 ^ 31
      → apply_setting alloc c (classify (codes "writetimeout=" ++ print_int (pos n)))
        ≡ ok (record c { write_timeout = pos n })
  unfolding apply_setting classify strip_word
  set_write_timeout c n h =
      let (d, ds, e, digits) = print_int-cons n in
      ap (λ v. apply_setting alloc c (classify (codes "writetimeout=" ++ v))) e
      ∙ >>=-ok _ (ap read_timeout (sym e) ∙ read_timeout-print_int n h)

  pub set_pid_file :
      (c : Config) (v : Bytes)
      → v ≢ []
      → apply_setting alloc c (classify (codes "pidfile=" ++ v))
        ≡ ok (record c { pid_file = some v })
  unfolding apply_setting classify strip_word
  set_pid_file c [] h = absurd (h refl)
  set_pid_file c (x ∷ v) h = >>=-ok _ (strdup-eq-ok alloc has_room (x ∷ v))

  pub set_welcome_msg :
      (c : Config) (v : Bytes)
      → v ≢ []
      → apply_setting alloc c (classify (codes "welcomemsg=" ++ v))
        ≡ ok (record c { welcome_msg = some v })
  unfolding apply_setting classify strip_word
  set_welcome_msg c [] h = absurd (h refl)
  set_welcome_msg c (x ∷ v) h = >>=-ok _ (strdup-eq-ok alloc has_room (x ∷ v))

  print_bouncer-cons : (b : Bouncer) → IsPlain b → print_bouncer b ≢ []
  print_bouncer-cons b p e = append-cons p.ip _ b':' (sym (print_bouncer-eq-line b p) ∙ e)

  pub set_bouncer :
      (c : Config) (b : Bouncer)
      → IsPlain b
      → apply_setting alloc c (classify (codes "bouncer=" ++ print_bouncer b))
        ≡ ok (record c { bouncers = b ∷ c.bouncers })
  set_bouncer c b p =
      text (print_bouncer b) (print_bouncer-cons b p)
        (bouncer_parse-print_bouncer alloc has_room b p)
    where
      text :
          (s : Bytes)
          → s ≢ []
          → bouncer_parse alloc s ≡ ok b
          → apply_setting alloc c (classify (codes "bouncer=" ++ s))
            ≡ ok (record c { bouncers = b ∷ c.bouncers })
      text [] ne e = absurd (ne refl)
      text (x ∷ s) ne e =
          unfold apply_setting classify strip_word in
          >>=-ok (λ b'. ok (record c { bouncers = b' ∷ c.bouncers })) e
