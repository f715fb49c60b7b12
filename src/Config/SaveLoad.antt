-- ===== src/Config/SaveLoad.antt =====
-- Proofs on `Config_loadBuffer` of config.c on the text that `Config_saveBuffer` makes.
use ebbnc.Common.{
  ℕ, ◌+◌, ◌≡◌, refl, sym, ap, ◌∙◌, Bool, true, Option, none, some, List, [], ◌∷◌, ◌++◌,
  append_assoc, append-nil, ◌>>=◌, length, Bytes, codes,
}
use ebbnc.Libc.{print_int}
use ebbnc.Misc.{str_cat_printf}
use ebbnc.Config.{Bouncer, Config}
use ebbnc.Config.Save.{
  print_bouncer, print_flag, line_of, save_optional, save_bouncers, config_save_buffer,
}
use ebbnc.Config.Lines.{text_of}

-- The line of a setting.
abbrev pub optional_lines : Bytes → Option Bytes → List Bytes
optional_lines word none = []
optional_lines word (some value) = (word ++ value) ∷ []

abbrev pub bouncer_lines : List Bouncer → List Bytes
bouncer_lines [] = []
bouncer_lines (b ∷ bs) = (codes "bouncer=" ++ print_bouncer b) ∷ bouncer_lines bs

abbrev pub lines_of : Config → List Bytes
lines_of c =
    (codes "idnt=" ++ print_flag c.idnt)
    ∷ (codes "identtimeout=" ++ print_int c.ident_timeout)
    ∷ (codes "idletimeout=" ++ print_int c.idle_timeout)
    ∷ (codes "writetimeout=" ++ print_int c.write_timeout)
    ∷ (codes "dnslookup=" ++ print_flag c.dns_lookup)
    ∷ (optional_lines (codes "pidfile=") c.pid_file
        ++ (optional_lines (codes "welcomemsg=") c.welcome_msg ++ bouncer_lines c.bouncers))

text_of-append : (ls ms : List Bytes) → text_of (ls ++ ms) ≡ text_of ls ++ text_of ms
text_of-append [] ms = refl
text_of-append (l ∷ ls) ms =
    ap (λ t. l ++ (b'\n' ∷ t)) (text_of-append ls ms)
    ∙ sym (append_assoc l (b'\n' ∷ text_of ls) (text_of ms))

>>=-some : {A B : Type 0} {o : Option A} {a : A} (f : A → Option B) → o ≡ some a → (o >>= f) ≡ f a
>>=-some f e = ap (λ p. p >>= f) e

module _ (alloc : ℕ → Bool) (has_room : (n : ℕ) → alloc n ≡ true) where
  str_cat_printf-eq-some : (s text : Bytes) → str_cat_printf alloc (some s) text ≡ some (s ++ text)
  unfolding str_cat_printf
  str_cat_printf-eq-some s text =
      rw (has_room (length text + 1), has_room (length s + length text + 1)) refl

  -- A line behind the lines that are there.
  add_line :
      (ls : List Bytes) (word value : Bytes)
      → str_cat_printf alloc (some (text_of ls)) (line_of word value)
        ≡ some (text_of (ls ++ ((word ++ value) ∷ [])))
  add_line ls word value =
      str_cat_printf-eq-some (text_of ls) (line_of word value)
      ∙ ap some (
          ap (λ t. text_of ls ++ t) (sym (append_assoc word value (b'\n' ∷ [])))
          ∙ sym (text_of-append ls ((word ++ value) ∷ [])))

  save_optional-eq-some :
      (ls : List Bytes) (word : Bytes) (o : Option Bytes)
      → save_optional alloc word o (text_of ls) ≡ some (text_of (ls ++ optional_lines word o))
  unfolding save_optional
  save_optional-eq-some ls word none = ap (λ l. some (text_of l)) (sym (append-nil ls))
  save_optional-eq-some ls word (some value) = add_line ls word value

  save_bouncers-eq-some :
      (ls : List Bytes) (bs : List Bouncer)
      → save_bouncers alloc bs (text_of ls) ≡ some (text_of (ls ++ bouncer_lines bs))
  unfolding save_bouncers
  save_bouncers-eq-some ls [] = ap (λ l. some (text_of l)) (sym (append-nil ls))
  save_bouncers-eq-some ls (b ∷ bs) =
      ap (λ o. o >>= save_bouncers alloc bs) (add_line ls (codes "bouncer=") (print_bouncer b))
      ∙ save_bouncers-eq-some (ls ++ ((codes "bouncer=" ++ print_bouncer b) ∷ [])) bs
      ∙ ap (λ l. some (text_of l))
          (append_assoc ls ((codes "bouncer=" ++ print_bouncer b) ∷ []) (bouncer_lines bs))

  first_line :
      (word value : Bytes)
      → str_cat_printf alloc none (line_of word value) ≡ some (text_of ((word ++ value) ∷ []))
  unfolding str_cat_printf
  first_line word value =
      rw (has_room (length (line_of word value) + 1))
        (ap some (sym (append_assoc word value (b'\n' ∷ []))))

  pub config_save_buffer-eq-some :
      (c : Config) → config_save_buffer alloc c ≡ some (text_of (lines_of c))
  unfolding config_save_buffer
  config_save_buffer-eq-some c =
      let l1 = (codes "idnt=" ++ print_flag c.idnt) ∷ [] in
      let l2 = l1 ++ ((codes "identtimeout=" ++ print_int c.ident_timeout) ∷ []) in
      let l3 = l2 ++ ((codes "idletimeout=" ++ print_int c.idle_timeout) ∷ []) in
      let l4 = l3 ++ ((codes "writetimeout=" ++ print_int c.write_timeout) ∷ []) in
      let l5 = l4 ++ ((codes "dnslookup=" ++ print_flag c.dns_lookup) ∷ []) in
      let p = optional_lines (codes "pidfile=") c.pid_file in
      let w = optional_lines (codes "welcomemsg=") c.welcome_msg in
      let bs = bouncer_lines c.bouncers in
      >>=-some _ (first_line (codes "idnt=") (print_flag c.idnt))
      ∙ >>=-some _ (add_line l1 (codes "identtimeout=") (print_int c.ident_timeout))
      ∙ >>=-some _ (add_line l2 (codes "idletimeout=") (print_int c.idle_timeout))
      ∙ >>=-some _ (add_line l3 (codes "writetimeout=") (print_int c.write_timeout))
      ∙ >>=-some _ (add_line l4 (codes "dnslookup=") (print_flag c.dns_lookup))
      ∙ >>=-some _ (save_optional-eq-some l5 (codes "pidfile=") c.pid_file)
      ∙ >>=-some _ (save_optional-eq-some (l5 ++ p) (codes "welcomemsg=") c.welcome_msg)
      ∙ save_bouncers-eq-some ((l5 ++ p) ++ w) c.bouncers
      ∙ ap (λ l. some (text_of l)) (append_assoc (l5 ++ p) w bs ∙ append_assoc l5 p (w ++ bs))
