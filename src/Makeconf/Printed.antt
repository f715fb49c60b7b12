-- ===== src/Makeconf/Printed.antt =====
-- Proofs that `Config_saveBuffer` prints what makeconf.c's dialogue has collected in characters that can
-- be enciphered and deciphered again.
use ebbnc.Common.{
  ℕ, ◌≡◌, refl, sym, ap, subst, ◌∙◌, arith, Bool, true, false, Option, none, some, List, [], ◌∷◌,
  ◌++◌, map, Bytes, All, All-append, ℤ, pos, codes, IsByte,
}
use ebbnc.Libc.{print_int}
use ebbnc.Libc.Numbers.{IsDigit, print_int-cons}
use ebbnc.Config.{Config, Bouncer}
use ebbnc.Config.Load.{Resolver}
use ebbnc.Config.Save.{print_bouncer, print_flag}
use ebbnc.Config.Lines.{text_of}
use ebbnc.Config.BouncerText.{print_bouncer-eq-line}
use ebbnc.Config.SaveLoad.{lines_of, optional_lines, bouncer_lines}
use ebbnc.Embedded.Decrypted.{IsClean}
use ebbnc.Makeconf.{finished}
use ebbnc.Makeconf.Typed.{IsPrinted, TextFits, TimeoutFits, LocalFits, BouncerFits, Fits}
use ebbnc.Makeconf.Saved.{as_printed, as_saved, HasLocalIp, plain_parts}

IsPrinted-digits : (s : Bytes) → All IsDigit s → All IsPrinted s
IsPrinted-digits [] h = tt
IsPrinted-digits (c ∷ s) h = ((omega arith, omega arith, λ e. ground arith), IsPrinted-digits s h.1)

print_int-IsPrinted : (t : ℤ) (n : ℕ) → t ≡ pos n → All IsPrinted (print_int t)
print_int-IsPrinted t n is =
    let (c, ds, e, digits) = print_int-cons n in
    subst (All IsPrinted) (sym (ap print_int is ∙ e)) (IsPrinted-digits (c ∷ ds) digits)

print_flag-IsPrinted : (f : Bool) → All IsPrinted (print_flag f)
print_flag-IsPrinted true = ground arith
print_flag-IsPrinted false = ground arith

-- An option's word and its value.
append-IsPrinted :
    (word value : Bytes) → All IsPrinted word → All IsPrinted value → All IsPrinted (word ++ value)
append-IsPrinted word value = All-append IsPrinted word value

-- A text of printed lines can be enciphered and deciphered again.
pub text_of-IsBytes :
    (ls : List Bytes) → All (All IsPrinted) ls → All (λ c. IsByte c × IsClean c) (text_of ls)
text_of-IsBytes [] h = tt
text_of-IsBytes (l ∷ ls) h =
    All-append _ l _ (line l h.0)
      ((omega arith, ((λ e. ground arith), refl)), text_of-IsBytes ls h.1)
  where
    line : (l : Bytes) → All IsPrinted l → All (λ c. IsByte c × IsClean c) l
    line [] h = tt
    line (c ∷ l) h = ((h.0.1, ((λ e. ground arith), ground arith)), line l h.1)

optional_lines-IsPrinted :
    (word : Bytes) (o : Option Bytes)
    → All IsPrinted word
    → TextFits o
    → All (All IsPrinted) (optional_lines word o)
optional_lines-IsPrinted word none w h = tt
optional_lines-IsPrinted word (some v) w h = (append-IsPrinted word v w h.1, tt)

module _ (r : Resolver) where
  print_bouncer-IsPrinted :
      (b : Bouncer) → BouncerFits r b → HasLocalIp b → All IsPrinted (print_bouncer (as_printed b))
  print_bouncer-IsPrinted b (l, m, f) (ip, given) =
      let p = plain_parts r b (l, m, f) (ip, given) in
      subst (All IsPrinted) (sym (print_bouncer-eq-line (as_printed b) p)) (
        append-IsPrinted p.ip _ l.printed (
          ground arith,
          append-IsPrinted (print_int (pos p.listen)) _ (print_int-IsPrinted _ p.listen refl) (
            ground arith,
            append-IsPrinted p.host _ m.printed (
              ground arith,
              append-IsPrinted (print_int (pos p.remote)) _ (print_int-IsPrinted _ p.remote refl)
                  (ground arith, (subst (LocalFits r) given f).1),
            ),
          ),
        ))

  bouncer_lines-IsPrinted :
      (bs : List Bouncer)
      → All (BouncerFits r) bs
      → All HasLocalIp bs
      → All (All IsPrinted) (bouncer_lines (map as_printed bs))
  bouncer_lines-IsPrinted [] h has = tt
  bouncer_lines-IsPrinted (b ∷ bs) h has = (
    append-IsPrinted (codes "bouncer=") _ (ground arith) (print_bouncer-IsPrinted b h.0 has.0),
    bouncer_lines-IsPrinted bs h.1 has.1,
  )

  pub lines_of-IsPrinted :
      (c : Config) {b : Option Bouncer}
      → Fits r finished c b
      → All HasLocalIp c.bouncers
      → All (All IsPrinted) (lines_of (as_saved c))
  lines_of-IsPrinted c v has =
      let i : TimeoutFits c.ident_timeout = v.ident in
      let d : TimeoutFits c.idle_timeout = v.idle in
      let w : TimeoutFits c.write_timeout = v.write in
      (
        append-IsPrinted (codes "idnt=") _ (ground arith) (print_flag-IsPrinted c.idnt),
        (
          append-IsPrinted (codes "identtimeout=") _ (ground arith)
              (print_int-IsPrinted _ i.seconds i.is),
          (
            append-IsPrinted (codes "idletimeout=") _ (ground arith)
                (print_int-IsPrinted _ d.seconds d.is),
            (
              append-IsPrinted (codes "writetimeout=") _ (ground arith)
                  (print_int-IsPrinted _ w.seconds w.is),
              (
                append-IsPrinted (codes "dnslookup=") _ (ground arith)
                    (print_flag-IsPrinted c.dns_lookup),
                All-append (All IsPrinted) (optional_lines (codes "pidfile=") c.pid_file) _
                    (optional_lines-IsPrinted (codes "pidfile=") c.pid_file (ground arith) v.pid)
                    (All-append (All IsPrinted) (optional_lines (codes "welcomemsg=") c.welcome_msg)
                      _
                      (optional_lines-IsPrinted (codes "welcomemsg=") c.welcome_msg (ground arith)
                        v.msg)
                      (bouncer_lines-IsPrinted c.bouncers v.list has)),
              ),
            ),
          ),
        ),
      )
