-- ===== src/Config/RoundTrip.antt =====
-- Proofs on `Config_saveBuffer` and `Config_loadBuffer` of config.c, one behind the other.
use ebbnc.Common.{
  ℕ, ◌^◌, ◌<◌, ◌≡◌, ◌≢◌, refl, sym, ap, subst, arith, Bool, true, Option, none, some, List, [], ◌∷◌,
  ◌++◌, Bytes, All, All-append, ℤ, pos, codes,
}
use ebbnc.Libc.{print_int}
use ebbnc.Config.{Bouncer, Config, config_new, ok}
use ebbnc.Config.Load.{
  Resolver, classify, apply_setting, config_load_buffer, config_sanity_check, checked,
}
use ebbnc.Config.Save.{print_bouncer, config_save_buffer}
use ebbnc.Config.Lines.{text_of, IsInner, IsLine, Run, Run-append, config_load_buffer-text_of}
use ebbnc.Config.BouncerText.{IsPlain, print_bouncer-eq-line}
use ebbnc.Config.SaveLoad.{lines_of, optional_lines, bouncer_lines, config_save_buffer-eq-some}
use ebbnc.Config.LoadSaved.{
  print_int-IsInner, append-IsLine, print_flag-IsInner, set_idnt, set_dns_lookup, set_ident_timeout,
  set_idle_timeout, set_write_timeout, set_pid_file, set_welcome_msg, set_bouncer,
}

-- A bouncer whose line is one line, with its parts delimited.
pub record IsPrintable (b : Bouncer) : Type 0 where
  pub plain : IsPlain b
  pub ip : All IsInner plain.ip
  pub host : All IsInner plain.host
  pub local : All IsInner plain.local

-- A text that fits on a line behind its option.
abbrev pub IsOptional : Option Bytes → Type 0
IsOptional none = Unit
IsOptional (some v) = (v ≢ []) × All IsInner v

-- The configurations whose text says all of them.
pub record IsSavable (c : Config) : Type 0 where
  pub ident : ℕ
  pub idle : ℕ
  pub write : ℕ
  pub ident_timeout : c.ident_timeout ≡ pos ident
  pub idle_timeout : c.idle_timeout ≡ pos idle
  pub write_timeout : c.write_timeout ≡ pos write
  pub ident_lt : ident < 2 ^ 31
  pub idle_lt : idle < 2 ^ 31
  pub write_lt : write < 2 ^ 31
  pub pid_file : IsOptional c.pid_file
  pub welcome_msg : IsOptional c.welcome_msg
  pub bouncers : All IsPrintable c.bouncers

-- The bouncers in front of others, the last one first.
abbrev pub turned : List Bouncer → List Bouncer → List Bouncer
turned [] acc = acc
turned (b ∷ bs) acc = turned bs (b ∷ acc)

print_bouncer-IsInner : (b : Bouncer) → IsPrintable b → All IsInner (print_bouncer b)
print_bouncer-IsInner b p = subst (All IsInner) (sym (print_bouncer-eq-line b p.plain)) (
    All-append IsInner p.plain.ip _ p.ip (
      refl,
      All-append IsInner (print_int (pos p.plain.listen)) _ (print_int-IsInner p.plain.listen) (
        refl,
        All-append IsInner p.plain.host _ p.host (
          refl,
          All-append IsInner (print_int (pos p.plain.remote)) _ (print_int-IsInner p.plain.remote)
              (refl, p.local),
        ),
      ),
    ))

optional_lines-IsLine :
    (word : Bytes) (o : Option Bytes)
    → IsLine word
    → IsOptional o
    → All IsLine (optional_lines word o)
optional_lines-IsLine word none w h = tt
optional_lines-IsLine word (some v) w h = (append-IsLine word v w h.1, tt)

bouncer_lines-IsLine : (bs : List Bouncer) → All IsPrintable bs → All IsLine (bouncer_lines bs)
bouncer_lines-IsLine [] h = tt
bouncer_lines-IsLine (b ∷ bs) h = (
  append-IsLine (codes "bouncer=") (print_bouncer b) (ground arith) (print_bouncer-IsInner b h.0),
  bouncer_lines-IsLine bs h.1,
)

timeout-IsInner : (t : ℤ) (n : ℕ) → t ≡ pos n → All IsInner (print_int t)
timeout-IsInner t n e = subst (λ x. All IsInner (print_int x)) (sym e) (print_int-IsInner n)

lines_of-IsLine : (c : Config) → IsSavable c → All IsLine (lines_of c)
lines_of-IsLine c s =
    let idnt = append-IsLine (codes "idnt=") _ (ground arith) (print_flag-IsInner c.idnt) in
    let ident =
      append-IsLine (codes "identtimeout=") _ (ground arith)
        (timeout-IsInner _ s.ident s.ident_timeout) in
    let idle =
      append-IsLine (codes "idletimeout=") _ (ground arith)
        (timeout-IsInner _ s.idle s.idle_timeout) in
    let write =
      append-IsLine (codes "writetimeout=") _ (ground arith)
        (timeout-IsInner _ s.write s.write_timeout) in
    let lookup =
      append-IsLine (codes "dnslookup=") _ (ground arith) (print_flag-IsInner c.dns_lookup) in
    let pid = optional_lines-IsLine (codes "pidfile=") c.pid_file (ground arith) s.pid_file in
    let msg =
      optional_lines-IsLine (codes "welcomemsg=") c.welcome_msg (ground arith) s.welcome_msg in
    (
      idnt,
      (
        ident,
        (
          idle,
          (
            write,
            (
              lookup,
              All-append IsLine (optional_lines (codes "pidfile=") c.pid_file) _ pid (
                  All-append IsLine (optional_lines (codes "welcomemsg=") c.welcome_msg) _ msg
                    (bouncer_lines-IsLine c.bouncers s.bouncers)),
            ),
          ),
        ),
      ),
    )

module _ (alloc : ℕ → Bool) (has_room : (n : ℕ) → alloc n ≡ true) where
  bouncer_lines-Run :
      (c : Config) (bs : List Bouncer)
      → All IsPrintable bs
      → Run alloc c (bouncer_lines bs) (record c { bouncers = turned bs c.bouncers })
  bouncer_lines-Run c [] h = refl
  bouncer_lines-Run c (b ∷ bs) h =
      let d = record c { bouncers = b ∷ c.bouncers } in
      (d, set_bouncer alloc has_room c b h.0.plain, bouncer_lines-Run d bs h.1)

  pid_file-Run :
      (c : Config) (o : Option Bytes)
      → IsOptional o
      → c.pid_file ≡ none
      → Run alloc c (optional_lines (codes "pidfile=") o) (record c { pid_file = o })
  pid_file-Run c none h e = ap (λ o. record c { pid_file = o }) e
  pid_file-Run c (some v) h e =
      (record c { pid_file = some v }, set_pid_file alloc has_room c v h.0, refl)

  welcome_msg-Run :
      (c : Config) (o : Option Bytes)
      → IsOptional o
      → c.welcome_msg ≡ none
      → Run alloc c (optional_lines (codes "welcomemsg=") o) (record c { welcome_msg = o })
  welcome_msg-Run c none h e = ap (λ o. record c { welcome_msg = o }) e
  welcome_msg-Run c (some v) h e =
      (record c { welcome_msg = some v }, set_welcome_msg alloc has_room c v h.0, refl)

  lines_of-Run :
      (c : Config)
      → IsSavable c
      → Run alloc config_new (lines_of c) (record c { bouncers = turned c.bouncers [] })
  lines_of-Run c s =
      let c1 = record config_new { idnt = c.idnt } in
      let c2 = record c1 { ident_timeout = c.ident_timeout } in
      let c3 = record c2 { idle_timeout = c.idle_timeout } in
      let c4 = record c3 { write_timeout = c.write_timeout } in
      let c5 = record c4 { dns_lookup = c.dns_lookup } in
      let c6 = record c5 { pid_file = c.pid_file } in
      let c7 = record c6 { welcome_msg = c.welcome_msg } in
      let final = record c { bouncers = turned c.bouncers [] } in
      (
        c1,
        set_idnt alloc has_room config_new c.idnt,
        (
          c2,
          subst
              (λ t.
                apply_setting alloc c1 (classify (codes "identtimeout=" ++ print_int t))
                ≡ ok (record c1 { ident_timeout = t }))
              (sym s.ident_timeout) (set_ident_timeout alloc has_room c1 s.ident s.ident_lt),
          (
            c3,
            subst
                (λ t.
                  apply_setting alloc c2 (classify (codes "idletimeout=" ++ print_int t))
                  ≡ ok (record c2 { idle_timeout = t }))
                (sym s.idle_timeout) (set_idle_timeout alloc has_room c2 s.idle s.idle_lt),
            (
              c4,
              subst
                  (λ t.
                    apply_setting alloc c3 (classify (codes "writetimeout=" ++ print_int t))
                    ≡ ok (record c3 { write_timeout = t }))
                  (sym s.write_timeout) (set_write_timeout alloc has_room c3 s.write s.write_lt),
              (
                c5,
                set_dns_lookup alloc has_room c4 c.dns_lookup,
                Run-append alloc c5 c6 final (optional_lines (codes "pidfile=") c.pid_file) _
                    (pid_file-Run c5 c.pid_file s.pid_file refl)
                    (Run-append alloc c6 c7 final
                      (optional_lines (codes "welcomemsg=") c.welcome_msg) _
                      (welcome_msg-Run c6 c.welcome_msg s.welcome_msg refl)
                      (bouncer_lines-Run c7 c.bouncers s.bouncers)),
              ),
            ),
          ),
        ),
      )

  -- With memory for every request, and a configuration whose timeouts are ints above -1 and whose
  -- texts and bouncers can stand on lines of their own, `Config_saveBuffer` makes a text for which
  -- `Config_loadBuffer` ends as the sanity check says of the same configuration with the bouncers
  -- in the opposite order.
  pub config_load_buffer-config_save_buffer :
      (r : Resolver) (c : Config)
      → IsSavable c
      → let c' = record c { bouncers = turned c.bouncers [] } in
        (buffer : Bytes) × (config_save_buffer alloc c ≡ some buffer)
        × (config_load_buffer alloc r buffer ≡ checked c' (config_sanity_check r c'))
  config_load_buffer-config_save_buffer r c s = (
    text_of (lines_of c),
    config_save_buffer-eq-some alloc has_room c,
    config_load_buffer-text_of alloc has_room r (record c { bouncers = turned c.bouncers [] })
        (lines_of c) (lines_of-IsLine c s) (lines_of-Run c s),
  )
