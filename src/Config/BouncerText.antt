-- ===== src/Config/BouncerText.antt =====
-- Proofs on the line that `Config_saveBuffer` prints of a bouncer, as `Bouncer_parse` reads it.
use ebbnc.Common.{
  ℕ, ◌+◌, ◌^◌, ◌<◌, ◌≡◌, ◌≢◌, ◌⊎◌, inl, refl, sym, ap, ◌∙◌, subst, arith, Bool, true, Option, none,
  some, [], ◌∷◌, ◌++◌, length, Bytes, All, ℤ, pos, int_of_long, codes,
}
use ebbnc.Libc.{strtok, print_int}
use ebbnc.Libc.Tokens.{IsToken, strtok-append, strtok_end, strtok-nil}
use ebbnc.Libc.Numbers.{IsDigit, sscanf_li-print_int, print_int-cons}
use ebbnc.Config.{
  Bouncer, bouncer_size, Parse, ok, parse_error, ◌>>=◌, next_token, read_port, strdup, allocated,
  parse_local, bouncer_parse,
}
use ebbnc.Config.Save.{print_bouncer}

All-digits : (d : ℕ) (s : Bytes) → (d < b'0') ⊎ (b'9' < d) → All IsDigit s → All (λ c. c ≢ d) s
All-digits d [] o h = tt
All-digits d (c ∷ s) o h = ((λ e. ground arith), All-digits d s o h.1)

print_int-IsToken : (d n : ℕ) → (d < b'0') ⊎ (b'9' < d) → IsToken d (print_int (pos n))
print_int-IsToken d n o =
    let (c, ds, e, digits) = print_int-cons n in
    subst (IsToken d) (sym e) ((λ z. cc), All-digits d (c ∷ ds) o digits)

-- The two parts of a listening or remote end as text, with a port that lies in range, and the local
-- address.
pub record IsPlain (b : Bouncer) : Type 0 where
  pub ip : Bytes
  pub host : Bytes
  pub local : Bytes
  pub listen : ℕ
  pub remote : ℕ
  pub listen_ip : b.listen_ip ≡ some ip
  pub listen_port : b.listen_port ≡ pos listen
  pub remote_host : b.remote_host ≡ some host
  pub remote_port : b.remote_port ≡ pos remote
  pub local_ip : b.local_ip ≡ some local
  pub ip_token : IsToken b':' ip
  pub host_token : IsToken b':' host
  pub local_token : IsToken b' ' local
  pub listen_lt : listen < 2 ^ 31
  pub remote_lt : remote < 2 ^ 31

pub int_of_long-pos : (n : ℕ) → n < 2 ^ 31 → int_of_long (pos n) ≡ pos n
unfolding int_of_long
int_of_long-pos n h = ground arith

-- The line, with the values of the fields.
abbrev pub line_text : Bytes → ℕ → Bytes → ℕ → Bytes → Bytes
line_text ip listen host remote local =
    ip
    ++ (b':'
        ∷ (print_int (pos listen)
            ++ (b' ' ∷ (host ++ (b':' ∷ (print_int (pos remote) ++ (b' ' ∷ local)))))))

pub print_bouncer-eq-line :
    (b : Bouncer) (p : IsPlain b)
    → print_bouncer b ≡ line_text p.ip p.listen p.host p.remote p.local
unfolding print_bouncer
print_bouncer-eq-line b p =
    rw
      (
        p.listen_ip,
        p.listen_port,
        p.remote_host,
        p.remote_port,
        p.local_ip,
        int_of_long-pos p.listen p.listen_lt,
        int_of_long-pos p.remote p.remote_lt,
      )
      refl

pub >>=-ok : {A B : Type 0} {p : Parse A} {a : A} (f : A → Parse B) → p ≡ ok a → (p >>= f) ≡ f a
>>=-ok f e = ap (λ q. q >>= f) e

module _ (alloc : ℕ → Bool) (has_room : (n : ℕ) → alloc n ≡ true) where
  read_port-print_int : (n : ℕ) → n < 2 ^ 31 → read_port (print_int (pos n)) ≡ ok (pos n)
  unfolding read_port
  read_port-print_int n h =
      ap (λ (o : Option ℤ). elim o [ none ↦ parse_error | some port ↦ ok port ])
        (sscanf_li-print_int n (omega arith))

  pub strdup-eq-ok : (s : Bytes) → strdup alloc s ≡ ok s
  unfolding strdup
  strdup-eq-ok s = rw (has_room (length s + 1)) refl

  allocated-eq-ok : allocated alloc ≡ ok tt
  unfolding allocated
  allocated-eq-ok = rw (has_room bouncer_size) refl

  next_token-append :
      (d : ℕ) (s rest : Bytes) → IsToken d s → next_token d (s ++ (d ∷ rest)) ≡ ok (s, rest)
  unfolding next_token
  next_token-append d s rest h =
      ap (λ (o : Option (Bytes × Bytes)). elim o [ none ↦ parse_error | some t ↦ ok t ])
        (strtok-append d s rest h)

  parse_local-eq-ok :
      (ip local : Bytes) → IsToken b' ' local → parse_local alloc ip local ≡ ok local
  unfolding parse_local
  parse_local-eq-ok ip local h =
      ap
        (λ (o : Option (Bytes × Bytes)). elim o [
          | none ↦ strdup alloc ip
          | some (p, rest) ↦ strdup alloc p >>= λ local_ip. elim (strtok b' ' rest) [
            | none ↦ ok local_ip
            | some t ↦ parse_error
          ]
        ])
        (strtok_end b' ' local h)
      ∙ >>=-ok _ (strdup-eq-ok local)
      ∙ ap (λ (o : Option (Bytes × Bytes)). elim o [ none ↦ ok local | some t ↦ parse_error ])
          (strtok-nil b' ')

  -- Where the addresses hold no character that delimits them and the ports are ints above -1,
  -- `Bouncer_parse` reads the line of a bouncer back, with memory for every request.
  pub bouncer_parse-print_bouncer :
      (b : Bouncer) → IsPlain b → bouncer_parse alloc (print_bouncer b) ≡ ok b
  unfolding bouncer_parse
  bouncer_parse-print_bouncer b p =
      ap (bouncer_parse alloc) (print_bouncer-eq-line b p)
      ∙ >>=-ok _ (strdup-eq-ok _)
      ∙ >>=-ok _ (next_token-append b':' p.ip _ p.ip_token)
      ∙ >>=-ok _ allocated-eq-ok
      ∙ >>=-ok _ (strdup-eq-ok p.ip)
      ∙ >>=-ok _ (
          next_token-append b' ' (print_int (pos p.listen)) _
            (print_int-IsToken b' ' p.listen (inl (omega arith))))
      ∙ >>=-ok _ (read_port-print_int p.listen p.listen_lt)
      ∙ >>=-ok _ (next_token-append b':' p.host _ p.host_token)
      ∙ >>=-ok _ (strdup-eq-ok p.host)
      ∙ >>=-ok _ (
          next_token-append b' ' (print_int (pos p.remote)) _
            (print_int-IsToken b' ' p.remote (inl (omega arith))))
      ∙ >>=-ok _ (read_port-print_int p.remote p.remote_lt)
      ∙ >>=-ok _ (parse_local-eq-ok p.ip p.local p.local_token)
      ∙ rw
          (sym p.listen_ip, sym p.listen_port, sym p.remote_host, sym p.remote_port, sym p.local_ip)
          refl

  -- A bouncer without a local address, whose other addresses hold no character that delimits them
  -- and whose ports are ints above -1, is read back, with memory for every request, with the local
  -- address "(null)".
  pub bouncer_parse-print_bouncer_null :
      (b : Bouncer)
      → b.local_ip ≡ none
      → IsPlain (record b { local_ip = some (codes "(null)") })
      → bouncer_parse alloc (print_bouncer b) ≡ ok (record b { local_ip = some (codes "(null)") })
  bouncer_parse-print_bouncer_null b h p =
      let named : Bouncer = record b { local_ip = some (codes "(null)") } in
      let same : print_bouncer b ≡ print_bouncer named = unfold print_bouncer in rw h refl in
      ap (bouncer_parse alloc) same ∙ bouncer_parse-print_bouncer named p
