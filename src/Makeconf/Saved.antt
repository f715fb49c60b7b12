-- ===== src/Makeconf/Saved.antt =====
-- Proofs that what makeconf.c's dialogue has collected can be saved: `Config_saveBuffer` makes a text of
-- lines of it, in printed characters.
use ebbnc.Common.{
  ℕ, ◌≤◌, ◌≡◌, refl, sym, ap, ap₂, subst, ◌∙◌, arith, Bool, true, Option, none, some, List, [], ◌∷◌,
  ◌++◌, map, Bytes, All, ℤ, pos, negsuc, codes, int_of_long,
}
use ebbnc.Misc.{is_valid_port}
use ebbnc.Config.{Config, Bouncer}
use ebbnc.Config.Load.{Resolver}
use ebbnc.Config.Save.{print_bouncer, config_save_buffer}
use ebbnc.Config.Lines.{IsInner}
use ebbnc.Config.BouncerText.{IsPlain, int_of_long-pos}
use ebbnc.Config.SaveLoad.{bouncer_lines, config_save_buffer-eq-some}
use ebbnc.Config.RoundTrip.{IsPrintable, IsOptional, IsSavable}
use ebbnc.Makeconf.{finished}
use ebbnc.Makeconf.Typed.{IsPrinted, TextFits, TimeoutFits, LocalFits, BouncerFits, Fits}

-- A bouncer with its ports as `%i` prints them.
abbrev pub as_printed : Bouncer → Bouncer
as_printed b = record b {
  listen_port = int_of_long b.listen_port;
  remote_port = int_of_long b.remote_port;
}

abbrev pub as_saved : Config → Config
as_saved c = record c { bouncers = map as_printed c.bouncers }

abbrev pub HasLocalIp : Bouncer → Type 0
HasLocalIp b = (ip : Bytes) × (b.local_ip ≡ some ip)

IsPrinted-IsInner : (s : Bytes) → All IsPrinted s → All IsInner s
IsPrinted-IsInner [] h = tt
IsPrinted-IsInner (c ∷ s) h = (ground arith, IsPrinted-IsInner s h.1)

pub valid_port : (z : ℤ) → is_valid_port z ≡ true → (n : ℕ) × (z ≡ pos n) × (n ≤ 65535)
unfolding is_valid_port
valid_port (pos n) h = (n, refl, ground arith)
valid_port (negsuc n) h = absurd (ground arith)

-- A port that is in range as an int stays the same.
pub int_of_long_twice :
    (z : ℤ) → is_valid_port (int_of_long z) ≡ true → int_of_long (int_of_long z) ≡ int_of_long z
int_of_long_twice z h =
    let (n, at, below) = valid_port (int_of_long z) h in
    ap int_of_long at ∙ int_of_long-pos n (omega (arith, below)) ∙ sym at

module _ (r : Resolver) where
  -- What the line of a bouncer is made of.
  abbrev pub plain_parts : (b : Bouncer) → BouncerFits r b → HasLocalIp b → IsPlain (as_printed b)
  plain_parts b (l, m, f) (ip, given) =
      let (listen, at, below) = valid_port (int_of_long b.listen_port) l.port in
      let (remote, at2, below2) = valid_port (int_of_long b.remote_port) m.port in
      record {
        ip = l.ip;
        host = m.host;
        local = ip;
        listen = listen;
        remote = remote;
        listen_ip = l.listen_ip;
        listen_port = at;
        remote_host = m.remote_host;
        remote_port = at2;
        local_ip = given;
        ip_token = l.token;
        host_token = m.token;
        local_token = (subst (LocalFits r) given f).0;
        listen_lt = omega (arith, below);
        remote_lt = omega (arith, below2);
      }

  IsPrintable-as_printed :
      (b : Bouncer) → BouncerFits r b → HasLocalIp b → IsPrintable (as_printed b)
  IsPrintable-as_printed b (l, m, f) (ip, given) = record {
    plain = plain_parts b (l, m, f) (ip, given);
    ip = IsPrinted-IsInner l.ip l.printed;
    host = IsPrinted-IsInner m.host m.printed;
    local = IsPrinted-IsInner ip (subst (LocalFits r) given f).1;
  }

  All-IsPrintable :
      (bs : List Bouncer)
      → All (BouncerFits r) bs
      → All HasLocalIp bs
      → All IsPrintable (map as_printed bs)
  All-IsPrintable [] h has = tt
  All-IsPrintable (b ∷ bs) h has =
      (IsPrintable-as_printed b h.0 has.0, All-IsPrintable bs h.1 has.1)

  IsOptional-fits : (o : Option Bytes) → TextFits o → IsOptional o
  IsOptional-fits none h = tt
  IsOptional-fits (some v) h = (h.0, IsPrinted-IsInner v h.1)

  pub IsSavable-as_saved :
      (c : Config) {b : Option Bouncer}
      → Fits r finished c b
      → All HasLocalIp c.bouncers
      → IsSavable (as_saved c)
  IsSavable-as_saved c v has =
      let i : TimeoutFits c.ident_timeout = v.ident in
      let d : TimeoutFits c.idle_timeout = v.idle in
      let w : TimeoutFits c.write_timeout = v.write in
      record {
        ident = i.seconds;
        idle = d.seconds;
        write = w.seconds;
        ident_timeout = i.is;
        idle_timeout = d.is;
        write_timeout = w.is;
        ident_lt = i.seconds_lt;
        idle_lt = d.seconds_lt;
        write_lt = w.seconds_lt;
        pid_file = IsOptional-fits c.pid_file v.pid;
        welcome_msg = IsOptional-fits c.welcome_msg v.msg;
        bouncers = All-IsPrintable c.bouncers v.list has;
      }

  -- The ports are printed the same a second time.
  print_bouncer-as_printed :
      (b : Bouncer) → BouncerFits r b → print_bouncer (as_printed b) ≡ print_bouncer b
  unfolding print_bouncer
  print_bouncer-as_printed b (l, m, f) =
      rw (int_of_long_twice b.listen_port l.port, int_of_long_twice b.remote_port m.port) refl

  bouncer_lines-as_printed :
      (bs : List Bouncer)
      → All (BouncerFits r) bs
      → bouncer_lines (map as_printed bs) ≡ bouncer_lines bs
  bouncer_lines-as_printed [] h = refl
  bouncer_lines-as_printed (b ∷ bs) h =
      ap₂ (λ l ls. (codes "bouncer=" ++ l) ∷ ls) (print_bouncer-as_printed b h.0)
        (bouncer_lines-as_printed bs h.1)

  pub config_save_buffer-as_saved :
      (alloc : ℕ → Bool)
      → ((n : ℕ) → alloc n ≡ true)
      → (c : Config) → All (BouncerFits r) c.bouncers
      → config_save_buffer alloc (as_saved c) ≡ config_save_buffer alloc c
  config_save_buffer-as_saved alloc has_room c h =
      config_save_buffer-eq-some alloc has_room (as_saved c)
      ∙ rw (bouncer_lines-as_printed c.bouncers h)
          (sym (config_save_buffer-eq-some alloc has_room c))
