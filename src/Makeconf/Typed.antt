-- ===== src/Makeconf/Typed.antt =====
-- The dialogue of makeconf.c where every answer is typed on a line of its own, in printed characters,
-- and what it collects then.
use ebbnc.Common.{
  ℕ, ◌≤◌, ◌<◌, ◌^◌, ◌≡◌, ◌≢◌, refl, ap, ◌∙◌, arith, Bool, true, false, Option, none, some, [], ◌∷◌,
  ◌++◌, Bytes, All, ℤ, pos, negsuc, is_negative, int_of_long, signed32, ltb, ltb→lt, Bool-cases,
  inl, inr,
}
use ebbnc.Libc.Tokens.{IsToken}
use ebbnc.Misc.{
  is_valid_port, str_to_int, str_to_long, prompt_input, strip_trailing, keep, with_default,
}
use ebbnc.Config.{Bouncer, Config}
use ebbnc.Config.Load.{Resolver}
use ebbnc.Makeconf.{
  Stage, bouncer_next, bouncer_listen, bouncer_remote, bouncer_local, bouncer_another,
  ident_timeout, idle_timeout, write_timeout, password, Editor, on, turn, opening,
}
use ebbnc.Makeconf.Reach.{Reach}

-- A printed character: a byte that is no control character.
abbrev pub IsPrinted : ℕ → Type 0
IsPrinted c = (32 ≤ c) × (c < 256) × (c ≢ 127)

-- A line as `fgets` reads it, with its newline; the password is what `getpass` returns.
abbrev pub IsTyped : Stage → Option Bytes → Type 0
IsTyped password input = Unit
IsTyped s input = (line : Bytes) × All IsPrinted line × (input ≡ some (line ++ (b'\n' ∷ [])))

-- The states that are reached by such answers.
pub data Typed (alloc : ℕ → Bool) (r : Resolver) : Editor → Type 0 where
  start : {ed : Editor} → ed ≡ opening alloc → Typed alloc r ed
  next :
      {ed ed' : Editor} (input : Option Bytes)
      → Typed alloc r ed
      → IsTyped ed.stage input
      → ed.done ≡ false
      → turn alloc r ed input ≡ on ed'
      → Typed alloc r ed'

pub Typed-Reach :
    {alloc : ℕ → Bool} {r : Resolver} {ed : Editor} → Typed alloc r ed → Reach alloc r ed
Typed-Reach (start e) = Reach.start e
Typed-Reach (next input past typed more t) = Reach.next input (Typed-Reach past) more t

-- A text that can stand behind its option.
abbrev pub TextFits : Option Bytes → Type 0
TextFits none = Unit
TextFits (some v) = (v ≢ []) × All IsPrinted v

pub record TimeoutFits (t : ℤ) : Type 0 where
  pub seconds : ℕ
  pub is : t ≡ pos seconds
  pub seconds_lt : seconds < 2 ^ 31

module _ (r : Resolver) where
  pub record ListenFits (b : Bouncer) : Type 0 where
    pub ip : Bytes
    pub listen_ip : b.listen_ip ≡ some ip
    pub token : IsToken b':' ip
    pub printed : All IsPrinted ip
    pub valid : r.valid_ip ip ≡ true
    pub port : is_valid_port (int_of_long b.listen_port) ≡ true

  pub record RemoteFits (b : Bouncer) : Type 0 where
    pub host : Bytes
    pub remote_host : b.remote_host ≡ some host
    pub token : IsToken b':' host
    pub printed : All IsPrinted host
    pub valid : r.valid_host (some host) ≡ true
    pub port : is_valid_port (int_of_long b.remote_port) ≡ true

  abbrev pub LocalFits : Option Bytes → Type 0
  LocalFits none = Unit
  LocalFits (some ip) = IsToken b' ' ip × All IsPrinted ip × (r.valid_ip ip ≡ true)

  abbrev pub BouncerFits : Bouncer → Type 0
  BouncerFits b = ListenFits b × RemoteFits b × LocalFits b.local_ip

  -- What a stage knows of the bouncer at hand; and of a timeout, which may be negative while it is
  -- asked for.
  abbrev pub HandFits : Stage → Option Bouncer → Type 0
  HandFits bouncer_next (some b) = LocalFits b.local_ip
  HandFits bouncer_listen (some b) = LocalFits b.local_ip
  HandFits bouncer_remote (some b) = ListenFits b × LocalFits b.local_ip
  HandFits bouncer_local (some b) = BouncerFits b
  HandFits bouncer_another (some b) = BouncerFits b
  HandFits _ _ = Unit

  abbrev pub IdentFits : Stage → ℤ → Type 0
  IdentFits ident_timeout t = Unit
  IdentFits _ t = TimeoutFits t

  abbrev pub IdleFits : Stage → ℤ → Type 0
  IdleFits idle_timeout t = Unit
  IdleFits _ t = TimeoutFits t

  abbrev pub WriteFits : Stage → ℤ → Type 0
  WriteFits write_timeout t = Unit
  WriteFits _ t = TimeoutFits t

  pub record Fits (s : Stage) (c : Config) (b : Option Bouncer) : Type 0 where
    pub ident : IdentFits s c.ident_timeout
    pub idle : IdleFits s c.idle_timeout
    pub write : WriteFits s c.write_timeout
    pub pid : TextFits c.pid_file
    pub msg : TextFits c.welcome_msg
    pub hand : HandFits s b
    pub list : All BouncerFits c.bouncers

-- What `promptInput` keeps of a line.
strip_trailing-line :
    (line : Bytes) → All IsPrinted line → strip_trailing (line ++ (b'\n' ∷ [])) ≡ line
unfolding strip_trailing
strip_trailing-line [] h = refl
strip_trailing-line (c ∷ line) h =
    ap (keep c) (strip_trailing-line line h.1) ∙ keep_printed c line h.0
  where
    keep_printed : (c : ℕ) (line : Bytes) → IsPrinted c → keep c line ≡ c ∷ line
    keep_printed c [] h = ground arith
    keep_printed c (d ∷ line) h = refl

pub prompt_input-line :
    (line default : Bytes) (input : Option Bytes)
    → All IsPrinted line
    → All IsPrinted default
    → default ≢ []
    → input ≡ some (line ++ (b'\n' ∷ []))
    → TextFits (some (prompt_input input (some default)))
unfolding prompt_input
prompt_input-line line default input h d ne e =
    rw (e, strip_trailing-line line h) (with_line line h)
  where
    with_line :
        (line : Bytes) → All IsPrinted line → TextFits (some (with_default line (some default)))
    with_line [] h = (ne, d)
    with_line (c ∷ line) h = ((λ e. cc), h)

pub prompt_input-IsPrinted :
    (line : Bytes) (input : Option Bytes)
    → All IsPrinted line
    → input ≡ some (line ++ (b'\n' ∷ []))
    → All IsPrinted (prompt_input input none)
unfolding prompt_input
prompt_input-IsPrinted line input h e = rw (e, strip_trailing-line line h) (with_line line h)
  where
    with_line : (line : Bytes) → All IsPrinted line → All IsPrinted (with_default line none)
    with_line [] h = tt
    with_line (c ∷ line) h = h

-- A number that is read is an int.
abbrev pub IntFits : Option ℤ → Type 0
IntFits none = Unit
IntFits (some t) = is_negative t ≡ false → TimeoutFits t

signed32-Fits : (w : ℕ) → is_negative (signed32 w) ≡ false → TimeoutFits (signed32 w)
signed32-Fits w h = elim (Bool-cases (ltb w (2 ^ 31))) [
  | inl small ↦ rw small (record { seconds = w; is = refl; seconds_lt = ltb→lt w (2 ^ 31) small })
  | inr large ↦ absurd (ground arith)
]

int_of_long-Fits : (v : ℤ) → is_negative (int_of_long v) ≡ false → TimeoutFits (int_of_long v)
unfolding int_of_long
int_of_long-Fits (pos n) h = signed32-Fits _ h
int_of_long-Fits (negsuc n) h = signed32-Fits _ h

pub str_to_int-Fits : (s : Bytes) → IntFits (str_to_int s)
unfolding str_to_int
str_to_int-Fits s = elim (Bool-cases (str_to_long s).1) [
  | inl number ↦ rw number (int_of_long-Fits (str_to_long s).0)
  | inr other ↦ rw other tt
]
