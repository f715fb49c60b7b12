-- ===== src/Ident/Names.antt =====
-- Proofs on the names that `identLookup` of ident.c returns.
use ebbnc.Common.{
  refl, ℕ, zero, suc, ◌≤◌, ◌≡◌, arith, Bool, true, false, ◌&&◌, Bool-cases, inl, inr, Option, none,
  some, ◌>>=◌, [], ◌∷◌, length, Bytes, All, ℤ, codes, same_int, if◌then◌else◌,
}
use ebbnc.Libc.{isspace, skip_spaces}
use ebbnc.Libc.Scan.{scan_int, scan_char, scan_text, scan_until, take_word, scan_word, some_word}
use ebbnc.System.{Io, Result, ok, err, Sockaddr}
use ebbnc.System.Wp.{Wp, Wp-if}
use ebbnc.System.Channel.{Channel, channel}
use ebbnc.Address.{port_from_sockaddr, set_read_timeout, set_write_timeout}
use ebbnc.Ident.{scan_reply, accept_reply, converse, ask_server, is_internet, ident_lookup}
use ebbnc.Ident.Accepts.{IsName}

-- A name, if there is one.
abbrev pub IfName : Option Bytes → Type 0
IfName none = Unit
IfName (some user) = IsName user

abbrev pub Third : Option (ℤ × ℤ × Bytes) → Type 0
Third none = Unit
Third (some (remote, local, user)) = IsName user

bind-Third :
    {A : Type 0} (o : Option A) (f : A → Option (ℤ × ℤ × Bytes))
    → ((a : A) → Third (f a))
    → Third (o >>= f)
bind-Third none f h = tt
bind-Third (some a) f h = h a

IsWord : ℕ → Bytes → Type 0
IsWord width s = (length s ≤ width) × All (λ c. isspace c ≡ false) s

take_word-IsWord : (width : ℕ) (s : Bytes) → IsWord width (take_word width s)
unfolding take_word IsWord
take_word-IsWord zero s = (omega arith, tt)
take_word-IsWord (suc width) [] = (omega arith, tt)
take_word-IsWord (suc width) (c ∷ s) = elim (Bool-cases (isspace c)) [
  | inl space ↦ rw space (omega arith, tt)
  | inr solid ↦ let h = take_word-IsWord width s in rw solid (omega (arith, h.0), (solid, h.1))
]

some_word-Third :
    (remote local : ℤ) (word : Bytes)
    → IsWord 255 word
    → Third (some_word word >>= λ user. some (remote, local, user))
unfolding IsWord
some_word-Third remote local [] h = tt
some_word-Third remote local (c ∷ word) h = (λ e. ground arith, h.0, h.1)

pub scan_reply-Third : (s : Bytes) → Third (scan_reply s)
unfolding scan_reply scan_word
scan_reply-Third s = bind-Third (scan_int s) _ (λ a. bind-Third (scan_char b',' a.1) _ (λ s2.
    bind-Third (scan_int (skip_spaces s2)) _ (λ b.
      bind-Third (scan_char b':' (skip_spaces b.1)) _ (λ s4.
        bind-Third (scan_text (codes "USERID") (skip_spaces s4)) _ (λ s5.
          bind-Third (scan_char b':' (skip_spaces s5)) _ (λ s6.
            bind-Third (scan_until b':' s6) _ (λ s7. bind-Third (scan_char b':' s7) _ (λ s8.
              some_word-Third a.0 b.0 (take_word 255 (skip_spaces s8))
                (take_word-IsWord 255 (skip_spaces s8))))))))))

if-IfName : (b : Bool) (user : Bytes) → IsName user → IfName (if b then some user else none)
if-IfName true user h = h
if-IfName false user h = tt

accept_reply-IfName :
    (remote local : ℤ) (o : Option (ℤ × ℤ × Bytes)) → Third o → IfName (accept_reply remote local o)
unfolding accept_reply
accept_reply-IfName remote local none h = tt
accept_reply-IfName remote local (some (r, l, user)) h =
    if-IfName (same_int l local && same_int r remote) user h

module _ (from to : ℕ) (whole : Bool) (s : Channel) where
  -- A name, if any, and nothing read or written on the way between the two descriptors.
  abbrev pub Names : Io (Option Bytes) → Type 0
  Names m = Wp (channel from to whole) m (λ o t. IfName o × (t ≡ s)) s

  converse-Names : (sock : ℕ) (remote local : ℤ) → Names (converse sock remote local)
  unfolding converse
  converse-Names sock remote local = (
    tt,
    elim [
      | false ↦ λ l. (tt, λ u l2. (tt, refl))
      | true ↦ λ l. (
        tt,
        elim [
          | false ↦ λ l2. (tt, λ u l3. (tt, refl))
          | true ↦ λ l2. (
            tt,
            λ text l3. (
              tt,
              λ u l4. (
                accept_reply-IfName remote local (scan_reply text) (scan_reply-Third text),
                refl,
              ),
            ),
          )
        ],
      )
    ],
  )

  ask_server-Names :
      (peer local : Sockaddr) (timeout : ℤ) (made : Result ℕ)
      → Names (ask_server peer local timeout made)
  unfolding ask_server set_read_timeout set_write_timeout
  ask_server-Names peer local timeout (err errno) = (tt, refl)
  ask_server-Names peer local timeout (ok sock) = (
    tt,
    λ u l. (
      tt,
      λ u2 l2. (
        tt,
        elim [
          | ok u3 ↦ λ l3. converse-Names sock (port_from_sockaddr peer) (port_from_sockaddr local)
          | err errno ↦ λ l3. (tt, λ u3 l4. (tt, refl))
        ],
      ),
    ),
  )

  -- Whatever the ident server sends and the system answers, the name that `identLookup` returns, if
  -- it returns one, is not empty, fits its array of 256 characters with a zero, and holds no white
  -- space, so no line break; and no `read` takes from the one and no `write` adds to the other of any
  -- two descriptors.
  pub ident_lookup-Names : (sock : ℕ) (timeout : ℤ) → Names (ident_lookup sock timeout)
  unfolding ident_lookup
  ident_lookup-Names sock timeout = (
    tt,
    elim [
      | err errno ↦ λ l. (tt, refl)
      | ok peer ↦ λ l. (
        tt,
        elim [
          | err errno ↦ λ l2. (tt, refl)
          | ok local ↦ λ l2.
              Wp-if (channel from to whole) (is_internet peer.family) _ _
                (λ o t. IfName o × (t ≡ s)) s
                (tt, λ made l3. ask_server-Names peer local timeout made) (tt, refl)
        ],
      )
    ],
  )
