-- ===== src/Ident/Accepts.antt =====
-- Proofs on the replies that `identLookup` of ident.c accepts.
use ebbnc.Common.{
  ℕ, ◌^◌, ◌≤◌, ◌<◌, ◌≡◌, ◌≢◌, refl, ap, arith, true, false, some, [], ◌∷◌, ◌++◌, length, ◌==◌,
  Bytes, All, ℤ, pos, codes, same_int, same_int_iff,
}
use ebbnc.Libc.{digit_value, isspace, skip_spaces, print_int}
use ebbnc.Libc.Numbers.{IsBreak}
use ebbnc.Libc.Scan.{scan_char, scan_text, scan_until, scan_word, some_word}
use ebbnc.Libc.Stream.{
  scan_int-print_int, skip_spaces-print_int, skip_until-append, take_word-append,
}
use ebbnc.Ident.{scan_reply, accept_reply}

-- What a server that knows the user says: the ports, the system and the name.
abbrev pub user_reply : ℕ → ℕ → Bytes → Bytes → Bytes
user_reply remote local system user =
    print_int (pos remote)
    ++ (codes ", "
        ++ (print_int (pos local)
            ++ (codes " : USERID :" ++ (system ++ (b':' ∷ (user ++ (b'\r' ∷ b'\n' ∷ [])))))))

-- A name that fits the array and holds no white space.
abbrev pub IsName : Bytes → Type 0
IsName user = (user ≢ []) × (length user ≤ 255) × All (λ c. isspace c ≡ false) user

comma_IsBreak : (s : Bytes) → IsBreak (b',' ∷ s)
unfolding digit_value
comma_IsBreak s = refl

space_IsBreak : (s : Bytes) → IsBreak (32 ∷ s)
unfolding digit_value
space_IsBreak s = refl

differ : (c d : ℕ) → c ≢ d → (c == d) ≡ false
differ c d h = ground arith

scan_user :
    (user : Bytes)
    → IsName user
    → skip_spaces (user ++ (b'\r' ∷ b'\n' ∷ [])) ≡ user ++ (b'\r' ∷ b'\n' ∷ [])
unfolding skip_spaces
scan_user [] h = absurd (h.0 refl)
scan_user (c ∷ user) (some_char, short, solid) = rw solid.0 refl

scan_word-append :
    (user : Bytes) → IsName user → scan_word 255 (user ++ (b'\r' ∷ b'\n' ∷ [])) ≡ some user
unfolding scan_word
scan_word-append [] h = absurd (h.0 refl)
scan_word-append (c ∷ user) h =
    rw (scan_user (c ∷ user) h)
      (ap some_word (take_word-append 255 b'\r' (c ∷ user) (b'\n' ∷ []) h.2 h.1 refl))

-- The text behind the second port.
abbrev behind : Bytes → Bytes → Bytes
behind system user = codes " : USERID :" ++ (system ++ (b':' ∷ (user ++ (b'\r' ∷ b'\n' ∷ []))))

scan_reply-user_reply :
    (remote local : ℕ) (x : ℕ) (system user : Bytes)
    → remote < 2 ^ 31
    → local < 2 ^ 31
    → All (λ c. c ≢ b':') (x ∷ system)
    → IsName user
    → scan_reply (user_reply remote local (x ∷ system) user) ≡ some (pos remote, pos local, user)
unfolding scan_reply skip_spaces scan_char scan_text scan_until
scan_reply-user_reply remote local x system user hr hl plain name =
    let other : (x == b':') ≡ false = differ x b':' plain.0 in
    let line : Bytes = user ++ (b'\r' ∷ b'\n' ∷ []) in
    rw
      (scan_int-print_int remote (codes ", " ++ (print_int (pos local) ++ behind (x ∷ system) user))
        hr (comma_IsBreak (32 ∷ (print_int (pos local) ++ behind (x ∷ system) user))))
      (rw (skip_spaces-print_int local (behind (x ∷ system) user)) (
        rw
          (scan_int-print_int local (behind (x ∷ system) user) hl
            (space_IsBreak (codes ": USERID :" ++ ((x ∷ system) ++ (b':' ∷ line)))))
          (rw (other, skip_until-append b':' system line plain.1, scan_word-append user name)
            refl)))

same_int_refl : (i : ℤ) → same_int i i ≡ true
same_int_refl i = (same_int_iff i i).1 refl

-- A server's reply with the two ports that were asked for, a system without a colon and a name of
-- at most 255 characters without white space gives that name.
pub accept_reply-user_reply :
    (remote local : ℕ) (x : ℕ) (system user : Bytes)
    → remote < 2 ^ 31
    → local < 2 ^ 31
    → All (λ c. c ≢ b':') (x ∷ system)
    → IsName user
    → accept_reply (pos remote) (pos local) (scan_reply (user_reply remote local (x ∷ system) user))
      ≡ some user
unfolding accept_reply
accept_reply-user_reply remote local x system user hr hl plain name =
    rw (scan_reply-user_reply remote local x system user hr hl plain name)
      (rw (same_int_refl (pos local), same_int_refl (pos remote)) refl)
