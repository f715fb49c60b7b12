-- ===== src/Client/Replies.antt =====
-- Proofs on the replies of client.c, for any monitor whose state their calls leave as it is.
use ebbnc.Common.{
  ℕ, ◌≡◌, refl, sym, subst, ◌+◌, true, false, Option, none, some, ◌++◌, if◌then◌else◌, length,
  Bytes, codes,
}
use ebbnc.System.{Call, Reply, Io, ret, call, ◌>>=◌, Errno}
use ebbnc.System.Wp.{Monitor, Wp, Wp-stays}
use ebbnc.Misc.Format.{str_printf}
use ebbnc.Client.{reply_text, put_reply, put_error, error_reply, errno_reply}

module _ {S : Type 0} (M : Monitor S) (s : S) where
  abbrev pub Stays : {A : Type 0} → Io A → Type 0
  Stays m = Wp M m (λ a t. t ≡ s) s

  -- A call that is allowed and leaves the state as it is.
  abbrev pub Calm : Call → Type 0
  Calm c = M.Allowed c s × ((r : Reply c) → M.Legal c r s → M.after c r s ≡ s)

  Calm-Stays :
      {A : Type 0} (c : Call) (k : Reply c → Io A)
      → Calm c
      → ((r : Reply c) → Stays (k r))
      → Stays (call c k)
  Calm-Stays c k calm h =
      (calm.0, λ r l. subst (λ t. Wp M (k r) (λ a u. u ≡ s) t) (sym (calm.1 r l)) (h r))

  -- The calls that a reply to the client makes.
  pub record Replies (c : ℕ) : Type 0 where
    pub memory : (n : ℕ) → Calm (Call.calloc n)
    pub message : (errno : Errno) → Calm (Call.strerror errno)
    pub line : (bytes : Bytes) → Calm (Call.write c bytes)

  module _ (c : ℕ) (replies : Replies c) where
    str_printf-Stays :
        (text : Bytes) (f : Option Bytes → Io (Unit {0}))
        → Stays (f none)
        → Stays (f (some text))
        → Stays (str_printf text >>= f)
    unfolding str_printf
    str_printf-Stays text f h k =
        Calm-Stays (Call.calloc (length text + 1)) (λ okay. f (if okay then some text else none))
          (replies.memory (length text + 1)) (elim [ true ↦ k | false ↦ h ])

    error_reply-Stays : (msg : Bytes) → Stays (error_reply c msg)
    unfolding error_reply put_reply
    error_reply-Stays msg = str_printf-Stays (reply_text msg) (put_reply c) refl (
        Calm-Stays (Call.write c (reply_text msg)) (λ n. ret tt) (replies.line (reply_text msg))
          (λ n. refl))

    errno_reply-Stays : (func : Bytes) (errno : Errno) → Stays (errno_reply c func errno)
    unfolding errno_reply put_error
    errno_reply-Stays func errno =
        Calm-Stays (Call.strerror errno)
          (λ message. str_printf (func ++ (codes ": " ++ message)) >>= put_error c)
          (replies.message errno)
          (λ message.
            str_printf-Stays (func ++ (codes ": " ++ message)) (put_error c) refl
              (error_reply-Stays (func ++ (codes ": " ++ message))))

    -- A reply, and what holds of the state behind it.
    module _ {A : Type 0} (a : A) (Q : A → S → Type 0) (q : Q a s) where
      pub reply-Wp : (msg : Bytes) → Wp M (error_reply c msg >>= λ u. ret a) Q s
      reply-Wp msg =
          Wp-stays M (error_reply c msg) (λ u. ret a) Q s (error_reply-Stays msg) (λ u. q)

      pub errno-Wp :
          (func : Bytes) (errno : Errno) → Wp M (errno_reply c func errno >>= λ u. ret a) Q s
      errno-Wp func errno =
          Wp-stays M (errno_reply c func errno) (λ u. ret a) Q s (errno_reply-Stays func errno)
            (λ u. q)
