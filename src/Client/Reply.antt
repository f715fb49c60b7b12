-- ===== src/Client/Reply.antt =====
-- The record of a client, and the replies of client.c to it.
use ebbnc.Common.{ℕ, Option, none, some, [], ◌∷◌, ◌++◌, Bytes, codes}
use ebbnc.Config.{Config, Bouncer}
use ebbnc.System.{Io, ret, ◌>>=◌, perform, Sockaddr, Errno, write, strerror}
use ebbnc.Misc.Format.{str_printf}

-- A descriptor of -1 is `none`.
pub record Client : Type 0 where
  pub c_sock : ℕ
  pub c_addr : Sockaddr
  pub r_sock : Option ℕ
  pub config : Config
  pub bouncer : Bouncer

-- `Client_new` with the fields that `Client_launch` sets.
abbrev pub new_client : ℕ → Sockaddr → Config → Bouncer → Client
new_client sock addr config bouncer = record {
  c_sock = sock;
  c_addr = addr;
  r_sock = none;
  config = config;
  bouncer = bouncer;
}

-- "421 %s\r\n".
unfoldable pub reply_text : Bytes → Bytes
reply_text msg = codes "421 " ++ (msg ++ (b'\r' ∷ b'\n' ∷ []))

unfoldable pub put_reply : ℕ → Option Bytes → Io Unit
put_reply c_sock none = ret tt
put_reply c_sock (some text) = perform (write c_sock text) >>= λ n. ret tt

unfoldable pub error_reply : ℕ → Bytes → Io Unit
unfolding str_printf put_reply
error_reply c_sock msg = str_printf (reply_text msg) >>= put_reply c_sock

unfoldable pub put_error : ℕ → Option Bytes → Io Unit
unfolding error_reply
put_error c_sock none = ret tt
put_error c_sock (some text) = error_reply c_sock text

unfoldable pub errno_reply : ℕ → Bytes → Errno → Io Unit
unfolding str_printf put_error
errno_reply c_sock func errno = perform (strerror errno) >>= λ message.
    str_printf (func ++ (codes ": " ++ message)) >>= put_error c_sock
