-- ===== src/System.antt =====
-- Programs that call the system: what client.c, server.c, ident.c, main.c and misc.c ask of it. A
-- program is the tree of its calls, with a branch for each answer.
pub mod Wp
pub mod Descriptors
pub mod Keeps
pub mod Channel
pub mod Same
use ebbnc.Config.{Config, Bouncer}
use ebbnc.Common.{ℕ, Bool, Option, List, ◌∷◌, Bytes, ℤ}

-- The value of `errno`: EAGAIN, which EWOULDBLOCK equals, ENOENT, ESRCH, or another.
pub data Errno : Type 0 where
  eagain enoent esrch : Errno
  other : ℕ → Errno

-- The result of a call that may return -1 and set `errno`.
pub data Result (A : Type 0) : Type 0 where
  ok : A → Result A
  err : Errno → Result A

-- AF_INET, AF_INET6, or another family.
pub data Family : Type 0 where
  inet inet6 : Family
  unspec : ℕ → Family

-- `struct sockaddr_any`: the family, and of an Internet address its bytes and its port, the latter
-- as the number that `ntohs` makes of the field.
pub record Sockaddr : Type 0 where
  pub family : Family
  pub address : Bytes
  pub port : ℕ

-- What `poll` says of two descriptors: the time is over, an error, or for each whether POLLIN is set.
pub data Polled : Type 0 where
  expired : Polled
  failing : Errno → Polled
  ready : Bool → Bool → Polled

-- What `getaddrinfo` finds: the first address, EAI_SYSTEM with `errno`, or the message
-- that `gai_strerror` has for another error.
pub data Lookup : Type 0 where
  found : Sockaddr → Lookup
  system_error : Errno → Lookup
  lookup_error : Bytes → Lookup

-- The options that `setsockopt` sets; the timeouts are in seconds.
pub data SockOption : Type 0 where
  nodelay reuseaddr : SockOption
  sndtimeo rcvtimeo : ℤ → SockOption

pub data Call : Type 0 where
  calloc : ℕ → Call
  socket : Family → Call
  close listen accept getsockname getpeername : ℕ → Call
  setsockopt : ℕ → SockOption → Call
  bind connect : ℕ → Sockaddr → ℕ → Call
  select : List ℕ → Call
  usleep : ℕ → Call
  poll : ℕ → ℕ → ℤ → Call
  read : ℕ → ℕ → Call
  write : ℕ → Bytes → Call
  strerror : Errno → Call
  getaddrinfo : Option Bytes → Bytes → Call
  getnameinfo : Sockaddr → Call
  -- A stream on a descriptor: `receive` is all that it gives up to its end or its timeout.
  fdopen receive fclose : ℕ → Call
  fprintf : ℕ → Bytes → Call
  -- Files by their names, with the whole of their text, and processes.
  read_file : Bytes → Call
  write_file : Bytes → Bytes → Call
  kill : ℤ → Call
  fork setsid sigaction : Call
  getpass : Call
  -- `pthread_create` of a client's thread, with the fields of its `Client`.
  create_thread : ℕ → Sockaddr → Config → Bouncer → Call

abbrev pub Reply : Call → Type 0
Reply (calloc n) = Bool
Reply (socket family) = Result ℕ
Reply (close fd) = Unit
Reply (listen fd) = Result (Unit {0})
Reply (accept fd) = Result (ℕ × Sockaddr)
Reply (getsockname fd) = Result Sockaddr
Reply (getpeername fd) = Result Sockaddr
Reply (setsockopt fd option) = Unit
Reply (bind fd addr len) = Result (Unit {0})
Reply (connect fd addr len) = Result (Unit {0})
Reply (select fds) = Result (ℕ → Bool)
Reply (usleep time) = Unit
Reply (poll a b timeout) = Polled
Reply (read fd size) = Result Bytes
Reply (write fd bytes) = Result ℕ
Reply (strerror errno) = Bytes
Reply (getaddrinfo host service) = Lookup
Reply (getnameinfo addr) = Option Bytes
Reply (fdopen fd) = Bool
Reply (receive fd) = Bytes
Reply (fclose fd) = Unit
Reply (fprintf fd bytes) = Bool
Reply (read_file path) = Result Bytes
Reply (write_file path bytes) = Bool
Reply (kill pid) = Result (Unit {0})
Reply fork = Result ℤ
Reply setsid = Unit
Reply sigaction = Bool
Reply getpass = Option Bytes
Reply (create_thread sock addr config bouncer) = Bool

pub data Io (A : Type 0) : Type 0 where
  ret : A → Io A
  call : (c : Call) → (Reply c → Io A) → Io A

infixl 5 ◌>>=◌
abbrev pub ◌>>=◌ : {A B : Type 0} → Io A → (A → Io B) → Io B
ret a >>= f = f a
call c k >>= f = call c (λ r. k r >>= f)

abbrev pub perform : (c : Call) → Io (Reply c)
perform c = call c ret

-- A run: `answer` replies to a call, given the calls before it with their replies, newest first.
abbrev pub Event : Type 0
Event = (c : Call) × Reply c

unfoldable pub run :
    {A : Type 0} → (List Event → (c : Call) → Reply c) → List Event → Io A → List Event × A
run answer past (ret a) = (past, a)
run answer past (call c k) = let r = answer past c in run answer ((c, r) ∷ past) (k r)
