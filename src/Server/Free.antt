-- ===== src/Server/Free.antt =====
-- server.c: `Server_free` and `Server_freeList` on the memory, where a list of servers is made of
-- records with pointers to the next one. `server_free_list` is the same function on a list.
pub mod Frees
use ebbnc.Common.{ℕ, ◌≡◌, refl, Option, none, some, ◌==◌, if◌then◌else◌, ℤ, pos, negsuc}
use ebbnc.System.{Io, ret, perform, close}
use ebbnc.Memory.{
  Ptr, null, Block, server_at, ServerBlock, Cmd, pure, ◌>>=◌, lift, load_as, free, free_list,
  Linked,
}

abbrev pub server? : Block → Option ServerBlock
server? (server_at s) = some s
server? _ = none

abbrev pub servers : Linked ServerBlock
servers = record {
  block = server_at;
  node? = server?;
  next = λ s. s.next;
  relink = λ p s. record s { next = p };
  node?-block = λ s. refl;
  next-relink = λ p s. refl;
  relink-next = λ s. refl;
  relink-relink = λ p q s. refl;
}

-- `if (server->sock >= 0) { close(server->sock); }`.
abbrev pub close_sock : ℤ → Io (Unit {0})
close_sock (pos sock) = perform (close sock)
close_sock (negsuc n) = ret tt

unfoldable pub free_server : Ptr → Cmd Ptr
free_server p =
    if p == null
    then pure p
    else do s ← load_as server? p; _ ← lift (close_sock s.sock); _ ← free p; pure null

-- `fuel` turns of the loop and one more.
unfoldable pub free_server_list : ℕ → Ptr → Cmd Ptr
unfolding free_server
free_server_list fuel = free_list servers free_server fuel
