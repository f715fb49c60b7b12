-- ===== src/Tests/Memory.antt =====
-- What is freed: a list of two bouncers, a list of two servers, and the end of `main`.
use ebbnc.Common.{
  leb, ◌+◌, codes, pos, ℕ, true, ◌≡◌, refl, none, some, [], ◌∷◌, ◌++◌, arith, ◌==◌, if◌then◌else◌,
}
use ebbnc.System
use ebbnc.System.{Io, ret, inet}
use ebbnc.Config.{Config, config_new}
use ebbnc.Memory.{
  Ptr, null, BouncerBlock, ConfigBlock, ServerBlock, text, bouncer_at, config_at, server_at, Heap,
  ok, fault, load, load_as,
}
use ebbnc.Memory.Release.{less}
use ebbnc.Memory.Chain.{Cells, nil, cons, owned}
use ebbnc.Memory.Ends.{addresses}
use ebbnc.Config.Free.{bouncer_free, bouncer_free_list}
use ebbnc.Config.Free.Frees.{bouncer_owning, bouncer_free_list_lem, config_parts}
use ebbnc.Server.{Server, server_free_list}
use ebbnc.Server.Free.{free_server_list}
use ebbnc.Server.Free.Frees.{free_server_list-server_free_list}
use ebbnc.System.Same.{Same}
use ebbnc.Server.{server_listen_all}
use ebbnc.Server.Listen.{listen_all_at}
use ebbnc.Server.Listen.Built.{AreFresh, Kept}
use ebbnc.Server.Listen.All.{listen_all_at-server_listen_all}
use ebbnc.Start.Free.{clean_up, clean_up-eq}
use ebbnc.Tests.Inputs.{loopback, client_addr, sample_bouncer}

abbrev bouncer_block : Ptr → Ptr → Ptr → Ptr → BouncerBlock
bouncer_block listen_ip remote_host local_ip next = record {
  listen_ip = listen_ip;
  listen_port = pos 12345;
  remote_host = remote_host;
  remote_port = pos 1337;
  local_ip = local_ip;
  next = next;
}

abbrev server_block : ℕ → Ptr → ServerBlock
server_block sock next = record {
  sock = pos sock;
  addr = client_addr;
  config = 20;
  bouncer = 1;
  next = next;
}

abbrev config_block : ConfigBlock
config_block = record {
  bouncers = 1;
  idnt = true;
  ident_timeout = pos 10;
  idle_timeout = pos 0;
  write_timeout = pos 30;
  dns_lookup = true;
  pid_file = 21;
  welcome_msg = null;
}

-- Two bouncers at 1 and 5 with their strings, two servers at 11 and 12, the configuration at 20.
abbrev heap : Heap
heap p =
    if p == 1
    then some (bouncer_at (bouncer_block 2 3 4 5))
    else if p == 5
    then some (bouncer_at (bouncer_block 6 7 8 null))
    else if p == 11
    then some (server_at (server_block 3 12))
    else if p == 12
    then some (server_at (server_block 4 null))
    else if p == 20
    then some (config_at config_block)
    else if p == 21
    then some (text (codes "ebbnc.pid"))
    else if p == 0
    then none
    else if leb p 8
    then some (text (codes "0.0.0.0"))
    else none

abbrev bouncer_cells : Cells BouncerBlock
bouncer_cells = (1, bouncer_block 2 3 4 5) ∷ (5, bouncer_block 6 7 8 null) ∷ []

abbrev server_cells : Cells ServerBlock
server_cells = (11, server_block 3 12) ∷ (12, server_block 4 null) ∷ []

abbrev listed : ℕ → Server
listed sock = record {
  sock = sock;
  addr = client_addr;
  config = config_new;
  bouncer = sample_bouncer;
}

bouncer_free_list_lem_example :
    bouncer_free_list 2 1 heap ≡ ret (ok null (less (owned bouncer_owning bouncer_cells) heap))
bouncer_free_list_lem_example =
    bouncer_free_list_lem 2 heap 1 bouncer_cells (cons refl refl (cons refl refl nil))
      (
        refl,
        (_, refl),
        refl,
        (
          refl,
          (_, refl),
          refl,
          (
            refl,
            (_, refl),
            refl,
            (refl, (_, refl), refl, (refl, (_, refl), refl, (refl, (_, refl), refl, tt))),
          ),
        ),
      )
      (omega arith)

free_server_list-server_free_list_example :
    free_server_list 2 11 heap
    ≡ System.◌>>=◌
        (server_free_list (listed 3 ∷ listed 4 ∷ []))
        (λ u. ret (ok null (less (addresses server_cells) heap)))
free_server_list-server_free_list_example =
    free_server_list-server_free_list 2 heap 11 server_cells (listed 3 ∷ listed 4 ∷ [])
      (cons refl refl (cons refl refl nil)) (refl, refl, (refl, refl, tt)) (omega arith)

clean_up-eq_example :
    clean_up 2 11 20 heap
    ≡ System.◌>>=◌ (server_free_list (listed 3 ∷ listed 4 ∷ [])) (λ u.
      ret (ok (null, null) (less (addresses server_cells ++ config_parts 20 config_block) heap)))
clean_up-eq_example =
    clean_up-eq 2 heap 11 server_cells (listed 3 ∷ listed 4 ∷ []) 20 config_block
      (cons refl refl (cons refl refl nil)) (refl, refl, (refl, refl, tt)) (omega arith) refl refl
      (
        refl,
        (_, refl),
        refl,
        (refl, (_, refl), refl, (refl, (_, refl), refl, (refl, (_, refl), refl, tt))),
      )

-- A second call on the same list reads a block that is freed.
use_after_free : bouncer_free 5 (less (owned bouncer_owning bouncer_cells) heap) ≡ ret fault
unfolding bouncer_free load_as load
use_after_free = refl

-- The addresses behind those.
abbrev fresh : ℕ → Ptr
fresh k = 100 + k

fresh-AreFresh : AreFresh heap fresh
fresh-AreFresh = record {
  real = λ k. ground arith;
  unused = λ k. ground arith;
  apart = λ j k h. ground arith;
}

abbrev two_bouncers : Config
two_bouncers = record config_new { bouncers = sample_bouncer ∷ sample_bouncer ∷ [] }

listen_all_at-server_listen_all_example :
    Same
      (Kept two_bouncers 20 ((5, sample_bouncer) ∷ (1, sample_bouncer) ∷ []) heap)
      (listen_all_at loopback fresh 20 3 1 heap)
      (server_listen_all loopback two_bouncers)
listen_all_at-server_listen_all_example =
    listen_all_at-server_listen_all loopback fresh two_bouncers 20 heap 3 1 bouncer_cells
      fresh-AreFresh (cons refl refl (cons refl refl nil))
      ((refl, refl, (refl, refl), refl), ((refl, refl, (refl, refl), refl), tt)) (omega arith)
