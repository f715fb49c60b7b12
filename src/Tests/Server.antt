-- ===== src/Tests/Server.antt =====
-- The servers, the start of the program and its addresses.
use ebbnc.Common.{◌≡◌, refl, arith, none, some, ◌==◌, ◌++◌, [], ◌∷◌, pos, codes, int_of_long}
use ebbnc.Config.RoundTrip.{turned}
use ebbnc.Config.LoadSound.{IsServable}
use ebbnc.System.{Sockaddr, ◌>>=◌}
use ebbnc.System.Wp.{Wp}
use ebbnc.System.Descriptors.{descriptors}
use ebbnc.Misc.{is_valid_port}
use ebbnc.Address.{ip_is_valid, ip_port_to_sockaddr, port_from_sockaddr}
use ebbnc.Address.Port.{port_from_sockaddr-ip_port_to_sockaddr}
use ebbnc.Server.{Server, accept_each, server_listen_all, server_loop}
use ebbnc.Server.Descriptors.{ListensAll, server_listen_all-ListensAll}
use ebbnc.Server.Loop.{granting, server_loop_keeps}
use ebbnc.Process.{running, pid_text, create_pid_file, is_already_running}
use ebbnc.Process.PidFile.{pid_file, create_pid_file-is_already_running}
use ebbnc.Start.{start_with}
use ebbnc.Start.Once.{calls, Refuses, start_with-exits}
use ebbnc.Server.Threads.{threads, ready_bouncers, accept_each-ready_bouncers}
use ebbnc.Tests.Inputs.{loopback, client_addr, sample_bouncer, sample_config, anything}

server_listen_all-ListensAll_example :
    Wp descriptors
      (server_listen_all loopback sample_config)
      (ListensAll (turned (sample_bouncer ∷ []) []) (0 ∷ 1 ∷ 2 ∷ []))
      (0 ∷ 1 ∷ 2 ∷ [])
server_listen_all-ListensAll_example =
    server_listen_all-ListensAll loopback sample_config (0 ∷ 1 ∷ 2 ∷ [])
      ((codes "0.0.0.0", refl), tt)

abbrev one_server : Server
one_server = record {
  sock = 3;
  addr = client_addr;
  config = sample_config;
  bouncer = sample_bouncer;
}

server_loop_keeps_example :
    Wp granting (server_loop 7 (one_server ∷ [])) (λ u t. t ≡ 3 ∷ []) (3 ∷ [])
server_loop_keeps_example = server_loop_keeps 7 (one_server ∷ []) (3 ∷ []) (refl, tt)

accept_each-ready_bouncers_example :
    Wp threads
      (accept_each (λ fd. fd == 3) (one_server ∷ []))
      (λ u t. t ≡ [] ++ ready_bouncers (λ fd. fd == 3) (one_server ∷ []))
      []
accept_each-ready_bouncers_example = accept_each-ready_bouncers (λ fd. fd == 3) (one_server ∷ []) []

create_pid_file-is_already_running_example :
    Wp
      (pid_file (codes "ebbnc.pid") (pos 4321))
      (create_pid_file (codes "ebbnc.pid") (pos 4321) >>= λ okay.
        is_already_running (codes "ebbnc.pid"))
      (λ r s. (r ≡ running) × (s ≡ some (pid_text (pos 4321))))
      none
create_pid_file-is_already_running_example =
    create_pid_file-is_already_running (codes "ebbnc.pid") 4321 (omega arith)

start_with-exits_example :
    Wp
      (calls (codes "ebbnc.pid") (pid_text (pos 4321)) (pos 4321))
      (start_with loopback 9 sample_config)
      (Refuses (codes "ebbnc.pid") (pos 4321))
      []
start_with-exits_example =
    start_with-exits loopback 9 sample_config (codes "ebbnc.pid") 4321 refl (omega arith)

port_from_sockaddr-ip_port_to_sockaddr_example :
    (addr : Sockaddr) × (ip_port_to_sockaddr loopback (codes "127.0.0.1") (pos 2121) ≡ some addr)
    × (port_from_sockaddr addr ≡ pos 2121)
unfolding ip_is_valid ip_port_to_sockaddr is_valid_port
port_from_sockaddr-ip_port_to_sockaddr_example =
    port_from_sockaddr-ip_port_to_sockaddr loopback (codes "127.0.0.1") (pos 2121) refl refl

servable : IsServable anything sample_bouncer
unfolding is_valid_port int_of_long
servable = record {
  ip = codes "0.0.0.0";
  host = codes "127.0.0.1";
  local = codes "0.0.0.0";
  listen_ip = refl;
  ip_valid = refl;
  listen_port = refl;
  remote_host = refl;
  host_valid = refl;
  remote_port = refl;
  local_ip = refl;
  local_valid = refl;
}
