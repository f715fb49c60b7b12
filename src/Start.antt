-- ===== src/Start.antt =====
-- `main` of main.c, in the build that reads a configuration file and in the one that has it embedded.
-- What it prints is left out.
pub mod Once
pub mod Free
use ebbnc.Common.{
  ℕ, Bool, true, false, Option, none, some, List, [], ◌∷◌, ◌++◌, ◌==◌, if◌then◌else◌, Bytes, ℤ, pos,
  same_int,
}
use ebbnc.Config.{Config}
use ebbnc.Xtea.{Endian}
use ebbnc.Embedded.Load.{load_embedded}
use ebbnc.Config.Load.{Loaded, fault, loaded, Resolver}
use ebbnc.Config.File.{LoadedFile, unopened, no_buffer, unread, parsed, config_load_file}
use ebbnc.System.{Io, ret, ◌>>=◌, perform, Result, ok, err, sigaction, getpass}
use ebbnc.Address.{Inet}
use ebbnc.Server.{
  Server, AllListening, all_fault, all_refused, all_listening, server_listen_all, server_free_list,
  server_loop,
}
use ebbnc.Process.{
  Running, unknown, not_running, running, is_already_running, create_pid_file, daemonise,
}

-- How the program ends: with a status, beyond a fault, or in the loop, as the daemon.
pub data Ending : Type 0 where
  exits : ℕ → Ending
  faults : Ending
  serves : List Server → Ending

-- A loaded configuration, or null.
abbrev pub config_of : LoadedFile → Option Config
config_of (parsed (loaded config)) = some config
config_of _ = none

module _ (net : Inet) (fuel : ℕ) (config : Config) where
  -- The parent of the daemon writes the file; a failure is only a warning.
  unfoldable pub leave : ℤ → Io Ending
  leave pid = elim config.pid_file [
    | none ↦ ret (exits 0)
    | some pid_file ↦ create_pid_file pid_file pid >>= λ okay. ret (exits 0)
  ]

  -- Behind `Server_listenAll`, with the list of the servers.
  unfoldable pub go_background : List Server → Io Ending
  unfolding leave
  go_background servers = daemonise >>= λ forked. elim forked [
    | err errno ↦ server_free_list servers >>= λ u. ret (exits 1)
    | ok pid ↦
        if same_int pid (pos 0)
        then (server_loop fuel servers >>= λ u. ret (serves servers))
        else leave pid
  ]

  unfoldable pub background : AllListening → Io Ending
  unfolding go_background
  background all_fault = ret faults
  background all_refused = ret (exits 1)
  background (all_listening []) = ret (exits 1)
  background (all_listening (server ∷ servers)) = go_background (server ∷ servers)

  unfoldable pub listen_and_go : Io Ending
  unfolding background
  listen_and_go = server_listen_all net config >>= background

  unfoldable pub unless_running : Running → Io Ending
  unfolding listen_and_go
  unless_running not_running = listen_and_go
  unless_running _ = ret (exits 1)

  -- Behind `Config_loadFile`: without the name of a file there is nothing to ask.
  unfoldable pub check_and_go : Option Bytes → Io Ending
  unfolding listen_and_go unless_running
  check_and_go none = listen_and_go
  check_and_go (some pid_file) = is_already_running pid_file >>= unless_running

  unfoldable pub start_with : Io Ending
  unfolding check_and_go
  start_with = check_and_go config.pid_file

module _ (net : Inet) (alloc : ℕ → Bool) (r : Resolver) (fuel : ℕ) where
  -- The result of `sigaction` is not looked at.
  unfoldable pub start : List Bytes → Io Ending
  unfolding start_with
  start (path ∷ []) = perform sigaction >>= λ okay. config_load_file alloc r path >>= λ file.
      elim (config_of file) [ none ↦ ret (exits 1) | some config ↦ start_with net fuel config ]
  start _ = ret (exits 1)

-- The configuration of the build that has it embedded, or null; `none` is a fault.
abbrev pub embedded_config : Loaded → Option (Option Config)
embedded_config (loaded config) = some (some config)
embedded_config fault = none
embedded_config _ = some none

module _ (net : Inet) (e : Endian) (alloc : ℕ → Bool) (r : Resolver) (conf : Bytes) (fuel : ℕ) where
  -- Behind `getpass`, which returns null without a terminal. The key is the array of the password
  -- and its zero.
  unfoldable pub start_with_password : Option Bytes → Io Ending
  unfolding start_with
  start_with_password none = ret faults
  start_with_password (some []) = ret (exits 1)
  start_with_password (some (c ∷ password)) = perform sigaction >>= λ okay.
      elim (embedded_config (load_embedded e alloc r conf ((c ∷ password) ++ (0 ∷ [])))) [
        | none ↦ ret faults
        | some none ↦ ret (exits 1)
        | some (some config) ↦ start_with net fuel config
      ]

  unfoldable pub start_embedded : List Bytes → Io Ending
  unfolding start_with_password
  start_embedded [] = perform getpass >>= start_with_password
  start_embedded _ = ret (exits 1)
