-- ===== src/Server/Loaded.antt =====
-- Proofs on server.c with a configuration that config.c has loaded.
use ebbnc.Common.{ℕ, Bool, ◌≡◌, subst, List, [], ◌∷◌, Bytes, All}
use ebbnc.Config.{Config, Bouncer}
use ebbnc.Config.Load.{loaded, Resolver, config_load_buffer}
use ebbnc.Config.LoadSound.{IsServable, IsSound, Sound, config_load_buffer-Sound}
use ebbnc.Config.RoundTrip.{turned}
use ebbnc.System.Wp.{Wp}
use ebbnc.System.Descriptors.{descriptors}
use ebbnc.Address.{Inet}
use ebbnc.Server.{server_listen_all}
use ebbnc.Server.Descriptors.{HasListenIp, ListensAll, server_listen_all-ListensAll}

IsServable-HasListenIp :
    (r : Resolver) (bs : List Bouncer) → All (IsServable r) bs → All HasListenIp bs
IsServable-HasListenIp r [] h = tt
IsServable-HasListenIp r (b ∷ bs) (s, h) = ((s.ip, s.listen_ip), IsServable-HasListenIp r bs h)

-- With a configuration that `Config_loadBuffer` returned for some text, and where `socket` gives
-- a descriptor that is not open, `Server_listenAll` reads no null pointer and uses open
-- descriptors only, whatever else the system answers; either it refuses and has closed every
-- socket that it opened, or its list has one server with an open socket for each bouncer, in the
-- opposite order.
pub config_load_buffer-ListensAll :
    (alloc : ℕ → Bool) (r : Resolver) (net : Inet) (text : Bytes) (config : Config) (s : List ℕ)
    → config_load_buffer alloc r text ≡ loaded config
    → Wp descriptors (server_listen_all net config) (ListensAll (turned config.bouncers []) s) s
config_load_buffer-ListensAll alloc r net text config s e =
    let sound : IsSound r config = subst (Sound r) e (config_load_buffer-Sound alloc r text) in
    server_listen_all-ListensAll net config s
      (IsServable-HasListenIp r config.bouncers sound.servable)
