-- ===== src/Makeconf/Served.antt =====
-- From makeconf.c's dialogue to the sockets of the program that starts with what it saved.
use ebbnc.Common.{
  ℕ, ◌≡◌, refl, subst, ◌∙◌, append-nil, Bool, true, some, List, [], ◌∷◌, ◌++◌, map, Bytes, All,
}
use ebbnc.Libc.Tokens.{IsToken}
use ebbnc.Xtea.{Endian}
use ebbnc.Xtea.Block.{IsBlock}
use ebbnc.Config.{Config, Bouncer}
use ebbnc.Config.Load.{Resolver, loaded}
use ebbnc.Config.RoundTrip.{turned}
use ebbnc.Embedded.{Urandom}
use ebbnc.Embedded.Load.{load_embedded, save_config, saved}
use ebbnc.Makeconf.{Editor, finished}
use ebbnc.Makeconf.Typed.{Typed, BouncerFits}
use ebbnc.Makeconf.Gathered.{Typed-Fits}
use ebbnc.Makeconf.Saved.{as_printed, HasLocalIp}
use ebbnc.Makeconf.Loaded.{as_loaded, Typed-load_embedded}
use ebbnc.System.Wp.{Wp}
use ebbnc.System.Descriptors.{descriptors}
use ebbnc.Address.{Inet}
use ebbnc.Server.{server_listen_all}
use ebbnc.Server.Descriptors.{HasListenIp, ListensAll, server_listen_all-ListensAll}

turned-turned : (bs acc out : List Bouncer) → turned (turned bs acc) out ≡ turned acc (bs ++ out)
turned-turned [] acc out = refl
turned-turned (b ∷ bs) acc out = turned-turned bs (b ∷ acc) out

turned-All :
    (P : Bouncer → Type 0) (bs acc : List Bouncer) → All P bs → All P acc → All P (turned bs acc)
turned-All P [] acc h k = k
turned-All P (b ∷ bs) acc h k = turned-All P bs (b ∷ acc) h.1 (h.0, k)

module _ (r : Resolver) where
  All-HasListenIp :
      (bs : List Bouncer) → All (BouncerFits r) bs → All HasListenIp (map as_printed bs)
  All-HasListenIp [] h = tt
  All-HasListenIp (b ∷ bs) ((l, m, f), h) = ((l.ip, l.listen_ip), All-HasListenIp bs h)

module _ (e : Endian) (alloc : ℕ → Bool) (has_room : (n : ℕ) → alloc n ≡ true) (r : Resolver)
    (ip_token : (s : Bytes) → r.valid_ip s ≡ true → IsToken b' ' s) where
  -- With memory for every request, a block from /dev/urandom and a conf.h that can be written: where
  -- every answer of the dialogue is a line of printed characters, the resolver takes no address that
  -- is empty or has a space, and each bouncer that was entered has a local address, the text that
  -- makeconf saves is loaded by `Config_loadEmbedded`, under the key that was made of the password,
  -- as a configuration for which `Server_listenAll`, where `socket` gives a descriptor that is not
  -- open, uses open descriptors only, whatever else the system answers; either it refuses and has
  -- closed every socket that it opened, or its list has one server with an open socket for each
  -- bouncer that was entered, in the order of the list that the dialogue made, with the ports as ints.
  pub Typed-ListensAll :
      (u : Urandom) (iv : Bytes) {ed : Editor} (net : Inet) (s : List ℕ)
      → u.opens ≡ true
      → u.gives ≡ some iv
      → IsBlock iv
      → Typed alloc r ed
      → ed.stage ≡ finished
      → All HasLocalIp ed.config.bouncers
      → (text : Bytes) × (config : Config) × (save_config e alloc u true ed.config ed.key
          ≡ saved text)
        × (load_embedded e alloc r text ed.key ≡ loaded config)
        × Wp descriptors
            (server_listen_all net config)
            (ListensAll (map as_printed ed.config.bouncers) s)
            s
  Typed-ListensAll u iv {ed} net s opens gives block past last has =
      let (text, done, back) =
        Typed-load_embedded e alloc has_room r ip_token u iv opens gives block past last has in
      let bs = map as_printed ed.config.bouncers in
      let list = (Typed-Fits alloc has_room r ip_token past).list in
      (
        text,
        as_loaded ed.config,
        done,
        back,
        subst (λ l. Wp descriptors (server_listen_all net (as_loaded ed.config)) (ListensAll l s) s)
            (turned-turned bs [] [] ∙ append-nil bs)
            (server_listen_all-ListensAll net (as_loaded ed.config) s
              (turned-All HasListenIp bs [] (All-HasListenIp r ed.config.bouncers list) tt)),
      )
