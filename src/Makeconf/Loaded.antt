-- ===== src/Makeconf/Loaded.antt =====
-- From makeconf.c's dialogue to the configuration that the program starts with: `Config_saveBuffer`,
-- `encrypt` and `saveHeader` in the editor, `Config_loadEmbedded` at the start.
use ebbnc.Common.{
  ℕ, ◌≤◌, ◌≡◌, ◌≢◌, refl, sym, ap, subst, ◌∙◌, arith, Bool, true, false, Option, none, some, List,
  [], ◌∷◌, map, Bytes, All, IsByte, IsBytes, length,
}
use ebbnc.Libc.Tokens.{IsToken}
use ebbnc.Xtea.{Endian}
use ebbnc.Xtea.Block.{IsBlock}
use ebbnc.Config.{Config, Bouncer}
use ebbnc.Config.Load.{Resolver, loaded, is_sane, all_sane, sane_list, config_sanity_check, checked}
use ebbnc.Config.Lines.{text_of}
use ebbnc.Config.SaveLoad.{lines_of, config_save_buffer-eq-some}
use ebbnc.Config.RoundTrip.{turned, config_load_buffer-config_save_buffer}
use ebbnc.Embedded.{Urandom}
use ebbnc.Embedded.Decrypted.{IsClean}
use ebbnc.Embedded.Load.{load_embedded, save_config, saved, load_embedded-save_config}
use ebbnc.Makeconf.{Editor, finished}
use ebbnc.Makeconf.Complete.{Reach-IsComplete}
use ebbnc.Makeconf.Password.{Reach-key}
use ebbnc.Makeconf.Typed.{Typed, Typed-Reach, LocalFits, BouncerFits, Fits}
use ebbnc.Makeconf.Gathered.{Typed-Fits}
use ebbnc.Makeconf.Saved.{
  as_printed, as_saved, HasLocalIp, int_of_long_twice, IsSavable-as_saved,
  config_save_buffer-as_saved,
}
use ebbnc.Makeconf.Printed.{text_of-IsBytes, lines_of-IsPrinted}

turned_ne : (bs acc : List Bouncer) → acc ≢ [] → turned bs acc ≢ []
turned_ne [] acc ne e = ne e
turned_ne (b ∷ bs) acc ne e = turned_ne bs (b ∷ acc) (λ z. cc) e

turned-map_ne : (bs : List Bouncer) → bs ≢ [] → turned (map as_printed bs) [] ≢ []
turned-map_ne [] ne e = ne refl
turned-map_ne (b ∷ bs) ne e = turned_ne (map as_printed bs) (as_printed b ∷ []) (λ z. cc) e

-- The configuration that is loaded: with the ports as they are printed, and the bouncers in the
-- opposite order.
abbrev pub as_loaded : Config → Config
as_loaded c = record c { bouncers = turned (map as_printed c.bouncers) [] }

module _ (r : Resolver) where
  -- The sanity check.
  is_sane-as_printed :
      (b : Bouncer) → BouncerFits r b → HasLocalIp b → is_sane r (as_printed b) ≡ some true
  unfolding is_sane
  is_sane-as_printed b (l, m, f) (ip, given) =
      rw
        (
          l.listen_ip,
          given,
          m.remote_host,
          l.valid,
          m.valid,
          (subst (LocalFits r) given f).2,
          int_of_long_twice b.listen_port l.port,
          int_of_long_twice b.remote_port m.port,
          l.port,
          m.port,
        )
        refl

  All-sane :
      (bs : List Bouncer)
      → All (BouncerFits r) bs
      → All HasLocalIp bs
      → All (λ b. is_sane r b ≡ some true) (map as_printed bs)
  All-sane [] h has = tt
  All-sane (b ∷ bs) h has = (is_sane-as_printed b h.0 has.0, All-sane bs h.1 has.1)

  all_sane-All :
      (bs : List Bouncer) → All (λ b. is_sane r b ≡ some true) bs → all_sane r bs ≡ some true
  unfolding all_sane
  all_sane-All [] h = refl
  all_sane-All (b ∷ bs) h =
      ap
        (λ (o : Option Bool). elim o [
          | none ↦ none
          | some true ↦ all_sane r bs
          | some false ↦ some false
        ])
        h.0
      ∙ all_sane-All bs h.1

  sane_list-turned :
      (bs acc : List Bouncer)
      → All (λ b. is_sane r b ≡ some true) bs
      → All (λ b. is_sane r b ≡ some true) acc
      → turned bs acc ≢ []
      → sane_list r (turned bs acc) ≡ some true
  unfolding sane_list
  sane_list-turned [] [] h k ne = absurd (ne refl)
  sane_list-turned [] (b ∷ acc) h k ne = all_sane-All (b ∷ acc) k
  sane_list-turned (b ∷ bs) acc h k ne = sane_list-turned bs (b ∷ acc) h.1 (h.0, k) ne

  config_sanity_check-as_loaded :
      (c : Config)
      → All (BouncerFits r) c.bouncers
      → All HasLocalIp c.bouncers
      → c.bouncers ≢ []
      → config_sanity_check r (as_loaded c) ≡ some true
  unfolding config_sanity_check
  config_sanity_check-as_loaded c h has ne =
      sane_list-turned (map as_printed c.bouncers) [] (All-sane c.bouncers h has) tt
        (turned-map_ne c.bouncers ne)

split_All : (s : Bytes) → All (λ c. IsByte c × IsClean c) s → IsBytes s × All IsClean s
split_All [] h = (tt, tt)
split_All (c ∷ s) h = let (bytes, clean) = split_All s h.1 in ((h.0.0, bytes), (h.0.1, clean))

module _ (e : Endian) (alloc : ℕ → Bool) (has_room : (n : ℕ) → alloc n ≡ true) (r : Resolver)
    (ip_token : (s : Bytes) → r.valid_ip s ≡ true → IsToken b' ' s) where
  load_embedded-Fits :
      (u : Urandom) (iv : Bytes) (c : Config) {b : Option Bouncer} (key : Bytes)
      → u.opens ≡ true
      → u.gives ≡ some iv
      → IsBlock iv
      → 16 ≤ length key
      → Fits r finished c b
      → c.bouncers ≢ []
      → All HasLocalIp c.bouncers
      → (text : Bytes) × (save_config e alloc u true c key ≡ saved text)
        × (load_embedded e alloc r text key ≡ loaded (as_loaded c))
  load_embedded-Fits u iv c key opens gives block long v ne has =
      let (buffer, made, ends) =
        config_load_buffer-config_save_buffer alloc has_room r (as_saved c)
          (IsSavable-as_saved r c v has) in
      let same : some (text_of (lines_of (as_saved c))) ≡ some buffer =
        sym (config_save_buffer-eq-some alloc has_room (as_saved c)) ∙ made in
      let text_same : text_of (lines_of (as_saved c)) ≡ buffer = cc in
      let (bytes, clean) = split_All buffer (
        subst (All (λ x. IsByte x × IsClean x)) text_same
          (text_of-IsBytes (lines_of (as_saved c)) (lines_of-IsPrinted r c v has))) in
      let (text, done, back) =
        load_embedded-save_config e alloc has_room r u iv c buffer key opens gives block long
          (sym (config_save_buffer-as_saved r alloc has_room c v.list) ∙ made) bytes clean in
      (
        text,
        done,
        back ∙ ends ∙ ap (checked (as_loaded c)) (config_sanity_check-as_loaded r c v.list has ne),
      )

  -- With memory for every request, a block from /dev/urandom and a conf.h that can be written: where
  -- every answer of the dialogue is a line of printed characters, the resolver takes no address that
  -- is empty or has a space, and each bouncer that was entered has a local address, the end of
  -- makeconf's `main` saves a text, and `Config_loadEmbedded` of that text under the key that was made
  -- of the password returns the configuration that was collected, with its ports as ints and its
  -- bouncers in the opposite order.
  pub Typed-load_embedded :
      (u : Urandom) (iv : Bytes) {ed : Editor}
      → u.opens ≡ true
      → u.gives ≡ some iv
      → IsBlock iv
      → Typed alloc r ed
      → ed.stage ≡ finished
      → All HasLocalIp ed.config.bouncers
      → (text : Bytes) × (save_config e alloc u true ed.config ed.key ≡ saved text)
        × (load_embedded e alloc r text ed.key ≡ loaded (as_loaded ed.config))
  Typed-load_embedded u iv {ed} opens gives block past last has =
      load_embedded-Fits u iv ed.config ed.key opens gives block
        (omega (arith, Reach-key alloc r (Typed-Reach past)))
        (subst (λ s. Fits r s ed.config ed.bouncer) last
          (Typed-Fits alloc has_room r ip_token past))
        (Reach-IsComplete alloc r (Typed-Reach past) last).0 has
