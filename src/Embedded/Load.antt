-- ===== src/Embedded/Load.antt =====
-- `Config_loadEmbedded` of config.c, and the end of makeconf.c's `main`, which makes the text that it
-- loads. `writes` says whether `saveHeader` can open and write conf.h.
use ebbnc.Common.{
  ℕ, ◌≤◌, ◌≡◌, ◌≢◌, refl, arith, Bool, true, false, Option, none, some, [], ◌∷◌, ◌++◌, ◌==◌,
  if◌then◌else◌, length, Bytes, All, IsBytes, Pointer, crash, null, at,
}
use ebbnc.Xtea.{Endian}
use ebbnc.Xtea.Block.{IsBlock}
use ebbnc.Config.{Config}
use ebbnc.Config.Load.{
  Resolver, Loaded, fault, out_of_memory, insane, stuck, undeciphered, bad_line, loaded,
  config_load_buffer,
}
use ebbnc.Config.LoadSound.{IsSound, Sound, config_load_buffer-Sound}
use ebbnc.Config.LoadSafe.{Safe, config_load_buffer-Safe}
use ebbnc.Config.Save.{config_save_buffer}
use ebbnc.Embedded.{Urandom, encrypt, decrypt_embedded}
use ebbnc.Embedded.Decrypted.{IsClean}
use ebbnc.Embedded.RoundTrip.{decrypt_embedded-encrypt}
use ebbnc.Embedded.Safety.{Checked, decrypt_embedded-Checked}

-- The C string at the start of an array; `none` is a read past the array.
unfoldable pub c_string : Bytes → Option Bytes
c_string [] = none
c_string (c ∷ d) =
    let rest = c_string d in
    if c == 0 then some [] else elim rest [ none ↦ none | some s ↦ some (c ∷ s) ]

module _ (alloc : ℕ → Bool) (r : Resolver) where
  abbrev pub load_text : Option Bytes → Loaded
  load_text none = fault
  load_text (some text) = config_load_buffer alloc r text

module _ (e : Endian) (alloc : ℕ → Bool) (r : Resolver) where
  abbrev load_deciphered : Pointer → Loaded
  load_deciphered crash = fault
  load_deciphered null = undeciphered
  load_deciphered (at d) = load_text alloc r (c_string d)

  unfoldable pub load_embedded : Bytes → Bytes → Loaded
  load_embedded conf key = load_deciphered (decrypt_embedded e alloc conf key)

-- How makeconf's `main` ends: an access out of range, a return of 1, or the text that conf.h defines
-- CONF_EMBEDDED as.
pub data Finish : Type 0 where
  broken quit : Finish
  saved : Bytes → Finish

module _ (e : Endian) (alloc : ℕ → Bool) (u : Urandom) (writes : Bool) where
  abbrev save_text : Option Bytes → Finish
  save_text none = broken
  save_text (some text) = if writes then saved text else quit

  abbrev save_header : Pointer → Finish
  save_header crash = broken
  save_header null = quit
  save_header (at d) = save_text (c_string d)

  abbrev save_encrypted : Bytes → Option Bytes → Finish
  save_encrypted key none = quit
  save_encrypted key (some plain) = save_header (encrypt e alloc u plain key)

  -- Behind the loop, where `error` is `ERROR_NONE`.
  unfoldable pub save_config : Config → Bytes → Finish
  save_config config key = save_encrypted key (config_save_buffer alloc config)

c_string-append :
    (text rest : Bytes) → All (λ c. c ≢ 0) text → c_string (text ++ (0 ∷ rest)) ≡ some text
unfolding c_string
c_string-append [] rest h = refl
c_string-append (c ∷ text) rest h =
    let more : (c == 0) ≡ false = ground arith in rw (more, c_string-append text rest h.1)

zero_free : (text : Bytes) → All IsClean text → All (λ c. c ≢ 0) text
zero_free [] h = tt
zero_free (c ∷ text) h = (h.0.0, zero_free text h.1)

module _ (r : Resolver) where
  -- What may come of an embedded text where there is memory.
  abbrev pub Opened : Loaded → Type 0
  Opened fault = ⊥
  Opened out_of_memory = ⊥
  Opened stuck = ⊥
  Opened undeciphered = Unit
  Opened insane = Unit
  Opened (bad_line line) = Unit
  Opened (loaded c) = IsSound r c

  Opened-load : (l : Loaded) → Safe l → Sound r l → Opened l
  Opened-load fault f s = f
  Opened-load out_of_memory f s = f
  Opened-load stuck f s = f
  Opened-load undeciphered f s = tt
  Opened-load insane f s = tt
  Opened-load (bad_line line) f s = tt
  Opened-load (loaded c) f s = s

module _ (e : Endian) (alloc : ℕ → Bool) (has_room : (n : ℕ) → alloc n ≡ true) (r : Resolver) where
  -- With memory for every request, a block from /dev/urandom, a conf.h that can be written and a key
  -- of at least 16 bytes, the end of makeconf's `main` saves a text of a configuration whose own
  -- text has no zero and no control character that is no white space, and `Config_loadEmbedded` of
  -- that text under the same key ends as `Config_loadBuffer` of the configuration's text does.
  pub load_embedded-save_config :
      (u : Urandom) (iv : Bytes) (config : Config) (buffer key : Bytes)
      → u.opens ≡ true
      → u.gives ≡ some iv
      → IsBlock iv
      → 16 ≤ length key
      → config_save_buffer alloc config ≡ some buffer
      → IsBytes buffer
      → All IsClean buffer
      → (text : Bytes) × (save_config e alloc u true config key ≡ saved text)
        × (load_embedded e alloc r text key ≡ config_load_buffer alloc r buffer)
  unfolding save_config load_embedded
  load_embedded-save_config u iv config buffer key ho hg hi hk hs hb hc =
      let (text, tail, made, free, back) =
        decrypt_embedded-encrypt e alloc has_room u iv buffer key ho hg hi hk hb hc in
      (
        text,
        rw (hs, made, c_string-append text [] free) refl,
        rw (back, c_string-append buffer tail (zero_free buffer hc)) refl,
      )

  load_deciphered-Opened : (p : Pointer) → Checked p → Opened r (load_deciphered e alloc r p)
  load_deciphered-Opened crash h = h
  load_deciphered-Opened null h = tt
  load_deciphered-Opened (at d) (text, rest, whole, clean) =
      rw (whole, c_string-append text rest (zero_free text clean))
        (Opened-load r (config_load_buffer alloc r text)
          (config_load_buffer-Safe alloc has_room r text) (config_load_buffer-Sound alloc r text))

  -- With memory for every request, a key of at least 16 bytes and an embedded text of bytes of any
  -- length but 16, `Config_loadEmbedded` ends within its arrays and without a null pointer's being
  -- read: it refuses the embedded text, a line of the configuration or the configuration, or returns
  -- one with at least one bouncer, no negative timeout, and in each bouncer addresses that the
  -- resolver accepts and ports that lie in range as ints.
  pub load_embedded-Opened :
      (conf key : Bytes)
      → IsBytes conf
      → 16 ≤ length key
      → length conf ≢ 16
      → Opened r (load_embedded e alloc r conf key)
  unfolding load_embedded
  load_embedded-Opened conf key hc hk ne =
      load_deciphered-Opened (decrypt_embedded e alloc conf key)
        (decrypt_embedded-Checked e alloc conf key hc hk ne)
