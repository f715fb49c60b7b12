-- ===== src/Config/Save.antt =====
-- `Config_saveBuffer`. A null pointer for `%s` is printed as the GNU C library prints it, and a
-- `long` for `%i` by its low 32 bits.
use ebbnc.Common.{
  ℕ, Bool, Option, none, some, List, [], ◌∷◌, ◌++◌, if◌then◌else◌, ◌>>=◌, Bytes, codes, int_of_long,
}
use ebbnc.Libc.{print_int}
use ebbnc.Misc.{str_cat_printf}
use ebbnc.Config.{Bouncer, Config}

-- `%s` of a pointer.
abbrev pub print_string : Option Bytes → Bytes
print_string none = codes "(null)"
print_string (some s) = s

abbrev pub print_flag : Bool → Bytes
print_flag flag = if flag then codes "true" else codes "false"

-- One line, `word` and a value.
abbrev pub line_of : Bytes → Bytes → Bytes
line_of word value = word ++ (value ++ (b'\n' ∷ []))

-- "%s:%i %s:%i %s" of a bouncer.
unfoldable pub print_bouncer : Bouncer → Bytes
print_bouncer b =
    print_string b.listen_ip
    ++ (b':'
        ∷ (print_int (int_of_long b.listen_port)
            ++ (b' '
                ∷ (print_string b.remote_host
                    ++ (b':'
                        ∷ (print_int (int_of_long b.remote_port)
                            ++ (b' ' ∷ print_string b.local_ip)))))))

module _ (alloc : ℕ → Bool) where
  -- A line for an optional text.
  unfoldable pub save_optional : Bytes → Option Bytes → Bytes → Option Bytes
  save_optional word none buffer = some buffer
  save_optional word (some value) buffer = str_cat_printf alloc (some buffer) (line_of word value)

  unfoldable pub save_bouncers : List Bouncer → Bytes → Option Bytes
  save_bouncers [] buffer = some buffer
  save_bouncers (b ∷ bouncers) buffer =
      str_cat_printf alloc (some buffer) (line_of (codes "bouncer=") (print_bouncer b))
      >>= save_bouncers bouncers

  unfoldable pub config_save_buffer : Config → Option Bytes
  unfolding save_optional save_bouncers
  config_save_buffer config = do
    b1 ← str_cat_printf alloc none (line_of (codes "idnt=") (print_flag config.idnt))
    b2 ←
        str_cat_printf alloc (some b1)
          (line_of (codes "identtimeout=") (print_int config.ident_timeout))
    b3 ←
        str_cat_printf alloc (some b2)
          (line_of (codes "idletimeout=") (print_int config.idle_timeout))
    b4 ←
        str_cat_printf alloc (some b3)
          (line_of (codes "writetimeout=") (print_int config.write_timeout))
    b5 ←
        str_cat_printf alloc (some b4) (line_of (codes "dnslookup=") (print_flag config.dns_lookup))
    b6 ← save_optional (codes "pidfile=") config.pid_file b5
    b7 ← save_optional (codes "welcomemsg=") config.welcome_msg b6
    save_bouncers config.bouncers b7
