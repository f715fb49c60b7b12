-- ===== src/Config/File.antt =====
-- `Config_loadFile` of config.c.
use ebbnc.Common.{ℕ, ◌+◌, Bool, [], ◌∷◌, ◌++◌, if◌then◌else◌, length, Bytes}
use ebbnc.Config.Load.{Loaded, Resolver}
use ebbnc.Embedded.Load.{c_string, load_text}
use ebbnc.System.{Io, ret, ◌>>=◌, perform, ok, err, read_file}

-- How it ends: without the file, without a buffer, with nothing read, or with what the buffer gives.
pub data LoadedFile : Type 0 where
  unopened no_buffer unread : LoadedFile
  parsed : Loaded → LoadedFile

module _ (alloc : ℕ → Bool) (r : Resolver) where
  -- `fread` of one object of no bytes is 0, so an empty file counts as unread.
  unfoldable pub parse_file : Bytes → LoadedFile
  parse_file [] = if alloc 1 then unread else no_buffer
  parse_file (c ∷ text) =
      if alloc (length (c ∷ text) + 1)
      then parsed (load_text alloc r (c_string ((c ∷ text) ++ (0 ∷ []))))
      else no_buffer

  unfoldable pub config_load_file : Bytes → Io LoadedFile
  unfolding parse_file
  config_load_file path = perform (read_file path) >>= λ text. elim text [
    | err errno ↦ ret unopened
    | ok content ↦ ret (parse_file content)
  ]
