-- ===== src/Common/Text.antt =====
-- Quoted text as bytes.
use Prim.Native.Char.{code}
use Prim.Native.String.{String}
use mathlib.Core.List.{[], ◌∷◌}
use ebbnc.Common.Word.{Bytes}

-- The code points of a text: its bytes, as every text quoted here is ASCII.
abbrev pub codes : String → Bytes
codes String.[] = []
codes (String.◌∷◌ c s) = code c ∷ codes s
