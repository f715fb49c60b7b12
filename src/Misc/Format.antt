-- ===== src/Misc/Format.antt =====
-- `strPrintf` of misc.c, with the formatted text as an argument; `none` is a null pointer.
use ebbnc.Common.{◌+◌, Option, none, some, if◌then◌else◌, length, Bytes}
use ebbnc.System.{Io, ret, ◌>>=◌, perform, calloc}

unfoldable pub str_printf : Bytes → Io (Option Bytes)
str_printf text =
    perform (calloc (length text + 1)) >>= λ okay. ret (if okay then some text else none)
