-- ===== src/Ident/Reply.antt =====
-- The reply of an ident server, as the `fscanf` of ident.c reads it.
use ebbnc.Common.{Option, some, ◌>>=◌, Bytes, ℤ, codes}
use ebbnc.Libc.{skip_spaces}
use ebbnc.Libc.Scan.{scan_int, scan_char, scan_text, scan_until, scan_word}

-- "%i, %i : USERID :%*[^:]:%255s\r\n": the two ports and the user, if all three are assigned.
unfoldable pub scan_reply : Bytes → Option (ℤ × ℤ × Bytes)
scan_reply s = do
  (remote, s1) ← scan_int s
  s2 ← scan_char b',' s1
  (local, s3) ← scan_int (skip_spaces s2)
  s4 ← scan_char b':' (skip_spaces s3)
  s5 ← scan_text (codes "USERID") (skip_spaces s4)
  s6 ← scan_char b':' (skip_spaces s5)
  s7 ← scan_until b':' s6
  s8 ← scan_char b':' s7
  user ← scan_word 255 s8
  some (remote, local, user)
