-- ===== src/Tests/Embedded.antt =====
-- The embedded configuration.
use ebbnc.Common.{codes, ◌≡◌, refl, ◌++◌, ◌∷◌, [], arith, Bytes, at, crash}
use ebbnc.Xtea.{little}
use ebbnc.Embedded.{encrypt, decrypt_embedded}
use ebbnc.Embedded.RoundTrip.{decrypt_embedded-encrypt, IsZeroFree}
use ebbnc.Embedded.Safety.{decrypt_embedded-Checked, decrypt_embedded-eq-crash, Checked}
use ebbnc.Tests.Inputs.{key, ivec, urandom, plenty}

decrypt_embedded-encrypt_example :
    (text : Bytes) × (tail : Bytes) × (encrypt little plenty urandom (codes "idnt=true\n") key
      ≡ at (text ++ (0 ∷ [])))
    × IsZeroFree text
    × (decrypt_embedded little plenty text key ≡ at (codes "idnt=true\n" ++ (0 ∷ tail)))
decrypt_embedded-encrypt_example =
    decrypt_embedded-encrypt little plenty (λ n. refl) urandom ivec (codes "idnt=true\n") key refl
      refl (omega arith) (omega arith) (omega arith) (ground arith)

decrypt_embedded-Checked_example :
    Checked (decrypt_embedded little plenty (codes "00FF00FF00FF00FF00") key)
decrypt_embedded-Checked_example =
    decrypt_embedded-Checked little plenty (codes "00FF00FF00FF00FF00") key (omega arith)
      (omega arith) (omega arith)

decrypt_embedded-eq-crash_example :
    decrypt_embedded little plenty (codes "00FF00FF00FF00FF") key ≡ crash
decrypt_embedded-eq-crash_example =
    decrypt_embedded-eq-crash little plenty (codes "00FF00FF00FF00FF") key (omega arith)
      (omega arith) (λ n. refl) refl
