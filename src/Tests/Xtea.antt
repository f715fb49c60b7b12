-- ===== src/Tests/Xtea.antt =====
-- The block cipher and its chaining.
use ebbnc.Common.{
  codes, suc, ◌/◌, drop, ◌≡◌, refl, ◌++◌, ◌∷◌, [], length, arith, Bytes, add32, done, fault,
}
use ebbnc.Xtea.{
  little, big, encrypt_block, encrypt_round, rounds, mix, word_at, word_bytes, start, stored,
}
use ebbnc.Xtea.Cbc.{xtea_encrypt_cbc, xtea_decrypt_cbc}
use ebbnc.Xtea.Cbc.EncryptCall.{xtea_encrypt_cbc-eq-ending, encrypt_ending}
use ebbnc.Xtea.Cbc.RoundTrip.{xtea_decrypt_cbc-xtea_encrypt_cbc, xtea_decrypt_cbc-Settles, Settles}
use ebbnc.Xtea.Ecb.{xtea_encrypt_ecb, xtea_decrypt_ecb}
use ebbnc.Xtea.Ecb.Loops.{encrypt_each}
use ebbnc.Xtea.Ecb.Calls.{xtea_encrypt_ecb-eq-done, xtea_decrypt_ecb-xtea_encrypt_ecb}
use ebbnc.Xtea.Cbc.Chain.{pad}
use ebbnc.Tests.Inputs.{key, ivec, eleven_zeros, sixteen_zeros}

-- A published test vector of the cipher.
encrypt_block_vector :
    encrypt_block big key (codes "ABCDEFGH")
    ≡ 0x49 ∷ 0x7d ∷ 0xf3 ∷ 0xd0 ∷ 0x72 ∷ 0x61 ∷ 0x2c ∷ 0xb5 ∷ []
unfolding encrypt_block stored word_bytes rounds encrypt_round add32 start word_at mix
encrypt_block_vector = refl

xtea_encrypt_cbc-eq-ending_example :
    xtea_encrypt_cbc little key (codes "hello, world") sixteen_zeros ivec
    ≡ encrypt_ending little key ivec
        (omega arith)
        (omega arith)
        (codes "hello, world")
        sixteen_zeros
xtea_encrypt_cbc-eq-ending_example =
    xtea_encrypt_cbc-eq-ending little key ivec (omega arith) (omega arith) (codes "hello, world")
      sixteen_zeros

-- Twelve bytes of text in an array of twelve: the padded block is written past its end.
xtea_encrypt_cbc_overrun :
    xtea_encrypt_cbc little key (codes "hello, world") (0 ∷ eleven_zeros) ivec ≡ fault
xtea_encrypt_cbc_overrun =
    xtea_encrypt_cbc-eq-ending little key ivec (omega arith) (omega arith) (codes "hello, world")
      (0 ∷ eleven_zeros)

xtea_decrypt_cbc-xtea_encrypt_cbc_example :
    (cipher : Bytes) × (rest : Bytes) × (tail : Bytes) × (xtea_encrypt_cbc little key
        (codes "hello, world")
        sixteen_zeros
        ivec
      ≡ done (length cipher) (cipher ++ rest))
    × (length (cipher ++ rest) ≡ length sixteen_zeros)
    × (xtea_decrypt_cbc little key cipher sixteen_zeros ivec
        ≡ done 12 (codes "hello, world" ++ tail))
xtea_decrypt_cbc-xtea_encrypt_cbc_example =
    xtea_decrypt_cbc-xtea_encrypt_cbc little key (omega arith) (codes "hello, world") ivec
      sixteen_zeros sixteen_zeros (omega arith) (omega arith) (omega arith) (omega arith)
      (omega arith)

xtea_decrypt_cbc-Settles_example :
    Settles 16 16 (xtea_decrypt_cbc little key (codes "0123456789abcdef") sixteen_zeros ivec)
xtea_decrypt_cbc-Settles_example =
    xtea_decrypt_cbc-Settles little key (codes "0123456789abcdef") sixteen_zeros ivec (omega arith)
      (omega arith) (omega arith) refl (omega arith)

xtea_encrypt_ecb-eq-done_example :
    xtea_encrypt_ecb little key (codes "hello, world") sixteen_zeros
    ≡ done (length (pad (codes "hello, world"))) (
        encrypt_each little key
          (suc (length (codes "hello, world") / 8))
          (pad (codes "hello, world"))
        ++ drop (length (pad (codes "hello, world"))) sixteen_zeros)
xtea_encrypt_ecb-eq-done_example =
    xtea_encrypt_ecb-eq-done little key (omega arith) (codes "hello, world") sixteen_zeros
      (omega arith)

xtea_decrypt_ecb-xtea_encrypt_ecb_example :
    (cipher : Bytes) × (rest : Bytes) × (tail : Bytes) × (xtea_encrypt_ecb little key
        (codes "hello, world")
        sixteen_zeros
      ≡ done (length cipher) (cipher ++ rest))
    × (xtea_decrypt_ecb little key cipher sixteen_zeros ≡ done 12 (codes "hello, world" ++ tail))
xtea_decrypt_ecb-xtea_encrypt_ecb_example =
    xtea_decrypt_ecb-xtea_encrypt_ecb little key (omega arith) (codes "hello, world") sixteen_zeros
      sixteen_zeros (omega arith) (omega arith) (omega arith)
