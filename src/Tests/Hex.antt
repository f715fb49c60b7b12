-- ===== src/Tests/Hex.antt =====
-- The hexadecimal text.
use ebbnc.Common.{codes, ◌≡◌, refl, ◌++◌, ◌∷◌, [], arith, done, drop}
use ebbnc.Hex.{
  digits_of, hex_encode, hex_decode, hex_decode_char, encode_loop, decode_loop, unsigned_of_char,
}
use ebbnc.Hex.Encode.{hex_text, hex_encode-Ends, Ends}
use ebbnc.Hex.Decode.{hex_decode-hex_text, hex_decode-eq-done, decoded_text}
use ebbnc.Tests.Inputs.{eleven_zeros, ivec}

-- A letter of the lower case is taken for another digit: not 255 is read here.
hex_decode_lower : hex_decode (codes "ff") (0 ∷ 0 ∷ []) ≡ done 1 (31 ∷ 0 ∷ [])
unfolding hex_decode decode_loop hex_decode_char unsigned_of_char
hex_decode_lower = refl

hex_encode_runs :
    hex_encode (0x4f ∷ 0xa0 ∷ []) (1 ∷ 1 ∷ 1 ∷ 1 ∷ 1 ∷ []) ≡ done 4 (codes "4FA0" ++ 0 ∷ [])
unfolding hex_encode encode_loop digits_of
hex_encode_runs = refl

hex_encode-Ends_example : Ends ivec eleven_zeros (hex_encode ivec eleven_zeros)
hex_encode-Ends_example = hex_encode-Ends ivec eleven_zeros

hex_decode-hex_text_example :
    hex_decode (hex_text ivec) eleven_zeros ≡ done 8 (ivec ++ (0 ∷ drop 9 eleven_zeros))
hex_decode-hex_text_example = hex_decode-hex_text ivec eleven_zeros (omega arith) (omega arith)

hex_decode-eq-done_example :
    hex_decode (codes "zz+-") eleven_zeros
    ≡ done 2 (decoded_text (codes "zz+-") ++ (0 ∷ drop 3 eleven_zeros))
hex_decode-eq-done_example =
    hex_decode-eq-done 2 (codes "zz+-") eleven_zeros (omega arith) refl (omega arith)
