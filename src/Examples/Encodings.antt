-- ===== src/Examples/Encodings.antt =====
-- Texts in hexadecimal digits (src/core/encoding/hex.cpp).
use znode.Common.{◌≡◌, arith, true, [], ◌∷◌, success}
use znode.Common.Bytes.{codes}
use znode.Encoding.Hex.{decode_rounds, decode_pairs, encode, decode}
use znode.Encoding.Hex.Unrolled.{decode_rounds-decode_pairs}
use znode.Encoding.Hex.RoundTrip.{decode-encode}

decode_rounds_example : decode_rounds 1 (codes "00ff7f8012") ≡ decode_pairs (codes "00ff7f8012")
decode_rounds_example = decode_rounds-decode_pairs 1 (codes "00ff7f8012")

decode-encode_example :
    decode (encode (0 ∷ 255 ∷ 18 ∷ 52 ∷ 171 ∷ []) true) ≡ success (0 ∷ 255 ∷ 18 ∷ 52 ∷ 171 ∷ [])
decode-encode_example =
    decode-encode (0 ∷ 255 ∷ 18 ∷ 52 ∷ 171 ∷ []) true
      (omega arith, (omega arith, (omega arith, (omega arith, (omega arith, tt)))))
