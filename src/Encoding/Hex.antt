-- ===== src/Encoding/Hex.antt =====
-- src/core/encoding/hex.cpp. A text is the list of its characters' codes; a character is an unsigned
-- byte, as the source's casts make it.
pub mod Digits
pub mod Unrolled
pub mod RoundTrip
use Prim.Native.Nat.{bit_or}
use znode.Common.{
  ℕ, zero, suc, ◌+◌, ◌*◌, ◌/◌, ◌%◌, ◌-◌, Bool, true, false, ◌&&◌, ◌||◌, List, [], ◌∷◌, ◌++◌, length,
  get_or, drop, Outcome, success, failure, if◌then◌else◌, ltb, leb, ◌==◌,
}
use znode.Common.Bytes.{codes}

-- `enc::Error` (src/core/encoding/errors.hpp).
pub data EncodingError : Type 0 where
  no_error illegal_hex_digit illegal_base58_digit illegal_base64_digit : EncodingError
  input_too_large input_too_narrow unexpected_error : EncodingError

-- `kHexDigits`.
unfoldable pub hex_digits : List ℕ
hex_digits = codes "0123456789abcdef"

-- `kUnhexTable`, and the same for the upper nibble, `kUnhexTable4`.
unfoldable pub unhex_table : List ℕ
unhex_table =
    0xff ∷ 0xff ∷ 0xff ∷ 0xff ∷ 0xff ∷ 0xff ∷ 0xff ∷ 0xff ∷ 0xff ∷ 0xff ∷ 0xff ∷ 0xff ∷ 0xff ∷ 0xff
    ∷ 0xff ∷ 0xff ∷ 0xff ∷ 0xff ∷ 0xff ∷ 0xff ∷ 0xff ∷ 0xff ∷ 0xff ∷ 0xff ∷ 0xff ∷ 0xff ∷ 0xff
    ∷ 0xff ∷ 0xff ∷ 0xff ∷ 0xff ∷ 0xff ∷ 0xff ∷ 0xff ∷ 0xff ∷ 0xff ∷ 0xff ∷ 0xff ∷ 0xff ∷ 0xff
    ∷ 0xff ∷ 0xff ∷ 0xff ∷ 0xff ∷ 0xff ∷ 0xff ∷ 0xff ∷ 0xff ∷ 0x00 ∷ 0x01 ∷ 0x02 ∷ 0x03 ∷ 0x04
    ∷ 0x05 ∷ 0x06 ∷ 0x07 ∷ 0x08 ∷ 0x09 ∷ 0xff ∷ 0xff ∷ 0xff ∷ 0xff ∷ 0xff ∷ 0xff ∷ 0xff ∷ 0x0a
    ∷ 0x0b ∷ 0x0c ∷ 0x0d ∷ 0x0e ∷ 0x0f ∷ 0xff ∷ 0xff ∷ 0xff ∷ 0xff ∷ 0xff ∷ 0xff ∷ 0xff ∷ 0xff
    ∷ 0xff ∷ 0xff ∷ 0xff ∷ 0xff ∷ 0xff ∷ 0xff ∷ 0xff ∷ 0xff ∷ 0xff ∷ 0xff ∷ 0xff ∷ 0xff ∷ 0xff
    ∷ 0xff ∷ 0xff ∷ 0xff ∷ 0xff ∷ 0xff ∷ 0x0a ∷ 0x0b ∷ 0x0c ∷ 0x0d ∷ 0x0e ∷ 0x0f ∷ 0xff ∷ 0xff
    ∷ 0xff ∷ 0xff ∷ 0xff ∷ 0xff ∷ 0xff ∷ 0xff ∷ 0xff ∷ 0xff ∷ 0xff ∷ 0xff ∷ 0xff ∷ 0xff ∷ 0xff
    ∷ 0xff ∷ 0xff ∷ 0xff ∷ 0xff ∷ 0xff ∷ 0xff ∷ 0xff ∷ 0xff ∷ 0xff ∷ 0xff ∷ 0xff ∷ 0xff ∷ 0xff
    ∷ 0xff ∷ 0xff ∷ 0xff ∷ 0xff ∷ 0xff ∷ 0xff ∷ 0xff ∷ 0xff ∷ 0xff ∷ 0xff ∷ 0xff ∷ 0xff ∷ 0xff
    ∷ 0xff ∷ 0xff ∷ 0xff ∷ 0xff ∷ 0xff ∷ 0xff ∷ 0xff ∷ 0xff ∷ 0xff ∷ 0xff ∷ 0xff ∷ 0xff ∷ 0xff
    ∷ 0xff ∷ 0xff ∷ 0xff ∷ 0xff ∷ 0xff ∷ 0xff ∷ 0xff ∷ 0xff ∷ 0xff ∷ 0xff ∷ 0xff ∷ 0xff ∷ 0xff
    ∷ 0xff ∷ 0xff ∷ 0xff ∷ 0xff ∷ 0xff ∷ 0xff ∷ 0xff ∷ 0xff ∷ 0xff ∷ 0xff ∷ 0xff ∷ 0xff ∷ 0xff
    ∷ 0xff ∷ 0xff ∷ 0xff ∷ 0xff ∷ 0xff ∷ 0xff ∷ 0xff ∷ 0xff ∷ 0xff ∷ 0xff ∷ 0xff ∷ 0xff ∷ 0xff
    ∷ 0xff ∷ 0xff ∷ 0xff ∷ 0xff ∷ 0xff ∷ 0xff ∷ 0xff ∷ 0xff ∷ 0xff ∷ 0xff ∷ 0xff ∷ 0xff ∷ 0xff
    ∷ 0xff ∷ 0xff ∷ 0xff ∷ 0xff ∷ 0xff ∷ 0xff ∷ 0xff ∷ 0xff ∷ 0xff ∷ 0xff ∷ 0xff ∷ 0xff ∷ 0xff
    ∷ 0xff ∷ 0xff ∷ 0xff ∷ 0xff ∷ 0xff ∷ 0xff ∷ 0xff ∷ 0xff ∷ 0xff ∷ 0xff ∷ 0xff ∷ 0xff ∷ 0xff
    ∷ 0xff ∷ 0xff ∷ 0xff ∷ 0xff ∷ 0xff ∷ 0xff ∷ 0xff ∷ 0xff ∷ 0xff ∷ 0xff ∷ 0xff ∷ 0xff ∷ 0xff
    ∷ 0xff ∷ 0xff ∷ 0xff ∷ 0xff ∷ 0xff ∷ 0xff ∷ 0xff ∷ 0xff ∷ []

unfoldable pub unhex_table4 : List ℕ
unhex_table4 =
    0xff ∷ 0xff ∷ 0xff ∷ 0xff ∷ 0xff ∷ 0xff ∷ 0xff ∷ 0xff ∷ 0xff ∷ 0xff ∷ 0xff ∷ 0xff ∷ 0xff ∷ 0xff
    ∷ 0xff ∷ 0xff ∷ 0xff ∷ 0xff ∷ 0xff ∷ 0xff ∷ 0xff ∷ 0xff ∷ 0xff ∷ 0xff ∷ 0xff ∷ 0xff ∷ 0xff
    ∷ 0xff ∷ 0xff ∷ 0xff ∷ 0xff ∷ 0xff ∷ 0xff ∷ 0xff ∷ 0xff ∷ 0xff ∷ 0xff ∷ 0xff ∷ 0xff ∷ 0xff
    ∷ 0xff ∷ 0xff ∷ 0xff ∷ 0xff ∷ 0xff ∷ 0xff ∷ 0xff ∷ 0xff ∷ 0x00 ∷ 0x10 ∷ 0x20 ∷ 0x30 ∷ 0x40
    ∷ 0x50 ∷ 0x60 ∷ 0x70 ∷ 0x80 ∷ 0x90 ∷ 0xff ∷ 0xff ∷ 0xff ∷ 0xff ∷ 0xff ∷ 0xff ∷ 0xff ∷ 0xa0
    ∷ 0xb0 ∷ 0xc0 ∷ 0xd0 ∷ 0xe0 ∷ 0xf0 ∷ 0xff ∷ 0xff ∷ 0xff ∷ 0xff ∷ 0xff ∷ 0xff ∷ 0xff ∷ 0xff
    ∷ 0xff ∷ 0xff ∷ 0xff ∷ 0xff ∷ 0xff ∷ 0xff ∷ 0xff ∷ 0xff ∷ 0xff ∷ 0xff ∷ 0xff ∷ 0xff ∷ 0xff
    ∷ 0xff ∷ 0xff ∷ 0xff ∷ 0xff ∷ 0xff ∷ 0xa0 ∷ 0xb0 ∷ 0xc0 ∷ 0xd0 ∷ 0xe0 ∷ 0xf0 ∷ 0xff ∷ 0xff
    ∷ 0xff ∷ 0xff ∷ 0xff ∷ 0xff ∷ 0xff ∷ 0xff ∷ 0xff ∷ 0xff ∷ 0xff ∷ 0xff ∷ 0xff ∷ 0xff ∷ 0xff
    ∷ 0xff ∷ 0xff ∷ 0xff ∷ 0xff ∷ 0xff ∷ 0xff ∷ 0xff ∷ 0xff ∷ 0xff ∷ 0xff ∷ 0xff ∷ 0xff ∷ 0xff
    ∷ 0xff ∷ 0xff ∷ 0xff ∷ 0xff ∷ 0xff ∷ 0xff ∷ 0xff ∷ 0xff ∷ 0xff ∷ 0xff ∷ 0xff ∷ 0xff ∷ 0xff
    ∷ 0xff ∷ 0xff ∷ 0xff ∷ 0xff ∷ 0xff ∷ 0xff ∷ 0xff ∷ 0xff ∷ 0xff ∷ 0xff ∷ 0xff ∷ 0xff ∷ 0xff
    ∷ 0xff ∷ 0xff ∷ 0xff ∷ 0xff ∷ 0xff ∷ 0xff ∷ 0xff ∷ 0xff ∷ 0xff ∷ 0xff ∷ 0xff ∷ 0xff ∷ 0xff
    ∷ 0xff ∷ 0xff ∷ 0xff ∷ 0xff ∷ 0xff ∷ 0xff ∷ 0xff ∷ 0xff ∷ 0xff ∷ 0xff ∷ 0xff ∷ 0xff ∷ 0xff
    ∷ 0xff ∷ 0xff ∷ 0xff ∷ 0xff ∷ 0xff ∷ 0xff ∷ 0xff ∷ 0xff ∷ 0xff ∷ 0xff ∷ 0xff ∷ 0xff ∷ 0xff
    ∷ 0xff ∷ 0xff ∷ 0xff ∷ 0xff ∷ 0xff ∷ 0xff ∷ 0xff ∷ 0xff ∷ 0xff ∷ 0xff ∷ 0xff ∷ 0xff ∷ 0xff
    ∷ 0xff ∷ 0xff ∷ 0xff ∷ 0xff ∷ 0xff ∷ 0xff ∷ 0xff ∷ 0xff ∷ 0xff ∷ 0xff ∷ 0xff ∷ 0xff ∷ 0xff
    ∷ 0xff ∷ 0xff ∷ 0xff ∷ 0xff ∷ 0xff ∷ 0xff ∷ 0xff ∷ 0xff ∷ 0xff ∷ 0xff ∷ 0xff ∷ 0xff ∷ 0xff
    ∷ 0xff ∷ 0xff ∷ 0xff ∷ 0xff ∷ 0xff ∷ 0xff ∷ 0xff ∷ 0xff ∷ 0xff ∷ 0xff ∷ 0xff ∷ 0xff ∷ 0xff
    ∷ 0xff ∷ 0xff ∷ 0xff ∷ 0xff ∷ 0xff ∷ 0xff ∷ 0xff ∷ 0xff ∷ []

unfoldable pub unhex : ℕ → ℕ
unfolding unhex_table
unhex c = get_or unhex_table (c % 256) 0xff

unfoldable pub unhex4 : ℕ → ℕ
unfolding unhex_table4
unhex4 c = get_or unhex_table4 (c % 256) 0xff

unfoldable pub has_prefix : List ℕ → Bool
has_prefix [] = false
has_prefix (a ∷ []) = false
has_prefix (a ∷ b ∷ rest) = (a == 0x30) && ((b == 0x78) || (b == 0x58))

unfoldable pub remove_prefix : List ℕ → List ℕ
unfolding has_prefix
remove_prefix text = if has_prefix text then drop 2 text else text

unfoldable pub hex_digit : ℕ → ℕ
unfolding hex_digits
hex_digit n = get_or hex_digits n 0

unfoldable pub encode_bytes : List ℕ → List ℕ
unfolding hex_digit
encode_bytes [] = []
encode_bytes (b ∷ bs) = hex_digit (b / 16) ∷ hex_digit (b % 16) ∷ encode_bytes bs

unfoldable pub encode : List ℕ → Bool → List ℕ
unfolding encode_bytes
encode bytes true = 0x30 ∷ 0x78 ∷ encode_bytes bytes
encode bytes false = encode_bytes bytes

abbrev pub Decoded : Type 0
Decoded = Outcome EncodingError (List ℕ)

-- `*dst++ = b`, and what the rest of the loop puts behind it.
unfoldable pub put_byte : ℕ → Decoded → Decoded
put_byte b (success out) = success (b ∷ out)
put_byte b (failure e) = failure e

-- The loop over pairs. Its text has an even length: a single character is never left.
unfoldable pub decode_pairs : List ℕ → Decoded
unfolding unhex unhex4 put_byte
decode_pairs [] = success []
decode_pairs (c ∷ []) = success []
decode_pairs (c ∷ d ∷ rest) =
    let others = decode_pairs rest in
    if (unhex4 c == 0xff) || (unhex d == 0xff)
    then failure EncodingError.illegal_hex_digit
    else put_byte (bit_or (unhex4 c) (unhex d)) others

-- The unrolled loop, for as many rounds as there are eight characters, then the loop over pairs.
unfoldable pub decode_rounds : ℕ → List ℕ → Decoded
unfolding decode_pairs
decode_rounds zero text = decode_pairs text
decode_rounds (suc n) (a ∷ b ∷ c ∷ d ∷ e ∷ f ∷ g ∷ h ∷ rest) =
    let others = decode_rounds n rest in
    if (bit_or (bit_or (bit_or (unhex b) (unhex d)) (unhex f)) (unhex h) == 0xff)
      || (bit_or (bit_or (bit_or (unhex4 a) (unhex4 c)) (unhex4 e)) (unhex4 g) == 0xff)
    then failure EncodingError.illegal_hex_digit
    else put_byte (bit_or (unhex4 a) (unhex b)) (
        put_byte (bit_or (unhex4 c) (unhex d))
          (put_byte (bit_or (unhex4 e) (unhex f)) (put_byte (bit_or (unhex4 g) (unhex h)) others)))
decode_rounds (suc n) text = decode_pairs text

-- A first digit without a pair is a byte of its own.
unfoldable pub decode_odd : List ℕ → Decoded
unfolding decode_rounds
decode_odd [] = success []
decode_odd (c ∷ rest) =
    if unhex c == 0xff
    then failure EncodingError.illegal_hex_digit
    else put_byte (unhex c) (decode_rounds (length rest / 8) rest)

unfoldable pub decode_digits : List ℕ → Decoded
unfolding decode_odd
decode_digits text =
    if length text % 2 == 0 then decode_rounds (length text / 8) text else decode_odd text

unfoldable pub decode : List ℕ → Decoded
unfolding remove_prefix decode_digits
decode text = decode_digits (remove_prefix text)

unfoldable pub decode_digit : ℕ → Outcome EncodingError ℕ
decode_digit input =
    if unhex input == 0xff then failure EncodingError.illegal_hex_digit else success (unhex input)

-- The leading zeroes of a view removed.
unfoldable pub zeroless_view : List ℕ → List ℕ
zeroless_view [] = []
zeroless_view (b ∷ bs) = if b == 0 then zeroless_view bs else b ∷ bs
