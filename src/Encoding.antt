-- ===== src/Encoding.antt =====
-- src/encoding.rs: hexadecimal text, the nano base 32 and the length check. A string is the list of
-- its characters' code points, and a `BitSlice<Msb0, u8>` the list of its bits, first bit first.
pub mod Bits
pub mod Base32
use feeless.Common.{
  ℕ, zero, suc, ◌+◌, ◌*◌, ◌/◌, ◌%◌, Bool, true, false, List, [], ◌∷◌, ◌++◌, Option, none, some,
  Result, ok, err, panic, ◌>>=◌, Error, fail_if, ok_or, unwrap_some, length, get_elem?, ◌==◌,
  if◌then◌else◌, not, ltb,
}
use feeless.Common.Text.{codes}
use mathlib.Core.Option

abbrev pub alphabet : List ℕ
alphabet = codes "13456789abcdefghijkmnopqrstuwxyz"

abbrev pub encoding_bits : ℕ
encoding_bits = 5

abbrev pub bit : Bool → ℕ
bit true = 1
bit false = 0

-- `chunk.load_be()` of a chunk of five bits.
unfoldable pub load_be : Bool → Bool → Bool → Bool → Bool → ℕ
load_be a b c d e = 16 * bit a + 8 * bit b + 4 * bit c + 2 * bit d + bit e

-- A slice of `encoding_bits` bits that does not fit panics.
unfoldable pub encode_nano_base_32 : List Bool → Result (List ℕ)
unfolding load_be
encode_nano_base_32 [] = ok []
encode_nano_base_32 (a ∷ b ∷ c ∷ d ∷ e ∷ bits) = do
  char ← unwrap_some (get_elem? alphabet (load_be a b c d e))
  s ← encode_nano_base_32 bits
  ok (char ∷ s)
encode_nano_base_32 (a ∷ bits) = panic

-- `ALPHABET.find(char)`: the position of the first match.
unfoldable pub find : ℕ → List ℕ → Option ℕ
find char [] = none
find char (c ∷ cs) = if c == char then some 0 else Option.map suc (find char cs)

-- `value.view_bits()[8 - ENCODING_BITS..8]`
unfoldable pub view_bits : ℕ → List Bool
view_bits v =
    (v / 16 % 2 == 1) ∷ (v / 8 % 2 == 1) ∷ (v / 4 % 2 == 1) ∷ (v / 2 % 2 == 1) ∷ (v % 2 == 1) ∷ []

unfoldable pub decode_nano_base_32 : List ℕ → Result (List Bool)
unfolding find view_bits
decode_nano_base_32 [] = ok []
decode_nano_base_32 (char ∷ s) = do
  value ← ok_or (find char alphabet) (Error.decoding_error char)
  bits ← decode_nano_base_32 s
  ok (view_bits value ++ bits)

-- The digit that `{:02X}` and `{:02x}` write for a value below 16.
abbrev pub hex_digit : ℕ → ℕ → ℕ
hex_digit letter v = if ltb v 10 then b'0' + v else letter + v

unfoldable pub to_hex : List ℕ → List ℕ
to_hex [] = []
to_hex (byte ∷ bytes) = hex_digit 55 (byte / 16) ∷ hex_digit 55 (byte % 16) ∷ to_hex bytes

unfoldable pub to_hex_lower : List ℕ → List ℕ
to_hex_lower [] = []
to_hex_lower (byte ∷ bytes) =
    hex_digit 87 (byte / 16) ∷ hex_digit 87 (byte % 16) ∷ to_hex_lower bytes

unfoldable pub expect_len : ℕ → ℕ → Result (Unit {0})
expect_len got_len expected_len =
    fail_if (not (got_len == expected_len)) (Error.wrong_length expected_len got_len)
