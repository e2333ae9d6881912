-- ===== src/Hexify.antt =====
-- src/encoding.rs, the macro `hexify!`: a newtype of `LEN` bytes as hexadecimal text. A newtype is
-- its list of bytes, and a text here the list of its UTF-8 bytes.
pub mod RoundTrip
use feeless.Common.{
  ℕ, ◌+◌, ◌*◌, ◌<◌, ◌≡◌, List, [], ◌∷◌, Option, none, some, Result, ok, err, panic, ◌>>=◌, ◌>>◌,
  Error, ok_or, length,
}
use feeless.Bytes.Reader.{array}
use feeless.Encoding.{expect_len, hex_digit, to_hex, to_hex_lower}

-- `hex::decode` of the `hex` crate, of which the code relies on the digits that it reads: two
-- digits, of either case, are one byte.
pub record Hex : Type 0 where
  pub decode : List ℕ → Option (List ℕ)
  pub decode-nil : decode [] ≡ some []
  pub decode_upper :
      (v w : ℕ) (s bytes : List ℕ)
      → v < 16
      → w < 16
      → decode s ≡ some bytes
      → decode (hex_digit 55 v ∷ hex_digit 55 w ∷ s) ≡ some ((16 * v + w) ∷ bytes)
  pub decode_lower :
      (v w : ℕ) (s bytes : List ℕ)
      → v < 16
      → w < 16
      → decode s ≡ some bytes
      → decode (hex_digit 87 v ∷ hex_digit 87 w ∷ s) ≡ some ((16 * v + w) ∷ bytes)

abbrev pub as_hex : List ℕ → List ℕ
as_hex = to_hex

abbrev pub as_hex_lower : List ℕ → List ℕ
as_hex_lower = to_hex_lower

-- `FromStr` of a newtype with `LEN = len`.
unfoldable pub from_str : Hex → ℕ → List ℕ → Result (List ℕ)
unfolding expect_len array
from_str x len s = do
  expect_len (length s) (len * 2)
  vec ← ok_or (x.decode s) Error.from_hex_error
  array len vec
