-- ===== src/Tests/Text.antt =====
-- Examples of addresses, encodings and amounts.
use feeless.Common.{
  ℕ, ◌≡◌, ◌∙◌, ◌<◌, ◌+◌, ◌-◌, ◌^◌, ◌>>=◌, refl, Bool, true, false, List, [], ◌∷◌, Option, none,
  some, Result, ok, err, panic, Error, length, replicate, arith, All-replicate,
}
use feeless.Common.Words.{IsByte}
use feeless.Common.Text.{codes}
use feeless.Encoding.{encode_nano_base_32, decode_nano_base_32}
use feeless.Encoding.Base32.{}
use feeless.Keys.Address.{from_public, extract_public_key, from_str}
use feeless.Keys.Address.RoundTrip.{from_str-from_public}
use feeless.Keys.Address.Canonical.{from_public-from_str}
use feeless.Units.Raw.Decimal
use feeless.Common.Text.{decimal}
use feeless.Tests.Instances.{blake, the_key}

abbrev the_address : List ℕ
the_address = codes "nano_13161i41a3161i41a3161i41a3161i41a3161i41a3161i41a316zzzzzzzz"

accepted : from_str blake the_address ≡ ok the_address
unfolding from_str feeless.Keys.Address.is_match feeless.Common.Maps.list_eq
    feeless.Keys.Address.all_of extract_public_key feeless.Bytes.slice_range decode_nano_base_32
    feeless.Bytes.Reader.array feeless.Encoding.Bits.into_vec feeless.Keys.Address.validate_checksum
    feeless.Keys.Public.checksum encode_nano_base_32 feeless.Encoding.Bits.from_raw_slice
accepted = refl

from_str-from_public_example :
    (address : List ℕ) × (from_public blake the_key ≡ ok address)
    × (from_str blake address ≡ ok address)
    × (extract_public_key address ≡ ok the_key)
    × (length address ≡ 65)
from_str-from_public_example =
    from_str-from_public blake the_key refl (All-replicate IsByte 32 4 (omega arith))

from_public-from_str_example :
    (public : List ℕ) × (the_address ≡ the_address)
    × (extract_public_key the_address ≡ ok public)
    × (from_public blake public ≡ ok the_address)
from_public-from_str_example = from_public-from_str blake the_address the_address accepted

abbrev ten_bits : List Bool
ten_bits = true ∷ false ∷ false ∷ true ∷ true ∷ false ∷ true ∷ false ∷ true ∷ false ∷ []

ten_spelled :
    (Decimal.to_string 10 ≡ codes "10")
    × (Decimal.from_str (codes "+10") ≡ ok 10)
    × (Decimal.from_str (codes "+") ≡ err Error.parse_int_error)
unfolding Decimal.to_string Decimal.from_str decimal Decimal.parse_signed Decimal.parse_digits
    Decimal.push_digit Decimal.digit
ten_spelled = (refl, refl, refl)
