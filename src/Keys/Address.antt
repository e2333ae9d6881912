-- ===== src/Keys/Address.antt =====
-- src/keys/address.rs: the text of an address, to and from a public key.
pub mod Shape
pub mod RoundTrip
pub mod Canonical
pub mod Letters
use feeless.Common.{
  ℕ, ◌+◌, Bool, true, false, List, [], ◌∷◌, ◌++◌, Result, ok, err, panic, ◌>>=◌, ◌>>◌, Error,
  fail_if, not, length, take, drop, replicate, ◌==◌, ◌&&◌, ◌||◌, if◌then◌else◌,
}
use feeless.Common.Maps.{list_eq}
use feeless.Common.Text.{codes}
use feeless.Crypto.{Blake2b}
use feeless.Bytes.{slice_range}
use feeless.Bytes.Reader.{array}
use feeless.Encoding.{encode_nano_base_32, decode_nano_base_32}
use feeless.Encoding.Bits.{from_raw_slice, into_vec}
use feeless.Keys.Public.{public_len, checksum}

abbrev pub prefix_len : ℕ
prefix_len = 5

abbrev pub encoded_public_key_len : ℕ
encoded_public_key_len = 52

abbrev pub encoded_padded_bits : ℕ
encoded_padded_bits = 4

abbrev pub prefix : List ℕ
prefix = codes "nano_"

-- `From<&Public> for Address`
unfoldable pub from_public : Blake2b → List ℕ → Result (List ℕ)
from_public h public = do
  let pad = replicate encoded_padded_bits false
  public_key_part ← encode_nano_base_32 (pad ++ from_raw_slice public)
  sum ← checksum h public
  ok (prefix ++ (public_key_part ++ sum))

unfoldable pub extract_public_key : List ℕ → Result (List ℕ)
extract_public_key address = do
  public_key_part ← slice_range address prefix_len (prefix_len + encoded_public_key_len)
  bits ← decode_nano_base_32 public_key_part
  let public_key_bytes = into_vec (drop encoded_padded_bits bits)
  array public_len public_key_bytes

-- `&self.0[idx..]`
unfoldable pub validate_checksum : Blake2b → List ℕ → List ℕ → Result (Unit {0})
validate_checksum h address public = do
  let idx = prefix_len + encoded_public_key_len
  expected ← slice_range address idx (length address)
  sum ← checksum h public
  fail_if (not (list_eq sum expected)) Error.invalid_checksum

unfoldable pub one_of : List ℕ → ℕ → Bool
one_of [] c = false
one_of (k ∷ class) c = k == c || one_of class c

unfoldable pub all_of : List ℕ → List ℕ → Bool
unfolding one_of
all_of class [] = true
all_of class (c ∷ s) = one_of class c && all_of class s

-- `^nano_[13][13456789abcdefghijkmnopqrstuwxyz]{59}$`
unfoldable pub is_match : List ℕ → Bool
is_match s =
    list_eq (take 5 s) (codes "nano_")
    && length s == 65
    && all_of (codes "13") (take 1 (drop 5 s))
    && all_of (codes "13456789abcdefghijkmnopqrstuwxyz") (drop 6 s)

-- `Address::from_str`
unfoldable pub from_str : Blake2b → List ℕ → Result (List ℕ)
from_str h s = do
  fail_if (not (is_match s)) Error.invalid_address
  public ← extract_public_key s
  validate_checksum h s public
  ok s
