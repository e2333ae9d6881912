-- ===== src/Keys/Public.antt =====
-- src/keys/public.rs and private.rs: the newtypes of key bytes, signing and checking, and the
-- checksum of an address.
pub mod Laws
use feeless.Common.{
  ℕ, List, Result, ok, err, ◌>>=◌, Error, reverse, if◌then◌else◌, ◌==◌, length, fail_if, not,
}
use feeless.Crypto.{Blake2b, Ed25519}
use feeless.Bytes.Reader.{array}
use feeless.Encoding.{encode_nano_base_32}
use feeless.Encoding.Bits.{from_raw_slice}

-- `Public::LEN` and `ADDRESS_CHECKSUM_LEN`
abbrev pub public_len : ℕ
public_len = 32

abbrev pub address_checksum_len : ℕ
address_checksum_len = 5

abbrev pub signature_len : ℕ
signature_len = 64

abbrev pub private_len : ℕ
private_len = 32

unfoldable pub checksum : Blake2b → List ℕ → Result (List ℕ)
checksum h public =
    let result = h.blake2b address_checksum_len public in
    encode_nano_base_32 (from_raw_slice (reverse result))

-- `Public::verify`, with `dalek_key`.
unfoldable pub verify : Ed25519 → List ℕ → List ℕ → List ℕ → Result (Unit {0})
verify c public message signature =
    if c.is_public_key public
    then fail_if (not (c.verify public message signature)) Error.signature_error
    else err Error.bad_public_key

-- `SecretKey::from_bytes` refuses all but 32 bytes.
unfoldable pub to_ed25519_dalek : List ℕ → Result (List ℕ)
to_ed25519_dalek private =
    if length private == private_len then ok private else err Error.signature_error

-- `Private::to_public`
unfoldable pub to_public : Ed25519 → List ℕ → Result (List ℕ)
unfolding to_ed25519_dalek
to_public c private = do dalek ← to_ed25519_dalek private; ok (c.public_key dalek)

-- `Private::sign`
unfoldable pub sign : Ed25519 → List ℕ → List ℕ → Result (List ℕ)
unfolding to_ed25519_dalek array
sign c private message = do
  dalek ← to_ed25519_dalek private
  array signature_len (c.sign dalek message)
