-- ===== src/Node/Messages/Parts.antt =====
-- src/node/cookie.rs, peer_info.rs and timestamp.rs, and the pairs of messages/confirm_req.rs.
use feeless.Common.{
  ℕ, ◌+◌, ◌*◌, ◌/◌, ◌%◌, List, [], ◌∷◌, ◌++◌, Result, ok, ◌>>=◌, ◌>>◌, length, unwrap_some,
  get_elem?,
}
use feeless.Common.Words.{to_le_bytes, from_le_bytes}
use feeless.Bytes.{slice_range}
use feeless.Bytes.Reader.{array}
use feeless.Encoding.{expect_len}

abbrev pub cookie_len : ℕ
cookie_len = 32

-- `Wire::deserialize` of a cookie
unfoldable pub cookie_deserialize : List ℕ → Result (List ℕ)
unfolding array
cookie_deserialize bytes = array cookie_len bytes

-- A socket address: the 16 octets of an IPv6 address and a port.
pub record PeerInfo : Type 0 where
  pub octets : List ℕ
  pub port : ℕ

abbrev pub addr_len : ℕ
addr_len = 16

abbrev pub peer_info_len : ℕ
peer_info_len = 18

unfoldable pub peer_info_serialize : PeerInfo → List ℕ
peer_info_serialize p = p.octets ++ (p.port % 256 ∷ p.port / 256 % 256 ∷ [])

unfoldable pub peer_info_deserialize : List ℕ → Result PeerInfo
unfolding expect_len
peer_info_deserialize bytes = do
  expect_len (length bytes) peer_info_len
  addr ← slice_range bytes 0 addr_len
  low ← unwrap_some (get_elem? bytes addr_len)
  high ← unwrap_some (get_elem? bytes (addr_len + 1))
  ok (record { octets = addr; port = low + high * 256 })

-- `Timestamp`, a `u64` kept as a number.
abbrev pub timestamp_len : ℕ
timestamp_len = 8

unfoldable pub timestamp_to_bytes : ℕ → List ℕ
timestamp_to_bytes t = to_le_bytes timestamp_len t

unfoldable pub timestamp_try_from : List ℕ → Result ℕ
unfolding array
timestamp_try_from value = do fixed ← array timestamp_len value; ok (from_le_bytes fixed)

pub record RootHashPair : Type 0 where
  pub hash : List ℕ
  pub root : List ℕ

abbrev pub root_hash_pair_len : ℕ
root_hash_pair_len = 64

-- `TryFrom<&[u8]> for RootHashPair`
unfoldable pub root_hash_pair_try_from : List ℕ → Result RootHashPair
root_hash_pair_try_from value = do
  expect_len (length value) root_hash_pair_len
  front ← slice_range value 0 32
  hash ← array 32 front
  back ← slice_range value 32 (length value)
  root ← array 32 back
  ok (record { hash = hash; root = root })
