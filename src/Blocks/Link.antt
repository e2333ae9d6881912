-- ===== src/Blocks/Link.antt =====
-- src/blocks/: block hashes, the previous block and the link of a block, and hashing in parts.
pub mod Laws
pub mod Text
use feeless.Common.{
  ℕ, Bool, true, false, List, [], ◌∷◌, ◌++◌, Result, ok, err, panic, ◌>>=◌, Error, replicate, ◌==◌,
  ◌&&◌, unwrap, if◌then◌else◌, length,
}
use feeless.Crypto.{Blake2b}
use feeless.Bytes.Reader.{array}

-- `BlockHash::LEN` and `Link::LEN`
abbrev pub block_hash_len : ℕ
block_hash_len = 32

abbrev pub zero_hash : List ℕ
zero_hash = replicate block_hash_len 0

-- `iter().all(|&b| b == 0)`
unfoldable pub is_all_zeros : List ℕ → Bool
is_all_zeros [] = true
is_all_zeros (b ∷ bytes) = b == 0 && is_all_zeros bytes

pub data Previous : Type 0 where
  block : List ℕ → Previous
  open_previous : Previous

-- `Previous::to_bytes`
unfoldable pub previous_to_bytes : Previous → List ℕ
previous_to_bytes (block b) = b
previous_to_bytes open_previous = zero_hash

-- `TryFrom<&[u8]> for Previous`
unfoldable pub previous_try_from : List ℕ → Result Previous
previous_try_from bytes =
    if is_all_zeros bytes
    then ok open_previous
    else (do hash ← array block_hash_len bytes; ok (block hash))

pub data Link : Type 0 where
  nothing : Link
  unsure : List ℕ → Link
  source : List ℕ → Link
  destination_account : List ℕ → Link

-- `Link::as_bytes`
unfoldable pub link_as_bytes : Link → List ℕ
link_as_bytes nothing = replicate block_hash_len 0
link_as_bytes (source hash) = hash
link_as_bytes (destination_account key) = key
link_as_bytes (unsure b) = b

unfoldable pub concat : List (List ℕ) → List ℕ
concat [] = []
concat (part ∷ parts) = part ++ concat parts

-- `hash_block`, with its `unwrap`.
unfoldable pub hash_block : Blake2b → List (List ℕ) → Result (List ℕ)
hash_block h parts = unwrap (array block_hash_len (h.blake2b block_hash_len (concat parts)))
