-- ===== src/Node/Extensions.antt =====
-- src/node/header.rs: the two extension bytes. Bits are counted from the lowest bit of the first
-- byte (`Lsb0`), so bits 8 to 15 are the second byte.
pub mod Flags
use feeless.Common.{
  ℕ, ◌+◌, ◌*◌, ◌/◌, ◌%◌, Bool, List, Result, ok, err, panic, ◌>>=◌, ◌>>◌, Error, length, ◌==◌,
  unwrap_some, get_elem?,
}
use feeless.Encoding.{expect_len}
use feeless.Blocks.BlockType
use feeless.Blocks.BlockType.{BlockType}

pub record Extensions : Type 0 where
  pub first : ℕ
  pub second : ℕ

abbrev pub extensions_len : ℕ
extensions_len = 2

unfoldable pub new : Extensions
new = record { first = 0; second = 0 }

-- `set(Self::QUERY, true)`: bit 0.
unfoldable pub query : Extensions → Extensions
query e = record e { first = e.first / 2 * 2 + 1 }

unfoldable pub is_query : Extensions → Bool
is_query e = e.first % 2 == 1

-- `set(Self::RESPONSE, true)`: bit 1.
unfoldable pub response : Extensions → Extensions
response e = record e { first = e.first / 4 * 4 + 2 + e.first % 2 }

unfoldable pub is_response : Extensions → Bool
is_response e = e.first / 2 % 2 == 1

-- Bits 12 to 15.
unfoldable pub item_count : Extensions → ℕ
item_count e = e.second / 16 % 16

-- Bits 8 to 11.
unfoldable pub block_type : Extensions → Result BlockType
block_type e = BlockType.try_from (e.second % 16)

-- `TryFrom<&[u8]>`
unfoldable pub try_from : List ℕ → Result Extensions
unfolding expect_len
try_from value = do
  expect_len (length value) extensions_len
  first ← unwrap_some (get_elem? value 0)
  second ← unwrap_some (get_elem? value 1)
  ok (record { first = first; second = second })
