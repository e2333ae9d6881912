-- ===== src/Blocks/Block.antt =====
-- src/blocks/mod.rs: the block of every kind that is stored.
pub mod Hash
use feeless.Common.{
  ℕ, Bool, true, false, List, [], ◌∷◌, Option, none, some, Result, ok, err, panic, ◌>>=◌, ◌>>◌,
  Error, ok_or, unwrap, fail_if, not, if◌then◌else◌,
}
use feeless.Crypto.{Blake2b, Ed25519}
use feeless.Keys.Public
use feeless.Units.Raw.{to_vec}
use feeless.Network.{Network, live, test, beta}
use feeless.Common.Maps.{list_eq}
use feeless.Blocks.BlockType
use feeless.Blocks.BlockType.{
  BlockType, open_block, send, receive, change, state, invalid, not_a_block,
}
use feeless.Blocks.Link.{
  Previous, block, open_previous, previous_to_bytes, Link, source, destination_account, nothing,
  unsure, hash_block,
}
use feeless.Blocks.StateBlock
use feeless.Blocks.StateBlock.{StateBlock, hash_parts}
use feeless.Blocks.SendBlock.{SendBlock, OpenBlock}

pub data ValidationState : Type 0 where
  published presumed_valid valid signature_failed work_failed : ValidationState

pub record Block : Type 0 where
  pub block_type : BlockType
  pub hash : Option (List ℕ)
  pub account : List ℕ
  pub previous : Previous
  pub representative : List ℕ
  pub balance : ℕ
  pub link : Link
  pub signature : Option (List ℕ)
  pub work : Option (List ℕ)
  pub state : ValidationState

-- `Block::source`, on the link that it matches.
unfoldable pub source_of : Link → Result (List ℕ)
source_of (source hash) = ok hash
source_of nothing = err Error.incorrect_link
source_of (unsure bytes) = err Error.incorrect_link
source_of (destination_account key) = err Error.incorrect_link

unfoldable pub block_source : Block → Result (List ℕ)
unfolding source_of
block_source b = do
  fail_if (not (BlockType.same b.block_type open_block)) Error.not_open
  source_of b.link

-- `Block::destination`, on the link that it matches.
unfoldable pub destination_of : Link → Result (List ℕ)
destination_of (destination_account key) = ok key
destination_of nothing = err Error.incorrect_link
destination_of (unsure bytes) = err Error.incorrect_link
destination_of (source hash) = err Error.incorrect_link

unfoldable pub destination : Block → Result (List ℕ)
unfolding destination_of
destination b = do
  fail_if (not (BlockType.same b.block_type send)) Error.not_send
  destination_of b.link

-- The parts that `calc_hash` hashes, by the kind of the block.
unfoldable pub calc_parts : Block → BlockType → Result (List (List ℕ))
calc_parts b open_block = do s ← block_source b; ok (s ∷ b.representative ∷ b.account ∷ [])
calc_parts b send = do
  d ← destination b
  ok (previous_to_bytes b.previous ∷ d ∷ to_vec b.balance ∷ [])
calc_parts b change = ok (previous_to_bytes b.previous ∷ b.representative ∷ [])
calc_parts b receive = do s ← block_source b; ok (previous_to_bytes b.previous ∷ s ∷ [])
calc_parts b state = ok (hash_parts b.account b.previous b.representative b.balance b.link)
calc_parts b invalid = err Error.block_not_hashable
calc_parts b not_a_block = err Error.block_not_hashable

-- `Block::calc_hash`
unfoldable pub calc_hash : Blake2b → Block → Result Block
calc_hash h b = do
  parts ← calc_parts b b.block_type
  hash_result ← hash_block h parts
  ok (record b { hash = some hash_result })

-- `Block::new`, with its `unwrap`.
unfoldable pub new :
    Blake2b → BlockType → List ℕ → Previous → List ℕ → ℕ → Link → ValidationState → Result Block
new h block_type account previous representative balance link validation = unwrap (
    calc_hash h (record {
      block_type = block_type;
      hash = none;
      account = account;
      previous = previous;
      representative = representative;
      balance = balance;
      link = link;
      signature = none;
      work = none;
      state = validation;
    }))

unfoldable pub from_open_block : Blake2b → OpenBlock → Previous → ℕ → Result Block
from_open_block h o previous balance = do
  b ← new h open_block o.account previous o.representative balance (source o.source) valid
  ok (record b { signature = o.signature; work = o.work })

unfoldable pub from_send_block : Blake2b → SendBlock → List ℕ → List ℕ → Result Block
from_send_block h s account representative = do
  b ←
      new h send account (block s.previous) representative s.balance
        (destination_account s.destination) valid
  ok (record b { signature = s.signature; work = s.work })

unfoldable pub from_state_block : Blake2b → StateBlock → Result Block
from_state_block h s = do
  b ← new h state s.account s.previous s.representative s.balance s.link valid
  ok (record b { signature = s.signature; work = s.work })

-- `From<Block> for StateBlock`
unfoldable pub to_state_block : Blake2b → Block → Result StateBlock
to_state_block h b = StateBlock.new h b.account b.previous b.representative b.balance b.link

-- `Block::hash`
unfoldable pub get_hash : Block → Result (List ℕ)
get_hash b = ok_or b.hash Error.block_not_hashable

unfoldable pub set_work : List ℕ → Block → Block
set_work work b = record b { work = some work }

unfoldable pub set_signature : List ℕ → Block → Block
set_signature signature b = record b { signature = some signature }

-- The bytes of the hash that `genesis_hash` writes in hexadecimal.
abbrev pub live_genesis_hash : List ℕ
live_genesis_hash =
    0x99 ∷ 0x1C ∷ 0xF1 ∷ 0x90 ∷ 0x09 ∷ 0x4C ∷ 0x00 ∷ 0xF0 ∷ 0xB6 ∷ 0x8E ∷ 0x2E ∷ 0x5F ∷ 0x75 ∷ 0xF6
    ∷ 0xBE ∷ 0xE9 ∷ 0x5A ∷ 0x2E ∷ 0x0B ∷ 0xD9 ∷ 0x3C ∷ 0xEA ∷ 0xA4 ∷ 0xA6 ∷ 0x73 ∷ 0x4D ∷ 0xB9
    ∷ 0xF1 ∷ 0x9B ∷ 0x72 ∷ 0x89 ∷ 0x48 ∷ []

-- `Network::genesis_hash`, a `todo!()` but for the live network.
unfoldable pub genesis_hash : Network → Result (List ℕ)
genesis_hash live = ok live_genesis_hash
genesis_hash test = panic
genesis_hash beta = panic

unfoldable pub is_genesis : Network → Block → Result Bool
unfolding genesis_hash get_hash list_eq
is_genesis network b = do
  genesis ← genesis_hash network
  hash ← get_hash b
  ok (list_eq genesis hash)

unfoldable pub verify_signature : Ed25519 → List ℕ → Block → Result (Unit {0})
verify_signature c account b = do
  hash ← get_hash b
  signature ← ok_or b.signature Error.signature_missing
  Public.verify c account hash signature

-- `Block::sign`
unfoldable pub sign : Ed25519 → List ℕ → Block → Result Block
sign c private b = do
  hash ← get_hash b
  signature ← Public.sign c private hash
  ok (set_signature signature b)
