-- ===== src/Node/Peer/Elected.antt =====
-- src/node/peer/blocks.rs and genesis.rs, and `account_balance` of mod.rs: adding blocks that the
-- votes have chosen.
pub mod Lattice
use feeless.Common.{
  ℕ, Bool, true, false, List, [], ◌∷◌, Option, none, some, Result, ok, err, panic, ◌>>=◌, ◌>>◌,
  Error, fail_if, ok_or, not,
}
use feeless.Crypto.{Blake2b, Ed25519}
use feeless.Network.{Network}
use feeless.Units.Raw
use feeless.Blocks.BlockType.{
  BlockType, invalid, not_a_block, send, receive, open_block, change, state,
}
use feeless.Blocks.Link.{Previous, block, open_previous}
use feeless.Blocks.Block.{Block, get_hash, verify_signature, destination, is_genesis}
use feeless.Node.State.Interface.{State}
use feeless.Node.Messages.Votes.{ConfirmAck}

abbrev pub is_some : {A : Type 0} → Option A → Bool
is_some none = false
is_some (some a) = true

-- `match block.previous()` of a send block.
unfoldable pub previous_hash_of : Previous → Result (List ℕ)
previous_hash_of (block hash) = ok hash
previous_hash_of open_previous = err Error.blank_previous

module _ {S : Type 0} (store : State S) (c : Ed25519) (network : Network) where
  -- The branch of a send block.
  unfoldable pub check_send : Block → S → Result (Unit {0})
  unfolding previous_hash_of
  check_send b s = do
    previous_hash ← previous_hash_of b.previous
    prev_block ← ok_or (store.get_block_by_hash previous_hash s) Error.previous_not_found
    fail_if (Raw.ge b.balance prev_block.balance) Error.balance_increase
    to_account ← destination b
    amount ← ok_or (Raw.checked_sub prev_block.balance b.balance) Error.amount_error
    ok record {}

  -- The branch of an open block.
  unfoldable pub check_open : Block → Result (Unit {0})
  check_open b = do genesis ← is_genesis network b; ok record {}

  -- `match block.block_type()`
  unfoldable pub check_type : BlockType → Block → S → Result (Unit {0})
  unfolding check_send check_open
  check_type send b s = check_send b s
  check_type open_block b s = check_open b
  check_type invalid b s = panic
  check_type not_a_block b s = panic
  check_type receive b s = panic
  check_type change b s = panic
  check_type state b s = panic

  unfoldable pub add_elected_block : Block → S → Result S
  unfolding check_type
  add_elected_block b s = do
    block_hash ← get_hash b
    fail_if (is_some (store.get_block_by_hash block_hash s)) Error.block_exists
    verify_signature c b.account b
    fail_if (not (is_some b.work)) Error.work_missing
    check_type b.block_type b s
    store.add_block b s

-- `get_latest_block`
unfoldable pub get_latest_block : {S : Type 0} → State S → List ℕ → S → Option Block
get_latest_block store account s = elim (store.get_latest_block_hash_for_account account s) [
  | none ↦ none
  | some block_hash ↦ store.get_block_by_hash block_hash s
]

-- `account_balance`
unfoldable pub account_balance : {S : Type 0} → State S → List ℕ → S → ℕ
account_balance store account s = elim (get_latest_block store account s) [
  | none ↦ Raw.zero_raw
  | some b ↦ b.balance
]

-- `add_vote`, whose `validate_vote` is still to do in the program: one vote for each hash.
unfoldable pub add_votes : {S : Type 0} → State S → List ℕ → List (List ℕ) → S → S
add_votes store account [] s = s
add_votes store account (hash ∷ hashes) s =
    add_votes store account hashes (store.add_vote hash account s)
