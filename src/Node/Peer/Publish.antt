-- ===== src/Node/Peer/Publish.antt =====
-- src/node/peer/messages.rs: a state block that a peer publishes, from `handle_publish` down to
-- `store_block`. The state is read and written under a lock at each call; the calls of one message
-- run in order.
pub mod Sound
pub mod Accepts
pub mod Complete
pub mod Steps
pub mod Finish
pub mod Alone
pub mod Race
pub mod Fork
use feeless.Common.{
  ℕ, Bool, true, false, List, [], ◌∷◌, Option, none, some, Result, ok, err, panic, ◌>>=◌, ◌>>◌,
  Error, ok_or, unwrap, ltb, if◌then◌else◌,
}
use feeless.Common.Maps.{list_eq}
use feeless.Crypto.{Blake2b, Ed25519}
use feeless.Units.Raw
use feeless.Pow.Difficulty.{normal}
use feeless.Pow.Work.{difficulty_block_hash}
use feeless.Blocks.BlockType
use feeless.Blocks.BlockType.{state}
use feeless.Blocks.Link.{
  Previous, block, open_previous, Link, nothing, unsure, source, destination_account,
}
use feeless.Blocks.StateBlock.{StateBlock, set_link_type, verify_self_signature}
use feeless.Blocks.Block.{Block, get_hash, to_state_block, from_state_block}
use feeless.Node.State.Interface.{State}
use feeless.Node.Messages.Holder.{
  BlockHolder, send_holder, receive_holder, open_holder, change_holder, state_holder, Publish,
}
use feeless.Node.Peer.Elected.{get_latest_block}

-- The `map_or` over the newest block of an account.
unfoldable pub is_head_of : Option Block → List ℕ → Result Bool
is_head_of none hash = ok false
is_head_of (some newest) hash = do
  newest_hash ← unwrap (get_hash newest)
  ok (list_eq newest_hash hash)

-- The amount by which the balance changes.
unfoldable pub change_of : Bool → ℕ → ℕ → Option ℕ
change_of true balance before = Raw.checked_sub before balance
change_of false balance before = Raw.checked_sub balance before

module _ (h : Blake2b) where
  -- Only the head of a chain, and only a state block, is supported as a previous block.
  unfoldable pub account_info : Bool → Bool → Block → Result (Option StateBlock)
  account_info true true previous_block = do b ← to_state_block h previous_block; ok (some b)
  account_info false true previous_block = err Error.previous_not_head
  account_info _ false previous_block = err Error.previous_not_supported

module _ {S : Type 0} (store : State S) (h : Blake2b) where
  -- `previous_as_account_info`, on the block that the hash names.
  unfoldable pub account_info_of : Option Block → List ℕ → S → Result (Option StateBlock)
  unfolding is_head_of account_info
  account_info_of none previous_hash s = ok none
  account_info_of (some previous_block) previous_hash s = do
    is_head ← is_head_of (get_latest_block store previous_block.account s) previous_hash
    account_info h is_head (BlockType.same previous_block.block_type state) previous_block

  unfoldable pub previous_as_account_info : List ℕ → S → Result (Option StateBlock)
  unfolding account_info_of
  previous_as_account_info previous_hash s =
      account_info_of (store.get_block_by_hash previous_hash s) previous_hash s

  -- `process_good_send_sub_block`, with `store_block`.
  unfoldable pub process_good_send_sub_block : StateBlock → S → Result S
  process_good_send_sub_block b s = do
    work ← ok_or b.work Error.work_missing
    block_difficulty ← difficulty_block_hash h work b.hash
    if ltb block_difficulty normal
        then ok s
        else (from_state_block h b >>= λ stored. store.add_block stored s)

  -- `match state_block.link`: the branches but one are a `todo!()` or a panic.
  unfoldable pub process_link : Link → StateBlock → S → Result S
  unfolding process_good_send_sub_block
  process_link (destination_account key) b s = process_good_send_sub_block b s
  process_link nothing b s = panic
  process_link (source hash) b s = panic
  process_link (unsure bytes) b s = panic

  unfoldable pub process_block_with_previous : StateBlock → StateBlock → S → Result S
  unfolding change_of process_link
  process_block_with_previous b previous s =
      let is_send = Raw.lt b.balance previous.balance in
      do
        amount ← ok_or (change_of is_send b.balance previous.balance) Error.amount_error
        linked ← set_link_type is_send amount b
        process_link linked.link linked s

  unfoldable pub process_with : Option StateBlock → StateBlock → S → Result S
  process_with none b s = ok s
  process_with (some previous) b s = process_block_with_previous b previous s

  -- `match &state_block.previous`; an open block is a `todo!()`.
  unfoldable pub process_previous : Previous → StateBlock → S → Result S
  unfolding process_with
  process_previous (block previous_hash) b s = do
    maybe_previous_block ← previous_as_account_info previous_hash s
    process_with maybe_previous_block b s
  process_previous open_previous b s = panic

  unfoldable pub process_valid_existing_state_block : StateBlock → S → Result S
  unfolding process_previous
  process_valid_existing_state_block b s = process_previous b.previous b s

-- A block with a bad signature is dropped, and one that is known already.
unfoldable pub if_valid : {S : Type 0} → Result (Unit {0}) → S → Result S → Result S
if_valid (ok u) s process = process
if_valid (err e) s process = ok s
if_valid panic s process = panic

unfoldable pub if_new : {S : Type 0} → Option Block → S → Result S → Result S
if_new none s process = process
if_new (some known) s process = ok s

module _ {S : Type 0} (store : State S) (h : Blake2b) (c : Ed25519) where
  unfoldable pub state_block_handler : StateBlock → S → Result S
  unfolding if_valid if_new process_valid_existing_state_block
  state_block_handler b s =
      if_new (store.get_block_by_hash b.hash s) s
        (if_valid (verify_self_signature c b) s (process_valid_existing_state_block store h b s))

  -- `handle_publish`: the blocks of the other kinds are a `todo!()`.
  unfoldable pub handle_publish : BlockHolder → S → Result S
  unfolding state_block_handler
  handle_publish (state_holder b) s = state_block_handler b s
  handle_publish (send_holder b) s = panic
  handle_publish (receive_holder b) s = panic
  handle_publish (open_holder b) s = panic
  handle_publish (change_holder b) s = panic
