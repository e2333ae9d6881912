-- ===== src/Node/Peer/Publish/Steps.antt =====
-- src/node/peer/messages.rs: `state_block_handler` cut where it waits for the lock of the state. What
-- it does between two locks is one step, so that the handlers of peers that share a state interleave.
use feeless.Common.{
  ℕ, zero, suc, List, Option, none, some, Result, ok, err, panic, ◌>>=◌, Error, ok_or, ltb,
  if◌then◌else◌,
}
use feeless.Crypto.{Blake2b, Ed25519}
use feeless.Units.Raw
use feeless.Pow.Difficulty.{normal}
use feeless.Pow.Work.{difficulty_block_hash}
use feeless.Blocks.BlockType
use feeless.Blocks.BlockType.{state}
use feeless.Blocks.Link.{
  Previous, block, open_previous, Link, nothing, unsure, source, destination_account,
}
use feeless.Blocks.StateBlock.{StateBlock, set_link_type, verify_self_signature}
use feeless.Blocks.Block.{Block, from_state_block}
use feeless.Node.State.Interface.{State}
use feeless.Node.Peer.Publish.{is_head_of, change_of, account_info}

-- What a handler waits for the lock to do, or how it has ended.
pub data Task : Type 0 where
  block_existed : StateBlock → Task
  block_by_hash : StateBlock → List ℕ → Task
  latest_hash : StateBlock → List ℕ → Block → Task
  latest_block : StateBlock → List ℕ → Block → List ℕ → Task
  store_block : Block → Task
  ended : Result (Unit {0}) → Task

module _ (h : Blake2b) where
  -- `process_good_send_sub_block` up to the block that it stores.
  unfoldable pub good_send : StateBlock → Result (Option Block)
  good_send b = do
    work ← ok_or b.work Error.work_missing
    block_difficulty ← difficulty_block_hash h work b.hash
    if ltb block_difficulty normal
        then ok none
        else (do stored ← from_state_block h b; ok (some stored))

  unfoldable pub with_link : Link → StateBlock → Result (Option Block)
  unfolding good_send
  with_link (destination_account key) b = good_send b
  with_link nothing b = panic
  with_link (source hash) b = panic
  with_link (unsure bytes) b = panic

  unfoldable pub with_previous : StateBlock → StateBlock → Result (Option Block)
  unfolding change_of with_link
  with_previous b previous =
      let is_send = Raw.lt b.balance previous.balance in
      do
        amount ← ok_or (change_of is_send b.balance previous.balance) Error.amount_error
        linked ← set_link_type is_send amount b
        with_link linked.link linked

  unfoldable pub with_info : StateBlock → Option StateBlock → Result (Option Block)
  unfolding with_previous
  with_info b none = ok none
  with_info b (some previous) = with_previous b previous

  -- From the newest block of the account of the previous one on.
  unfoldable pub on_head : StateBlock → List ℕ → Block → Option Block → Result (Option Block)
  on_head b previous_hash previous_block newest = do
    is_head ← is_head_of newest previous_hash
    info ← account_info h is_head (BlockType.same previous_block.block_type state) previous_block
    with_info b info

-- The block is stored next, or the handler has ended.
unfoldable pub to_store : Result (Option Block) → Task
to_store (ok none) = ended (ok tt)
to_store (ok (some stored)) = store_block stored
to_store (err e) = ended (err e)
to_store panic = ended panic

unfoldable pub after_signature : Result (Unit {0}) → StateBlock → Previous → Task
after_signature (ok u) b (block previous_hash) = block_by_hash b previous_hash
after_signature (ok u) b open_previous = ended panic
after_signature (err e) b previous = ended (ok tt)
after_signature panic b previous = ended panic

module _ {S : Type 0} (store : State S) (h : Blake2b) (c : Ed25519) where
  unfoldable pub after_existed : Option Block → StateBlock → Task
  unfolding after_signature
  after_existed (some known) b = ended (ok tt)
  after_existed none b = after_signature (verify_self_signature c b) b b.previous

  unfoldable pub after_previous : Option Block → StateBlock → List ℕ → Task
  after_previous none b previous_hash = ended (ok tt)
  after_previous (some previous_block) b previous_hash = latest_hash b previous_hash previous_block

  unfoldable pub after_latest : Option (List ℕ) → StateBlock → List ℕ → Block → Task
  unfolding to_store
  after_latest none b previous_hash previous_block =
      to_store (on_head h b previous_hash previous_block none)
  after_latest (some hash) b previous_hash previous_block =
      latest_block b previous_hash previous_block hash

  -- Adding a block ends the handler; where it fails the state stays.
  unfoldable pub after_store : Result S → S → Task × S
  after_store (ok t) s = (ended (ok tt), t)
  after_store (err e) s = (ended (err e), s)
  after_store panic s = (ended panic, s)

  -- One time under the lock.
  unfoldable pub step : Task → S → Task × S
  unfolding after_existed after_previous after_latest after_store to_store
  step (block_existed b) s = (after_existed (store.get_block_by_hash b.hash s) b, s)
  step (block_by_hash b previous_hash) s =
      (after_previous (store.get_block_by_hash previous_hash s) b previous_hash, s)
  step (latest_hash b previous_hash previous_block) s = (
    after_latest (store.get_latest_block_hash_for_account previous_block.account s) b previous_hash
        previous_block,
    s,
  )
  step (latest_block b previous_hash previous_block hash) s =
      (to_store (on_head h b previous_hash previous_block (store.get_block_by_hash hash s)), s)
  step (store_block stored) s = after_store (store.add_block stored s) s
  step (ended r) s = (ended r, s)

  unfoldable pub steps : ℕ → Task → S → Task × S
  unfolding step
  steps zero task s = (task, s)
  steps (suc n) task s = let (next, t) = step task s in steps n next t
