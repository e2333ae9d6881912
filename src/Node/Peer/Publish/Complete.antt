-- ===== src/Node/Peer/Publish/Complete.antt =====
-- Published blocks that meet the conditions of Accepts.
use feeless.Common.{
  ℕ, ◌-◌, ◌<◌, ◌≤◌, ◌≡◌, refl, ap, ◌∙◌, true, List, none, some, ok, ◌>>=◌, arith, lt→ltb, ltb-false,
  length,
}
use feeless.Common.Maps.{list_eq_refl}
use feeless.Crypto.{Blake2b, Ed25519}
use feeless.Pow.Difficulty.{normal}
use feeless.Pow.Work.{difficulty_block_hash}
use feeless.Blocks.Link.{block, unsure, destination_account}
use feeless.Blocks.StateBlock
use feeless.Blocks.StateBlock.{StateBlock, set_link_type, verify_self_signature}
use feeless.Blocks.StateBlock.LinkType.{set_unsure}
use feeless.Blocks.StateBlock.Parse.{new_ok}
use feeless.Blocks.Block.{Block, get_hash, to_state_block, from_state_block}
use feeless.Units.Raw
use feeless.Node.State.Interface.{State}
use feeless.Node.Peer.Publish.{
  is_head_of, account_info, account_info_of, previous_as_account_info, process_good_send_sub_block,
  process_link, change_of, process_block_with_previous, process_with, process_previous,
  process_valid_existing_state_block, if_valid, if_new, state_block_handler,
}
use feeless.Node.Peer.Publish.Accepts.{Previously}

pub is_head :
    (newest : Block) (parent : List ℕ)
    → newest.hash ≡ some parent
    → is_head_of (some newest) parent ≡ ok true
unfolding is_head_of get_hash
is_head newest parent e = rw (e, ◌>>=◌) (rw (list_eq_refl parent))

module _ {S : Type 0} (store : State S) (h : Blake2b) where
  account_info_made :
      (p : Block) {q : StateBlock}
      → to_state_block h p ≡ ok q
      → q.balance ≡ p.balance
      → (q' : StateBlock) × (account_info h true true p ≡ ok (some q')) × (q'.balance ≡ p.balance)
  unfolding account_info
  account_info_made p {q} made balance = (q, rw (made, ◌>>=◌), balance)

  pub account_info-head :
      (p : Block)
      → (q : StateBlock) × (account_info h true true p ≡ ok (some q)) × (q.balance ≡ p.balance)
  unfolding to_state_block
  account_info-head p =
      account_info_made p (new_ok h p.account p.previous p.representative p.balance p.link) refl

  found :
      (parent : List ℕ) (s : S) (before : Previously store h parent s)
      → (q : StateBlock) × (previous_as_account_info store h parent s ≡ ok (some q))
        × (q.balance ≡ before.previous_block.balance)
  unfolding previous_as_account_info account_info_of
  found parent s before =
      let (q, info, balance) = account_info-head before.previous_block in
      (
        q,
        rw before.is_known (
            rw before.is_newest
              (rw (is_head before.newest parent before.has_hash, ◌>>=◌) (rw before.is_state info))),
        balance,
      )

  -- The block that is stored: a send of the difference.
  abbrev pub as_send : StateBlock → List ℕ → ℕ → StateBlock
  as_send b bytes amount = record b { link = destination_account bytes; amount = some amount }

  good :
      (b : StateBlock) (work : List ℕ) (d : ℕ) (s : S)
      → b.work ≡ some work
      → difficulty_block_hash h work b.hash ≡ ok d
      → normal ≤ d
      → process_good_send_sub_block store h b s
        ≡ (from_state_block h b >>= λ stored. store.add_block stored s)
  unfolding process_good_send_sub_block
  good b work d s w r e = rw (w, ◌>>=◌) (rw (r, ◌>>=◌) (rw (ltb-false d normal e)))

  spend :
      (b q : StateBlock) (bytes work : List ℕ) (d : ℕ) (s : S)
      → b.link ≡ unsure bytes
      → length bytes ≡ 32
      → b.balance < q.balance
      → b.work ≡ some work
      → difficulty_block_hash h work b.hash ≡ ok d
      → normal ≤ d
      → process_block_with_previous store h b q s ≡ (
          from_state_block h (as_send b bytes (q.balance - b.balance)) >>= λ stored.
          store.add_block stored s)
  unfolding process_block_with_previous change_of Raw.checked_sub set_link_type process_link
  spend b q bytes work d s l n less w r e =
      let amount = q.balance - b.balance in
      let linked = ap (StateBlock.set_link true amount b) l ∙ set_unsure true amount b bytes n in
      rw (lt→ltb b.balance q.balance less) (
        rw (ltb-false q.balance b.balance (omega arith))
          (rw (linked, ◌>>=◌) (good (as_send b bytes amount) work d s w r e)))

-- A state block that is new, signed by its account, a send from the newest block of an account that
-- is a state block, and has enough work, is given the link of a send and the difference as its
-- amount, and the block made of it is stored, with whatever becomes of adding it. That the previous block is one of the signer's account is not asked.
pub state_block_handler_stores :
    {S : Type 0} (store : State S) (h : Blake2b) (c : Ed25519) (b : StateBlock)
    (bytes work parent : List ℕ) (d : ℕ) (s : S)
    → b.link ≡ unsure bytes
    → length bytes ≡ 32
    → store.get_block_by_hash b.hash s ≡ none
    → verify_self_signature c b ≡ ok record {}
    → b.previous ≡ block parent
    → (before : Previously store h parent s) → b.balance < before.previous_block.balance
    → b.work ≡ some work
    → difficulty_block_hash h work b.hash ≡ ok d
    → normal ≤ d
    → state_block_handler store h c b s ≡ (
        from_state_block h (as_send store h b bytes (before.previous_block.balance - b.balance))
        >>= λ stored. store.add_block stored s)
unfolding state_block_handler if_new if_valid process_valid_existing_state_block process_previous
    process_with
state_block_handler_stores store h c b bytes work parent d s l n fresh signed p before less w r e =
    let (q, info, balance) = found store h parent s before in
    let less' : b.balance < q.balance = rw balance less in
    let spent = spend store h b q bytes work d s l n less' w r e in
    rw fresh (
      rw signed (
        rw (ap (λ (k : _). process_previous store h k b s) p) (
          rw (info, ◌>>=◌)
            (spent
              ∙ ap
                  (λ (k : ℕ).
                    from_state_block h (as_send store h b bytes (k - b.balance)) >>= λ stored.
                    store.add_block stored s)
                  balance))))
