-- ===== src/Node/Peer/Publish/Finish.antt =====
-- What a handler decides to store, against the state that `state_block_handler` leaves.
use feeless.Common.{
  ℕ, ◌≡◌, ◌∙◌, refl, sym, ap, Bool, true, false, List, Option, none, some, Result, ok, err, panic,
  ◌>>=◌, >>=-assoc, Error, ok_or, ltb, if◌then◌else◌,
}
use feeless.Crypto.{Blake2b}
use feeless.Units.Raw
use feeless.Pow.Difficulty.{normal}
use feeless.Pow.Work.{difficulty_block_hash}
use feeless.Blocks.BlockType
use feeless.Blocks.BlockType.{state}
use feeless.Blocks.Link.{Link, nothing, unsure, source, destination_account}
use feeless.Blocks.StateBlock.{StateBlock, set_link_type}
use feeless.Blocks.Block.{Block, from_state_block}
use feeless.Node.State.Interface.{State}
use feeless.Node.Peer.Publish.{
  is_head_of, change_of, account_info, process_good_send_sub_block, process_link,
  process_block_with_previous, process_with,
}
use feeless.Node.Peer.Publish.Steps.{good_send, with_link, with_previous, with_info, on_head}

>>=-same :
    {A B : Type 0} (m : Result A) {f g : A → Result B}
    → ((a : A) → f a ≡ g a)
    → (m >>= f) ≡ (m >>= g)
>>=-same (ok a) same = same a
>>=-same (err e) same = refl
>>=-same panic same = refl

module _ {S : Type 0} (store : State S) (s : S) where
  -- The state behind what the handler decides to store.
  unfoldable pub finish : Result (Option Block) → Result S
  finish (ok none) = ok s
  finish (ok (some stored)) = store.add_block stored s
  finish (err e) = err e
  finish panic = panic

  finish-bind :
      {A : Type 0} (m : Result A) (f : A → Result (Option Block))
      → finish (m >>= f) ≡ (m >>= λ a. finish (f a))
  unfolding finish
  finish-bind (ok a) f = refl
  finish-bind (err e) f = refl
  finish-bind panic f = refl

  finish-if :
      (test : Bool) (a b : Result (Option Block))
      → finish (if test then a else b) ≡ (if test then finish a else finish b)
  finish-if true a b = refl
  finish-if false a b = refl

  module _ (h : Blake2b) where
    finish-good_send :
        (b : StateBlock) → finish (good_send h b) ≡ process_good_send_sub_block store h b s
    unfolding good_send process_good_send_sub_block
    finish-good_send b =
        finish-bind (ok_or b.work Error.work_missing) _
        ∙ >>=-same (ok_or b.work Error.work_missing) (λ work.
          finish-bind (difficulty_block_hash h work b.hash) _
          ∙ >>=-same (difficulty_block_hash h work b.hash) (λ d.
            finish-if (ltb d normal) (ok none) _
            ∙ ap (λ (r : Result S). if ltb d normal then finish (ok none) else r)
                (finish-bind (from_state_block h b) _)
            ∙ unfold finish in refl))

    finish-with_link :
        (l : Link) (b : StateBlock) → finish (with_link h l b) ≡ process_link store h l b s
    unfolding with_link process_link
    finish-with_link (destination_account key) b = finish-good_send b
    finish-with_link nothing b = unfold finish in refl
    finish-with_link (source hash) b = unfold finish in refl
    finish-with_link (unsure bytes) b = unfold finish in refl

    finish-with_info :
        (b : StateBlock) (info : Option StateBlock)
        → finish (with_info h b info) ≡ process_with store h info b s
    unfolding with_info process_with with_previous process_block_with_previous
    finish-with_info b none = unfold finish in refl
    finish-with_info b (some previous) =
        let is_send = Raw.lt b.balance previous.balance in
        finish-bind (ok_or (change_of is_send b.balance previous.balance) Error.amount_error) _
        ∙ >>=-same (ok_or (change_of is_send b.balance previous.balance) Error.amount_error)
            (λ amount.
              finish-bind (set_link_type is_send amount b) _
              ∙ >>=-same (set_link_type is_send amount b)
                  (λ linked. finish-with_link linked.link linked))

    -- All of the handler behind the block that the previous hash names.
    pub finish-on_head :
        (b : StateBlock) (previous_hash : List ℕ) (previous_block : Block) (newest : Option Block)
        → finish (on_head h b previous_hash previous_block newest) ≡ (
            (is_head_of newest previous_hash >>= λ is_head.
            account_info h is_head (BlockType.same previous_block.block_type state) previous_block)
            >>= λ info. process_with store h info b s)
    unfolding on_head
    finish-on_head b previous_hash previous_block newest =
        let info = λ (is_head : Bool).
          account_info h is_head (BlockType.same previous_block.block_type state) previous_block in
        finish-bind (is_head_of newest previous_hash) _
        ∙ (>>=-same (is_head_of newest previous_hash) (λ is_head.
              finish-bind (info is_head) _
              ∙ >>=-same (info is_head) (λ known. finish-with_info b known))
            ∙ sym (
                >>=-assoc (is_head_of newest previous_hash) info
                  (λ known. process_with store h known b s)))
