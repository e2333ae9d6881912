-- ===== src/Node/Peer/Publish/Accepts.antt =====
-- The conditions under which `handle_publish` changes the state.
use feeless.Common.{
  ℕ, ◌-◌, ◌<◌, ◌≡◌, refl, ap, sym, ◌∙◌, Bool, true, false, List, Option, none, some, Result, ok,
  err, panic, Error, ok_or, >>=-eq-ok, arith, inl, inr, ◌⊎◌, ltb→lt, ltb, length,
}
use feeless.Crypto.{Blake2b, Ed25519}
use feeless.Units.Raw
use feeless.Blocks.BlockType
use feeless.Blocks.BlockType.{state}
use feeless.Blocks.Link.{Previous, block, open_previous, unsure}
use feeless.Blocks.StateBlock.{StateBlock, set_link_type, verify_self_signature}
use feeless.Blocks.StateBlock.LinkType.{decided, set_link_type_lem}
use feeless.Blocks.Block.{Block, to_state_block}
use feeless.Node.State.Interface.{State}
use feeless.Node.Peer.Elected.{get_latest_block}
use feeless.Node.Peer.Publish.{
  is_head_of, account_info, account_info_of, previous_as_account_info, change_of,
  process_block_with_previous, process_with, process_previous, process_valid_existing_state_block,
  if_valid, if_new, state_block_handler,
}
use feeless.Node.Peer.Publish.Sound.{
  Stores, process_good_send_sub_block-eq-ok, process_link-eq-ok, to_state_block-balance,
  is_head_of-true,
}

change_amount :
    (x y amount : ℕ)
    → ltb x y ≡ true
    → ok_or (change_of (ltb x y) x y) Error.amount_error ≡ ok amount
    → amount ≡ y - x
unfolding change_of Raw.checked_sub
change_amount x y amount less e =
    let e' : ok_or (change_of true x y) Error.amount_error ≡ ok amount = rw less at e in
    ground arith

module _ {S : Type 0} (store : State S) (h : Blake2b) where
  -- The previous block of an accepted one: it is in the store, the newest of its account, and a
  -- state block.
  pub record Previously (parent : List ℕ) (s : S) : Type 0 where
    pub previous_block : Block
    pub newest : Block
    pub is_known : store.get_block_by_hash parent s ≡ some previous_block
    pub is_newest : get_latest_block store previous_block.account s ≡ some newest
    pub has_hash : newest.hash ≡ some parent
    pub is_state : BlockType.same previous_block.block_type state ≡ true

  -- A send: the balance falls below that of the previous block, the state block is given the link of a
  -- send and the amount that left, and what is stored is the block made of it, which has the link but
  -- no field for the amount.
  pub record Spends (b : StateBlock) (parent : List ℕ) (s t : S) : Type 0 where
    pub before : Previously parent s
    pub linked : StateBlock
    pub falls : b.balance < before.previous_block.balance
    pub is_linked : set_link_type true (before.previous_block.balance - b.balance) b ≡ ok linked
    pub stores : Stores store h linked s t

  account_info-some :
      (head same : Bool) (p : Block) (q : StateBlock)
      → account_info h head same p ≡ ok (some q)
      → (head ≡ true) × (same ≡ true) × (q.balance ≡ p.balance)
  unfolding account_info
  account_info-some true true p q e =
      let (b, made, rest) = >>=-eq-ok (to_state_block h p) _ e in
      let same : b ≡ q = cc in (refl, refl, to_state_block-balance store h p q (made ∙ ap ok same))
  account_info-some false true p q e = cc
  account_info-some true false p q e = cc
  account_info-some false false p q e = cc

  account_info_of-some :
      (known : Option Block) (parent : List ℕ) (s : S) (q : StateBlock)
      → store.get_block_by_hash parent s ≡ known
      → account_info_of store h known parent s ≡ ok (some q)
      → (before : Previously parent s) × (q.balance ≡ before.previous_block.balance)
  unfolding account_info_of
  account_info_of-some none parent s q k e = cc
  account_info_of-some (some p) parent s q k e =
      let (head, headed, rest) =
        >>=-eq-ok (is_head_of (get_latest_block store p.account s) parent) _ e in
      let (is_head, same, balance) = account_info-some head _ p q rest in
      let (newest, is, hash) =
        is_head_of-true store h (get_latest_block store p.account s) parent
          (headed ∙ ap ok is_head) in
      (
        record {
          previous_block = p;
          newest = newest;
          is_known = k;
          is_newest = is;
          has_hash = hash;
          is_state = same;
        },
        balance,
      )

  process_block_with_previous-eq-ok :
      (b q : StateBlock) (bytes parent : List ℕ) (s t : S)
      → b.link ≡ unsure bytes
      → length bytes ≡ 32
      → (before : Previously parent s) → q.balance ≡ before.previous_block.balance
      → process_block_with_previous store h b q s ≡ ok t
      → (t ≡ s) ⊎ Spends b parent s t
  unfolding process_block_with_previous
  process_block_with_previous-eq-ok b q bytes parent s t l n before balance e =
      let (amount, moved, e1) =
        >>=-eq-ok (ok_or (change_of (Raw.lt b.balance q.balance) b.balance q.balance) _) _ e in
      let (linked, set, e2) =
        >>=-eq-ok (set_link_type (Raw.lt b.balance q.balance) amount b) _ e1 in
      let is_send = Raw.lt b.balance q.balance in
      let (b', set', link', _, _, _, _) = set_link_type_lem is_send amount b bytes l n in
      let same : linked ≡ b' = cc in
      let link : linked.link ≡ decided is_send bytes =
        ap (λ (x : StateBlock). x.link) same ∙ link' in
      let (sent, good) = process_link-eq-ok store h is_send linked.link linked bytes s t link e2 in
      elim (process_good_send_sub_block-eq-ok store h linked s t good) [
        | inl unchanged ↦ inl unchanged
        | inr stores ↦
            let left : amount ≡ before.previous_block.balance - b.balance =
              change_amount b.balance q.balance amount sent moved
              ∙ ap (λ (k : ℕ). k - b.balance) balance in
            inr (record {
              before = before;
              linked = linked;
              falls = rw balance at (ltb→lt b.balance q.balance sent);
              is_linked =
                  ap (λ (k : ℕ). set_link_type true k b) (sym left)
                  ∙ ap (λ (k : Bool). set_link_type k amount b) (sym sent)
                  ∙ set;
              stores = stores;
            })
      ]

  process_with-eq-ok :
      (known : Option StateBlock) (b : StateBlock) (bytes parent : List ℕ) (s t : S)
      → b.link ≡ unsure bytes
      → length bytes ≡ 32
      → previous_as_account_info store h parent s ≡ ok known
      → process_with store h known b s ≡ ok t
      → (t ≡ s) ⊎ Spends b parent s t
  unfolding process_with previous_as_account_info
  process_with-eq-ok none b bytes parent s t l n k e = inl cc
  process_with-eq-ok (some q) b bytes parent s t l n k e =
      let (before, balance) =
        account_info_of-some (store.get_block_by_hash parent s) parent s q refl k in
      process_block_with_previous-eq-ok b q bytes parent s t l n before balance e

  process_previous-eq-ok :
      (previous : Previous) (b : StateBlock) (bytes : List ℕ) (s t : S)
      → b.link ≡ unsure bytes
      → length bytes ≡ 32
      → process_previous store h previous b s ≡ ok t
      → (t ≡ s) ⊎ ((parent : List ℕ) × (previous ≡ block parent) × Spends b parent s t)
  unfolding process_previous
  process_previous-eq-ok (block parent) b bytes s t l n e =
      let (known, k, rest) = >>=-eq-ok (previous_as_account_info store h parent s) _ e in
      elim (process_with-eq-ok known b bytes parent s t l n k rest) [
        | inl same ↦ inl same
        | inr spends ↦ inr (parent, refl, spends)
      ]
  process_previous-eq-ok open_previous b bytes s t l n e = cc

  if_new-eq-ok :
      (known : Option Block) (s t : S) (process : Result S)
      → if_new known s process ≡ ok t
      → (t ≡ s) ⊎ ((known ≡ none) × (process ≡ ok t))
  unfolding if_new
  if_new-eq-ok none s t process e = inr (refl, e)
  if_new-eq-ok (some b) s t process e = inl cc

  if_valid-eq-ok :
      (checked : Result (Unit {0})) (s t : S) (process : Result S)
      → if_valid checked s process ≡ ok t
      → (t ≡ s) ⊎ ((checked ≡ ok record {}) × (process ≡ ok t))
  unfolding if_valid
  if_valid-eq-ok (ok u) s t process e = inr (refl, e)
  if_valid-eq-ok (err x) s t process e = inl cc
  if_valid-eq-ok panic s t process e = cc

-- What a published block passed that changed the state: it was new, its signature is that of its
-- account, and it spends from the block that it names as the previous one.
pub record Accepts {S : Type 0} (store : State S) (h : Blake2b) (c : Ed25519) (b : StateBlock)
    (s t : S) : Type 0 where
  pub is_new : store.get_block_by_hash b.hash s ≡ none
  pub is_signed : verify_self_signature c b ≡ ok record {}
  pub parent : List ℕ
  pub has_previous : b.previous ≡ block parent
  pub spends : Spends store h b parent s t

-- A state block from the wire whose handling succeeds leaves the state alone, or it is new, signed
-- by its account, names the newest block of an account and a state block as the previous one, has
-- a smaller balance than that and enough work, and what is added to the store is the block made of
-- it with the link of a send.
pub state_block_handler_sound :
    {S : Type 0} (store : State S) (h : Blake2b) (c : Ed25519) (b : StateBlock) (bytes : List ℕ)
    (s t : S)
    → b.link ≡ unsure bytes
    → length bytes ≡ 32
    → state_block_handler store h c b s ≡ ok t
    → (t ≡ s) ⊎ Accepts store h c b s t
unfolding state_block_handler process_valid_existing_state_block
state_block_handler_sound store h c b bytes s t l n e =
    elim (if_new-eq-ok store h (store.get_block_by_hash b.hash s) s t _ e) [
      | inl same ↦ inl same
      | inr (fresh, e1) ↦ elim (if_valid-eq-ok store h (verify_self_signature c b) s t _ e1) [
        | inl same ↦ inl same
        | inr (signed, e2) ↦ elim (process_previous-eq-ok store h b.previous b bytes s t l n e2) [
          | inl same ↦ inl same
          | inr (parent, named, spends) ↦ inr (record {
            is_new = fresh;
            is_signed = signed;
            parent = parent;
            has_previous = named;
            spends = spends;
          })
        ]
      ]
    ]
