-- ===== src/Node/Peer/Publish/Sound.antt =====
-- What holds of a published block that changes the state of the node.
use feeless.Common.{
  ℕ, ◌≤◌, ◌≡◌, refl, ap, sym, ◌∙◌, Bool, true, false, List, Option, none, some, Result, ok, panic,
  ◌>>=◌, Error, ok_or, >>=-eq-ok, ok_or-eq-ok, arith, Bool-cases, inl, inr, ◌⊎◌, ltb, if◌then◌else◌,
  unwrap,
}
use feeless.Crypto.{Blake2b}
use feeless.Pow.Difficulty.{normal}
use feeless.Pow.Work.{difficulty_block_hash}
use feeless.Blocks.Link.{Link, nothing, source}
use feeless.Common.Maps.{list_eq→eq}
use feeless.Blocks.Link.{is_all_zeros, hash_block}
use feeless.Blocks.StateBlock
use feeless.Blocks.StateBlock.LinkType.{decided}
use feeless.Blocks.StateBlock.{StateBlock, set_link_type, verify_self_signature}
use feeless.Blocks.Block.{Block, get_hash, to_state_block, from_state_block}
use feeless.Node.State.Interface.{State}
use feeless.Node.Peer.Publish.{is_head_of, process_good_send_sub_block, process_link}

reaches : (a b : ℕ) → ltb a b ≡ false → b ≤ a
reaches a b e = ground arith

unwrap_hash :
    (o : Option (List ℕ)) (hash : List ℕ)
    → unwrap (ok_or o Error.block_not_hashable) ≡ ok hash
    → o ≡ some hash
unwrap_hash none hash e = cc
unwrap_hash (some found) hash e = cc

-- The balance of a block, where there is one.
abbrev balance_or : Result StateBlock → ℕ
balance_or (ok b) = b.balance
balance_or _ = 0

module _ {S : Type 0} (store : State S) (h : Blake2b) where
  -- The work of a block whose difficulty reaches the threshold, and what is stored for it.
  pub record Stores (b : StateBlock) (s t : S) : Type 0 where
    pub stored : Block
    pub work : List ℕ
    pub reached : ℕ
    pub has_work : b.work ≡ some work
    pub has_difficulty : difficulty_block_hash h work b.hash ≡ ok reached
    pub is_enough : normal ≤ reached
    pub from_block : from_state_block h b ≡ ok stored
    pub is_added : store.add_block stored s ≡ ok t

  enough :
      (b : StateBlock) (s t : S) (work : List ℕ) (d : ℕ) (low : Bool)
      → b.work ≡ some work
      → difficulty_block_hash h work b.hash ≡ ok d
      → ltb d normal ≡ low
      → (if low then ok s else (from_state_block h b >>= λ stored. store.add_block stored s)) ≡ ok t
      → (t ≡ s) ⊎ Stores b s t
  enough b s t work d true w r l e = inl cc
  enough b s t work d false w r l e =
      let (stored, f, added) = >>=-eq-ok (from_state_block h b) _ e in
      inr (record {
        stored = stored;
        work = work;
        reached = d;
        has_work = w;
        has_difficulty = r;
        is_enough = reaches d normal l;
        from_block = f;
        is_added = added;
      })

  pub process_good_send_sub_block-eq-ok :
      (b : StateBlock) (s t : S)
      → process_good_send_sub_block store h b s ≡ ok t
      → (t ≡ s) ⊎ Stores b s t
  unfolding process_good_send_sub_block
  process_good_send_sub_block-eq-ok b s t e =
      let (work, w, e1) = >>=-eq-ok (ok_or b.work _) _ e in
      let (d, reached, e2) = >>=-eq-ok (difficulty_block_hash h work b.hash) _ e1 in
      enough b s t work d _ (ok_or-eq-ok _ _ w) reached refl e2

  -- A link that is decided leads on only for a send.
  pub process_link-eq-ok :
      (is_send : Bool) (link : Link) (linked : StateBlock) (bytes : List ℕ) (s t : S)
      → link ≡ decided is_send bytes
      → process_link store h link linked s ≡ ok t
      → (is_send ≡ true) × (process_good_send_sub_block store h linked s ≡ ok t)
  unfolding process_link
  process_link-eq-ok true link linked bytes s t l e =
      (refl, ap (λ (k : Link). process_link store h k linked s) (sym l) ∙ e)
  process_link-eq-ok false link linked bytes s t l e = elim (Bool-cases (is_all_zeros bytes)) [
    | inl zeros ↦
        let l' : link ≡ nothing = rw zeros at l in
        let no : panic ≡ ok t = ap (λ (k : Link). process_link store h k linked s) (sym l') ∙ e in
        cc
    | inr other ↦
        let l' : link ≡ source bytes = rw other at l in
        let no : panic ≡ ok t = ap (λ (k : Link). process_link store h k linked s) (sym l') ∙ e in
        cc
  ]

  pub to_state_block-balance :
      (p : Block) (q : StateBlock) → to_state_block h p ≡ ok q → q.balance ≡ p.balance
  unfolding to_state_block StateBlock.new
  to_state_block-balance p q e =
      let (hash, hashed, rest) = >>=-eq-ok (hash_block h _) _ e in ap balance_or (sym rest)

  pub is_head_of-true :
      (newest : Option Block) (hash : List ℕ)
      → is_head_of newest hash ≡ ok true
      → (b : Block) × (newest ≡ some b) × (b.hash ≡ some hash)
  unfolding is_head_of get_hash
  is_head_of-true none hash e = cc
  is_head_of-true (some b) hash e =
      let (found, named, same) = >>=-eq-ok (unwrap (get_hash b)) _ e in
      (b, refl, unwrap_hash b.hash found named ∙ ap some (list_eq→eq found hash (ground arith)))
