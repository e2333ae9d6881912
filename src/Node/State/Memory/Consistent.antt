-- ===== src/Node/State/Memory/Consistent.antt =====
-- What holds between the maps of the state in memory.
use feeless.Common.{
  ℕ, ◌≡◌, ◌∙◌, sym, ap, ◌⊎◌, inl, inr, true, false, List, [], ◌∷◌, none, some, ok, ok_or-eq-ok,
  Bool-cases,
}
use feeless.Common.Maps.{
  Map, add, get, insert, get-insert_self, get-insert_ne, bytes_eq, list_eq_iff, list_eq,
}
use feeless.Network.{Network}
use feeless.Blocks.Block.{Block, get_hash}
use feeless.Node.State.Memory
use feeless.Node.State.Memory.{
  MemoryState, added, add_block_ok, add_block, add_peers, add_vote, set_cookie, get_block_by_hash,
  get_latest_block_hash_for_account, account_for_block_hash,
}

-- A block stands under its own hash, and the account of that hash is the block's; every hash that
-- has an account is that of a block; and the newest hash of an account is that of one of its blocks.
pub record Consistent (s : MemoryState) : Type 0 where
  pub named : (hash : List ℕ) (b : Block) → get_block_by_hash hash s ≡ some b → b.hash ≡ some hash
  pub owned :
      (hash : List ℕ) (b : Block)
      → get_block_by_hash hash s ≡ some b
      → account_for_block_hash hash s ≡ some b.account
  pub known :
      (hash account : List ℕ)
      → account_for_block_hash hash s ≡ some account
      → (b : Block) × (get_block_by_hash hash s ≡ some b)
  pub newest :
      (account hash : List ℕ)
      → get_latest_block_hash_for_account account s ≡ some hash
      → (b : Block) × (get_block_by_hash hash s ≡ some b) × (b.account ≡ account)

same_bytes : (j k : List ℕ) → (j ≡ k) ⊎ (¬ (j ≡ k))
same_bytes j k = elim (Bool-cases (list_eq j k)) [
  | inl same ↦ inl ((list_eq_iff j k).0 same)
  | inr other ↦ inr (λ e. let yes_no : true ≡ false = sym ((list_eq_iff j k).1 e) ∙ other in cc)
]

-- What is found in a map with a new entry.
get-insert-some :
    {V : Type 0} (k j : List ℕ) (v w : V) (m : Map (List ℕ) V)
    → get k (insert j v m) ≡ some w
    → ((j ≡ k) × (v ≡ w)) ⊎ ((¬ (j ≡ k)) × (get k m ≡ some w))
get-insert-some k j v w m e = elim (same_bytes j k) [
  | inl same ↦
      let found : get k (insert j v m) ≡ some v = rw same (get-insert_self k v m) in
      let equal : some v ≡ some w = sym found ∙ e in inl (same, cc)
  | inr other ↦ inr (other, sym (get-insert_ne k j v m other) ∙ e)
]

pub new-Consistent : (network : Network) → Consistent (Memory.new network)
unfolding Memory.new get_block_by_hash account_for_block_hash get_latest_block_hash_for_account get
new-Consistent network = record {
  named = λ hash b e. cc;
  owned = λ hash b e. cc;
  known = λ hash account e. cc;
  newest = λ account hash e. cc;
}

-- A hash under which nothing is stored is not one under which a block is.
apart :
    (j k : List ℕ) (b : Block) (m : Map (List ℕ) Block)
    → get j m ≡ none
    → get k m ≡ some b
    → ¬ (j ≡ k)
apart j k b m fresh found same =
    let clash : none ≡ some b = sym fresh ∙ ap (λ (x : List ℕ). get x m) same ∙ found in cc

added-Consistent :
    (b : Block) (s : MemoryState) (hash : List ℕ)
    → b.hash ≡ some hash
    → get hash s.blocks ≡ none
    → Consistent s
    → Consistent (added b hash s)
unfolding get_block_by_hash account_for_block_hash get_latest_block_hash_for_account
added-Consistent b s hash own fresh before = record {
  named = λ k w e. elim (get-insert-some k hash b w s.blocks e) [
    | inl (at, is) ↦ ap (λ (x : Block). x.hash) (sym is) ∙ own ∙ ap some at
    | inr (_, old) ↦ before.named k w old
  ];
  owned = λ k w e. elim (get-insert-some k hash b w s.blocks e) [
    | inl (at, is) ↦
        ap (λ (x : List ℕ). get x (insert hash b.account s.block_hash_to_account)) (sym at)
        ∙ get-insert_self hash b.account s.block_hash_to_account
        ∙ ap (λ (x : Block). some x.account) is
    | inr (other, old) ↦
        get-insert_ne k hash b.account s.block_hash_to_account other ∙ before.owned k w old
  ];
  known = λ k account e. elim (get-insert-some k hash b.account account s.block_hash_to_account e) [
    | inl (at, is) ↦ (
      b,
      ap (λ (x : List ℕ). get x (insert hash b s.blocks)) (sym at)
          ∙ get-insert_self hash b s.blocks,
    )
    | inr (other, old) ↦
        let (w, found) = before.known k account old in
        (w, get-insert_ne k hash b s.blocks other ∙ found)
  ];
  newest = λ account k e. elim (get-insert-some account b.account hash k s.latest_block_hash e) [
    | inl (at, is) ↦ (
      b,
      ap (λ (x : List ℕ). get x (insert hash b s.blocks)) (sym is)
          ∙ get-insert_self hash b s.blocks,
      at,
    )
    | inr (_, old) ↦
        let (w, found, owner) = before.newest account k old in
        (w, get-insert_ne k hash b s.blocks (apart hash k w s.blocks fresh found) ∙ found, owner)
  ];
}

-- A block that is added under a hash that is not known yet keeps the state consistent.
pub add_block-Consistent :
    (b : Block) (s t : MemoryState) (hash : List ℕ)
    → get_hash b ≡ ok hash
    → get_block_by_hash hash s ≡ none
    → add_block b s ≡ ok t
    → Consistent s
    → Consistent t
unfolding get_block_by_hash get_hash
add_block-Consistent b s t hash own fresh e before =
    rw (add_block_ok b s t hash own e)
      (added-Consistent b s hash (ok_or-eq-ok b.hash _ own) fresh before)

-- The cookies, the votes and the peers say nothing of the blocks.
others-Consistent :
    (s : MemoryState) (cookies : Map (List ℕ) (List ℕ)) (votes : Map (List ℕ) (List (List ℕ)))
    (known : List (List ℕ))
    → Consistent s
    → Consistent (record s { cookies = cookies; votes = votes; known = known })
unfolding get_block_by_hash account_for_block_hash get_latest_block_hash_for_account
others-Consistent s cookies votes known before = record {
  named = before.named;
  owned = before.owned;
  known = before.known;
  newest = before.newest;
}

pub add_vote-Consistent :
    (hash representative : List ℕ) (s : MemoryState)
    → Consistent s
    → Consistent (add_vote hash representative s)
unfolding add_vote
add_vote-Consistent hash representative s before = others-Consistent s s.cookies _ s.known before

pub set_cookie-Consistent :
    (address cookie : List ℕ) (s : MemoryState)
    → Consistent s
    → Consistent (set_cookie address cookie s)
unfolding set_cookie
set_cookie-Consistent address cookie s before = others-Consistent s _ s.votes s.known before

pub add_peers-Consistent :
    (addresses : List (List ℕ)) (s : MemoryState)
    → Consistent s
    → Consistent (add_peers addresses s)
unfolding add_peers
add_peers-Consistent [] s before = before
add_peers-Consistent (a ∷ addresses) s before =
    add_peers-Consistent addresses (record s { known = add a s.known })
      (others-Consistent s s.cookies s.votes (add a s.known) before)
