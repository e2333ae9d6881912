-- ===== src/Blocks/Block/Hash.antt =====
-- Which blocks have a hash, their state blocks and their signatures.
use feeless.Common.{
  ℕ, ◌≡◌, refl, sym, ap, ◌∙◌, Bool, true, false, List, none, some, ok, panic, ◌>>=◌, length, eq→==,
  unwrap,
}
use feeless.Crypto.{Blake2b, Ed25519}
use feeless.Keys.Public
use feeless.Blocks.BlockType
use feeless.Blocks.BlockType.{
  BlockType, open_block, send, receive, change, state, invalid, not_a_block,
}
use feeless.Blocks.Link.{Previous, Link, source, destination_account, nothing, unsure, concat}
use feeless.Blocks.Link.Laws.{hash_block_ok, array_ok}
use feeless.Blocks.StateBlock.{StateBlock, hash_parts}
use feeless.Blocks.StateBlock.Parse.{new_ok}
use feeless.Blocks.Block.{
  Block, ValidationState, valid, new, calc_hash, calc_parts, block_source, destination,
  from_state_block, to_state_block, sign, verify_signature, get_hash, set_signature,
}

-- The kinds and links that can be hashed: an open block with a source, a send block with a
-- destination, and change and state blocks.
abbrev pub hashable : BlockType → Link → Bool
hashable open_block (source hash) = true
hashable send (destination_account key) = true
hashable change link = true
hashable state link = true
hashable _ _ = false

-- A block whose parts are known gets the hash of them.
calc_hash_ok :
    (h : Blake2b) (b : Block) {parts : List (List ℕ)}
    → calc_parts b b.block_type ≡ ok parts
    → calc_hash h b ≡ ok (record b { hash = some (h.blake2b 32 (concat parts)) })
unfolding calc_hash
calc_hash_ok h b {parts} e = rw (e, ◌>>=◌) (rw (hash_block_ok h parts))

module _ (h : Blake2b) (account : List ℕ) (previous : Previous) (representative : List ℕ)
    (balance : ℕ) (validation : ValidationState) where
  unhashed : BlockType → Link → Block
  unhashed block_type link = record {
    block_type = block_type;
    hash = none;
    account = account;
    previous = previous;
    representative = representative;
    balance = balance;
    link = link;
    signature = none;
    work = none;
    state = validation;
  }

  Makes : BlockType → Link → Type 0
  Makes block_type link =
      (b : Block) × (hash : List ℕ) × (new h block_type account previous representative balance link
          validation
        ≡ ok b)
      × (b.hash ≡ some hash)
      × (length hash ≡ 32)

  made :
      (block_type : BlockType) (link : Link) {parts : List (List ℕ)}
      → calc_parts (unhashed block_type link) block_type ≡ ok parts
      → Makes block_type link
  unfolding new unhashed Makes
  made block_type link {parts} e = (
    record (unhashed block_type link) { hash = some (h.blake2b 32 (concat parts)) },
    h.blake2b 32 (concat parts),
    ap unwrap (calc_hash_ok h (unhashed block_type link) e),
    refl,
    h.length-blake2b 32 (concat parts),
  )

  new_cases :
      (block_type : BlockType) (link : Link)
      → (hashable block_type link ≡ true
          → (b : Block) × (hash : List ℕ) × (new h block_type account previous representative
                balance link validation
              ≡ ok b)
            × (b.hash ≡ some hash)
            × (length hash ≡ 32))
        × (hashable block_type link ≡ false
            → new h block_type account previous representative balance link validation ≡ panic)
  unfolding new calc_hash calc_parts block_source destination BlockType.same Makes unhashed
  new_cases open_block (source s) = (λ e. made open_block (source s) refl, λ e. cc)
  new_cases open_block (destination_account k) = (λ e. cc, λ e. refl)
  new_cases open_block nothing = (λ e. cc, λ e. refl)
  new_cases open_block (unsure u) = (λ e. cc, λ e. refl)
  new_cases send (source s) = (λ e. cc, λ e. refl)
  new_cases send (destination_account k) = (λ e. made send (destination_account k) refl, λ e. cc)
  new_cases send nothing = (λ e. cc, λ e. refl)
  new_cases send (unsure u) = (λ e. cc, λ e. refl)
  new_cases receive link = (λ e. cc, λ e. refl)
  new_cases change link = (λ e. made change link refl, λ e. cc)
  new_cases state link = (λ e. made state link refl, λ e. cc)
  new_cases invalid link = (λ e. cc, λ e. refl)
  new_cases not_a_block link = (λ e. cc, λ e. refl)

  -- `Block::new` makes a block with a hash of 32 bytes from a kind and a link that can be hashed: a
  -- source in an open block, a destination in a send block, and any link in a change or state block.
  pub new-hashable :
      (block_type : BlockType) (link : Link)
      → hashable block_type link ≡ true
      → (b : Block) × (hash : List ℕ) × (new h block_type account previous representative balance
            link validation
          ≡ ok b)
        × (b.hash ≡ some hash)
        × (length hash ≡ 32)
  new-hashable block_type link e = (new_cases block_type link).0 e

  -- `Block::new` panics on a kind and a link that cannot be hashed: an open block whose link is not a
  -- source, a send block whose link is not a destination, and every receive block, invalid block and
  -- block that is not a block, whatever its link.
  pub new_panics :
      (block_type : BlockType) (link : Link)
      → hashable block_type link ≡ false
      → new h block_type account previous representative balance link validation ≡ panic
  new_panics block_type link e = (new_cases block_type link).1 e

-- The hash that `StateBlock::new` gives.
abbrev pub own_hash : Blake2b → StateBlock → List ℕ
own_hash h s =
    h.blake2b 32 (concat (hash_parts s.account s.previous s.representative s.balance s.link))

-- The block that a state block becomes.
abbrev pub as_block : Blake2b → StateBlock → Block
as_block h s = record {
  block_type = state;
  hash = some (own_hash h s);
  account = s.account;
  previous = s.previous;
  representative = s.representative;
  balance = s.balance;
  link = s.link;
  signature = s.signature;
  work = s.work;
  state = valid;
}

pub from_state_block-as_block :
    (h : Blake2b) (s : StateBlock) → from_state_block h s ≡ ok (as_block h s)
unfolding from_state_block new calc_parts unhashed
from_state_block-as_block h s = rw (
  calc_hash_ok h (unhashed h s.account s.previous s.representative s.balance valid state s.link)
      refl,
  ◌>>=◌,
)

-- A state block with the hash of its parts becomes a block with that hash, the same work and the
-- same signature. On the way back everything is kept but the work, the signature and the amount.
pub state_block_round_trip :
    (h : Blake2b) (s : StateBlock)
    → s.hash ≡ own_hash h s
    → (b : Block) × (from_state_block h s ≡ ok b)
      × (b.hash ≡ some s.hash)
      × (b.work ≡ s.work)
      × (b.signature ≡ s.signature)
      × (to_state_block h b ≡ ok (record s { work = none; signature = none; amount = none }))
unfolding to_state_block
state_block_round_trip h s e = (
  as_block h s,
  from_state_block-as_block h s,
  ap some (sym e),
  refl,
  refl,
  new_ok h s.account s.previous s.representative s.balance s.link
      ∙ ap
          (λ (x : List ℕ). ok (record s { work = none; signature = none; hash = x; amount = none }))
          (sym e),
)

-- Signing a block that has a hash with a 32-byte key changes only its signature, and the signature
-- verifies with the public key of that key.
pub verify_signature-sign :
    (c : Ed25519) (private : List ℕ) (b : Block) (hash : List ℕ)
    → length private ≡ 32
    → b.hash ≡ some hash
    → (b' : Block) × (sign c private b ≡ ok b')
      × (b' ≡ set_signature (c.sign private hash) b)
      × (verify_signature c (c.public_key private) b' ≡ ok tt)
unfolding sign verify_signature get_hash set_signature Public.verify Public.sign
    Public.to_ed25519_dalek
verify_signature-sign c private b hash n e =
    let accepted = eq→== (length private) 32 n in
    (
      record b { signature = some (c.sign private hash) },
      rw (e, ◌>>=◌)
          (rw accepted (rw (array_ok 64 (c.sign private hash) (c.length-sign private hash)))),
      refl,
      rw (e, ◌>>=◌) (rw (c.is_public_key-public_key private) (rw (c.verify-sign private hash))),
    )
