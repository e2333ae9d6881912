-- ===== src/Tests/Chain.antt =====
-- Examples of blocks and of a lattice in memory.
use feeless.Common.{
  ℕ, ◌≡◌, ◌∙◌, ◌<◌, ◌+◌, ◌-◌, ◌||◌, ◌>>=◌, refl, sym, map, ◌⊎◌, inl, inr, Bool, true, false, List,
  [], ◌∷◌, ◌++◌, Option, none, some, Result, ok, err, panic, Error, length, replicate, arith,
  All-replicate,
}
use feeless.Common.Maps.{contains, list_eq, bytes_eq}
use feeless.Network.{live}
use feeless.Blocks.BlockType.{open_block, send, receive, state}
use feeless.Blocks.Link.{
  Previous, block, open_previous, Link, nothing, unsure, source, destination_account, is_all_zeros,
  link_as_bytes,
}
use feeless.Blocks.StateBlock.{StateBlock, set_link_type, hash_parts}
use feeless.Blocks.StateBlock.LinkType.{decided, decided_amount, set_link_type_lem}
use feeless.Blocks.Block.{
  Block, valid, new, get_hash, from_state_block, to_state_block, sign, set_signature,
  verify_signature,
}
use feeless.Blocks.Block.Hash.{new_panics}
use feeless.Node.State.Memory
use feeless.Node.State.Memory.{
  MemoryState, memory, memory-IsStore, add_block_lem, add_vote_lem, add_peers_lem,
}
use feeless.Node.Peer.Elected.{add_elected_block, account_balance}
use feeless.Node.Peer.Elected.Lattice.{
  add_elected_block-send, account_balance-add_elected_block, add_elected_block_twice,
}
use feeless.Node.Peer.Publish.{state_block_handler}
use feeless.Blocks.BlockType
use feeless.Blocks.StateBlock.{verify_self_signature}
use feeless.Pow.Work.{difficulty_block_hash}
use feeless.Node.Peer.Elected.{get_latest_block}
use feeless.Node.Peer.Publish.Complete.{as_send, state_block_handler_stores}
use feeless.Node.Peer.Publish.Accepts.{Previously, Accepts, state_block_handler_sound}
use feeless.Tests.Instances.{blake, curve, the_key, the_signature}

new_panics_example :
    new blake receive the_key open_previous the_key 5 (source the_key) valid ≡ panic
new_panics_example =
    new_panics blake the_key open_previous the_key 5 valid receive (source the_key) refl

-- A state block of 70 behind one of 100.
abbrev published : StateBlock
published = record {
  account = the_key;
  previous = block (replicate 32 1);
  representative = the_key;
  balance = 70;
  link = unsure (replicate 32 8);
  work = some (replicate 8 1);
  signature = some the_signature;
  hash = replicate 32 255;
  amount = none;
}

abbrev genesis : Block
genesis = record {
  block_type = state;
  hash = some (replicate 32 1);
  account = the_key;
  previous = open_previous;
  representative = the_key;
  balance = 100;
  link = source (replicate 32 6);
  signature = some the_signature;
  work = some (replicate 8 1);
  state = valid;
}

abbrev empty : MemoryState
empty = Memory.new live

abbrev with_genesis : MemoryState
with_genesis = record empty {
  blocks = (replicate 32 1, genesis) ∷ [];
  block_hash_to_account = (replicate 32 1, the_key) ∷ [];
  latest_block_hash = (the_key, replicate 32 1) ∷ [];
}

genesis_is_added : Memory.add_block genesis empty ≡ ok with_genesis
unfolding Memory.add_block get_hash feeless.Common.Maps.insert Memory.new
genesis_is_added = refl

abbrev accepted_block : Block
accepted_block = record {
  block_type = state;
  hash = some (replicate 32 255);
  account = the_key;
  previous = block (replicate 32 1);
  representative = the_key;
  balance = 70;
  link = destination_account (replicate 32 8);
  signature = some the_signature;
  work = some (replicate 8 1);
  state = valid;
}

abbrev after_publish : MemoryState
after_publish = record with_genesis {
  blocks = (replicate 32 255, accepted_block) ∷ (replicate 32 1, genesis) ∷ [];
  block_hash_to_account = (replicate 32 255, the_key) ∷ (replicate 32 1, the_key) ∷ [];
  latest_block_hash = (the_key, replicate 32 255) ∷ (the_key, replicate 32 1) ∷ [];
}

handled : state_block_handler memory blake curve published with_genesis ≡ ok after_publish
unfolding state_block_handler Memory.get_block_by_hash feeless.Common.Maps.get list_eq
    feeless.Blocks.StateBlock.verify_self_signature feeless.Keys.Public.verify
    feeless.Node.Peer.Publish.previous_as_account_info feeless.Node.Peer.Elected.get_latest_block
    Memory.get_latest_block_hash_for_account get_hash feeless.Blocks.BlockType.same to_state_block
    feeless.Blocks.StateBlock.new feeless.Blocks.Link.hash_block feeless.Bytes.Reader.array
    feeless.Node.Peer.Publish.process_block_with_previous feeless.Units.Raw.checked_sub
    set_link_type feeless.Blocks.Block.calc_hash feeless.Blocks.Block.calc_parts from_state_block
    new feeless.Blocks.Link.concat is_all_zeros link_as_bytes feeless.Blocks.Link.previous_to_bytes
    hash_parts feeless.Blocks.StateBlock.set_link feeless.Common.Words.from_le_bytes
    feeless.Common.Words.to_be_bytes feeless.Common.Words.to_le_bytes
    feeless.Pow.Difficulty.from_le_slice feeless.Pow.Work.difficulty_block_hash
    feeless.Units.Raw.to_vec Memory.add_block feeless.Common.Maps.insert
handled = refl

state_block_handler_sound_example :
    (after_publish ≡ with_genesis) ⊎ Accepts memory blake curve published with_genesis after_publish
state_block_handler_sound_example =
    state_block_handler_sound memory blake curve published (replicate 32 8) with_genesis
      after_publish refl refl handled

set_link_type_lem_example :
    (b' : StateBlock) × (set_link_type true 30 published ≡ ok b')
    × (b'.link ≡ decided true (replicate 32 8))
    × (b'.amount ≡ decided_amount true (replicate 32 8) 30 none)
    × (hash_parts b'.account b'.previous b'.representative b'.balance b'.link
        ≡ hash_parts the_key (block (replicate 32 1)) the_key 70 (unsure (replicate 32 8)))
    × (b'.hash ≡ replicate 32 255)
    × ((again : Bool) (other : ℕ) → set_link_type again other b' ≡ ok b')
set_link_type_lem_example = set_link_type_lem true 30 published (replicate 32 8) refl refl

not_empty : (x : ℕ) (xs : List ℕ) → ¬ (x ∷ xs ≡ [])
not_empty x xs e = cc

add_block_lem_example :
    (t : MemoryState) × (Memory.add_block genesis empty ≡ ok t)
    × (Memory.get_block_by_hash (replicate 32 1) t ≡ some genesis)
    × (Memory.account_for_block_hash (replicate 32 1) t ≡ some the_key)
    × (Memory.get_latest_block_hash_for_account the_key t ≡ some (replicate 32 1))
    × (Memory.get_block_by_hash [] t ≡ Memory.get_block_by_hash [] empty)
    × (Memory.account_for_block_hash [] t ≡ Memory.account_for_block_hash [] empty)
    × (Memory.get_latest_block_hash_for_account [] t
        ≡ Memory.get_latest_block_hash_for_account [] empty)
unfolding get_hash
add_block_lem_example =
    add_block_lem genesis empty (replicate 32 1) [] [] refl (not_empty 1 (replicate 31 1))
      (not_empty 4 (replicate 31 4))

abbrev an_address : List ℕ
an_address = replicate 18 5

-- A send of 40 from the first block.
abbrev sending : Block
sending = record genesis {
  block_type = send;
  hash = some (replicate 32 2);
  previous = block (replicate 32 1);
  balance = 60;
  link = destination_account (replicate 32 8);
}

abbrev with_sending : MemoryState
with_sending = record with_genesis {
  blocks = (replicate 32 2, sending) ∷ (replicate 32 1, genesis) ∷ [];
  block_hash_to_account = (replicate 32 2, the_key) ∷ (replicate 32 1, the_key) ∷ [];
  latest_block_hash = (the_key, replicate 32 2) ∷ (the_key, replicate 32 1) ∷ [];
}

elected : add_elected_block memory curve live sending with_genesis ≡ ok with_sending
unfolding add_elected_block get_hash Memory.get_block_by_hash feeless.Common.Maps.get list_eq
    verify_signature feeless.Keys.Public.verify feeless.Blocks.Block.destination
    feeless.Blocks.BlockType.same feeless.Units.Raw.checked_sub Memory.add_block
    feeless.Common.Maps.insert
elected = refl

add_elected_block-send_example :
    (parent : List ℕ) × (prev : Block) × (block (replicate 32 1) ≡ block parent)
    × (Memory.get_block_by_hash parent with_genesis ≡ some prev)
    × (60 < prev.balance)
add_elected_block-send_example =
    add_elected_block-send memory curve live sending with_genesis with_sending elected refl

account_balance-add_elected_block_example : account_balance memory the_key with_sending ≡ 60
account_balance-add_elected_block_example =
    account_balance-add_elected_block memory curve live memory-IsStore sending with_genesis
      with_sending elected

add_elected_block_twice_example :
    add_elected_block memory curve live sending with_sending ≡ err Error.block_exists
add_elected_block_twice_example =
    add_elected_block_twice memory curve live memory-IsStore sending with_genesis with_sending
      elected

-- A block of another account, which `published` names as its previous one.
abbrev foreign : Block
foreign = record genesis { account = replicate 32 3 }

abbrev with_foreign : MemoryState
with_foreign = record empty {
  blocks = (replicate 32 1, foreign) ∷ [];
  block_hash_to_account = (replicate 32 1, replicate 32 3) ∷ [];
  latest_block_hash = (replicate 32 3, replicate 32 1) ∷ [];
}

is_fresh : Memory.get_block_by_hash (replicate 32 255) with_foreign ≡ none
unfolding Memory.get_block_by_hash feeless.Common.Maps.get list_eq
is_fresh = refl

is_known : Memory.get_block_by_hash (replicate 32 1) with_foreign ≡ some foreign
unfolding Memory.get_block_by_hash feeless.Common.Maps.get list_eq
is_known = refl

is_newest : get_latest_block memory (replicate 32 3) with_foreign ≡ some foreign
unfolding get_latest_block Memory.get_latest_block_hash_for_account feeless.Common.Maps.get list_eq
    Memory.get_block_by_hash
is_newest = refl

is_state : BlockType.same state state ≡ true
unfolding BlockType.same
is_state = refl

is_signed : verify_self_signature curve published ≡ ok record {}
unfolding verify_self_signature feeless.Keys.Public.verify list_eq
is_signed = refl

abbrev behind : Previously memory blake (replicate 32 1) with_foreign
behind = record {
  previous_block = foreign;
  newest = foreign;
  is_known = is_known;
  is_newest = is_newest;
  has_hash = refl;
  is_state = is_state;
}

highest : difficulty_block_hash blake (replicate 8 1) (replicate 32 255) ≡ ok 0xFFFF_FFFF_FFFF_FFFF
unfolding difficulty_block_hash feeless.Pow.Difficulty.from_le_slice
    feeless.Common.Words.from_le_bytes
highest = refl

state_block_handler_stores_example :
    state_block_handler memory blake curve published with_foreign ≡ (
      from_state_block blake (as_send memory blake published (replicate 32 8) 30) >>= λ stored.
      Memory.add_block stored with_foreign)
state_block_handler_stores_example =
    state_block_handler_stores memory blake curve published (replicate 32 8) (replicate 8 1)
      (replicate 32 1) 0xFFFF_FFFF_FFFF_FFFF with_foreign refl refl is_fresh is_signed refl behind
      (omega arith) refl highest (omega arith)
