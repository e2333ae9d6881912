-- ===== src/Tests/Forks.antt =====
-- Examples of two blocks behind one, published at the same time.
use feeless.Common.{
  ℕ, ◌+◌, ◌%◌, ◌≡◌, ◌≢◌, refl, ap, Bool, true, false, List, [], ◌∷◌, ◌++◌, Option, none, some, ok,
  err, Error, replicate, arith, length-replicate, All-replicate,
}
use feeless.Common.Maps.{list_eq}
use feeless.Common.Words.{IsByte}
use feeless.Network.{live}
use feeless.Crypto.{Blake2b}
use feeless.Blocks.BlockType.{state}
use feeless.Blocks.BlockType
use feeless.Blocks.Link.{block, unsure, source}
use feeless.Blocks.StateBlock.{StateBlock, hash_parts, verify_self_signature}
use feeless.Blocks.Block.{Block, valid}
use feeless.Blocks.Block.Hash.{own_hash}
use feeless.Pow.Work.{difficulty_block_hash}
use feeless.Node.State.Memory
use feeless.Node.State.Memory.{MemoryState, memory}
use feeless.Node.Peer.Elected.{get_latest_block}
use feeless.Node.Peer.Publish.Accepts.{Previously}
use feeless.Node.Peer.Publish.Steps.{block_existed, ended}
use feeless.Node.Peer.Publish.Race.{Ready, interleave, stored}
use feeless.Node.Peer.Publish.Fork.{racing, interleave_fork, interleave_serial}
use feeless.Tests.Instances.{curve, the_key, the_signature}

unfoldable total : List ℕ → ℕ
total [] = 0
total (b ∷ bytes) = b + total bytes

-- A hash that tells blocks apart by the sum of their bytes.
abbrev summing : Blake2b
summing = record {
  blake2b = λ size input. replicate size (total input % 256);
  length-blake2b = λ size input. length-replicate size (total input % 256);
  blake2b-IsBytes = λ size input. All-replicate IsByte size (total input % 256) (omega arith);
}

abbrev root : Block
root = record {
  block_type = state;
  hash = some (replicate 32 1);
  account = the_key;
  previous = block (replicate 32 2);
  representative = the_key;
  balance = 100;
  link = source (replicate 32 3);
  signature = some the_signature;
  work = none;
  state = valid;
}

abbrev with_root : MemoryState
with_root = record (Memory.new live) {
  blocks = (replicate 32 1, root) ∷ [];
  block_hash_to_account = (replicate 32 1, the_key) ∷ [];
  latest_block_hash = (the_key, replicate 32 1) ∷ [];
}

-- Two sends behind it.
abbrev leaf : ℕ → ℕ → ℕ → StateBlock
leaf balance sum nonce = record {
  account = the_key;
  previous = block (replicate 32 1);
  representative = the_key;
  balance = balance;
  link = unsure (replicate 32 8);
  work = some (nonce ∷ replicate 7 0);
  signature = some the_signature;
  hash = replicate 32 sum;
  amount = none;
}

abbrev spend_30 : StateBlock
spend_30 = leaf 70 108 127

abbrev spend_40 : StateBlock
spend_40 = leaf 60 98 191

root_known : Memory.get_block_by_hash (replicate 32 1) with_root ≡ some root
unfolding Memory.get_block_by_hash Memory.new feeless.Common.Maps.get list_eq
root_known = refl

root_newest : get_latest_block memory the_key with_root ≡ some root
unfolding get_latest_block Memory.get_latest_block_hash_for_account feeless.Common.Maps.get list_eq
    Memory.get_block_by_hash Memory.new
root_newest = refl

root_is_state : BlockType.same state state ≡ true
unfolding BlockType.same
root_is_state = refl

abbrev behind_root : Previously memory summing (replicate 32 1) with_root
behind_root = record {
  previous_block = root;
  newest = root;
  is_known = root_known;
  is_newest = root_newest;
  has_hash = refl;
  is_state = root_is_state;
}

own_30 : spend_30.hash ≡ own_hash summing spend_30
unfolding total hash_parts feeless.Blocks.Link.concat feeless.Blocks.Link.previous_to_bytes
    feeless.Units.Raw.to_vec feeless.Common.Words.to_be_bytes feeless.Blocks.Link.link_as_bytes
own_30 = refl

fresh_30 : Memory.get_block_by_hash spend_30.hash with_root ≡ none
unfolding Memory.get_block_by_hash Memory.new feeless.Common.Maps.get list_eq
fresh_30 = refl

signed_30 : verify_self_signature curve spend_30 ≡ ok record {}
unfolding verify_self_signature feeless.Keys.Public.verify list_eq
signed_30 = refl

work_30 :
    difficulty_block_hash summing (127 ∷ replicate 7 0) spend_30.hash ≡ ok 0xFFFF_FFFF_FFFF_FFFF
unfolding difficulty_block_hash feeless.Pow.Difficulty.from_le_slice
    feeless.Common.Words.from_le_bytes total
work_30 = refl

abbrev ready_30 : Ready memory summing curve (replicate 32 1) with_root behind_root spend_30
ready_30 = record {
  bytes = replicate 32 8;
  work = 127 ∷ replicate 7 0;
  difficulty = 0xFFFF_FFFF_FFFF_FFFF;
  is_unsure = refl;
  length-bytes = refl;
  is_own = own_30;
  is_fresh = fresh_30;
  is_signed = signed_30;
  is_behind = refl;
  falls = omega arith;
  has_work = refl;
  is_difficult = work_30;
  is_enough = omega arith;
}

own_40 : spend_40.hash ≡ own_hash summing spend_40
unfolding total hash_parts feeless.Blocks.Link.concat feeless.Blocks.Link.previous_to_bytes
    feeless.Units.Raw.to_vec feeless.Common.Words.to_be_bytes feeless.Blocks.Link.link_as_bytes
own_40 = refl

fresh_40 : Memory.get_block_by_hash spend_40.hash with_root ≡ none
unfolding Memory.get_block_by_hash Memory.new feeless.Common.Maps.get list_eq
fresh_40 = refl

signed_40 : verify_self_signature curve spend_40 ≡ ok record {}
unfolding verify_self_signature feeless.Keys.Public.verify list_eq
signed_40 = refl

work_40 :
    difficulty_block_hash summing (191 ∷ replicate 7 0) spend_40.hash ≡ ok 0xFFFF_FFFF_FFFF_FFFF
unfolding difficulty_block_hash feeless.Pow.Difficulty.from_le_slice
    feeless.Common.Words.from_le_bytes total
work_40 = refl

abbrev ready_40 : Ready memory summing curve (replicate 32 1) with_root behind_root spend_40
ready_40 = record {
  bytes = replicate 32 8;
  work = 191 ∷ replicate 7 0;
  difficulty = 0xFFFF_FFFF_FFFF_FFFF;
  is_unsure = refl;
  length-bytes = refl;
  is_own = own_40;
  is_fresh = fresh_40;
  is_signed = signed_40;
  is_behind = refl;
  falls = omega arith;
  has_work = refl;
  is_difficult = work_40;
  is_enough = omega arith;
}

abbrev first : List ℕ → ℕ
first [] = 0
first (b ∷ bytes) = b

hashes_differ : spend_30.hash ≢ spend_40.hash
hashes_differ e = omega (arith, ap first e)

interleave_fork_example :
    (u : MemoryState) × (interleave memory summing curve racing
        (block_existed spend_30)
        (block_existed spend_40)
        with_root
      ≡ (ended (ok record {}), ended (ok record {}), u))
    × (Memory.get_block_by_hash spend_30.hash u
        ≡ some (stored memory summing curve behind_root ready_30))
    × (spend_30.previous ≡ block (replicate 32 1))
    × (Memory.get_block_by_hash spend_40.hash u
        ≡ some (stored memory summing curve behind_root ready_40))
    × (spend_40.previous ≡ block (replicate 32 1))
interleave_fork_example = interleave_fork summing curve behind_root ready_30 ready_40 hashes_differ

interleave_serial_example :
    (t : MemoryState) × (interleave memory summing curve
        (replicate 5 true ++ replicate 5 false)
        (block_existed spend_30)
        (block_existed spend_40)
        with_root
      ≡ (ended (ok record {}), ended (err Error.previous_not_head), t))
    × (Memory.get_block_by_hash spend_30.hash t
        ≡ some (stored memory summing curve behind_root ready_30))
    × (Memory.get_block_by_hash spend_40.hash t ≡ none)
interleave_serial_example =
    interleave_serial summing curve behind_root ready_30 ready_40 hashes_differ refl
