-- ===== src/Node/Peer/Genesis/Added.antt =====
-- Adding the genesis block to a state in memory.
use feeless.Common.{ℕ, ◌≡◌, true, List, [], ◌∷◌, none, some, ok, err, ◌>>=◌, Error}
use feeless.Crypto.{Blake2b, Ed25519}
use feeless.Network.{live}
use feeless.Keys.Public.{verify}
use feeless.Units.Raw
use feeless.Blocks.BlockType.{open_block}
use feeless.Blocks.Link.{open_previous, source, concat}
use feeless.Blocks.Link.Laws.{hash_block_ok}
use feeless.Blocks.Block.{
  Block, valid, new, calc_hash, calc_parts, block_source, source_of, get_hash, from_open_block,
  verify_signature, is_genesis, genesis_hash,
}
use feeless.Node.State.Memory
use feeless.Node.State.Memory.{MemoryState, memory, memory-IsStore, added}
use feeless.Node.Peer.Elected.{add_elected_block, account_balance, check_type, check_open}
use feeless.Node.Peer.Elected.Lattice.{account_balance-add_elected_block, add_elected_block_twice}
use feeless.Node.Peer.Genesis.{
  genesis_account, genesis_work, genesis_signature, live_genesis_block, genesis_block,
  ensure_genesis,
}

-- What the genesis block hashes to.
abbrev pub hash_of_genesis : Blake2b → List ℕ
hash_of_genesis h = h.blake2b 32 (concat (genesis_account ∷ genesis_account ∷ genesis_account ∷ []))

abbrev genesis : Blake2b → Block
genesis h = record {
  block_type = open_block;
  hash = some (hash_of_genesis h);
  account = genesis_account;
  previous = open_previous;
  representative = genesis_account;
  balance = Raw.max;
  link = source genesis_account;
  signature = some genesis_signature;
  work = some genesis_work;
  state = valid;
}

genesis_block_ok : (h : Blake2b) → genesis_block h live ≡ ok (genesis h)
unfolding genesis_block from_open_block new calc_hash calc_parts block_source source_of
    feeless.Blocks.BlockType.same live_genesis_block
genesis_block_ok h = rw (hash_block_ok h (genesis_account ∷ genesis_account ∷ genesis_account ∷ []))

added_genesis :
    (h : Blake2b) (c : Ed25519) (s : MemoryState)
    → c.is_public_key genesis_account ≡ true
    → c.verify genesis_account (hash_of_genesis h) genesis_signature ≡ true
    → Memory.get_block_by_hash (hash_of_genesis h) s ≡ none
    → (t : MemoryState) × (add_elected_block memory c live (genesis h) s ≡ ok t)
unfolding add_elected_block get_hash verify_signature verify check_type check_open is_genesis
    genesis_hash Memory.add_block
added_genesis h c s known signed fresh =
    (added (genesis h) (hash_of_genesis h) s, rw fresh (rw known (rw signed)))

-- Where the genesis block is not in the state yet and its signature verifies, it is added on the live
-- network, and its account then has the largest balance there is. A second call fails.
pub ensure_genesis_lem :
    (h : Blake2b) (c : Ed25519) (s : MemoryState)
    → c.is_public_key genesis_account ≡ true
    → c.verify genesis_account (hash_of_genesis h) genesis_signature ≡ true
    → Memory.get_block_by_hash (hash_of_genesis h) s ≡ none
    → (t : MemoryState) × (ensure_genesis memory h c live s ≡ ok t)
      × (account_balance memory genesis_account t ≡ Raw.max)
      × (ensure_genesis memory h c live t ≡ err Error.block_exists)
unfolding ensure_genesis
ensure_genesis_lem h c s known signed fresh =
    let (t, done) = added_genesis h c s known signed fresh in
    (
      t,
      rw (genesis_block_ok h, ◌>>=◌) done,
      account_balance-add_elected_block memory c live memory-IsStore (genesis h) s t done,
      rw (genesis_block_ok h, ◌>>=◌)
          (add_elected_block_twice memory c live memory-IsStore (genesis h) s t done),
    )
