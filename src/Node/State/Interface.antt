-- ===== src/Node/State/Interface.antt =====
-- src/node/state/mod.rs: the trait `State`, with what its callers rely on. Addresses of peers and
-- byte strings are lists of numbers. Every method of the trait may fail. `MemoryState` is the one
-- implementation that the program makes, and of its methods only `add_block` ever does, so the
-- others return their value alone here: what a caller does with an error of theirs is left out. The
-- cookies of sled_disk.rs are written, with calls that may fail, but nothing makes that state.
use feeless.Common.{ℕ, List, Option, some, Result, ok, ◌≡◌}
use feeless.Blocks.Block.{Block, get_hash}

-- The operations that read and write blocks, votes, cookies and peers.
pub record State (S : Type 0) : Type 0 where
  pub add_block : Block → S → Result S
  pub get_block_by_hash : List ℕ → S → Option Block
  pub get_latest_block_hash_for_account : List ℕ → S → Option (List ℕ)
  pub account_for_block_hash : List ℕ → S → Option (List ℕ)
  pub add_vote : List ℕ → List ℕ → S → S
  pub set_cookie : List ℕ → List ℕ → S → S
  pub cookie_for_socket_addr : List ℕ → S → Option (List ℕ)
  pub add_peers : List (List ℕ) → S → S
  pub peers : S → List (List ℕ)

-- What a store promises: a block that is added is the one found by its hash and the newest of its
-- account, and what is stored under the other hashes and accounts stays.
pub record IsStore {S : Type 0} (state : State S) : Type 0 where
  pub add_finds :
      (b : Block) (s t : S) (hash : List ℕ)
      → get_hash b ≡ ok hash
      → state.add_block b s ≡ ok t
      → state.get_block_by_hash hash t ≡ some b
  pub add_latest :
      (b : Block) (s t : S) (hash : List ℕ)
      → get_hash b ≡ ok hash
      → state.add_block b s ≡ ok t
      → state.get_latest_block_hash_for_account b.account t ≡ some hash
  pub add_account :
      (b : Block) (s t : S) (hash : List ℕ)
      → get_hash b ≡ ok hash
      → state.add_block b s ≡ ok t
      → state.account_for_block_hash hash t ≡ some b.account
  pub add_keeps :
      (b : Block) (s t : S) (hash other : List ℕ)
      → get_hash b ≡ ok hash
      → state.add_block b s ≡ ok t
      → ¬ (hash ≡ other)
      → state.get_block_by_hash other t ≡ state.get_block_by_hash other s
  pub add_keeps_account :
      (b : Block) (s t : S) (hash other : List ℕ)
      → get_hash b ≡ ok hash
      → state.add_block b s ≡ ok t
      → ¬ (hash ≡ other)
      → state.account_for_block_hash other t ≡ state.account_for_block_hash other s
  pub add_keeps_latest :
      (b : Block) (s t : S) (account : List ℕ)
      → state.add_block b s ≡ ok t
      → ¬ (b.account ≡ account)
      → state.get_latest_block_hash_for_account account t
        ≡ state.get_latest_block_hash_for_account account s
  pub cookie_self :
      (address cookie : List ℕ) (s : S)
      → state.cookie_for_socket_addr address (state.set_cookie address cookie s) ≡ some cookie
  pub cookie_other :
      (address other cookie : List ℕ) (s : S)
      → ¬ (address ≡ other)
      → state.cookie_for_socket_addr other (state.set_cookie address cookie s)
        ≡ state.cookie_for_socket_addr other s
