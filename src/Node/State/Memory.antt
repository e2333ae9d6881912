-- ===== src/Node/State/Memory.antt =====
-- src/node/state/memory.rs: the state as hash maps.
pub mod Consistent
use feeless.Common.{
  ℕ, Bool, true, false, ◌||◌, List, [], ◌∷◌, Option, none, some, Result, ok, ◌>>=◌, ◌≡◌, ◌∙◌, refl,
  ap, >>=-eq-ok,
}
use feeless.Common.Maps.{
  Map, get, insert, contains, add, get-insert_self, get-insert_ne, bytes_eq, contains-add, list_eq,
}
use feeless.Network.{Network}
use feeless.Blocks.Block.{Block, get_hash}
use feeless.Node.State.Interface.{State, IsStore}

pub record MemoryState : Type 0 where
  pub network : Network
  pub cookies : Map (List ℕ) (List ℕ)
  pub blocks : Map (List ℕ) Block
  pub block_hash_to_account : Map (List ℕ) (List ℕ)
  pub latest_block_hash : Map (List ℕ) (List ℕ)
  pub votes : Map (List ℕ) (List (List ℕ))
  pub known : List (List ℕ)

unfoldable pub new : Network → MemoryState
new network = record {
  network = network;
  cookies = [];
  blocks = [];
  block_hash_to_account = [];
  latest_block_hash = [];
  votes = [];
  known = [];
}

unfoldable pub add_block : Block → MemoryState → Result MemoryState
add_block b s = do
  hash ← get_hash b
  ok (record s {
    blocks = insert hash b s.blocks;
    block_hash_to_account = insert hash b.account s.block_hash_to_account;
    latest_block_hash = insert b.account hash s.latest_block_hash;
  })

unfoldable pub get_block_by_hash : List ℕ → MemoryState → Option Block
get_block_by_hash hash s = get hash s.blocks

unfoldable pub get_latest_block_hash_for_account : List ℕ → MemoryState → Option (List ℕ)
get_latest_block_hash_for_account account s = get account s.latest_block_hash

unfoldable pub account_for_block_hash : List ℕ → MemoryState → Option (List ℕ)
account_for_block_hash hash s = get hash s.block_hash_to_account

-- The representatives that voted for a block: `entry(..).or_insert_with(..)`.
abbrev or_insert : Option (List (List ℕ)) → List (List ℕ)
or_insert none = []
or_insert (some set) = set

unfoldable pub voters : List ℕ → MemoryState → List (List ℕ)
voters hash s = or_insert (get hash s.votes)

unfoldable pub add_vote : List ℕ → List ℕ → MemoryState → MemoryState
unfolding voters
add_vote hash representative s = record s {
  votes = insert hash (add representative (voters hash s)) s.votes;
}

unfoldable pub set_cookie : List ℕ → List ℕ → MemoryState → MemoryState
set_cookie address cookie s = record s { cookies = insert address cookie s.cookies }

unfoldable pub cookie_for_socket_addr : List ℕ → MemoryState → Option (List ℕ)
cookie_for_socket_addr address s = get address s.cookies

unfoldable pub add_peers : List (List ℕ) → MemoryState → MemoryState
add_peers [] s = s
add_peers (address ∷ addresses) s = add_peers addresses (record s { known = add address s.known })

unfoldable pub peers : MemoryState → List (List ℕ)
peers s = s.known

-- `impl State for MemoryState`
abbrev pub memory : State MemoryState
memory = record {
  add_block = add_block;
  get_block_by_hash = get_block_by_hash;
  get_latest_block_hash_for_account = get_latest_block_hash_for_account;
  account_for_block_hash = account_for_block_hash;
  add_vote = add_vote;
  set_cookie = set_cookie;
  cookie_for_socket_addr = cookie_for_socket_addr;
  add_peers = add_peers;
  peers = peers;
}

-- What `add_block` leaves where the block has a hash.
abbrev pub added : Block → List ℕ → MemoryState → MemoryState
added b hash s = record s {
  blocks = insert hash b s.blocks;
  block_hash_to_account = insert hash b.account s.block_hash_to_account;
  latest_block_hash = insert b.account hash s.latest_block_hash;
}

add_block_ok :
    (b : Block) (s t : MemoryState) (hash : List ℕ)
    → get_hash b ≡ ok hash
    → add_block b s ≡ ok t
    → t ≡ added b hash s
unfolding add_block
add_block_ok b s t hash e f = let g : ok (added b hash s) ≡ ok t = rw (e, ◌>>=◌) at f in cc

add_block_latest :
    (b : Block) (s t : MemoryState) → add_block b s ≡ ok t → (hash : List ℕ) × (t ≡ added b hash s)
unfolding add_block
add_block_latest b s t f = let (hash, named, rest) = >>=-eq-ok (get_hash b) _ f in (hash, cc)

-- The maps in memory are a store: a block that is added is found by its hash, is the newest of its
-- account and belongs to it; the other hashes and accounts keep theirs; and a cookie is kept for
-- each address.
pub memory-IsStore : IsStore memory
unfolding get_block_by_hash get_latest_block_hash_for_account account_for_block_hash set_cookie
    cookie_for_socket_addr
memory-IsStore = record {
  add_finds = λ b s t hash e f. rw (add_block_ok b s t hash e f) (get-insert_self hash b s.blocks);
  add_latest = λ b s t hash e f.
      rw (add_block_ok b s t hash e f) (get-insert_self b.account hash s.latest_block_hash);
  add_account = λ b s t hash e f.
      rw (add_block_ok b s t hash e f) (get-insert_self hash b.account s.block_hash_to_account);
  add_keeps = λ b s t hash other e f d.
      rw (add_block_ok b s t hash e f) (get-insert_ne other hash b s.blocks d);
  add_keeps_account = λ b s t hash other e f d.
      rw (add_block_ok b s t hash e f)
        (get-insert_ne other hash b.account s.block_hash_to_account d);
  add_keeps_latest = λ b s t account f d.
      let (hash, e) = add_block_latest b s t f in
      rw e (get-insert_ne account b.account hash s.latest_block_hash d);
  cookie_self = λ address cookie s. get-insert_self address cookie s.cookies;
  cookie_other = λ address other cookie s d. get-insert_ne other address cookie s.cookies d;
}

-- After a vote the representative is among the voters of the block, with those before and no
-- others, and the voters of another block are as before.
pub add_vote_lem :
    (hash other representative voter : List ℕ) (s : MemoryState)
    → ¬ (hash ≡ other)
    → (contains voter (voters hash (add_vote hash representative s))
        ≡ (list_eq representative voter || contains voter (voters hash s)))
      × (voters other (add_vote hash representative s) ≡ voters other s)
unfolding voters add_vote
add_vote_lem hash other representative voter s d =
    let set = add representative (voters hash s) in
    (
      rw (get-insert_self hash set s.votes) (contains-add voter representative (voters hash s)),
      ap or_insert (get-insert_ne other hash set s.votes d),
    )

-- A block with a hash is added: it is then the one found by its hash, its account is the one of the
-- hash and its hash the newest of the account, and the blocks and the accounts of other hashes and
-- the newest hashes of other accounts are as before.
pub add_block_lem :
    (b : Block) (s : MemoryState) (hash other account : List ℕ)
    → get_hash b ≡ ok hash
    → ¬ (hash ≡ other)
    → ¬ (b.account ≡ account)
    → (t : MemoryState) × (add_block b s ≡ ok t)
      × (get_block_by_hash hash t ≡ some b)
      × (account_for_block_hash hash t ≡ some b.account)
      × (get_latest_block_hash_for_account b.account t ≡ some hash)
      × (get_block_by_hash other t ≡ get_block_by_hash other s)
      × (account_for_block_hash other t ≡ account_for_block_hash other s)
      × (get_latest_block_hash_for_account account t ≡ get_latest_block_hash_for_account account s)
unfolding add_block get_block_by_hash get_latest_block_hash_for_account account_for_block_hash
add_block_lem b s hash other account e d d' = (
  added b hash s,
  rw (e, ◌>>=◌),
  get-insert_self hash b s.blocks,
  get-insert_self hash b.account s.block_hash_to_account,
  get-insert_self b.account hash s.latest_block_hash,
  get-insert_ne other hash b s.blocks d,
  get-insert_ne other hash b.account s.block_hash_to_account d,
  get-insert_ne account b.account hash s.latest_block_hash d',
)

or_swap : (a b c : Bool) → (a || (b || c)) ≡ ((b || a) || c)
or_swap true true c = refl
or_swap true false c = refl
or_swap false true c = refl
or_swap false false c = refl

-- The peers are the addresses that were added and the peers before, and no others.
pub add_peers_lem :
    (addresses : List (List ℕ)) (s : MemoryState) (address : List ℕ)
    → contains address (peers (add_peers addresses s))
      ≡ (contains address addresses || contains address (peers s))
unfolding add_peers peers contains
add_peers_lem [] s address = refl
add_peers_lem (j ∷ addresses) s address =
    add_peers_lem addresses (record s { known = add j s.known }) address
    ∙ rw (contains-add address j s.known)
        (or_swap (contains address addresses) (list_eq j address) (contains address s.known))
