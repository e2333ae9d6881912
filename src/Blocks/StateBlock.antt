-- ===== src/Blocks/StateBlock.antt =====
-- src/blocks/state_block.rs: state blocks. An assertion that only a debug build makes is left out.
pub mod LinkType
pub mod Parse
use feeless.Common.{
  ℕ, Bool, true, false, List, [], ◌∷◌, ◌++◌, Option, none, some, Result, ok, err, panic, ◌>>=◌,
  Error, replicate, ok_or, if◌then◌else◌,
}
use feeless.Crypto.{Blake2b, Ed25519}
use feeless.Keys.Public.{public_len, verify}
use feeless.Units.Raw.{to_vec}
use feeless.Bytes.Reader.{array}
use feeless.Blocks.Link.{
  Previous, previous_to_bytes, Link, nothing, unsure, source, destination_account, link_as_bytes,
  block_hash_len, hash_block, is_all_zeros,
}

pub record StateBlock : Type 0 where
  pub account : List ℕ
  pub previous : Previous
  pub representative : List ℕ
  pub balance : ℕ
  pub link : Link
  pub work : Option (List ℕ)
  pub signature : Option (List ℕ)
  pub hash : List ℕ
  pub amount : Option ℕ

abbrev pub state_block_len : ℕ
state_block_len = 216

-- 31 zeros and `BlockType::State as u8`.
abbrev pub preamble : List ℕ
preamble = replicate 31 0 ++ (6 ∷ [])

-- What a state block hashes.
unfoldable pub hash_parts : List ℕ → Previous → List ℕ → ℕ → Link → List (List ℕ)
hash_parts account previous representative balance link =
    preamble
    ∷ account
    ∷ previous_to_bytes previous
    ∷ representative
    ∷ to_vec balance
    ∷ link_as_bytes link
    ∷ []

-- `StateBlock::new`
unfoldable pub new : Blake2b → List ℕ → Previous → List ℕ → ℕ → Link → Result StateBlock
new h account previous representative balance link = do
  block_hash ← hash_block h (hash_parts account previous representative balance link)
  ok (record {
    account = account;
    previous = previous;
    representative = representative;
    balance = balance;
    link = link;
    work = none;
    signature = none;
    hash = block_hash;
    amount = none;
  })

-- `StateBlock::set_link_type`, on the link that it matches, with `is_receive` and `is_change`.
unfoldable pub set_link : Bool → ℕ → StateBlock → Link → Result StateBlock
unfolding is_all_zeros array
set_link is_send amount b nothing = ok b
set_link is_send amount b (source hash) = ok b
set_link is_send amount b (destination_account key) = ok b
set_link is_send amount b (unsure unsure_link) =
    if is_send
    then (do
      key ← array public_len unsure_link
      ok (record b { link = destination_account key; amount = some amount }))
    else if is_all_zeros unsure_link
    then ok (record b { link = nothing })
    else (do
      hash ← array block_hash_len unsure_link
      ok (record b { link = source hash; amount = some amount }))

unfoldable pub set_link_type : Bool → ℕ → StateBlock → Result StateBlock
unfolding set_link
set_link_type is_send amount b = set_link is_send amount b b.link

-- `StateBlock::verify_self_signature`
unfoldable pub verify_self_signature : Ed25519 → StateBlock → Result (Unit {0})
verify_self_signature c b = do
  signature ← ok_or b.signature Error.signature_missing
  verify c b.account b.hash signature
