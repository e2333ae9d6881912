-- ===== src/Blocks/StateBlock/Parse.antt =====
-- src/blocks/state_block.rs: reading a state block from the wire.
use feeless.Common.{ℕ, ◌≡◌, ◌∙◌, List, some, ok, length, arith}
use feeless.Common.{none}
use feeless.Common.Words.{from_be_bytes}
use feeless.Crypto.{Blake2b}
use feeless.Keys.Public.{public_len, signature_len}
use feeless.Pow.Work.{work_len}
use feeless.Units.Raw.{raw_len, try_from_slice}
use feeless.Units.Raw.Laws.{try_from_slice_ok}
use feeless.Bytes.{slice}
use feeless.Bytes.Reader.{Reader, ◌>>=◌, pure, lift, field, run}
use feeless.Bytes.Layout.{segment, length-segment, field_then, slice_then, lift_then, run_ok}
use feeless.Blocks.Link.{block_hash_len, Previous, previous_try_from, Link, unsure, concat}
use feeless.Blocks.Link.Laws.{previous_of, previous_try_from_ok, hash_block_ok}
use feeless.Blocks.StateBlock.{StateBlock, new, hash_parts}

-- `Wire::deserialize`
unfoldable pub deserialize : Blake2b → Reader StateBlock
deserialize h = do
  account ← field public_len
  previous_slice ← slice block_hash_len
  previous ← lift (previous_try_from previous_slice)
  representative ← field public_len
  balance_slice ← slice raw_len
  balance ← lift (try_from_slice balance_slice)
  unsure_link ← field public_len
  signature ← field signature_len
  work ← field work_len
  block ← lift (new h account previous representative balance (unsure unsure_link))
  pure (record block { signature = some signature; work = some work })

-- The block that 216 bytes stand for: each field from its place in the layout, and the hash of them.
unfoldable pub layout : Blake2b → List ℕ → StateBlock
layout h bytes =
    let account = segment bytes 0 32 in
    let previous = previous_of (segment bytes 32 32) in
    let representative = segment bytes 64 32 in
    let balance = from_be_bytes (segment bytes 96 16) in
    let link = unsure (segment bytes 112 32) in
    record {
      account = account;
      previous = previous;
      representative = representative;
      balance = balance;
      link = link;
      work = some (segment bytes 208 8);
      signature = some (segment bytes 144 64);
      hash = h.blake2b 32 (concat (hash_parts account previous representative balance link));
      amount = none;
    }

pub new_ok :
    (h : Blake2b) (account : List ℕ) (previous : Previous) (representative : List ℕ) (balance : ℕ)
    (link : Link)
    → new h account previous representative balance link
      ≡ ok (record {
        account = account;
        previous = previous;
        representative = representative;
        balance = balance;
        link = link;
        work = none;
        signature = none;
        hash = h.blake2b 32 (concat (hash_parts account previous representative balance link));
        amount = none;
      })
unfolding new
new_ok h account previous representative balance link =
    rw (hash_block_ok h (hash_parts account previous representative balance link))

-- A state block is read from its 216 bytes: each field from its place, the link undecided, and the hash
-- the one of its parts.
pub deserialize-layout :
    (h : Blake2b) (bytes : List ℕ)
    → length bytes ≡ 216
    → run (deserialize h) bytes ≡ ok (layout h bytes)
unfolding deserialize layout
deserialize-layout h bytes n = run_ok (deserialize h) bytes (
    field_then bytes 0 32 _ (omega arith) (omega arith)
    ∙ slice_then bytes 32 32 _ (omega arith) (omega arith)
    ∙ lift_then _ _ (previous_try_from_ok _ (length-segment bytes 32 32 (omega arith)))
    ∙ field_then bytes 64 32 _ (omega arith) (omega arith)
    ∙ slice_then bytes 96 16 _ (omega arith) (omega arith)
    ∙ lift_then _ _ (try_from_slice_ok _ (length-segment bytes 96 16 (omega arith)))
    ∙ field_then bytes 112 32 _ (omega arith) (omega arith)
    ∙ field_then bytes 144 64 _ (omega arith) (omega arith)
    ∙ field_then bytes 208 8 _ (omega arith) (omega arith)
    ∙ lift_then _ _ (new_ok h _ _ _ _ _))
