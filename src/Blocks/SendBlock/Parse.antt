-- ===== src/Blocks/SendBlock/Parse.antt =====
-- src/blocks/send_block.rs: reading a send block from the wire.
use feeless.Common.{ℕ, ◌≡◌, ◌∙◌, List, some, ok, length, arith}
use feeless.Common.Words.{from_be_bytes}
use feeless.Keys.Public.{public_len, signature_len}
use feeless.Pow.Work.{work_len}
use feeless.Units.Raw.{raw_len, try_from_slice}
use feeless.Units.Raw.Laws.{try_from_slice_ok}
use feeless.Bytes.{slice}
use feeless.Bytes.Reader.{Reader, ◌>>=◌, pure, lift, field, run}
use feeless.Bytes.Layout.{segment, length-segment, field_then, slice_then, lift_then, run_ok}
use feeless.Blocks.Link.{block_hash_len}
use feeless.Blocks.SendBlock.{SendBlock}

-- `Wire::deserialize`
unfoldable pub deserialize : Reader SendBlock
deserialize = do
  previous ← field block_hash_len
  destination ← field public_len
  balance_slice ← slice raw_len
  balance ← lift (try_from_slice balance_slice)
  work ← field work_len
  signature ← field signature_len
  pure (record {
    previous = previous;
    destination = destination;
    balance = balance;
    work = some work;
    signature = some signature;
  })

-- The block that 152 bytes stand for.
unfoldable pub layout : List ℕ → SendBlock
layout bytes = record {
  previous = segment bytes 0 32;
  destination = segment bytes 32 32;
  balance = from_be_bytes (segment bytes 64 16);
  work = some (segment bytes 80 8);
  signature = some (segment bytes 88 64);
}

-- A send block is read from its 152 bytes, each field from its place.
pub send_deserialize-layout :
    (bytes : List ℕ) → length bytes ≡ 152 → run deserialize bytes ≡ ok (layout bytes)
unfolding deserialize layout
send_deserialize-layout bytes n = run_ok deserialize bytes (
    field_then bytes 0 32 _ (omega arith) (omega arith)
    ∙ field_then bytes 32 32 _ (omega arith) (omega arith)
    ∙ slice_then bytes 64 16 _ (omega arith) (omega arith)
    ∙ lift_then _ _ (try_from_slice_ok _ (length-segment bytes 64 16 (omega arith)))
    ∙ field_then bytes 80 8 _ (omega arith) (omega arith)
    ∙ field_then bytes 88 64 _ (omega arith) (omega arith))
