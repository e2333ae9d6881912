-- ===== src/Node/Messages/Votes.antt =====
-- The parts of src/node/messages/confirm_req.rs and confirm_ack.rs that read from the cursor.
use feeless.Common.{
  ℕ, ◌+◌, ◌*◌, ◌≤◌, ◌≡◌, ◌∙◌, refl, ap, Bool, true, false, List, [], ◌∷◌, map, ok, panic, length,
  arith, eq→==,
}
use feeless.Common.Words.{from_le_bytes}
use feeless.Encoding.{expect_len}
use feeless.Bytes.{slice, slice_range}
use feeless.Bytes.Reader.{Reader, ◌>>=◌, field, repeat, lift, pure}
use feeless.Bytes.Layout.{
  IsSlice, cursor, segment, segments, length-segment, slice_then, field_ok, field_then, lift_then,
  bind_then,
}
use feeless.Blocks.BlockType
use feeless.Blocks.BlockType.{BlockType, not_a_block}
use feeless.Blocks.Link.Laws.{array_ok}
use feeless.Node.Messages.Handshake.{slice_range_ok}
use feeless.Node.Extensions
use feeless.Node.Header.{Header}
use feeless.Node.Messages.Numbers.{repeat_ok}
use feeless.Node.Messages.Parts.{
  RootHashPair, root_hash_pair_len, root_hash_pair_try_from, timestamp_len, timestamp_try_from,
}

-- One pair of the loop.
unfoldable pub read_pair : Reader RootHashPair
read_pair = do value ← slice root_hash_pair_len; lift (root_hash_pair_try_from value)

pub record ConfirmAck : Type 0 where
  pub account : List ℕ
  pub signature : List ℕ
  pub timestamp : ℕ
  pub confirm : List (List ℕ)

abbrev pub vote_common_len : ℕ
vote_common_len = 104

-- `todo!()` where the header names a block.
unfoldable pub read_votes : Bool → ℕ → Reader (List (List ℕ))
read_votes true count = repeat count (field 32)
read_votes false count = lift panic

unfoldable pub confirm_ack_read : Header → Reader ConfirmAck
confirm_ack_read header = do
  account ← field 32
  signature ← field 64
  value ← slice timestamp_len
  timestamp ← lift (timestamp_try_from value)
  kind ← lift (Extensions.block_type header.ext)
  confirm ← read_votes (BlockType.same kind not_a_block) (Extensions.item_count header.ext)
  pure (record {
    account = account;
    signature = signature;
    timestamp = timestamp;
    confirm = confirm;
  })

-- The two hashes of a pair.
abbrev pub pair_layout : List ℕ → RootHashPair
pair_layout value = record { hash = segment value 0 32; root = segment value 32 32 }

pub expect_len_ok : (got expected : ℕ) → got ≡ expected → expect_len got expected ≡ ok record {}
unfolding expect_len
expect_len_ok got expected e = rw (eq→== _ _ e)

pair_ok :
    (value : List ℕ) → length value ≡ 64 → root_hash_pair_try_from value ≡ ok (pair_layout value)
unfolding root_hash_pair_try_from
pair_ok value n =
    let front = slice_range_ok value 0 32 (omega arith) (omega arith) in
    let hash = array_ok 32 (segment value 0 32) (length-segment value 0 32 (omega arith)) in
    let back : slice_range value 32 (length value) ≡ ok (segment value 32 32) =
      rw n (slice_range_ok value 32 64 (omega arith) (omega arith)) in
    let root = array_ok 32 (segment value 32 32) (length-segment value 32 32 (omega arith)) in
    rw (expect_len_ok _ _ n) (rw front (rw hash (rw back (rw root))))

pub read_pair_ok :
    (bytes : List ℕ) (offset : ℕ)
    → IsSlice bytes
    → offset + 64 ≤ length bytes
    → read_pair (cursor bytes offset)
      ≡ ok (pair_layout (segment bytes offset 64), cursor bytes (offset + 64))
unfolding read_pair
read_pair_ok bytes offset short h =
    slice_then bytes offset 64 _ short h ∙ rw (pair_ok _ (length-segment bytes offset 64 h))

-- The fields of a vote, with the number of its hashes.
abbrev pub ack_layout : List ℕ → ℕ → ConfirmAck
ack_layout bytes count = record {
  account = segment bytes 0 32;
  signature = segment bytes 32 64;
  timestamp = from_le_bytes (segment bytes 96 8);
  confirm = segments bytes 104 32 count;
}

map_id : (vs : List (List ℕ)) → map (λ (v : List ℕ). v) vs ≡ vs
map_id [] = refl
map_id (v ∷ vs) = ap (λ (t : List (List ℕ)). v ∷ t) (map_id vs)

votes_ok :
    (bytes : List ℕ) (count offset : ℕ)
    → IsSlice bytes
    → offset + count * 32 ≤ length bytes
    → read_votes true count (cursor bytes offset)
      ≡ ok (segments bytes offset 32 count, cursor bytes (offset + count * 32))
unfolding read_votes
votes_ok bytes count offset short h =
    repeat_ok bytes 32 (field 32) (λ v. v) (λ o k. field_ok bytes o 32 short k) count offset h
    ∙ rw (map_id (segments bytes offset 32 count))

timestamp_ok : (v : List ℕ) → length v ≡ 8 → timestamp_try_from v ≡ ok (from_le_bytes v)
unfolding timestamp_try_from
timestamp_ok v n = rw (array_ok 8 v n)

pub confirm_ack_read_ok :
    (header : Header) (bytes : List ℕ)
    → IsSlice bytes
    → Extensions.block_type header.ext ≡ ok not_a_block
    → 104 + Extensions.item_count header.ext * 32 ≤ length bytes
    → confirm_ack_read header (cursor bytes 0)
      ≡ ok (
        ack_layout bytes (Extensions.item_count header.ext),
        cursor bytes (104 + Extensions.item_count header.ext * 32),
      )
unfolding confirm_ack_read BlockType.same
confirm_ack_read_ok header bytes short kind h =
    let count = Extensions.item_count header.ext in
    field_then bytes 0 32 _ short (omega arith)
    ∙ field_then bytes 32 64 _ short (omega arith)
    ∙ slice_then bytes 96 8 _ short (omega arith)
    ∙ lift_then _ _ (timestamp_ok _ (length-segment bytes 96 8 (omega arith)))
    ∙ lift_then _ _ kind
    ∙ bind_then (read_votes true count) _ _ (votes_ok bytes count 104 short (omega arith))
