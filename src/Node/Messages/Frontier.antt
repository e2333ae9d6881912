-- ===== src/Node/Messages/Frontier.antt =====
-- src/node/messages/frontier_req.rs and frontier_resp.rs: asking for the frontiers of accounts, and one
-- of the answers.
use feeless.Common.{ℕ, ◌≡◌, ◌∙◌, List, Result, ok, panic, length, arith}
use feeless.Common.Words.{from_le_bytes}
use feeless.Bytes.{slice}
use feeless.Bytes.Reader.{◌>>=◌, pure, lift, array, field, run}
use feeless.Bytes.Layout.{
  IsSlice, segment, length-segment, slice_then, field_then, lift_then, run_ok,
}
use feeless.Keys.Public.{public_len}
use feeless.Blocks.Link.Laws.{array_ok}
use feeless.Node.Messages.Numbers.{number, number_then}

pub record FrontierReq : Type 0 where
  pub start : List ℕ
  pub age : ℕ
  pub count : ℕ

abbrev pub frontier_req_len : ℕ
frontier_req_len = 40

-- `Result::expect`: an error is a panic.
unfoldable pub expect : {A : Type 0} → Result A → Result A
expect (ok a) = ok a
expect _ = panic

-- `Wire::deserialize`
unfoldable pub frontier_req_deserialize : List ℕ → Result FrontierReq
frontier_req_deserialize bytes =
    run
      (do
        value ← slice public_len
        start ← lift (expect (array public_len value))
        age ← number from_le_bytes 4
        count ← number from_le_bytes 4
        pure (record { start = start; age = age; count = count }))
      bytes

pub record FrontierResp : Type 0 where
  pub account : List ℕ
  pub frontier_hash : List ℕ

abbrev pub frontier_resp_len : ℕ
frontier_resp_len = 64

-- `Wire::deserialize`
unfoldable pub frontier_resp_deserialize : List ℕ → Result FrontierResp
frontier_resp_deserialize bytes =
    run
      (do
        account ← field 32
        frontier_hash ← field 32
        pure (record { account = account; frontier_hash = frontier_hash }))
      bytes

expect-array : (v : List ℕ) → length v ≡ 32 → expect (array 32 v) ≡ ok v
unfolding expect
expect-array v n = rw (array_ok 32 v n)

-- A request of 40 bytes is read: an account, and two numbers of four bytes, low byte first.
pub frontier_req_deserialize-layout :
    (bytes : List ℕ)
    → length bytes ≡ 40
    → frontier_req_deserialize bytes
      ≡ ok (record {
        start = segment bytes 0 32;
        age = from_le_bytes (segment bytes 32 4);
        count = from_le_bytes (segment bytes 36 4);
      })
unfolding frontier_req_deserialize
frontier_req_deserialize-layout bytes n =
    let short : IsSlice bytes = omega arith in
    run_ok _ bytes (
      slice_then bytes 0 32 _ short (omega arith)
      ∙ lift_then _ _ (expect-array _ (length-segment bytes 0 32 (omega arith)))
      ∙ number_then from_le_bytes bytes 32 4 _ short (omega arith)
      ∙ number_then from_le_bytes bytes 36 4 _ short (omega arith))

-- A response of 64 bytes is read: an account, and the hash of its newest block.
pub frontier_resp_deserialize-layout :
    (bytes : List ℕ)
    → length bytes ≡ 64
    → frontier_resp_deserialize bytes
      ≡ ok (record { account = segment bytes 0 32; frontier_hash = segment bytes 32 32 })
unfolding frontier_resp_deserialize
frontier_resp_deserialize-layout bytes n =
    let short : IsSlice bytes = omega arith in
    run_ok _ bytes
      (field_then bytes 0 32 _ short (omega arith) ∙ field_then bytes 32 32 _ short (omega arith))
