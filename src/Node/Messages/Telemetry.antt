-- ===== src/Node/Messages/Telemetry.antt =====
-- src/node/messages/telemetry_ack.rs and telemetry_req.rs: what a node says of itself.
use feeless.Common.{ℕ, ◌≡◌, ◌∙◌, List, Result, ok, length, arith, replicate}
use feeless.Common.Words.{from_be_bytes}
use feeless.Bytes.{u8}
use feeless.Bytes.Reader.{Reader, ◌>>=◌, pure, field, run}
use feeless.Bytes.Layout.{IsSlice, segment, head, u8_then, field_then, run_ok}
use feeless.Node.Messages.Numbers.{number, number_then}

pub record TelemetryAck : Type 0 where
  pub signature : List ℕ
  pub node_id : List ℕ
  pub block_count : ℕ
  pub cemented_count : ℕ
  pub unchecked_count : ℕ
  pub account_count : ℕ
  pub bandwidth_cap : ℕ
  pub uptime : ℕ
  pub peer_count : ℕ
  pub protocol_version : ℕ
  pub genesis_block : List ℕ
  pub major_version : ℕ
  pub minor_version : ℕ
  pub patch_version : ℕ
  pub prerelease_version : ℕ
  pub maker : ℕ
  pub timestamp : List ℕ
  pub active_difficulty : List ℕ

abbrev pub telemetry_ack_len : ℕ
telemetry_ack_len = 202

-- `Wire::deserialize`: the timestamp and the difficulty stay zero.
unfoldable pub telemetry_ack_read : Reader TelemetryAck
telemetry_ack_read = do
  signature ← field 64
  node_id ← field 32
  block_count ← number from_be_bytes 8
  cemented_count ← number from_be_bytes 8
  unchecked_count ← number from_be_bytes 8
  account_count ← number from_be_bytes 8
  bandwidth_cap ← number from_be_bytes 8
  uptime ← number from_be_bytes 8
  peer_count ← number from_be_bytes 4
  protocol_version ← u8
  genesis_block ← field 32
  major_version ← u8
  minor_version ← u8
  patch_version ← u8
  prerelease_version ← u8
  maker ← u8
  pure (record {
    signature = signature;
    node_id = node_id;
    block_count = block_count;
    cemented_count = cemented_count;
    unchecked_count = unchecked_count;
    account_count = account_count;
    bandwidth_cap = bandwidth_cap;
    uptime = uptime;
    peer_count = peer_count;
    protocol_version = protocol_version;
    genesis_block = genesis_block;
    major_version = major_version;
    minor_version = minor_version;
    patch_version = patch_version;
    prerelease_version = prerelease_version;
    maker = maker;
    timestamp = replicate 8 0;
    active_difficulty = replicate 8 0;
  })

unfoldable pub telemetry_ack_deserialize : List ℕ → Result TelemetryAck
telemetry_ack_deserialize bytes = run telemetry_ack_read bytes

-- The places of the fields.
abbrev pub telemetry_ack_layout : List ℕ → TelemetryAck
telemetry_ack_layout bytes = record {
  signature = segment bytes 0 64;
  node_id = segment bytes 64 32;
  block_count = from_be_bytes (segment bytes 96 8);
  cemented_count = from_be_bytes (segment bytes 104 8);
  unchecked_count = from_be_bytes (segment bytes 112 8);
  account_count = from_be_bytes (segment bytes 120 8);
  bandwidth_cap = from_be_bytes (segment bytes 128 8);
  uptime = from_be_bytes (segment bytes 136 8);
  peer_count = from_be_bytes (segment bytes 144 4);
  protocol_version = head (segment bytes 148 1);
  genesis_block = segment bytes 149 32;
  major_version = head (segment bytes 181 1);
  minor_version = head (segment bytes 182 1);
  patch_version = head (segment bytes 183 1);
  prerelease_version = head (segment bytes 184 1);
  maker = head (segment bytes 185 1);
  timestamp = replicate 8 0;
  active_difficulty = replicate 8 0;
}

-- An answer of 202 bytes is read field by field from its first 186; its timestamp and its active
-- difficulty, which the other 16 hold, are left at zero.
pub telemetry_ack_deserialize-layout :
    (bytes : List ℕ)
    → length bytes ≡ 202
    → telemetry_ack_deserialize bytes ≡ ok (telemetry_ack_layout bytes)
unfolding telemetry_ack_deserialize telemetry_ack_read
telemetry_ack_deserialize-layout bytes n =
    let short : IsSlice bytes = omega arith in
    run_ok _ bytes (
      field_then bytes 0 64 _ short (omega arith)
      ∙ field_then bytes 64 32 _ short (omega arith)
      ∙ number_then from_be_bytes bytes 96 8 _ short (omega arith)
      ∙ number_then from_be_bytes bytes 104 8 _ short (omega arith)
      ∙ number_then from_be_bytes bytes 112 8 _ short (omega arith)
      ∙ number_then from_be_bytes bytes 120 8 _ short (omega arith)
      ∙ number_then from_be_bytes bytes 128 8 _ short (omega arith)
      ∙ number_then from_be_bytes bytes 136 8 _ short (omega arith)
      ∙ number_then from_be_bytes bytes 144 4 _ short (omega arith)
      ∙ u8_then bytes 148 _ short (omega arith)
      ∙ field_then bytes 149 32 _ short (omega arith)
      ∙ u8_then bytes 181 _ short (omega arith)
      ∙ u8_then bytes 182 _ short (omega arith)
      ∙ u8_then bytes 183 _ short (omega arith)
      ∙ u8_then bytes 184 _ short (omega arith)
      ∙ u8_then bytes 185 _ short (omega arith))
