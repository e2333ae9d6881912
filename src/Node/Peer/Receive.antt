-- ===== src/Node/Peer/Receive.antt =====
-- src/node/peer/mod.rs: cutting the bytes that come in into messages, and handing them on.
pub mod Loop
pub mod Whole
pub mod Published
pub mod Keeps
use feeless.Common.{
  ℕ, zero, suc, Bool, true, false, List, [], ◌∷◌, ◌++◌, Option, none, some, Result, ok, err, panic,
  ◌>>=◌, ◌>>◌, Error, unwrap_some, length, take, drop, ltb, if◌then◌else◌,
}
use feeless.Crypto.{Blake2b, Ed25519}
use feeless.Node.Header
use feeless.Node.Header.{
  Header, MessageType, header_len, keepalive, publish, confirm_req, confirm_ack, bulk_pull,
  bulk_push, frontier_req, handshake, bulk_pull_account, telemetry_req, telemetry_ack,
}
use feeless.Node.Messages.Parts.{PeerInfo}
use feeless.Node.Messages.Votes.{ConfirmAck}
use feeless.Node.Messages.Keepalive.{keepalive_len, keepalive_deserialize}
use feeless.Node.Messages.Holder.{Publish, holder_len, publish_deserialize}
use feeless.Node.Messages.Confirm.{
  ConfirmReq, confirm_req_len, confirm_req_deserialize, confirm_ack_len, confirm_ack_deserialize,
}
use feeless.Node.Messages.Frontier.{FrontierReq, frontier_req_len, frontier_req_deserialize}
use feeless.Node.Messages.Handshake.{handshake_len, handshake_deserialize}
use feeless.Node.Messages.Telemetry.{TelemetryAck, telemetry_ack_len, telemetry_ack_deserialize}
use feeless.Node.State.Interface.{State}
use feeless.Node.Peer.Publish.{handle_publish}
use feeless.Node.Peer.Session.{
  Peer, RecvState, header_state, payload_state, send_handshake, handle_handshake,
}

-- `recv`, of a message with this `len` and this `deserialize`: the message and the bytes behind it,
-- or nothing where there are too few bytes.
unfoldable pub recv :
    {T : Type 0} → Result ℕ → (List ℕ → Result T) → List ℕ → Result (Option (T × List ℕ))
recv len deserialize buffer = do
  bytes ← len
  if ltb (length buffer) bytes
      then ok none
      else (do result ← deserialize (take bytes buffer); ok (some (result, drop bytes buffer)))

-- `handle!`, on what `recv` gives: the handler runs on the peer without the message's bytes.
unfoldable pub handle :
    {S T : Type 0} → (T → Peer S → Result (Peer S)) → Option (T × List ℕ) → Peer S → Result (Peer S)
handle fun none p = ok p
handle fun (some (payload, rest)) p = fun payload (record p { incoming_buffer = rest })

unfoldable pub receive :
    {S T : Type 0}
    → Result ℕ
    → (List ℕ → Result T)
    → (T → Peer S → Result (Peer S))
    → Peer S
    → Result (Peer S)
unfolding recv handle
receive len deserialize fun p = do
  payload ← recv len deserialize p.incoming_buffer
  handle fun payload p

-- `TelemetryReq`, which has no bytes.
abbrev pub TelemetryReq : Type 0
TelemetryReq = Unit {0}

abbrev pub telemetry_req_len : Result ℕ
telemetry_req_len = ok 0

abbrev pub telemetry_req_deserialize : List ℕ → Result TelemetryReq
telemetry_req_deserialize bytes = ok tt

-- The handlers that do nothing but write a log.
abbrev pub handle_keepalive : {S : Type 0} → List PeerInfo → Peer S → Result (Peer S)
handle_keepalive message p = ok p

abbrev pub handle_telemetry_req : {S : Type 0} → TelemetryReq → Peer S → Result (Peer S)
handle_telemetry_req message p = ok p

abbrev pub handle_telemetry_ack : {S : Type 0} → TelemetryAck → Peer S → Result (Peer S)
handle_telemetry_ack message p = ok p

abbrev pub handle_confirm_req : {S : Type 0} → ConfirmReq → Peer S → Result (Peer S)
handle_confirm_req message p = ok p

abbrev pub handle_confirm_ack : {S : Type 0} → ConfirmAck → Peer S → Result (Peer S)
handle_confirm_ack message p = ok p

abbrev pub handle_frontier_req : {S : Type 0} → FrontierReq → Peer S → Result (Peer S)
handle_frontier_req message p = ok (record p { frontier_stream = true })

module _ {S : Type 0} (store : State S) (h : Blake2b) (c : Ed25519) where
  unfoldable pub publish_to : Publish → Peer S → Result (Peer S)
  publish_to message p = do
    s ← handle_publish store h c message.holder p.state
    ok (record p { state = s })

  -- `match header.message_type()`. `seed` is the random seed that a handshake draws.
  unfoldable pub handle_message : List ℕ → MessageType → Header → Peer S → Result (Peer S)
  unfolding receive publish_to
  handle_message seed keepalive header p =
      receive (keepalive_len header) keepalive_deserialize handle_keepalive p
  handle_message seed publish header p =
      receive (holder_len header) (publish_deserialize h header) publish_to p
  handle_message seed confirm_req header p =
      receive (confirm_req_len header) (confirm_req_deserialize h header) handle_confirm_req p
  handle_message seed confirm_ack header p =
      receive (confirm_ack_len header) (confirm_ack_deserialize header) handle_confirm_ack p
  handle_message seed frontier_req header p =
      receive (ok frontier_req_len) frontier_req_deserialize handle_frontier_req p
  handle_message seed handshake header p =
      receive (handshake_len header) (handshake_deserialize header)
        (handle_handshake store h c seed header) p
  handle_message seed telemetry_req header p =
      receive telemetry_req_len telemetry_req_deserialize handle_telemetry_req p
  handle_message seed telemetry_ack header p =
      receive (ok telemetry_ack_len) telemetry_ack_deserialize handle_telemetry_ack p
  handle_message seed bulk_pull header p = err Error.unhandled_message
  handle_message seed bulk_push header p = err Error.unhandled_message
  handle_message seed bulk_pull_account header p = err Error.unhandled_message

  -- The branch of `RecvState::Header`, on what `recv` gives.
  unfoldable pub handle_header : Option (Header × List ℕ) → Peer S → Result (Peer S × Bool)
  handle_header none p = ok (record p { recv_state = header_state }, false)
  handle_header (some (header, rest)) p = do
    Header.validate header p.network
    ok (record p { recv_state = payload_state header; incoming_buffer = rest }, true)

  -- One round of the loop: the new peer, and whether to go on.
  unfoldable pub process : List ℕ → RecvState → Peer S → Result (Peer S × Bool)
  unfolding handle_header handle_message
  process seed header_state p = do
    header ← recv (ok header_len) Header.deserialize p.incoming_buffer
    handle_header header p
  process seed (payload_state header) p = do
    p1 ← handle_message seed header.message_type header p
    ok (record p1 { recv_state = header_state }, false)

  -- The loop, on fuel; `none` where the fuel ends before it does.
  unfoldable pub loop : ℕ → List ℕ → Peer S → Result (Option (Peer S))
  unfolding process
  loop zero seed p = ok none
  loop (suc fuel) seed p = do
    (p1, process_on) ← process seed p.recv_state p
    let rest = loop fuel seed p1
    if process_on then rest else ok (some p1)

  -- `handle_packet` of the data of a packet.
  unfoldable pub handle_packet : ℕ → List ℕ → List ℕ → Peer S → Result (Option (Peer S))
  unfolding loop
  handle_packet fuel seed packet p =
      loop fuel seed (record p { incoming_buffer = p.incoming_buffer ++ packet })

  -- The loop of `run` over the packets of a connection, each with the seed that it draws. Two rounds are
  -- enough for a packet, so the `unwrap_some` gives no panic.
  unfoldable pub handle_packets : List (List ℕ × List ℕ) → Peer S → Result (Peer S)
  unfolding handle_packet
  handle_packets [] p = ok p
  handle_packets ((seed, packet) ∷ packets) p = do
    got ← handle_packet 2 seed packet p
    p1 ← unwrap_some got
    handle_packets packets p1

  -- `run`, to the end of the incoming channel.
  unfoldable pub run : List ℕ → List (List ℕ × List ℕ) → Peer S → Result (Peer S)
  unfolding handle_packets
  run cookie packets p = do p1 ← send_handshake store h c cookie p; handle_packets packets p1
