-- ===== src/Node/Peer/Receive/Whole.antt =====
-- Messages that come in one packet, and messages that do not.
use feeless.Common.{
  ℕ, ◌<◌, ◌≡◌, ◌∙◌, refl, sym, ap, true, false, List, [], ◌++◌, none, some, Result, ok, err, ◌>>=◌,
  Result-cases, >>=-assoc, Error, arith, if◌then◌else◌, inl, inr, length, length-append,
  take_append, drop_append, ltb-false, lt→ltb,
}
use feeless.Crypto.{Blake2b, Ed25519}
use feeless.Network
use feeless.Network.{Network, test, beta, live}
use feeless.Node.Extensions.{Extensions}
use feeless.Node.Header
use feeless.Node.Header.{
  Header, MessageType, header_len, keepalive, publish, confirm_req, confirm_ack, bulk_pull,
  bulk_push, frontier_req, handshake, bulk_pull_account, telemetry_req, telemetry_ack,
}
use feeless.Node.Header.RoundTrip.{deserialize-serialize}
use feeless.Node.Messages.Keepalive.{keepalive_len, keepalive_deserialize}
use feeless.Node.Messages.Holder.{holder_len, publish_deserialize}
use feeless.Node.Messages.Confirm.{
  confirm_req_len, confirm_req_deserialize, confirm_ack_len, confirm_ack_deserialize,
}
use feeless.Node.Messages.Frontier.{frontier_req_len, frontier_req_deserialize}
use feeless.Node.Messages.Handshake.{handshake_len, handshake_deserialize}
use feeless.Node.Messages.Telemetry.{telemetry_ack_len, telemetry_ack_deserialize}
use feeless.Node.State.Interface.{State}
use feeless.Node.Peer.Session.{Peer, RecvState, header_state, payload_state, handle_handshake}
use feeless.Node.Peer.Receive.{
  recv, handle, receive, telemetry_req_len, telemetry_req_deserialize, handle_keepalive,
  handle_telemetry_req, handle_telemetry_ack, handle_confirm_req, handle_confirm_ack,
  handle_frontier_req, publish_to, handle_message, handle_header, process, loop, handle_packet,
}

-- How many bytes the payload behind a header takes.
unfoldable pub payload_len : MessageType → Header → Result ℕ
payload_len keepalive header = keepalive_len header
payload_len publish header = holder_len header
payload_len confirm_req header = confirm_req_len header
payload_len confirm_ack header = confirm_ack_len header
payload_len frontier_req header = ok frontier_req_len
payload_len handshake header = handshake_len header
payload_len telemetry_req header = telemetry_req_len
payload_len telemetry_ack header = ok telemetry_ack_len
payload_len _ header = err Error.unhandled_message

recv_whole :
    {T : Type 0} (len : Result ℕ) (deserialize : List ℕ → Result T) (body more : List ℕ)
    → len ≡ ok (length body)
    → recv len deserialize (body ++ more) ≡ (deserialize body >>= λ t. ok (some (t, more)))
unfolding recv
recv_whole len deserialize body more e =
    rw (e, ◌>>=◌)
      (rw (ltb-false (length (body ++ more)) (length body) (omega (arith, length-append body more)))
        (rw (take_append body more, drop_append body more)))

recv_short :
    {T : Type 0} (len : Result ℕ) (deserialize : List ℕ → Result T) (buffer : List ℕ) (n : ℕ)
    → len ≡ ok n
    → length buffer < n
    → recv len deserialize buffer ≡ ok none
unfolding recv
recv_short len deserialize buffer n e less = rw (e, ◌>>=◌) (rw (lt→ltb (length buffer) n less))

receive_whole :
    {S T : Type 0} (len : Result ℕ) (deserialize : List ℕ → Result T)
    (fun : T → Peer S → Result (Peer S)) (body more : List ℕ) (p : Peer S)
    → len ≡ ok (length body)
    → receive len deserialize fun (record p { incoming_buffer = body ++ more })
      ≡ (deserialize body >>= λ t. fun t (record p { incoming_buffer = more }))
unfolding receive handle
receive_whole len deserialize fun body more p e = elim (Result-cases (deserialize body)) [
  | inl (t, read) ↦ rw (recv_whole len deserialize body more e, ◌>>=◌) (rw (read, ◌>>=◌))
  | inr (inl (raised, read)) ↦ rw (recv_whole len deserialize body more e, ◌>>=◌) (rw (read, ◌>>=◌))
  | inr (inr read) ↦ rw (recv_whole len deserialize body more e, ◌>>=◌) (rw (read, ◌>>=◌))
]

receive_short :
    {S T : Type 0} (len : Result ℕ) (deserialize : List ℕ → Result T)
    (fun : T → Peer S → Result (Peer S)) (p : Peer S) (n : ℕ)
    → len ≡ ok n
    → length p.incoming_buffer < n
    → receive len deserialize fun p ≡ ok p
unfolding receive handle
receive_short len deserialize fun p n e less =
    rw (recv_short len deserialize p.incoming_buffer n e less, ◌>>=◌)

valid_header :
    (n : Network) (t : MessageType) (ext : Extensions)
    → Header.validate (Header.new n t ext) n ≡ ok record {}
unfolding Header.validate Header.new Network.same
valid_header test t ext = refl
valid_header beta t ext = refl
valid_header live t ext = refl

type_of_new :
    (n : Network) (t : MessageType) (ext : Extensions) → (Header.new n t ext).message_type ≡ t
unfolding Header.new
type_of_new n t ext = refl

module _ {S : Type 0} (store : State S) (h : Blake2b) (c : Ed25519) (seed : List ℕ) where
  -- What the handler of a message does with the bytes of its payload.
  unfoldable pub deliver : MessageType → Header → List ℕ → Peer S → Result (Peer S)
  deliver keepalive header body p = keepalive_deserialize body >>= λ t. handle_keepalive t p
  deliver publish header body p =
      publish_deserialize h header body >>= λ t. publish_to store h c t p
  deliver confirm_req header body p =
      confirm_req_deserialize h header body >>= λ t. handle_confirm_req t p
  deliver confirm_ack header body p =
      confirm_ack_deserialize header body >>= λ t. handle_confirm_ack t p
  deliver frontier_req header body p =
      frontier_req_deserialize body >>= λ t. handle_frontier_req t p
  deliver handshake header body p =
      handshake_deserialize header body >>= λ t. handle_handshake store h c seed header t p
  deliver telemetry_req header body p =
      telemetry_req_deserialize body >>= λ t. handle_telemetry_req t p
  deliver telemetry_ack header body p =
      telemetry_ack_deserialize body >>= λ t. handle_telemetry_ack t p
  deliver _ header body p = err Error.unhandled_message

  handle_message_whole :
      (t : MessageType) (header : Header) (body more : List ℕ) (p : Peer S)
      → payload_len t header ≡ ok (length body)
      → handle_message store h c seed t header (record p { incoming_buffer = body ++ more })
        ≡ deliver t header body (record p { incoming_buffer = more })
  unfolding handle_message deliver payload_len
  handle_message_whole keepalive header body more p e =
      receive_whole (keepalive_len header) keepalive_deserialize handle_keepalive body more p e
  handle_message_whole publish header body more p e =
      receive_whole (holder_len header) (publish_deserialize h header) (publish_to store h c) body
        more p e
  handle_message_whole confirm_req header body more p e =
      receive_whole (confirm_req_len header) (confirm_req_deserialize h header) handle_confirm_req
        body more p e
  handle_message_whole confirm_ack header body more p e =
      receive_whole (confirm_ack_len header) (confirm_ack_deserialize header) handle_confirm_ack
        body more p e
  handle_message_whole frontier_req header body more p e =
      receive_whole (ok frontier_req_len) frontier_req_deserialize handle_frontier_req body more p e
  handle_message_whole handshake header body more p e =
      receive_whole (handshake_len header) (handshake_deserialize header)
        (handle_handshake store h c seed header) body more p e
  handle_message_whole telemetry_req header body more p e =
      receive_whole telemetry_req_len telemetry_req_deserialize handle_telemetry_req body more p e
  handle_message_whole telemetry_ack header body more p e =
      receive_whole (ok telemetry_ack_len) telemetry_ack_deserialize handle_telemetry_ack body more
        p e
  handle_message_whole bulk_pull header body more p e = refl
  handle_message_whole bulk_push header body more p e = refl
  handle_message_whole bulk_pull_account header body more p e = refl

  handle_message_short :
      (t : MessageType) (header : Header) (n : ℕ) (p : Peer S)
      → payload_len t header ≡ ok n
      → length p.incoming_buffer < n
      → handle_message store h c seed t header p ≡ ok p
  unfolding handle_message payload_len
  handle_message_short keepalive header n p e less =
      receive_short (keepalive_len header) keepalive_deserialize handle_keepalive p n e less
  handle_message_short publish header n p e less =
      receive_short (holder_len header) (publish_deserialize h header) (publish_to store h c) p n e
        less
  handle_message_short confirm_req header n p e less =
      receive_short (confirm_req_len header) (confirm_req_deserialize h header) handle_confirm_req p
        n e less
  handle_message_short confirm_ack header n p e less =
      receive_short (confirm_ack_len header) (confirm_ack_deserialize header) handle_confirm_ack p n
        e less
  handle_message_short frontier_req header n p e less =
      receive_short (ok frontier_req_len) frontier_req_deserialize handle_frontier_req p n e less
  handle_message_short handshake header n p e less =
      receive_short (handshake_len header) (handshake_deserialize header)
        (handle_handshake store h c seed header) p n e less
  handle_message_short telemetry_req header n p e less =
      receive_short telemetry_req_len telemetry_req_deserialize handle_telemetry_req p n e less
  handle_message_short telemetry_ack header n p e less =
      receive_short (ok telemetry_ack_len) telemetry_ack_deserialize handle_telemetry_ack p n e less
  handle_message_short bulk_pull header n p e less = cc
  handle_message_short bulk_push header n p e less = cc
  handle_message_short bulk_pull_account header n p e less = cc

  -- The round that reads a header of this network.
  process_header :
      (t : MessageType) (ext : Extensions) (more : List ℕ) (p : Peer S)
      → process store h c seed header_state
          (record p { incoming_buffer = Header.serialize (Header.new p.network t ext) ++ more })
        ≡ ok (
          record p {
            recv_state = payload_state (Header.new p.network t ext);
            incoming_buffer = more;
          },
          true,
        )
  unfolding process handle_header
  process_header t ext more p =
      let header = Header.new p.network t ext in
      let (back, long) = deserialize-serialize p.network t ext in
      let got : recv (ok header_len) Header.deserialize (Header.serialize header ++ more)
          ≡ ok (some (header, more)) =
        recv_whole (ok header_len) Header.deserialize (Header.serialize header) more
          (ap ok (sym long))
        ∙ rw (back, ◌>>=◌) in
      rw (got, ◌>>=◌) (rw (valid_header p.network t ext, ◌>>=◌))

  -- The round that hands on the payload behind a header.
  process_payload :
      (t : MessageType) (header : Header) (p : Peer S) (result : Result (Peer S))
      → header.message_type ≡ t
      → handle_message store h c seed t header p ≡ result
      → process store h c seed (payload_state header) p
        ≡ (result >>= λ q. ok (record q { recv_state = header_state }, false))
  unfolding process
  process_payload t header p result kind e =
      ap (λ (x : Result (Peer S)). x >>= λ q. ok (record q { recv_state = header_state }, false))
        (ap (λ (k : MessageType). handle_message store h c seed k header p) kind ∙ e)

  -- The two rounds of a packet that starts with a header.
  pub handle_packet_header :
      (t : MessageType) (ext : Extensions) (more : List ℕ) (p : Peer S) (result : Result (Peer S))
      → p.recv_state ≡ header_state
      → p.incoming_buffer ≡ []
      → handle_message store h c seed t (Header.new p.network t ext) (record p {
        recv_state = payload_state (Header.new p.network t ext);
        incoming_buffer = more;
      })
        ≡ result
      → handle_packet store h c 2 seed (Header.serialize (Header.new p.network t ext) ++ more) p
        ≡ (result >>= λ q. ok (some (record q { recv_state = header_state })))
  unfolding handle_packet loop
  handle_packet_header t ext more p result waits empty handled =
      let header = Header.new p.network t ext in
      let packet = Header.serialize header ++ more in
      let p1 = record p { recv_state = payload_state header; incoming_buffer = more } in
      let first : process store h c seed p.recv_state
            (record p { incoming_buffer = p.incoming_buffer ++ packet })
          ≡ ok (p1, true) =
        ap
          (λ (w : RecvState).
            process store h c seed w (record p { incoming_buffer = p.incoming_buffer ++ packet }))
          waits
        ∙ ap
            (λ (b : List ℕ).
              process store h c seed header_state (record p { incoming_buffer = b ++ packet }))
            empty
        ∙ process_header t ext more p in
      let second = process_payload t header p1 result (type_of_new p.network t ext) handled in
      rw (first, ◌>>=◌)
        (rw second (
          >>=-assoc result (λ q. ok (record q { recv_state = header_state }, false))
            (λ x. if x.1 then ok none else ok (some x.0))))

  -- A peer that waits for a header, and a packet with a whole message: the message is handled, and
  -- what follows it in the packet stays in the buffer, where nothing handles it before the next
  -- packet comes.
  pub handle_packet_whole :
      (t : MessageType) (ext : Extensions) (body more : List ℕ) (p : Peer S)
      → p.recv_state ≡ header_state
      → p.incoming_buffer ≡ []
      → payload_len t (Header.new p.network t ext) ≡ ok (length body)
      → handle_packet store h c 2 seed
          (Header.serialize (Header.new p.network t ext) ++ (body ++ more))
          p
        ≡ (deliver t (Header.new p.network t ext) body (record p {
          recv_state = payload_state (Header.new p.network t ext);
          incoming_buffer = more;
        })
            >>= λ q. ok (some (record q { recv_state = header_state })))
  unfolding handle_packet loop
  handle_packet_whole t ext body more p waits empty sized =
      let header = Header.new p.network t ext in
      let p1 = record p { recv_state = payload_state header; incoming_buffer = more } in
      handle_packet_header t ext (body ++ more) p (deliver t header body p1) waits empty (
        handle_message_whole t header body more (record p { recv_state = payload_state header })
          sized)

  -- A peer that waits for a header, and a packet that ends behind the header or within the payload:
  -- the peer does not wait for the rest. It keeps the part of the payload in its buffer, forgets the
  -- header, and takes the next bytes for another header.
  pub handle_packet_split :
      (t : MessageType) (ext : Extensions) (part : List ℕ) (n : ℕ) (p : Peer S)
      → p.recv_state ≡ header_state
      → p.incoming_buffer ≡ []
      → payload_len t (Header.new p.network t ext) ≡ ok n
      → length part < n
      → handle_packet store h c 2 seed (Header.serialize (Header.new p.network t ext) ++ part) p
        ≡ ok (some (record p { recv_state = header_state; incoming_buffer = part }))
  handle_packet_split t ext part n p waits empty sized short =
      let header = Header.new p.network t ext in
      let p1 = record p { recv_state = payload_state header; incoming_buffer = part } in
      handle_packet_header t ext part p (ok p1) waits empty
        (handle_message_short t header n p1 sized short)
