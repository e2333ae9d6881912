-- ===== src/Node/Peer/Session.antt =====
-- src/node/peer/mod.rs and the handshake of messages.rs: the state of a connection, and what it sends.
-- The channel to the socket is the list of the packets that were sent, and whether it is still open.
use feeless.Common.{
  ℕ, Bool, true, false, List, [], ◌∷◌, ◌++◌, Option, none, some, Result, ok, ◌>>=◌, ◌>>◌, Error,
  ok_or, unwrap_some, fail_if, not, if◌then◌else◌,
}
use feeless.Crypto.{Blake2b, Ed25519}
use feeless.Keys.Public
use feeless.Keys.Seed.{derive}
use feeless.Network.{Network}
use feeless.Node.Extensions
use feeless.Node.Extensions.{Extensions}
use feeless.Node.Header
use feeless.Node.Header.{Header, MessageType, handshake}
use feeless.Node.Messages.Handshake.{Handshake, HandshakeResponse, response_serialize}
use feeless.Node.State.Interface.{State}

-- `enum RecvState`
pub data RecvState : Type 0 where
  header_state : RecvState
  payload_state : Header → RecvState

pub record Peer (S : Type 0) : Type 0 where
  pub validate_handshakes : Bool
  pub network : Network
  pub state : S
  pub peer_addr : List ℕ
  pub recv_state : RecvState
  pub frontier_stream : Bool
  pub incoming_buffer : List ℕ
  pub is_open : Bool
  pub sent : List (List ℕ)

-- `new_with_channels`
unfoldable pub new_with_channels : {S : Type 0} → Network → S → List ℕ → Peer S
new_with_channels network state peer_addr = record {
  validate_handshakes = true;
  network = network;
  state = state;
  peer_addr = peer_addr;
  recv_state = header_state;
  frontier_stream = false;
  incoming_buffer = [];
  is_open = true;
  sent = [];
}

-- `send` of a message's bytes.
unfoldable pub send : {S : Type 0} → List ℕ → Peer S → Result (Peer S)
send payload p = do
  fail_if (not p.is_open) Error.channel_closed
  ok (record p { sent = p.sent ++ (payload ∷ []) })

unfoldable pub send_header : {S : Type 0} → MessageType → Extensions → Peer S → Result (Peer S)
unfolding send
send_header message_type ext p = send (Header.serialize (Header.new p.network message_type ext)) p

module _ {S : Type 0} (store : State S) (h : Blake2b) (c : Ed25519) where
  -- `send_handshake`, with the bytes of `Cookie::random`.
  unfoldable pub send_handshake : List ℕ → Peer S → Result (Peer S)
  unfolding send_header send
  send_handshake cookie p = do
    p1 ← send_header handshake (Extensions.query Extensions.new) p
    send cookie (record p1 { state = store.set_cookie p1.peer_addr cookie p1.state })

  -- The answer to a query: a fresh key signs the cookie. `seed` is what `Seed::random` gives.
  unfoldable pub answer : List ℕ → Bool → Option (List ℕ) → Result (Option HandshakeResponse)
  answer seed false query = ok none
  answer seed true query = do
    cookie ← unwrap_some query
    private ← derive h seed 0
    public ← Public.to_public c private
    signature ← Public.sign c private cookie
    Public.verify c public cookie signature
    ok (some (record { public = public; signature = signature }))

  -- Checking a response against the cookie that was sent, where there is one: false is the early
  -- return of a peer without a cookie.
  unfoldable pub check_cookie : Bool → HandshakeResponse → Option (List ℕ) → Result Bool
  check_cookie validate response none = ok false
  check_cookie validate response (some cookie) =
      if validate
      then (do Public.verify c response.public cookie response.signature; ok true)
      else ok true

  unfoldable pub check_response : Bool → Option HandshakeResponse → Peer S → Result Bool
  unfolding check_cookie
  check_response false response p = ok true
  check_response true response p = do
    r ← ok_or response Error.response_missing
    check_cookie p.validate_handshakes r (store.cookie_for_socket_addr p.peer_addr p.state)

  -- `if let ShouldRespond::Yes(..)`
  unfoldable pub respond : Option HandshakeResponse → Peer S → Result (Peer S)
  unfolding send_header send
  respond none p = ok p
  respond (some r) p = do
    p1 ← send_header handshake (Extensions.response Extensions.new) p
    send (response_serialize r) p1

  unfoldable pub handle_handshake : List ℕ → Header → Handshake → Peer S → Result (Peer S)
  unfolding answer check_response respond
  handle_handshake seed header message p = do
    should_respond ← answer seed (Extensions.is_query header.ext) message.query
    accepted ← check_response (Extensions.is_response header.ext) message.response p
    if accepted then respond should_respond p else ok p
