-- ===== src/Node/Peer/Handshake.antt =====
-- The handshake of two peers, from the bytes that one sends to the bytes that the other handles.
pub mod Complete
pub mod Split
use feeless.Common.{
  ℕ, ◌≤◌, ◌≡◌, ◌∙◌, refl, sym, ap, Bool, true, false, List, [], ◌∷◌, ◌++◌, append-nil, append_assoc,
  Option, none, some, Result, ok, err, panic, ◌>>=◌, ◌>>◌, >>=-assoc, Error, arith, if◌then◌else◌,
  ◌==◌, not, length, take, drop, take_all,
}
use feeless.Common.Words.{to_be_bytes}
use feeless.Crypto.{Blake2b, Ed25519}
use feeless.Bytes.Layout.{segment}
use feeless.Blocks.Link.Laws.{array_ok}
use feeless.Keys.Public
use feeless.Keys.Public.Laws.{to_public_ok, sign_ok, verify_own}
use feeless.Keys.Seed.{derive, derive_ok}
use feeless.Network.{Network}
use feeless.Node.Extensions
use feeless.Node.Extensions.{Extensions}
use feeless.Node.Header
use feeless.Node.Header.{Header, handshake}
use feeless.Node.Messages.Handshake.{
  Handshake, HandshakeResponse, response_layout, handshake_len, handshake_deserialize,
  handshake_deserialize-layout, response_serialize, response_layout-serialize,
  length-response_serialize,
}
use feeless.Node.State.Interface.{State, IsStore}
use feeless.Node.Peer.Session.{
  Peer, header_state, payload_state, send, send_header, send_handshake, answer, check_cookie,
  check_response, respond, handle_handshake,
}
use feeless.Node.Peer.Receive.{handle_packet}
use feeless.Node.Peer.Receive.Whole.{payload_len, deliver, handle_packet_whole}

abbrev pub query_header : Network → Header
query_header n = Header.new n handshake (Extensions.query Extensions.new)

abbrev pub response_header : Network → Header
response_header n = Header.new n handshake (Extensions.response Extensions.new)

query_sized :
    (n : Network) (cookie : List ℕ)
    → length cookie ≡ 32
    → handshake_len (query_header n) ≡ ok (length cookie)
unfolding handshake_len Header.new Extensions.query Extensions.new Extensions.is_query
    Extensions.is_response
query_sized n cookie e = ap ok (sym e)

response_sized :
    (n : Network) (body : List ℕ)
    → length body ≡ 96
    → handshake_len (response_header n) ≡ ok (length body)
unfolding handshake_len Header.new Extensions.response Extensions.new Extensions.is_query
    Extensions.is_response
response_sized n body e = ap ok (sym e)

query_read :
    (n : Network) (cookie : List ℕ)
    → length cookie ≡ 32
    → handshake_deserialize (query_header n) cookie
      ≡ ok (record { query = some cookie; response = none })
unfolding Header.new Extensions.query Extensions.new Extensions.is_query Extensions.is_response
query_read n cookie e =
    handshake_deserialize-layout (query_header n) cookie (query_sized n cookie e)
    ∙ ap (λ (bytes : List ℕ). ok (record { query = some bytes; response = none }))
        (take_all 32 cookie (omega arith))

response_read :
    (n : Network) (r : HandshakeResponse)
    → length r.public ≡ 32
    → length r.signature ≡ 64
    → handshake_deserialize (response_header n) (response_serialize r)
      ≡ ok (record { query = none; response = some r })
unfolding Header.new Extensions.response Extensions.new Extensions.is_query Extensions.is_response
response_read n r public signature =
    let body = response_serialize r in
    let long = length-response_serialize r public signature in
    handshake_deserialize-layout (response_header n) body (response_sized n body long)
    ∙ ap (λ (bytes : List ℕ). ok (record { query = none; response = some (response_layout bytes) }))
        (take_all 96 body (omega arith))
    ∙ ap (λ (back : HandshakeResponse). ok (record { query = none; response = some back }))
        (response_layout-serialize r public signature)

-- The response that a query with this cookie gets.
abbrev pub reply : Blake2b → Ed25519 → List ℕ → List ℕ → HandshakeResponse
reply h c seed cookie =
    let private = h.blake2b 32 (seed ++ to_be_bytes 4 0) in
    record { public = c.public_key private; signature = c.sign private cookie }

-- The peer waits for a message, has nothing in its buffer, and its connection is open.
abbrev pub Ready : {S : Type 0} → Peer S → Type 0
Ready p = (p.recv_state ≡ header_state) × (p.incoming_buffer ≡ []) × (p.is_open ≡ true)

module _ {S : Type 0} (store : State S) (h : Blake2b) (c : Ed25519) (seed : List ℕ) where
  asked_lem :
      (n : Network) (cookie : List ℕ) (p : Peer S)
      → p.is_open ≡ true
      → handle_handshake store h c seed
          (query_header n)
          (record { query = some cookie; response = none })
          p
        ≡ ok (record p {
          sent =
              (p.sent ++ (Header.serialize (response_header p.network) ∷ []))
              ++ (response_serialize (reply h c seed cookie) ∷ []);
        })
  unfolding handle_handshake check_response respond send_header send Header.new Extensions.query
      Extensions.new Extensions.is_query Extensions.is_response
  asked_lem n cookie p opened =
      let private = h.blake2b 32 (seed ++ to_be_bytes 4 0) in
      let long = h.length-blake2b 32 (seed ++ to_be_bytes 4 0) in
      rw (derive_ok h seed 0) (
        rw (to_public_ok c private long, sign_ok c private cookie long, verify_own c private cookie)
          (rw opened))

  no_reply :
      (accepted : Result Bool) (p : Peer S)
      → (accepted >>= λ b. if b then respond store h c none p else ok p) ≡ (accepted >>= λ _. ok p)
  unfolding respond
  no_reply (ok true) p = refl
  no_reply (ok false) p = refl
  no_reply (err raised) p = refl
  no_reply panic p = refl

  answered_lem :
      (n : Network) (r : HandshakeResponse) (p : Peer S)
      → handle_handshake store h c seed
          (response_header n)
          (record { query = none; response = some r })
          p
        ≡ (check_cookie store h c p.validate_handshakes r
              (store.cookie_for_socket_addr p.peer_addr p.state)
            >>= λ _. ok p)
  unfolding handle_handshake check_response respond answer Header.new Extensions.response
      Extensions.new Extensions.is_query Extensions.is_response
  answered_lem n r p =
      no_reply
        (check_cookie store h c p.validate_handshakes r
          (store.cookie_for_socket_addr p.peer_addr p.state))
        p

  -- A packet with a whole message of a handshake, and nothing behind it.
  handle_packet_handshake :
      (ext : Extensions) (body : List ℕ) (message : Handshake) (p : Peer S)
      → p.recv_state ≡ header_state
      → p.incoming_buffer ≡ []
      → handshake_len (Header.new p.network handshake ext) ≡ ok (length body)
      → handshake_deserialize (Header.new p.network handshake ext) body ≡ ok message
      → handle_packet store h c 2 seed
          (Header.serialize (Header.new p.network handshake ext) ++ body)
          p
        ≡ (handle_handshake store h c seed (Header.new p.network handshake ext) message (record p {
          recv_state = payload_state (Header.new p.network handshake ext);
          incoming_buffer = [];
        })
            >>= λ q. ok (some (record q { recv_state = header_state })))
  unfolding payload_len deliver
  handle_packet_handshake ext body message p waits empty sized reads =
      let whole = handle_packet_whole store h c seed handshake ext body [] p waits empty sized in
      ap
        (λ (bytes : List ℕ).
          handle_packet store h c 2 seed
            (Header.serialize (Header.new p.network handshake ext) ++ bytes) p)
        (sym (append-nil body))
      ∙ whole
      ∙ rw (reads, ◌>>=◌)

module _ {S : Type 0} (store : State S) (h : Blake2b) (c : Ed25519) where
  pub query_sent :
      (cookie : List ℕ) (p : Peer S)
      → p.is_open ≡ true
      → send_handshake store h c cookie p
        ≡ ok (record p {
          state = store.set_cookie p.peer_addr cookie p.state;
          sent = (p.sent ++ (Header.serialize (query_header p.network) ∷ [])) ++ (cookie ∷ []);
        })
  unfolding send_handshake send_header send
  query_sent cookie p opened = rw opened

  query_handled :
      (seed cookie : List ℕ) (p : Peer S)
      → Ready p
      → length cookie ≡ 32
      → handle_packet store h c 2 seed (Header.serialize (query_header p.network) ++ cookie) p
        ≡ ok (
            some (record p {
              recv_state = header_state;
              incoming_buffer = [];
              sent =
                  (p.sent ++ (Header.serialize (response_header p.network) ∷ []))
                  ++ (response_serialize (reply h c seed cookie) ∷ []);
            }))
  query_handled seed cookie p (waits, empty, opened) long =
      handle_packet_handshake store h c seed (Extensions.query Extensions.new) cookie
        (record { query = some cookie; response = none }) p waits empty
        (query_sized p.network cookie long) (query_read p.network cookie long)
      ∙ rw (
        asked_lem store h c seed p.network cookie
            (record p { recv_state = payload_state (query_header p.network); incoming_buffer = [] })
            opened,
        ◌>>=◌,
      )

  response_handled :
      (seed : List ℕ) (r : HandshakeResponse) (p : Peer S)
      → p.recv_state ≡ header_state
      → p.incoming_buffer ≡ []
      → length r.public ≡ 32
      → length r.signature ≡ 64
      → handle_packet store h c 2 seed
          (Header.serialize (response_header p.network) ++ response_serialize r)
          p
        ≡ (check_cookie store h c p.validate_handshakes r
              (store.cookie_for_socket_addr p.peer_addr p.state)
            >>= λ _. ok (some (record p { recv_state = header_state; incoming_buffer = [] })))
  response_handled seed r p waits empty public signature =
      handle_packet_handshake store h c seed (Extensions.response Extensions.new)
        (response_serialize r) (record { query = none; response = some r }) p waits empty
        (response_sized p.network (response_serialize r)
          (length-response_serialize r public signature))
        (response_read p.network r public signature)
      ∙ ap (λ (m : Result (Peer S)). m >>= λ q. ok (some (record q { recv_state = header_state })))
          (answered_lem store h c seed p.network r (record p {
            recv_state = payload_state (response_header p.network);
            incoming_buffer = [];
          }))
      ∙ >>=-assoc
          (check_cookie store h c p.validate_handshakes r
            (store.cookie_for_socket_addr p.peer_addr p.state))
          _ _
