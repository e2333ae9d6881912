-- ===== src/Node/Peer/Handshake/Complete.antt =====
-- A handshake from its first message to its last, between a peer and a peer that answers it.
use feeless.Common.{
  ℕ, ◌≡◌, ◌∙◌, refl, Bool, true, false, List, [], ◌∷◌, ◌++◌, append_assoc, some, ok, err, ◌>>=◌,
  Error, length,
}
use feeless.Common.Words.{to_be_bytes}
use feeless.Crypto.{Blake2b, Ed25519}
use feeless.Keys.Public
use feeless.Keys.Public.Laws.{verify_own}
use feeless.Node.Header
use feeless.Node.Header.{Header}
use feeless.Node.Messages.Handshake.{HandshakeResponse, response_serialize}
use feeless.Node.State.Interface.{State, IsStore}
use feeless.Node.Peer.Session.{Peer, header_state, send_handshake, check_cookie}
use feeless.Node.Peer.Receive.{handle_packet}
use feeless.Node.Peer.Handshake.{
  query_header, response_header, reply, Ready, query_sent, query_handled, response_handled,
}

-- The message that a handshake starts with, and the one that answers it.
abbrev pub query_packet : {S : Type 0} → List ℕ → Peer S → List ℕ
query_packet cookie p = Header.serialize (query_header p.network) ++ cookie

abbrev pub response_packet : {S : Type 0} → HandshakeResponse → Peer S → List ℕ
response_packet r p = Header.serialize (response_header p.network) ++ response_serialize r

module _ {S : Type 0} (store : State S) (h : Blake2b) (c : Ed25519) where
  accepts_own :
      (validate : Bool) (seed cookie : List ℕ)
      → check_cookie store h c validate (reply h c seed cookie) (some cookie) ≡ ok true
  unfolding check_cookie
  accepts_own false seed cookie = refl
  accepts_own true seed cookie =
      rw (verify_own c (h.blake2b 32 (seed ++ to_be_bytes 4 0)) cookie, ◌>>=◌)

  -- Two peers of one network that wait for a message with an open connection, over a lawful store. One
  -- starts a handshake with a cookie of 32 bytes: it sends a header and the cookie, as two packets.
  -- Where they reach the other in one packet, it handles them and sends a header and a response. Where
  -- these reach the first in one packet, it handles them without an error and without another message,
  -- and both wait for a message again. This holds whatever seeds are drawn, and whether or not the
  -- first validates responses.
  pub handshake_completes :
      (seed other cookie : List ℕ) (p q : Peer S)
      → IsStore store
      → length cookie ≡ 32
      → p.network ≡ q.network
      → Ready p
      → Ready q
      → (p1 p2 q1 : Peer S) × (r : HandshakeResponse) × (send_handshake store h c cookie p ≡ ok p1)
        × (p1.sent ≡ p.sent ++ (Header.serialize (query_header p.network) ∷ cookie ∷ []))
        × (handle_packet store h c 2 seed (query_packet cookie p) q ≡ ok (some q1))
        × (q1.sent
            ≡ q.sent ++ (Header.serialize (response_header q.network) ∷ response_serialize r ∷ []))
        × (handle_packet store h c 2 other (response_packet r q) p1 ≡ ok (some p2))
        × (p2.sent ≡ p1.sent)
        × Ready q1
        × Ready p2
  handshake_completes seed other cookie p q lawful long same ready_p ready_q =
      let r = reply h c seed cookie in
      let p1 = record p {
        state = store.set_cookie p.peer_addr cookie p.state;
        sent = (p.sent ++ (Header.serialize (query_header p.network) ∷ [])) ++ (cookie ∷ []);
      } in
      let p2 = record p1 { recv_state = header_state; incoming_buffer = [] } in
      let q1 = record q {
        recv_state = header_state;
        incoming_buffer = [];
        sent =
            (q.sent ++ (Header.serialize (response_header q.network) ∷ []))
            ++ (response_serialize r ∷ []);
      } in
      let accepted : check_cookie store h c p.validate_handshakes r
            (store.cookie_for_socket_addr p.peer_addr p1.state)
          ≡ ok true =
        rw (lawful.cookie_self p.peer_addr cookie p.state)
          (accepts_own p.validate_handshakes seed cookie) in
      (
        p1,
        p2,
        q1,
        r,
        query_sent store h c cookie p ready_p.2,
        append_assoc p.sent _ _,
        rw same (query_handled store h c seed cookie q ready_q long),
        append_assoc q.sent _ _,
        rw⁻¹ same (
            response_handled store h c other r p1 ready_p.0 ready_p.1 (c.length-public_key _)
              (c.length-sign _ _)
            ∙ rw (accepted, ◌>>=◌)),
        refl,
        (refl, refl, ready_q.2),
        (refl, refl, ready_p.2),
      )

  -- A response to a peer that validates, whose signature of the cookie sent is not one of the key it
  -- names, ends the connection with an error.
  pub handshake_forged :
      (seed cookie : List ℕ) (r : HandshakeResponse) (p : Peer S)
      → Ready p
      → p.validate_handshakes ≡ true
      → store.cookie_for_socket_addr p.peer_addr p.state ≡ some cookie
      → length r.public ≡ 32
      → length r.signature ≡ 64
      → c.is_public_key r.public ≡ true
      → c.verify r.public cookie r.signature ≡ false
      → handle_packet store h c 2 seed (response_packet r p) p ≡ err Error.signature_error
  unfolding check_cookie Public.verify
  handshake_forged seed cookie r p ready validates stored public signature known forged =
      response_handled store h c seed r p ready.0 ready.1 public signature
      ∙ rw (stored, validates) (rw (known, forged))
