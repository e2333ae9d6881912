-- ===== src/Node/Peer/Receive/Keeps.antt =====
-- What the handling of packets keeps of the state of the node: only a published block changes it.
use mathlib.Core.Path.{subst}
use feeless.Common.{
  ℕ, zero, suc, ◌+◌, ◌≤◌, ◌≡◌, ◌∙◌, sym, ap, inl, inr, Bool, true, false, List, ◌++◌, Option, none,
  some, Result, ok, ◌>>=◌, >>=-eq-ok, ok_inj, Bool-cases, Error, arith, fail_if, if◌then◌else◌, not,
  length, take, drop, ltb,
}
use feeless.Crypto.{Blake2b, Ed25519}
use feeless.Bytes.Layout.{length-segment}
use feeless.Node.Extensions
use feeless.Node.Extensions.{Extensions}
use feeless.Node.Header
use feeless.Node.Header.{
  Header, MessageType, header_len, keepalive, publish, confirm_req, confirm_ack, bulk_pull,
  bulk_push, frontier_req, handshake, bulk_pull_account, telemetry_req, telemetry_ack,
}
use feeless.Node.Messages.Keepalive.{keepalive_len, keepalive_deserialize}
use feeless.Node.Messages.Holder.{Publish, holder_len, publish_deserialize}
use feeless.Node.Messages.Confirm.{
  confirm_req_len, confirm_req_deserialize, confirm_ack_len, confirm_ack_deserialize,
}
use feeless.Node.Messages.Frontier.{frontier_req_len, frontier_req_deserialize}
use feeless.Node.Messages.Handshake.{
  Handshake, HandshakeResponse, handshake_len, handshake_deserialize,
}
use feeless.Node.Messages.Telemetry.{telemetry_ack_len, telemetry_ack_deserialize}
use feeless.Node.State.Interface.{State}
use feeless.Node.Peer.Publish.{handle_publish}
use feeless.Node.Peer.Session.{
  Peer, RecvState, header_state, payload_state, send, send_header, answer, check_response, respond,
  handle_handshake,
}
use feeless.Node.Peer.Receive.{
  recv, handle, receive, telemetry_req_len, telemetry_req_deserialize, handle_keepalive,
  handle_telemetry_req, handle_telemetry_ack, handle_confirm_req, handle_confirm_ack,
  handle_frontier_req, publish_to, handle_message, handle_header, process, loop, handle_packet,
}

send-state :
    {S : Type 0} (payload : List ℕ) (p q : Peer S) → send payload p ≡ ok q → q.state ≡ p.state
unfolding send
send-state payload p q e =
    let (u, opened, rest) = >>=-eq-ok (fail_if (not p.is_open) Error.channel_closed) _ e in
    ap (λ (x : Peer _). x.state) (sym (ok_inj rest))

send_header-state :
    {S : Type 0} (t : MessageType) (ext : Extensions) (p q : Peer S)
    → send_header t ext p ≡ ok q
    → q.state ≡ p.state
unfolding send_header
send_header-state t ext p q e = send-state _ p q e

abbrev first_or : {T U : Type 0} → T → Option (T × U) → T
first_or t none = t
first_or t (some (found, _)) = found

reaches : (a b : ℕ) → ltb a b ≡ false → 0 + b ≤ a
reaches a b e = ground arith

-- The bytes that a message was read from.
recv-some :
    {T : Type 0} (len : Result ℕ) (deserialize : List ℕ → Result T) (buffer : List ℕ) (t : T)
    (rest : List ℕ)
    → recv len deserialize buffer ≡ ok (some (t, rest))
    → (bytes : List ℕ) × (len ≡ ok (length bytes)) × (deserialize bytes ≡ ok t)
unfolding recv
recv-some {T = T} len deserialize buffer t rest e =
    let (n, sized, e1) = >>=-eq-ok len _ e in
    elim (Bool-cases (ltb (length buffer) n)) [
      | inl short ↦
          let no : ◌≡◌ {A = Result (Option (T × List ℕ))} (ok none) (ok (some (t, rest))) =
            rw short at e1 in
          cc
      | inr enough ↦
          let e2 : ◌≡◌ {A = Result (Option (T × List ℕ))}
              (deserialize (take n buffer) >>= λ result. ok (some (result, drop n buffer)))
              (ok (some (t, rest))) =
            rw enough at e1 in
          let (result, read, e3) = >>=-eq-ok (deserialize (take n buffer)) _ e2 in
          let same : result ≡ t = ap (λ (x : Option (T × List ℕ)). first_or t x) (ok_inj e3) in
          (
            take n buffer,
            sized
                ∙ ap (λ (k : ℕ). ok k)
                    (sym (length-segment buffer 0 n (reaches (length buffer) n enough))),
            read ∙ ap (λ (x : T). ok x) same,
          )
    ]

-- A handler of a message keeps what holds of the state, on whatever it is called.
abbrev Keeps :
    {S T : Type 0}
    → (S → Type 0)
    → Result ℕ
    → (List ℕ → Result T)
    → (T → Peer S → Result (Peer S))
    → Type 0
Keeps {S = S} {T = T} I len deserialize fun =
    (bytes : List ℕ) (t : T) (p q : Peer S)
    → len ≡ ok (length bytes)
    → deserialize bytes ≡ ok t
    → fun t p ≡ ok q
    → I p.state
    → I q.state

handle-keeps :
    {S T : Type 0} (I : S → Type 0) (len : Result ℕ) (deserialize : List ℕ → Result T)
    (fun : T → Peer S → Result (Peer S)) (got : Option (T × List ℕ)) (p q : Peer S)
    → Keeps I len deserialize fun
    → recv len deserialize p.incoming_buffer ≡ ok got
    → handle fun got p ≡ ok q
    → I p.state
    → I q.state
unfolding handle
handle-keeps I len deserialize fun none p q keeps received e before =
    subst (λ (x : Peer _). I x.state) (ok_inj e) before
handle-keeps I len deserialize fun (some (t, rest)) p q keeps received e before =
    let (bytes, sized, read) = recv-some len deserialize p.incoming_buffer t rest received in
    keeps bytes t (record p { incoming_buffer = rest }) q sized read e before

receive-keeps :
    {S T : Type 0} (I : S → Type 0) (len : Result ℕ) (deserialize : List ℕ → Result T)
    (fun : T → Peer S → Result (Peer S)) (p q : Peer S)
    → Keeps I len deserialize fun
    → receive len deserialize fun p ≡ ok q
    → I p.state
    → I q.state
unfolding receive
receive-keeps I len deserialize fun p q keeps e before =
    let (got, received, rest) = >>=-eq-ok (recv len deserialize p.incoming_buffer) _ e in
    handle-keeps I len deserialize fun got p q keeps received rest before

log-Keeps :
    {S T : Type 0} (I : S → Type 0) (len : Result ℕ) (deserialize : List ℕ → Result T)
    → Keeps I len deserialize (λ t p. ok p)
log-Keeps I len deserialize bytes t p q sized read e before =
    subst (λ (x : Peer _). I x.state) (ok_inj e) before

module _ {S : Type 0} (store : State S) (h : Blake2b) (c : Ed25519) where
  respond-state :
      (r : Option HandshakeResponse) (p q : Peer S)
      → respond store h c r p ≡ ok q
      → q.state ≡ p.state
  unfolding respond
  respond-state none p q e = ap (λ (x : Peer S). x.state) (sym (ok_inj e))
  respond-state (some r) p q e =
      let (p1, sent, rest) = >>=-eq-ok (send_header handshake _ p) _ e in
      send-state _ p1 q rest ∙ send_header-state handshake _ p p1 sent

  if_accepted-state :
      (accepted : Bool) (r : Option HandshakeResponse) (p q : Peer S)
      → (if accepted then respond store h c r p else ok p) ≡ ok q
      → q.state ≡ p.state
  if_accepted-state true r p q e = respond-state r p q e
  if_accepted-state false r p q e = ap (λ (x : Peer S). x.state) (sym (ok_inj e))

  -- A handshake leaves the state of the node alone.
  handle_handshake-state :
      (seed : List ℕ) (header : Header) (message : Handshake) (p q : Peer S)
      → handle_handshake store h c seed header message p ≡ ok q
      → q.state ≡ p.state
  unfolding handle_handshake
  handle_handshake-state seed header message p q e =
      let (answered, _, e1) =
        >>=-eq-ok (answer store h c seed (Extensions.is_query header.ext) message.query) _ e in
      let (accepted, _, e2) =
        >>=-eq-ok (check_response store h c (Extensions.is_response header.ext) message.response p)
          _ e1 in
      if_accepted-state accepted answered p q e2

-- What a published block keeps, every packet keeps.
module _ {S : Type 0} (store : State S) (h : Blake2b) (c : Ed25519) (I : S → Type 0)
    (publish_keeps : (header : Header) (bytes : List ℕ) (message : Publish) (s t : S)
      → holder_len header ≡ ok (length bytes)
      → publish_deserialize h header bytes ≡ ok message
      → handle_publish store h c message.holder s ≡ ok t
      → I s
      → I t) where
  publish_to-Keeps :
      (header : Header)
      → Keeps I (holder_len header) (publish_deserialize h header) (publish_to store h c)
  unfolding publish_to
  publish_to-Keeps header bytes message p q sized read e before =
      let (t, done, rest) = >>=-eq-ok (handle_publish store h c message.holder p.state) _ e in
      subst (λ (x : Peer S). I x.state) (ok_inj rest)
        (publish_keeps header bytes message p.state t sized read done before)

  handle_message-keeps :
      (seed : List ℕ) (type : MessageType) (header : Header) (p q : Peer S)
      → handle_message store h c seed type header p ≡ ok q
      → I p.state
      → I q.state
  unfolding handle_message
  handle_message-keeps seed keepalive header p q e before =
      receive-keeps I (keepalive_len header) keepalive_deserialize handle_keepalive p q
        (log-Keeps I _ _) e before
  handle_message-keeps seed publish header p q e before =
      receive-keeps I (holder_len header) (publish_deserialize h header) (publish_to store h c) p q
        (publish_to-Keeps header) e before
  handle_message-keeps seed confirm_req header p q e before =
      receive-keeps I (confirm_req_len header) (confirm_req_deserialize h header) handle_confirm_req
        p q (log-Keeps I _ _) e before
  handle_message-keeps seed confirm_ack header p q e before =
      receive-keeps I (confirm_ack_len header) (confirm_ack_deserialize header) handle_confirm_ack p
        q (log-Keeps I _ _) e before
  handle_message-keeps seed frontier_req header p q e before =
      receive-keeps I (ok frontier_req_len) frontier_req_deserialize handle_frontier_req p q
        (λ bytes t p1 q1 sized read e1 before1.
          subst (λ (x : Peer S). I x.state) (ok_inj e1) before1)
        e before
  handle_message-keeps seed handshake header p q e before =
      receive-keeps I (handshake_len header) (handshake_deserialize header)
        (handle_handshake store h c seed header) p q
        (λ bytes t p1 q1 sized read e1 before1.
          subst I (sym (handle_handshake-state store h c seed header t p1 q1 e1)) before1)
        e before
  handle_message-keeps seed telemetry_req header p q e before =
      receive-keeps I telemetry_req_len telemetry_req_deserialize handle_telemetry_req p q
        (log-Keeps I _ _) e before
  handle_message-keeps seed telemetry_ack header p q e before =
      receive-keeps I (ok telemetry_ack_len) telemetry_ack_deserialize handle_telemetry_ack p q
        (log-Keeps I _ _) e before
  handle_message-keeps seed bulk_pull header p q e before = cc
  handle_message-keeps seed bulk_push header p q e before = cc
  handle_message-keeps seed bulk_pull_account header p q e before = cc

  handle_header-keeps :
      (got : Option (Header × List ℕ)) (p : Peer S) (r : Peer S × Bool)
      → handle_header store h c got p ≡ ok r
      → I p.state
      → I r.0.state
  unfolding handle_header
  handle_header-keeps none p r e before =
      subst (λ (x : Peer S × Bool). I x.0.state) (ok_inj e) before
  handle_header-keeps (some (header, rest)) p r e before =
      let (u, valid, whole) = >>=-eq-ok (Header.validate header p.network) _ e in
      subst (λ (x : Peer S × Bool). I x.0.state) (ok_inj whole) before

  process-keeps :
      (seed : List ℕ) (waiting : RecvState) (p : Peer S) (r : Peer S × Bool)
      → process store h c seed waiting p ≡ ok r
      → I p.state
      → I r.0.state
  unfolding process
  process-keeps seed header_state p r e before =
      let (got, received, rest) =
        >>=-eq-ok (recv (ok header_len) Header.deserialize p.incoming_buffer) _ e in
      handle_header-keeps got p r rest before
  process-keeps seed (payload_state header) p r e before =
      let (p1, handled, rest) =
        >>=-eq-ok (handle_message store h c seed header.message_type header p) _ e in
      subst (λ (x : Peer S × Bool). I x.0.state) (ok_inj rest)
        (handle_message-keeps seed header.message_type header p p1 handled before)

  loop-keeps :
      (fuel : ℕ) (seed : List ℕ) (p q : Peer S)
      → loop store h c fuel seed p ≡ ok (some q)
      → I p.state
      → I q.state
  unfolding loop
  loop-keeps zero seed p q e before =
      let no : ◌≡◌ {A = Result (Option (Peer S))} (ok none) (ok (some q)) = e in cc
  loop-keeps (suc fuel) seed p q e before =
      let ((p1, on), once, rest) = >>=-eq-ok (process store h c seed p.recv_state p) _ e in
      let after = process-keeps seed p.recv_state p (p1, on) once before in
      elim (Bool-cases on) [
        | inl goes ↦ loop-keeps fuel seed p1 q (rw goes at rest) after
        | inr stops ↦
            let stopped : ok (some p1) ≡ ok (some q) = rw stops at rest in
            let same : p1 ≡ q = cc in subst (λ (x : Peer S). I x.state) same after
      ]

  -- What a published block keeps of the state of the node, a packet keeps, whatever it holds: no
  -- other message changes the state.
  pub handle_packet-keeps :
      (fuel : ℕ) (seed packet : List ℕ) (p q : Peer S)
      → handle_packet store h c fuel seed packet p ≡ ok (some q)
      → I p.state
      → I q.state
  unfolding handle_packet
  handle_packet-keeps fuel seed packet p q e before =
      loop-keeps fuel seed (record p { incoming_buffer = p.incoming_buffer ++ packet }) q e before
