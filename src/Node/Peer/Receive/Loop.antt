-- ===== src/Node/Peer/Receive/Loop.antt =====
-- The loop of `handle_packet`.
use feeless.Common.{
  ℕ, suc, ◌≡◌, ◌∙◌, sym, ap, ◌⊎◌, inl, inr, Bool, true, false, List, ◌++◌, Option, none, some, ok,
  ◌>>=◌, Result-cases, >>=-eq-ok, ok_inj,
}
use feeless.Crypto.{Blake2b, Ed25519}
use feeless.Node.Header
use feeless.Node.Header.{Header, header_len}
use feeless.Node.State.Interface.{State}
use feeless.Node.Peer.Session.{Peer, RecvState, header_state, payload_state}
use feeless.Node.Peer.Receive.{recv, handle_message, handle_header, process, loop, handle_packet}

-- After a round the peer waits for a header and the loop stops, or it waits for the payload of a
-- header and the loop goes on.
abbrev Ends : {S : Type 0} → Peer S × Bool → Type 0
Ends r =
    ((r.1 ≡ false) × (r.0.recv_state ≡ header_state))
    ⊎ ((r.1 ≡ true) × (header : Header) × (r.0.recv_state ≡ payload_state header))

module _ {S : Type 0} (store : State S) (h : Blake2b) (c : Ed25519) (seed : List ℕ) where
  handle_header-Ends :
      (got : Option (Header × List ℕ)) (p : Peer S) (r : Peer S × Bool)
      → handle_header store h c got p ≡ ok r
      → Ends r
  unfolding handle_header
  handle_header-Ends none p r e =
      let same = ok_inj e in
      inl (
        ap (λ (x : Peer S × Bool). x.1) (sym same),
        ap (λ (x : Peer S × Bool). x.0.recv_state) (sym same),
      )
  handle_header-Ends (some (header, rest)) p r e =
      let (u, valid, whole) = >>=-eq-ok (Header.validate header p.network) _ e in
      let same = ok_inj whole in
      inr (
        ap (λ (x : Peer S × Bool). x.1) (sym same),
        header,
        ap (λ (x : Peer S × Bool). x.0.recv_state) (sym same),
      )

  process-Ends :
      (waiting : RecvState) (p : Peer S) (r : Peer S × Bool)
      → process store h c seed waiting p ≡ ok r
      → Ends r
  unfolding process
  process-Ends header_state p r e =
      let (got, received, rest) =
        >>=-eq-ok (recv (ok header_len) Header.deserialize p.incoming_buffer) _ e in
      handle_header-Ends got p r rest
  process-Ends (payload_state header) p r e =
      let (p1, handled, rest) =
        >>=-eq-ok (handle_message store h c seed header.message_type header p) _ e in
      let same = ok_inj rest in
      inl (
        ap (λ (x : Peer S × Bool). x.1) (sym same),
        ap (λ (x : Peer S × Bool). x.0.recv_state) (sym same),
      )

  payload_stops :
      (header : Header) (p : Peer S) (r : Peer S × Bool)
      → process store h c seed (payload_state header) p ≡ ok r
      → (r.1 ≡ false) × (r.0.recv_state ≡ header_state)
  unfolding process
  payload_stops header p r e =
      let (p1, handled, rest) =
        >>=-eq-ok (handle_message store h c seed header.message_type header p) _ e in
      let same = ok_inj rest in
      (
        ap (λ (x : Peer S × Bool). x.1) (sym same),
        ap (λ (x : Peer S × Bool). x.0.recv_state) (sym same),
      )

  -- A loop that has a header to handle stops after one round.
  loop_payload :
      (header : Header) (fuel : ℕ) (p : Peer S) (got : Option (Peer S))
      → p.recv_state ≡ payload_state header
      → loop store h c (suc fuel) seed p ≡ ok got
      → (q : Peer S) × (got ≡ some q) × (q.recv_state ≡ header_state)
  unfolding loop
  loop_payload header fuel p got w e =
      let ((p1, on), once, rest) = >>=-eq-ok (process store h c seed p.recv_state p) _ e in
      let stops =
        payload_stops header p (p1, on)
          (ap (λ (k : RecvState). process store h c seed k p) (sym w) ∙ once) in
      let stopped : ok (some p1) ≡ ok got = rw stops.0 at rest in
      (p1, sym (ok_inj stopped), stops.1)

  -- The fuel beyond a round changes nothing where that round stops.
  stopped_fuel :
      (m n : ℕ) (p : Peer S)
      → ((r : Peer S × Bool) → process store h c seed p.recv_state p ≡ ok r → r.1 ≡ false)
      → loop store h c (suc m) seed p ≡ loop store h c (suc n) seed p
  unfolding loop
  stopped_fuel m n p stops = elim (Result-cases (process store h c seed p.recv_state p)) [
    | inl ((p1, on), e) ↦ rw (e, ◌>>=◌) (rw (stops (p1, on) e))
    | inr (inl (raised, e)) ↦ rw (e, ◌>>=◌)
    | inr (inr e) ↦ rw (e, ◌>>=◌)
  ]

  -- Two rounds are enough for a packet, and after it the peer waits for a header, whatever the packet
  -- held. So a payload is never waited for across packets.
  pub loop_ends :
      (fuel : ℕ) (p : Peer S) (got : Option (Peer S))
      → loop store h c (suc (suc fuel)) seed p ≡ ok got
      → (q : Peer S) × (got ≡ some q) × (q.recv_state ≡ header_state)
  unfolding loop
  loop_ends fuel p got e =
      let ((p1, on), once, rest) = >>=-eq-ok (process store h c seed p.recv_state p) _ e in
      elim (process-Ends p.recv_state p (p1, on) once) [
        | inl stops ↦
            let stopped : ok (some p1) ≡ ok got = rw stops.0 at rest in
            (p1, sym (ok_inj stopped), stops.1)
        | inr (goes, header, w) ↦
            let later : loop store h c (suc fuel) seed p1 ≡ ok got = rw goes at rest in
            loop_payload header fuel p1 got w later
      ]

  loop_fuel :
      (fuel : ℕ) (p : Peer S) → loop store h c (suc (suc fuel)) seed p ≡ loop store h c 2 seed p
  unfolding loop
  loop_fuel fuel p = elim (Result-cases (process store h c seed p.recv_state p)) [
    | inl ((p1, on), e) ↦ elim (process-Ends p.recv_state p (p1, on) e) [
      | inl stops ↦ rw (e, ◌>>=◌) (rw stops.0)
      | inr (goes, header, w) ↦
          rw (e, ◌>>=◌)
            (rw goes (
              stopped_fuel fuel 0 p1 (λ r once.
                (payload_stops header p1 r
                  (ap (λ (k : RecvState). process store h c seed k p1) (sym w) ∙ once)).0)))
    ]
    | inr (inl (raised, e)) ↦ rw (e, ◌>>=◌)
    | inr (inr e) ↦ rw (e, ◌>>=◌)
  ]

module _ {S : Type 0} (store : State S) (h : Blake2b) (c : Ed25519) where
  -- The loop of `handle_packet` ends within two rounds: it is not still running then, and more fuel
  -- changes nothing.
  pub handle_packet_ends :
      (fuel : ℕ) (seed packet : List ℕ) (p : Peer S)
      → (handle_packet store h c (suc (suc fuel)) seed packet p
          ≡ handle_packet store h c 2 seed packet p)
        × ¬ (handle_packet store h c 2 seed packet p ≡ ok none)
  unfolding handle_packet
  handle_packet_ends fuel seed packet p = (
    loop_fuel store h c seed fuel (record p { incoming_buffer = p.incoming_buffer ++ packet }),
    λ running.
        let (q, ended, _) =
          loop_ends store h c seed 0 (record p { incoming_buffer = p.incoming_buffer ++ packet })
            none running in
        cc ended,
  )

  -- After a packet that is handled the peer waits for a header, whatever it waited for before and
  -- whatever the packet held. So it never waits for a payload across packets.
  pub handle_packet-Header :
      (seed packet : List ℕ) (p q : Peer S)
      → handle_packet store h c 2 seed packet p ≡ ok (some q)
      → q.recv_state ≡ header_state
  unfolding handle_packet
  handle_packet-Header seed packet p q e =
      let (q', same, waits) =
        loop_ends store h c seed 0 (record p { incoming_buffer = p.incoming_buffer ++ packet })
          (some q) e in
      let same' : q' ≡ q = cc same in ap (λ (x : Peer S). x.recv_state) (sym same') ∙ waits
