-- ===== src/Node/Peer/Runs/Invariant.antt =====
-- What holds of a peer and of its state after any calls.
use feeless.Common.{
  ℕ, ◌≡◌, ◌∙◌, refl, sym, ap, inl, inr, true, List, [], ◌∷◌, Option, some, ok, >>=-eq-ok, ok_inj,
  Error, ok_or, fail_if, not, arith, length,
}
use mathlib.Core.Path.{subst}
use feeless.Crypto.{Blake2b, Ed25519}
use feeless.Bytes.Layout.{segment, length-segment}
use feeless.Network.{Network}
use feeless.Blocks.BlockType.{
  BlockType, invalid, not_a_block, send, receive, open_block, change, state,
}
use feeless.Blocks.Link.{unsure, concat}
use feeless.Blocks.StateBlock.{StateBlock, set_link_type}
use feeless.Blocks.StateBlock.LinkType.{set_link_type_lem}
use feeless.Blocks.StateBlock.Parse
use feeless.Blocks.Block.{Block, get_hash, from_state_block}
use feeless.Blocks.Block.Hash.{own_hash, state_block_round_trip}
use feeless.Node.Extensions
use feeless.Node.Extensions.{Extensions}
use feeless.Node.Header.{Header, handshake}
use feeless.Node.Messages.Holder.{
  Publish, BlockHolder, holder_len, holder_len_of, holder_deserialize, publish_deserialize,
  holder_layout, holder_deserialize-layout,
}
use feeless.Node.State.Memory
use feeless.Node.State.Memory.{MemoryState, memory}
use feeless.Node.State.Memory.Consistent.{
  Consistent, new-Consistent, add_block-Consistent, add_vote-Consistent, set_cookie-Consistent,
  add_peers-Consistent,
}
use feeless.Node.Peer.Elected.{add_elected_block, add_votes}
use feeless.Node.Peer.Elected.Lattice.{accepted}
use feeless.Node.Peer.Publish.{state_block_handler, handle_publish}
use feeless.Node.Peer.Publish.Accepts.{state_block_handler_sound}
use feeless.Node.Peer.Session.{
  Peer, header_state, new_with_channels, send_header, send as send_bytes, send_handshake,
}
use feeless.Node.Peer.Receive.Loop.{handle_packet-Header}
use feeless.Node.Peer.Receive.Keeps.{handle_packet-keeps}
use feeless.Node.Peer.Runs.{Step, packet_in, handshake_out, elected, voted, met, Runs, start, next}

add_elected_block-Consistent :
    (c : Ed25519) (network : Network) (b : Block) (s t : MemoryState)
    → add_elected_block memory c network b s ≡ ok t
    → Consistent s
    → Consistent t
add_elected_block-Consistent c network b s t e before =
    let (hash, named, fresh, signed, checked, stored) = accepted memory c network b s t e in
    add_block-Consistent b s t hash named fresh stored before

add_votes-Consistent :
    (account : List ℕ) (hashes : List (List ℕ)) (s : MemoryState)
    → Consistent s
    → Consistent (add_votes memory account hashes s)
unfolding add_votes
add_votes-Consistent account [] s before = before
add_votes-Consistent account (hash ∷ hashes) s before =
    add_votes-Consistent account hashes (Memory.add_vote hash account s)
      (add_vote-Consistent hash account s before)

-- What sending leaves as it was.
send-Same :
    (payload : List ℕ) (p q : Peer MemoryState)
    → send_bytes payload p ≡ ok q
    → (q.state ≡ p.state) × (q.recv_state ≡ p.recv_state)
unfolding send_bytes
send-Same payload p q e =
    let (u, opened, rest) = >>=-eq-ok (fail_if (not p.is_open) Error.channel_closed) _ e in
    let same = sym (ok_inj rest) in
    (ap (λ (x : Peer MemoryState). x.state) same, ap (λ (x : Peer MemoryState). x.recv_state) same)

module _ (h : Blake2b) (c : Ed25519) where
  -- What is stored for an accepted block has the hash of that block.
  stored_hash :
      (b linked : StateBlock) (stored : Block) (bytes : List ℕ) (amount : ℕ)
      → b.link ≡ unsure bytes
      → length bytes ≡ 32
      → b.hash ≡ own_hash h b
      → set_link_type true amount b ≡ ok linked
      → from_state_block h linked ≡ ok stored
      → stored.hash ≡ some b.hash
  stored_hash b linked stored bytes amount link long own set made =
      let (b', set', _, _, parts, hash, _) = set_link_type_lem true amount b bytes link long in
      let same : b' ≡ linked = ok_inj (sym set' ∙ set) in
      let own' : b'.hash ≡ own_hash h b' =
        hash ∙ own ∙ ap (λ (x : List (List ℕ)). h.blake2b 32 (concat x)) (sym parts) in
      let (w, made', named, _, _, _) = state_block_round_trip h b' own' in
      let same' : w ≡ stored = ok_inj (sym made' ∙ ap (from_state_block h) same ∙ made) in
      ap (λ (x : Block). x.hash) (sym same') ∙ named ∙ ap some hash

  state_block_handler-Consistent :
      (b : StateBlock) (bytes : List ℕ) (s t : MemoryState)
      → b.link ≡ unsure bytes
      → length bytes ≡ 32
      → b.hash ≡ own_hash h b
      → state_block_handler memory h c b s ≡ ok t
      → Consistent s
      → Consistent t
  unfolding get_hash
  state_block_handler-Consistent b bytes s t link long own e before =
      elim (state_block_handler_sound memory h c b bytes s t link long e) [
        | inl same ↦ subst Consistent (sym same) before
        | inr accepts ↦
            let spends = accepts.spends in
            let stores = spends.stores in
            let named =
              stored_hash b spends.linked stores.stored bytes _ link long own spends.is_linked
                stores.from_block in
            add_block-Consistent stores.stored s t b.hash
              (ap (λ (o : Option (List ℕ)). ok_or o Error.block_not_hashable) named) accepts.is_new
              stores.is_added before
      ]

  layout-Consistent :
      (bytes : List ℕ) (kind : BlockType) (s t : MemoryState)
      → holder_len_of kind ≡ ok (length bytes)
      → handle_publish memory h c (holder_layout h bytes kind) s ≡ ok t
      → Consistent s
      → Consistent t
  unfolding handle_publish holder_layout holder_len_of Parse.layout
  layout-Consistent bytes state s t sized e before =
      let long : 216 ≡ length bytes = ok_inj sized in
      state_block_handler-Consistent (Parse.layout h bytes) (segment bytes 112 32) s t refl
        (length-segment bytes 112 32 (omega arith)) refl e before
  layout-Consistent bytes send s t sized e before = cc
  layout-Consistent bytes receive s t sized e before = cc
  layout-Consistent bytes open_block s t sized e before = cc
  layout-Consistent bytes change s t sized e before = cc
  layout-Consistent bytes invalid s t sized e before = cc
  layout-Consistent bytes not_a_block s t sized e before = cc

  publish-Consistent :
      (header : Header) (bytes : List ℕ) (message : Publish) (s t : MemoryState)
      → holder_len header ≡ ok (length bytes)
      → publish_deserialize h header bytes ≡ ok message
      → handle_publish memory h c message.holder s ≡ ok t
      → Consistent s
      → Consistent t
  unfolding holder_len publish_deserialize
  publish-Consistent header bytes message s t sized read e before =
      let (kind', named', sized') =
        >>=-eq-ok (Extensions.block_type header.ext) holder_len_of sized in
      let (kind, named, whole) = holder_deserialize-layout h header bytes sized in
      let same : kind' ≡ kind = ok_inj (sym named' ∙ named) in
      let (holder, read', rest) = >>=-eq-ok (holder_deserialize h header bytes) _ read in
      let is : holder ≡ holder_layout h bytes kind = ok_inj (sym read' ∙ whole) in
      let is' : message.holder ≡ holder_layout h bytes kind =
        ap (λ (m : Publish). m.holder) (sym (ok_inj rest)) ∙ is in
      layout-Consistent bytes kind s t (ap holder_len_of (sym same) ∙ sized')
        (ap (λ (x : BlockHolder). handle_publish memory h c x s) (sym is') ∙ e) before

  send_handshake-Consistent :
      (cookie : List ℕ) (p q : Peer MemoryState)
      → send_handshake memory h c cookie p ≡ ok q
      → Consistent p.state × (p.recv_state ≡ header_state)
      → Consistent q.state × (q.recv_state ≡ header_state)
  unfolding send_handshake send_header
  send_handshake-Consistent cookie p q e (before, waits) =
      let (p1, sent, rest) =
        >>=-eq-ok (send_header handshake (Extensions.query Extensions.new) p) _ e in
      let (state1, recv1) = send-Same _ p p1 sent in
      let (state2, recv2) = send-Same cookie _ q rest in
      (
        subst Consistent (sym state2) (
            set_cookie-Consistent p1.peer_addr cookie p1.state
              (subst Consistent (sym state1) before)),
        recv2 ∙ recv1 ∙ waits,
      )

  Step-Consistent :
      {p q : Peer MemoryState}
      → Step h c p q
      → Consistent p.state × (p.recv_state ≡ header_state)
      → Consistent q.state × (q.recv_state ≡ header_state)
  Step-Consistent {p = p} {q = q} (packet_in seed packet e) (before, waits) = (
    handle_packet-keeps memory h c Consistent publish-Consistent 2 seed packet p q e before,
    handle_packet-Header memory h c seed packet p q e,
  )
  Step-Consistent {p = p} {q = q} (handshake_out cookie e) before =
      send_handshake-Consistent cookie p q e before
  Step-Consistent {p = p} (elected {s = s} b e) (before, waits) =
      (add_elected_block-Consistent c p.network b p.state s e before, waits)
  Step-Consistent {p = p} (voted account hashes) (before, waits) =
      (add_votes-Consistent account hashes p.state before, waits)
  Step-Consistent {p = p} (met addresses) (before, waits) =
      (add_peers-Consistent addresses p.state before, waits)

  -- From a new peer on, whatever packets come in, handshakes start, and blocks, votes and peers are
  -- added, in whatever order: the peer waits for a header between the calls, and its state is
  -- consistent. Every block stands under its own hash and its account under the same hash, every hash
  -- with an account is that of a block, and the newest hash of an account is that of a block of the
  -- account.
  pub Runs-Consistent :
      (network : Network) (address : List ℕ) (p : Peer MemoryState)
      → Runs h c network address p
      → Consistent p.state × (p.recv_state ≡ header_state)
  unfolding new_with_channels
  Runs-Consistent network address _ start = (new-Consistent network, refl)
  Runs-Consistent network address q (next {p = p} run step) =
      Step-Consistent step (Runs-Consistent network address p run)
