-- ===== src/Node/Peer/Runs.antt =====
-- What happens to a peer with the state in memory, in any order: the packets that come in, the
-- handshakes it starts, and the blocks, votes and peers that the node adds (src/node/peer/mod.rs,
-- blocks.rs and src/node/mod.rs). One call runs at a time.
pub mod Invariant
use mathlib.Core.Path.{subst}
use feeless.Common.{
  ℕ, ◌≡◌, ◌∙◌, ap, List, [], ◌∷◌, Option, none, some, ok, ◌>>=◌, ok_inj, >>=-eq-ok, unwrap_some,
}
use feeless.Crypto.{Blake2b, Ed25519}
use feeless.Network.{Network}
use feeless.Blocks.Block.{Block}
use feeless.Node.State.Memory
use feeless.Node.State.Memory.{MemoryState, memory, add_peers}
use feeless.Node.Peer.Elected.{add_elected_block, add_votes}
use feeless.Node.Peer.Session.{Peer, new_with_channels, send_handshake}
use feeless.Node.Peer.Receive.{handle_packet, handle_packets, run}

unwrap_some-eq-ok : {A : Type 0} (o : Option A) {a : A} → unwrap_some o ≡ ok a → o ≡ some a
unwrap_some-eq-ok none e = cc
unwrap_some-eq-ok (some b) e = cc

module _ (h : Blake2b) (c : Ed25519) where
  -- One call that succeeds.
  pub data Step : Peer MemoryState → Peer MemoryState → Type 0 where
    packet_in :
        {p q : Peer MemoryState} (seed packet : List ℕ)
        → handle_packet memory h c 2 seed packet p ≡ ok (some q)
        → Step p q
    handshake_out :
        {p q : Peer MemoryState} (cookie : List ℕ)
        → send_handshake memory h c cookie p ≡ ok q
        → Step p q
    elected :
        {p : Peer MemoryState} {s : MemoryState} (b : Block)
        → add_elected_block memory c p.network b p.state ≡ ok s
        → Step p (record p { state = s })
    voted :
        {p : Peer MemoryState} (account : List ℕ) (hashes : List (List ℕ))
        → Step p (record p { state = add_votes memory account hashes p.state })
    met :
        {p : Peer MemoryState} (addresses : List (List ℕ))
        → Step p (record p { state = add_peers addresses p.state })

  -- Any number of calls, from a new peer on.
  pub data Runs (network : Network) (address : List ℕ) : Peer MemoryState → Type 0 where
    start : Runs network address (new_with_channels network (Memory.new network) address)
    next : {p q : Peer MemoryState} → Runs network address p → Step p q → Runs network address q

  handle_packets-Runs :
      (network : Network) (address : List ℕ) (packets : List (List ℕ × List ℕ))
      (p q : Peer MemoryState)
      → Runs network address p
      → handle_packets memory h c packets p ≡ ok q
      → Runs network address q
  unfolding handle_packets
  handle_packets-Runs network address [] p q run e = subst (Runs network address) (ok_inj e) run
  handle_packets-Runs network address ((seed, packet) ∷ packets) p q run e =
      let (got, handled, e1) = >>=-eq-ok (handle_packet memory h c 2 seed packet p) _ e in
      let (p1, some1, rest) = >>=-eq-ok (unwrap_some got) _ e1 in
      let same : got ≡ some p1 = unwrap_some-eq-ok got some1 in
      handle_packets-Runs network address packets p1 q
        (next run
          (packet_in seed packet (handled ∙ ap (λ (o : Option (Peer MemoryState)). ok o) same)))
        rest

  -- `run` of a new peer is one of its runs.
  pub run-Runs :
      (network : Network) (address cookie : List ℕ) (packets : List (List ℕ × List ℕ))
      (q : Peer MemoryState)
      → run memory h c cookie packets (new_with_channels network (Memory.new network) address)
        ≡ ok q
      → Runs network address q
  unfolding run
  run-Runs network address cookie packets q e =
      let (p1, sent, rest) = >>=-eq-ok (send_handshake memory h c cookie _) _ e in
      handle_packets-Runs network address packets p1 q (next start (handshake_out cookie sent)) rest
