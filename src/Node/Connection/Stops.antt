-- ===== src/Node/Connection/Stops.antt =====
-- What ends a node, what does not, and where it waits.
use feeless.Common.{
  ℕ, ◌≡◌, ◌∙◌, refl, ap, Bool, true, false, ◌&&◌, if◌then◌else◌, List, [], ◌∷◌, ◌++◌, Option, none,
  some, ok, err, panic, ◌>>=◌, Error,
}
use feeless.Crypto.{Blake2b, Ed25519}
use feeless.Blocks.BlockType.{BlockType}
use feeless.Node.Extensions
use feeless.Node.Extensions.{Extensions}
use feeless.Node.Header
use feeless.Node.Header.{Header, publish}
use feeless.Node.Messages.Holder.{holder_len, holder_len_of}
use feeless.Node.State.Interface.{State}
use feeless.Node.Peer.Session.{Peer, new_with_channels, header_state}
use feeless.Node.Peer.Receive.{
  recv, receive, handle, handle_message, handle_packet, handle_packets, run,
}
use feeless.Node.Peer.Receive.Whole.{handle_packet_header}
use feeless.Node.Peer.Handshake.{query_sent}
use feeless.Node.Connection.{
  Node, Tasks, End, panicked, running, try_join, connection, commands, met, then_commands,
  connect_all, run_node, peer_task,
}

and_both : (a b : Bool) → (a && b) ≡ true → (a ≡ true) × (b ≡ true)
and_both true b e = (refl, e)
and_both false b e = cc

-- The task has ended, and not in a panic.
abbrev pub settled_task : End (Unit {0}) → Bool
settled_task none = false
settled_task (some (ok u)) = true
settled_task (some (err e)) = true
settled_task (some panic) = false

-- The connection was not made, or has ended without a panic.
abbrev pub settled : Option Tasks → Bool
settled none = true
settled (some t) = settled_task t.peer && settled_task t.reader && settled_task t.writer

settled_lem :
    (r : End (Unit {0})) → settled_task r ≡ true → (panicked r ≡ false) × (running r ≡ false)
settled_lem none e = cc
settled_lem (some (ok u)) e = (refl, refl)
settled_lem (some (err x)) e = (refl, refl)
settled_lem (some panic) e = cc

connection-settled : (tasks : Option Tasks) → settled tasks ≡ true → connection tasks ≡ some (ok tt)
unfolding connection try_join
connection-settled none e = refl
connection-settled (some t) e =
    let (both, writer) = and_both (settled_task t.peer && settled_task t.reader) _ e in
    let (peer, reader) = and_both (settled_task t.peer) _ both in
    let (p, p') = settled_lem t.peer peer in
    let (r, r') = settled_lem t.reader reader in
    let (w, w') = settled_lem t.writer writer in rw (p, r, w) (rw (p', r', w') refl)

module _ {S : Type 0} (store : State S) where
  module _ (h : Blake2b) (c : Ed25519) where
    -- A publish message whose header names a kind of block that is not read yet.
    handle_packet_unread :
        (seed : List ℕ) (kind : BlockType) (ext : Extensions) (more : List ℕ) (p : Peer S)
        → p.recv_state ≡ header_state
        → p.incoming_buffer ≡ []
        → Extensions.block_type ext ≡ ok kind
        → holder_len_of kind ≡ panic
        → handle_packet store h c 2 seed
            (Header.serialize (Header.new p.network publish ext) ++ more)
            p
          ≡ panic
    handle_packet_unread seed kind ext more p waits empty named unread =
        handle_packet_header store h c seed publish ext more p panic waits empty (
          unfold handle_message receive recv handle holder_len Header.new in
          rw (named, ◌>>=◌) (rw unread refl))

    peer_task_unread :
        (node : Node S) (address cookie seed : List ℕ) (kind : BlockType) (ext : Extensions)
        (more : List ℕ) (packets : List (List ℕ × List ℕ))
        → Extensions.block_type ext ≡ ok kind
        → holder_len_of kind ≡ panic
        → peer_task store h c node address cookie
            ((seed, Header.serialize (Header.new node.network publish ext) ++ more) ∷ packets)
          ≡ panic
    unfolding peer_task run handle_packets new_with_channels
    peer_task_unread node address cookie seed kind ext more packets named unread =
        let p = new_with_channels node.network node.state address in
        let opened = query_sent store h c cookie p refl in
        rw opened (
          rw
            (handle_packet_unread seed kind ext more
              (record p {
                state = store.set_cookie address cookie node.state;
                sent =
                    ([] ++ (Header.serialize (Header.new node.network _ _) ∷ [])) ++ (cookie ∷ []);
              })
              refl refl named unread)
            refl)

  module _ (contact : List ℕ → S → Option Tasks × S) where
    -- One packet of the first peer stops a node: a publish message whose header names a kind of block that
    -- is not read yet, which is every kind but state and send. The node ends with an error, and no other
    -- peer is tried.
    pub run_node_stops :
        (h : Blake2b) (c : Ed25519) (node : Node S) (address : List ℕ) (others : List (List ℕ))
        (requests : List (Unit {0})) (closed : Bool) (tasks : Tasks) (cookie seed : List ℕ)
        (kind : BlockType) (ext : Extensions) (more : List ℕ) (packets : List (List ℕ × List ℕ))
        → store.peers node.state ≡ address ∷ others
        → (contact address node.state).0 ≡ some tasks
        → tasks.peer
          ≡ some (
              peer_task store h c node address cookie
                ((seed, Header.serialize (Header.new node.network publish ext) ++ more) ∷ packets))
        → Extensions.block_type ext ≡ ok kind
        → holder_len_of kind ≡ panic
        → run_node store contact requests closed node ≡ (address ∷ [], some (err Error.join_error))
    unfolding run_node connect_all connection try_join met then_commands
    run_node_stops h c node address others requests closed tasks cookie seed kind ext more packets
          known made running named unread =
        let stopped =
          running
          ∙ ap some
              (peer_task_unread h c node address cookie seed kind ext more packets named unread) in
        rw known (rw made (rw stopped refl))

    -- Whatever the connections do, each of them ends, and none of their tasks panics.
    abbrev pub Calm : Type 0
    Calm = (address : List ℕ) (t : S) → settled (contact address t).0 ≡ true

    connect_all_calm :
        (addresses : List (List ℕ)) (s : S)
        → Calm
        → (t : S) × (connect_all store contact addresses s ≡ (addresses, some (ok t)))
    unfolding connect_all met
    connect_all_calm [] s calm = (s, refl)
    connect_all_calm (address ∷ addresses) s calm =
        let (t, rest) = connect_all_calm addresses (contact address s).1 calm in
        let ends = connection-settled (contact address s).0 (calm address s) in
        (t, rw ends (rw rest refl))

    -- Where every connection ends and no task of one panics, the node tries each of its peers in turn, whether
    -- they can be reached or not and whatever errors their connections end with. Where no command has come it
    -- then waits while the RPC server holds the sender of commands, and ends without an error when that is
    -- dropped.
    pub run_node-Calm :
        (node : Node S) (closed : Bool)
        → Calm
        → run_node store contact [] closed node
          ≡ (store.peers node.state, if closed then some (ok tt) else none)
    unfolding run_node commands then_commands
    run_node-Calm node closed calm =
        let (t, all) = connect_all_calm (store.peers node.state) node.state calm in rw all refl
