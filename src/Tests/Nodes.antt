-- ===== src/Tests/Nodes.antt =====
-- Examples of nodes and their connections.
use feeless.Common.{
  ℕ, ◌≡◌, refl, false, if◌then◌else◌, List, [], ◌∷◌, ◌++◌, Option, none, some, ok, err, panic,
  Error, replicate, arith,
}
use feeless.Network.{live}
use feeless.Blocks.BlockType.{open_block}
use feeless.Node.Extensions
use feeless.Node.Extensions.{Extensions}
use feeless.Node.Header
use feeless.Node.Header.{publish}
use feeless.Node.Messages.Holder.{holder_len_of}
use feeless.Node.State.Memory
use feeless.Node.State.Memory.{MemoryState, memory}
use feeless.Node.Peer.Session.{Peer, new_with_channels}
use feeless.Node.Peer.Receive.{handle_packets}
use feeless.Node.Connection.{Node, Tasks, reader_task, run_node, peer_task}
use feeless.Node.Connection.Lingers.{
  rounds, empty_packets, with_seeds, waits_with, handle_packets-reader_task,
}
use feeless.Node.Connection.Stops.{run_node_stops, run_node-Calm}
use feeless.Tests.Instances.{blake, curve}

abbrev one : List ℕ
one = replicate 6 1

abbrev two : List ℕ
two = replicate 6 2

abbrev a_node : Node MemoryState
a_node = record { network = live; state = record (Memory.new live) { known = one ∷ two ∷ [] } }

knows_two : Memory.peers a_node.state ≡ one ∷ two ∷ []
unfolding Memory.peers
knows_two = refl

abbrev an_open_block : Extensions
an_open_block = record { first = 0; second = 4 }

names_open : Extensions.block_type an_open_block ≡ ok open_block
unfolding Extensions.block_type feeless.Blocks.BlockType.try_from
names_open = refl

unread : holder_len_of open_block ≡ panic
unfolding holder_len_of
unread = refl

abbrev bad_publish : List (List ℕ × List ℕ)
bad_publish = (replicate 32 7, Header.serialize (Header.new live publish an_open_block) ++ []) ∷ []

abbrev stopped : Tasks
stopped = record {
  peer = some (peer_task memory blake curve a_node one (replicate 32 5) bad_publish);
  reader = none;
  writer = none;
}

abbrev publishes : List ℕ → MemoryState → Option Tasks × MemoryState
publishes address s = (some stopped, s)

run_node_stops_example :
    run_node memory publishes [] false a_node ≡ (one ∷ [], some (err Error.join_error))
run_node_stops_example =
    run_node_stops memory publishes blake curve a_node one (two ∷ []) [] false stopped
      (replicate 32 5) (replicate 32 7) open_block an_open_block [] [] knows_two refl refl
      names_open unread

abbrev refused : List ℕ → MemoryState → Option Tasks × MemoryState
refused address s = (
  some (record {
    peer = some (err Error.channel_closed);
    reader = some (ok tt);
    writer = some (ok tt);
  }),
  s,
)

run_node-Calm_example :
    run_node memory refused [] false a_node
    ≡ (Memory.peers a_node.state, if false then some (ok tt) else none)
run_node-Calm_example = run_node-Calm memory refused a_node false (λ address t. refl)

abbrev fresh : Peer MemoryState
fresh = new_with_channels live (Memory.new live) one

abbrev two_seeds : List (List ℕ)
two_seeds = replicate 32 1 ∷ replicate 32 2 ∷ []

abbrev left : Tasks
left = record { peer = none; reader = (reader_task (rounds two_seeds)).1; writer = none }

abbrev leaves : List ℕ → MemoryState → Option Tasks × MemoryState
leaves address s = (some left, s)

handle_packets-reader_task_example :
    (reader_task (rounds two_seeds) ≡ (empty_packets two_seeds, none))
    × (handle_packets memory blake curve (with_seeds two_seeds) (waits_with (82 ∷ []) fresh)
        ≡ ok (waits_with (82 ∷ []) fresh))
handle_packets-reader_task_example =
    handle_packets-reader_task memory blake curve (82 ∷ []) fresh two_seeds (omega arith)
