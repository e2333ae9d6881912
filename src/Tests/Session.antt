-- ===== src/Tests/Session.antt =====
-- Examples of packets, of handshakes and of what happens to a peer.
use feeless.Common.{
  ℕ, suc, ◌≡◌, ◌∙◌, ◌<◌, ◌>>=◌, refl, Bool, true, false, List, [], ◌∷◌, ◌++◌, Option, none, some,
  Result, ok, err, Error, length, replicate, arith,
}
use feeless.Network.{live}
use feeless.Units.Raw
use feeless.Blocks.BlockType.{open_block, state}
use feeless.Blocks.Link.{open_previous, source}
use feeless.Blocks.Block.{Block, valid}
use feeless.Blocks.StateBlock.Parse
use feeless.Node.Peer.Publish.{state_block_handler}
use feeless.Node.Peer.Receive.Published.{handle_packet_publish}
use feeless.Node.Extensions
use feeless.Node.Extensions.{Extensions}
use feeless.Node.Header
use feeless.Node.Header.{Header, keepalive, publish}
use feeless.Node.Messages.Handshake.{HandshakeResponse, response_serialize}
use feeless.Node.State.Memory
use feeless.Node.State.Memory.{MemoryState, memory, memory-IsStore, add_peers}
use feeless.Node.State.Memory.Consistent.{Consistent}
use feeless.Node.Peer.Elected.{account_balance, add_elected_block}
use feeless.Node.Peer.Session.{
  Peer, RecvState, header_state, payload_state, new_with_channels, send_handshake,
}
use feeless.Node.Peer.Receive.{handle_packet, handle_packets}
use feeless.Node.Peer.Receive.Loop.{handle_packet_ends}
use feeless.Node.Peer.Receive.Whole.{payload_len, deliver, handle_packet_whole, handle_packet_split}
use feeless.Node.Peer.Handshake.{query_header, response_header, Ready}
use feeless.Node.Peer.Handshake.Complete.{
  query_packet, response_packet, handshake_completes, handshake_forged,
}
use feeless.Node.Peer.Handshake.Split.{handshake_split}
use feeless.Node.Peer.Genesis.{ensure_genesis, genesis_account}
use feeless.Node.Peer.Genesis.Added.{hash_of_genesis, ensure_genesis_lem}
use feeless.Node.Peer.Runs.{Runs, start, next, handshake_out, elected, met}
use feeless.Node.Peer.Runs.Invariant.{Runs-Consistent}
use feeless.Tests.Instances.{blake, curve, open_curve, the_key, the_signature}

abbrev an_address : List ℕ
an_address = replicate 6 1

abbrev no_blocks : MemoryState
no_blocks = record {
  network = live;
  cookies = [];
  blocks = [];
  block_hash_to_account = [];
  latest_block_hash = [];
  votes = [];
  known = [];
}

abbrev a_peer : Peer MemoryState
a_peer = record {
  validate_handshakes = true;
  network = live;
  state = no_blocks;
  peer_addr = an_address;
  recv_state = header_state;
  frontier_stream = false;
  incoming_buffer = [];
  is_open = true;
  sent = [];
}

abbrev a_seed : List ℕ
a_seed = replicate 32 7

abbrev a_cookie : List ℕ
a_cookie = replicate 32 5

handle_packet_ends_example :
    (handle_packet memory blake curve 9 a_seed (query_packet a_cookie a_peer) a_peer
      ≡ handle_packet memory blake curve 2 a_seed (query_packet a_cookie a_peer) a_peer)
    × ¬ (handle_packet memory blake curve 2 a_seed (query_packet a_cookie a_peer) a_peer ≡ ok none)
handle_packet_ends_example =
    handle_packet_ends memory blake curve 7 a_seed (query_packet a_cookie a_peer) a_peer

abbrev a_keepalive : Header
a_keepalive = Header.new live keepalive Extensions.new

keepalive_sized : payload_len keepalive a_keepalive ≡ ok 144
unfolding payload_len feeless.Node.Messages.Keepalive.keepalive_len
keepalive_sized = refl

handle_packet_whole_example :
    handle_packet memory blake curve 2 a_seed
      (Header.serialize a_keepalive ++ (replicate 144 0 ++ (1 ∷ 2 ∷ [])))
      a_peer
    ≡ (deliver memory blake curve a_seed keepalive a_keepalive
          (replicate 144 0)
          (record a_peer { recv_state = payload_state a_keepalive; incoming_buffer = 1 ∷ 2 ∷ [] })
        >>= λ q. ok (some (record q { recv_state = header_state })))
handle_packet_whole_example =
    handle_packet_whole memory blake curve a_seed keepalive Extensions.new (replicate 144 0)
      (1 ∷ 2 ∷ []) a_peer refl refl keepalive_sized

handle_packet_split_example :
    handle_packet memory blake curve 2 a_seed
      (Header.serialize a_keepalive ++ replicate 100 0)
      a_peer
    ≡ ok (some (record a_peer { recv_state = header_state; incoming_buffer = replicate 100 0 }))
handle_packet_split_example =
    handle_packet_split memory blake curve a_seed keepalive Extensions.new (replicate 100 0) 144
      a_peer refl refl keepalive_sized (omega arith)

abbrev a_state_block : Extensions
a_state_block = record { first = 0; second = 6 }

names_state : Extensions.block_type a_state_block ≡ ok state
unfolding Extensions.block_type feeless.Blocks.BlockType.try_from
names_state = refl

handle_packet_publish_example :
    handle_packet memory blake curve 2 a_seed
      (Header.serialize (Header.new live publish a_state_block) ++ replicate 216 1)
      a_peer
    ≡ (state_block_handler memory blake curve (Parse.layout blake (replicate 216 1)) no_blocks
        >>= λ s.
            ok
              (some (record a_peer { state = s; recv_state = header_state; incoming_buffer = [] })))
handle_packet_publish_example =
    handle_packet_publish memory blake curve a_seed a_state_block (replicate 216 1) a_peer refl refl
      names_state refl

handshake_completes_example :
    (p1 p2 q1 : Peer MemoryState) × (r : HandshakeResponse) × (send_handshake memory blake curve
        a_cookie a_peer
      ≡ ok p1)
    × (p1.sent ≡ Header.serialize (query_header live) ∷ a_cookie ∷ [])
    × (handle_packet memory blake curve 2 a_seed (query_packet a_cookie a_peer) a_peer
        ≡ ok (some q1))
    × (q1.sent ≡ Header.serialize (response_header live) ∷ response_serialize r ∷ [])
    × (handle_packet memory blake curve 2 a_seed (response_packet r a_peer) p1 ≡ ok (some p2))
    × (p2.sent ≡ p1.sent)
    × Ready q1
    × Ready p2
handshake_completes_example =
    handshake_completes memory blake curve a_seed a_seed a_cookie a_peer a_peer memory-IsStore refl
      refl (refl, refl, refl) (refl, refl, refl)

handshake_split_example :
    handle_packets memory blake curve
      ((a_seed, Header.serialize (query_header live)) ∷ (a_seed, 5 ∷ replicate 31 5) ∷ [])
      a_peer
    ≡ err (Error.invalid_magic_number 5)
handshake_split_example =
    handshake_split memory blake curve a_seed a_seed 5 (replicate 31 5) a_peer (refl, refl, refl)
      refl (λ (e : 5 ≡ 82). absurd (omega arith))

abbrev asking_peer : Peer MemoryState
asking_peer = record a_peer { state = record no_blocks { cookies = (an_address, a_cookie) ∷ [] } }

abbrev a_forgery : HandshakeResponse
a_forgery = record { public = the_key; signature = replicate 64 8 }

cookie_known : Memory.cookie_for_socket_addr an_address asking_peer.state ≡ some a_cookie
unfolding Memory.cookie_for_socket_addr feeless.Common.Maps.get feeless.Common.Maps.list_eq
cookie_known = refl

key_is_known : curve.is_public_key the_key ≡ true
unfolding feeless.Common.Maps.list_eq
key_is_known = refl

is_forged : curve.verify the_key a_cookie (replicate 64 8) ≡ false
unfolding feeless.Common.Maps.list_eq
is_forged = refl

handshake_forged_example :
    handle_packet memory blake curve 2 a_seed (response_packet a_forgery asking_peer) asking_peer
    ≡ err Error.signature_error
handshake_forged_example =
    handshake_forged memory blake curve a_seed a_cookie a_forgery asking_peer (refl, refl, refl)
      refl cookie_known refl refl key_is_known is_forged

nothing_known : Memory.get_block_by_hash (hash_of_genesis blake) no_blocks ≡ none
unfolding Memory.get_block_by_hash feeless.Common.Maps.get
nothing_known = refl

ensure_genesis_lem_example :
    (t : MemoryState) × (ensure_genesis memory blake open_curve live no_blocks ≡ ok t)
    × (account_balance memory genesis_account t ≡ Raw.max)
    × (ensure_genesis memory blake open_curve live t ≡ err Error.block_exists)
ensure_genesis_lem_example = ensure_genesis_lem blake open_curve no_blocks refl refl nothing_known

abbrev first_block : Block
first_block = record {
  block_type = open_block;
  hash = some (replicate 32 3);
  account = the_key;
  previous = open_previous;
  representative = the_key;
  balance = 100;
  link = source (replicate 32 6);
  signature = some the_signature;
  work = some (replicate 8 1);
  state = valid;
}

abbrev asked_peer : Peer MemoryState
asked_peer = record a_peer {
  state = record no_blocks { cookies = (an_address, a_cookie) ∷ [] };
  sent = Header.serialize (query_header live) ∷ a_cookie ∷ [];
}

abbrev one_block : MemoryState
one_block = record asked_peer.state {
  blocks = (replicate 32 3, first_block) ∷ [];
  block_hash_to_account = (replicate 32 3, the_key) ∷ [];
  latest_block_hash = (the_key, replicate 32 3) ∷ [];
}

query_is_sent :
    send_handshake memory blake open_curve a_cookie
      (new_with_channels live (Memory.new live) an_address)
    ≡ ok asked_peer
unfolding send_handshake new_with_channels Memory.new feeless.Node.Peer.Session.send_header
    feeless.Node.Peer.Session.send Memory.set_cookie feeless.Common.Maps.insert
query_is_sent = refl

block_is_added :
    add_elected_block memory open_curve live first_block asked_peer.state ≡ ok one_block
unfolding add_elected_block feeless.Blocks.Block.get_hash Memory.get_block_by_hash
    feeless.Common.Maps.get feeless.Blocks.Block.verify_signature feeless.Keys.Public.verify
    feeless.Blocks.Block.is_genesis Memory.add_block feeless.Common.Maps.insert
block_is_added = refl

a_run :
    Runs blake open_curve live an_address
      (record asked_peer { state = add_peers (replicate 6 2 ∷ []) one_block })
a_run =
    next
      (next (next start (handshake_out a_cookie query_is_sent))
        (elected first_block block_is_added))
      (met (replicate 6 2 ∷ []))

Runs-Consistent_example :
    Consistent (add_peers (replicate 6 2 ∷ []) one_block) × (header_state ≡ header_state)
Runs-Consistent_example =
    Runs-Consistent blake open_curve live an_address
      (record asked_peer { state = add_peers (replicate 6 2 ∷ []) one_block }) a_run
