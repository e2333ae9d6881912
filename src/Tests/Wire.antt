-- ===== src/Tests/Wire.antt =====
-- Examples of headers, messages and blocks on the wire.
use feeless.Common.{◌≡◌, refl, [], ◌∷◌, ok, length, replicate}
use feeless.Bytes.Reader.{run}
use feeless.Network.{live}
use feeless.Blocks.BlockType.{state, not_a_block}
use feeless.Blocks.StateBlock.Parse
use feeless.Blocks.StateBlock.Parse.{deserialize-layout}
use feeless.Node.Extensions
use feeless.Node.Extensions.{Extensions}
use feeless.Node.Header
use feeless.Node.Header.{Header, handshake, confirm_ack, confirm_req, publish, keepalive}
use feeless.Node.Header.RoundTrip.{deserialize-serialize}
use feeless.Node.Messages.Votes.{ConfirmAck}
use feeless.Node.Messages.Confirm.{confirm_ack_len}
use feeless.Tests.Instances.{blake, the_key, the_signature}

abbrev both_flags : Extensions
both_flags = record { first = 3; second = 0 }

abbrev two_votes : Extensions
two_votes = record { first = 0; second = 33 }

deserialize-serialize_example :
    (Header.deserialize (Header.serialize (Header.new live handshake both_flags))
      ≡ ok (Header.new live handshake both_flags))
    × (length (Header.serialize (Header.new live handshake both_flags)) ≡ 8)
deserialize-serialize_example = deserialize-serialize live handshake both_flags

read_back :
    Header.deserialize (82 ∷ 67 ∷ 19 ∷ 19 ∷ 18 ∷ 10 ∷ 3 ∷ 0 ∷ [])
    ≡ ok (Header.new live handshake both_flags)
unfolding Header.deserialize feeless.Encoding.expect_len feeless.Network.try_from
    feeless.Bytes.slice_range Extensions.try_from
read_back = refl

deserialize-layout_example :
    run (Parse.deserialize blake) (replicate 216 1) ≡ ok (Parse.layout blake (replicate 216 1))
deserialize-layout_example = deserialize-layout blake (replicate 216 1) refl

abbrev a_vote : Header
a_vote = Header.new live confirm_ack two_votes

vote_sized : confirm_ack_len a_vote ≡ ok 168
unfolding confirm_ack_len Extensions.block_type feeless.Blocks.BlockType.try_from Header.new
    feeless.Blocks.BlockType.same Extensions.item_count
vote_sized = refl

abbrev an_ack : ConfirmAck
an_ack = record {
  account = the_key;
  signature = the_signature;
  timestamp = 7;
  confirm = replicate 32 1 ∷ [];
}
