-- ===== src/Node/Peer/Receive/Published.antt =====
-- A state block that a peer publishes, from the bytes of its packet to the lattice.
use feeless.Common.{
  ℕ, ◌≡◌, ◌∙◌, sym, ap, List, [], ◌++◌, append-nil, some, ok, ◌>>=◌, >>=-assoc, ok_inj, length,
}
use feeless.Crypto.{Blake2b, Ed25519}
use feeless.Blocks.BlockType.{BlockType, state}
use feeless.Blocks.StateBlock.Parse
use feeless.Node.Extensions
use feeless.Node.Extensions.{Extensions}
use feeless.Node.Header
use feeless.Node.Header.{Header, publish}
use feeless.Node.Messages.Holder.{
  holder_len, holder_deserialize, holder_layout, holder_deserialize-layout, publish_deserialize,
}
use feeless.Node.State.Interface.{State}
use feeless.Node.Peer.Publish.{state_block_handler, handle_publish}
use feeless.Node.Peer.Session.{Peer, header_state}
use feeless.Node.Peer.Receive.{handle_packet, publish_to}
use feeless.Node.Peer.Receive.Whole.{payload_len, deliver, handle_packet_whole}

publish_sized :
    (n : _) (ext : Extensions) (body : List ℕ)
    → Extensions.block_type ext ≡ ok state
    → length body ≡ 216
    → holder_len (Header.new n publish ext) ≡ ok (length body)
unfolding holder_len Header.new
publish_sized n ext body kind long = rw (kind, ◌>>=◌) (ap ok (sym long))

publish_read :
    (h : Blake2b) (n : _) (ext : Extensions) (body : List ℕ)
    → Extensions.block_type ext ≡ ok state
    → length body ≡ 216
    → holder_deserialize h (Header.new n publish ext) body ≡ ok (holder_layout h body state)
unfolding Header.new
publish_read h n ext body kind long =
    let (kind', named, read) =
      holder_deserialize-layout h (Header.new n publish ext) body
        (publish_sized n ext body kind long) in
    let same : kind' ≡ state = ok_inj (sym named ∙ kind) in
    read ∙ ap (λ (k : BlockType). ok (holder_layout h body k)) same

module _ {S : Type 0} (store : State S) (h : Blake2b) (c : Ed25519) (seed : List ℕ) where
  -- A packet with the header and the 216 bytes of a state block, to a peer that waits for a message:
  -- the state of the node becomes what `state_block_handler` makes of the block that the bytes stand
  -- for, with its errors and panics, and the peer waits for the next message.
  pub handle_packet_publish :
      (ext : Extensions) (body : List ℕ) (p : Peer S)
      → p.recv_state ≡ header_state
      → p.incoming_buffer ≡ []
      → Extensions.block_type ext ≡ ok state
      → length body ≡ 216
      → handle_packet store h c 2 seed
          (Header.serialize (Header.new p.network publish ext) ++ body)
          p
        ≡ (state_block_handler store h c (Parse.layout h body) p.state >>= λ s.
            ok (some (record p { state = s; recv_state = header_state; incoming_buffer = [] })))
  unfolding payload_len deliver publish_deserialize publish_to handle_publish holder_layout
  handle_packet_publish ext body p waits empty kind long =
      let whole =
        handle_packet_whole store h c seed publish ext body [] p waits empty
          (publish_sized p.network ext body kind long) in
      ap
        (λ (bytes : List ℕ).
          handle_packet store h c 2 seed
            (Header.serialize (Header.new p.network publish ext) ++ bytes) p)
        (sym (append-nil body))
      ∙ whole
      ∙ rw (publish_read h p.network ext body kind long, ◌>>=◌)
          (>>=-assoc (state_block_handler store h c (Parse.layout h body) p.state) _ _)
