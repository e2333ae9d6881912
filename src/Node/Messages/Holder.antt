-- ===== src/Node/Messages/Holder.antt =====
-- src/blocks/mod.rs, `BlockHolder`, and src/node/messages/publish.rs: a block whose kind the header
-- names.
use feeless.Common.{ℕ, ◌≡◌, ◌>>=◌, >>=-eq-ok, List, Result, ok, panic, length, arith}
use feeless.Crypto.{Blake2b}
use feeless.Bytes.Reader.{run}
use feeless.Blocks.BlockType.{
  BlockType, invalid, not_a_block, send, receive, open_block, change, state,
}
use feeless.Blocks.StateBlock.{StateBlock, state_block_len}
use feeless.Blocks.SendBlock.{SendBlock, OpenBlock, ReceiveBlock, ChangeBlock, send_block_len}
use feeless.Blocks.StateBlock.Parse
use feeless.Blocks.StateBlock.Parse.{deserialize-layout}
use feeless.Blocks.SendBlock.Parse.{
  deserialize as send_deserialize, layout as send_layout, send_deserialize-layout,
}
use feeless.Node.Extensions
use feeless.Node.Header.{Header}

pub data BlockHolder : Type 0 where
  send_holder : SendBlock → BlockHolder
  receive_holder : ReceiveBlock → BlockHolder
  open_holder : OpenBlock → BlockHolder
  change_holder : ChangeBlock → BlockHolder
  state_holder : StateBlock → BlockHolder

-- The blocks of the other kinds are a `todo!()`.
unfoldable pub holder_len_of : BlockType → Result ℕ
holder_len_of state = ok state_block_len
holder_len_of send = ok send_block_len
holder_len_of invalid = panic
holder_len_of not_a_block = panic
holder_len_of receive = panic
holder_len_of open_block = panic
holder_len_of change = panic

-- `BlockHolder::len`
unfoldable pub holder_len : Header → Result ℕ
unfolding holder_len_of
holder_len header = Extensions.block_type header.ext >>= holder_len_of

-- `BlockHolder::deserialize`, by the kind of the block.
unfoldable pub holder_deserialize_as : Blake2b → List ℕ → BlockType → Result BlockHolder
holder_deserialize_as h bytes state = do b ← run (Parse.deserialize h) bytes; ok (state_holder b)
holder_deserialize_as h bytes send = do b ← run send_deserialize bytes; ok (send_holder b)
holder_deserialize_as h bytes invalid = panic
holder_deserialize_as h bytes not_a_block = panic
holder_deserialize_as h bytes receive = panic
holder_deserialize_as h bytes open_block = panic
holder_deserialize_as h bytes change = panic

unfoldable pub holder_deserialize : Blake2b → Header → List ℕ → Result BlockHolder
holder_deserialize h header bytes =
    Extensions.block_type header.ext >>= holder_deserialize_as h bytes

-- `struct Publish`
pub record Publish : Type 0 where
  pub holder : BlockHolder

unfoldable pub publish_deserialize : Blake2b → Header → List ℕ → Result Publish
publish_deserialize h header bytes = do
  holder ← holder_deserialize h header bytes
  ok (record { holder = holder })

-- What the kind of the block says of the bytes.
unfoldable pub holder_layout : Blake2b → List ℕ → BlockType → BlockHolder
holder_layout h bytes state = state_holder (Parse.layout h bytes)
holder_layout h bytes _ = send_holder (send_layout bytes)

holder_as :
    (h : Blake2b) (bytes : List ℕ) (kind : BlockType)
    → holder_len_of kind ≡ ok (length bytes)
    → holder_deserialize_as h bytes kind ≡ ok (holder_layout h bytes kind)
unfolding holder_len_of holder_deserialize_as holder_layout
holder_as h bytes state e = rw (deserialize-layout h bytes (ground arith))
holder_as h bytes send e = rw (send_deserialize-layout bytes (ground arith))
holder_as h bytes invalid e = cc
holder_as h bytes not_a_block e = cc
holder_as h bytes receive e = cc
holder_as h bytes open_block e = cc
holder_as h bytes change e = cc

-- A holder is read from as many bytes as its `len` asks for, by the layout of the kind that the
-- header names.
pub holder_deserialize-layout :
    (h : Blake2b) (header : Header) (bytes : List ℕ)
    → holder_len header ≡ ok (length bytes)
    → (kind : BlockType) × (Extensions.block_type header.ext ≡ ok kind)
      × (holder_deserialize h header bytes ≡ ok (holder_layout h bytes kind))
unfolding holder_len holder_deserialize
holder_deserialize-layout h header bytes e =
    let (kind, named, sized) = >>=-eq-ok (Extensions.block_type header.ext) holder_len_of e in
    (kind, named, rw (named, ◌>>=◌) (holder_as h bytes kind sized))
