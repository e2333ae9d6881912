-- ===== src/Blocks/SendBlock.antt =====
-- src/blocks/send_block.rs, open_block.rs, receive_block.rs and change_block.rs: the legacy blocks.
-- Only the send block is read from the wire.
pub mod Parse
use feeless.Common.{ℕ, List, Option, none}

pub record SendBlock : Type 0 where
  pub previous : List ℕ
  pub destination : List ℕ
  pub balance : ℕ
  pub work : Option (List ℕ)
  pub signature : Option (List ℕ)

abbrev pub send_block_len : ℕ
send_block_len = 152

-- `SendBlock::new`
unfoldable pub new : List ℕ → List ℕ → ℕ → SendBlock
new previous destination balance = record {
  previous = previous;
  destination = destination;
  balance = balance;
  work = none;
  signature = none;
}

pub record OpenBlock : Type 0 where
  pub source : List ℕ
  pub representative : List ℕ
  pub account : List ℕ
  pub work : Option (List ℕ)
  pub signature : Option (List ℕ)

pub record ReceiveBlock : Type 0 where
  pub previous : List ℕ
  pub source : List ℕ
  pub work : Option (List ℕ)
  pub signature : Option (List ℕ)

pub record ChangeBlock : Type 0 where
  pub previous : List ℕ
  pub representative : List ℕ
  pub work : Option (List ℕ)
  pub signature : Option (List ℕ)
