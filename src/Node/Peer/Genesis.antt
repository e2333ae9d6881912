-- ===== src/Node/Peer/Genesis.antt =====
-- src/node/peer/genesis.rs, `genesis_block` of src/network.rs and `init` of src/node/peer/mod.rs: the
-- first block of the live network.
pub mod Added
use feeless.Common.{
  ℕ, ◌≡◌, ◌∙◌, refl, sym, ap, true, List, [], ◌∷◌, Option, none, some, Result, ok, err, panic,
  ◌>>=◌, ◌>>◌, Error, replicate, >>=-eq-ok, ok_inj,
}
use feeless.Crypto.{Blake2b, Ed25519}
use feeless.Network.{Network, live, test, beta}
use feeless.Keys.Public
use feeless.Units.Raw
use feeless.Blocks.Link.{open_previous, concat}
use feeless.Blocks.SendBlock.{OpenBlock}
use feeless.Blocks.Block.{Block, get_hash, from_open_block}
use feeless.Node.State.Interface.{State}
use feeless.Node.Peer.Elected.{add_elected_block}

-- The bytes of the key whose address the genesis block names, which is its source too.
abbrev pub genesis_account : List ℕ
genesis_account =
    0xE8 ∷ 0x92 ∷ 0x08 ∷ 0xDD ∷ 0x03 ∷ 0x8F ∷ 0xBB ∷ 0x26 ∷ 0x99 ∷ 0x87 ∷ 0x68 ∷ 0x96 ∷ 0x21 ∷ 0xD5
    ∷ 0x22 ∷ 0x92 ∷ 0xAE ∷ 0x9C ∷ 0x35 ∷ 0x94 ∷ 0x1A ∷ 0x74 ∷ 0x84 ∷ 0x75 ∷ 0x6E ∷ 0xCC ∷ 0xED
    ∷ 0x92 ∷ 0xA6 ∷ 0x50 ∷ 0x93 ∷ 0xBA ∷ []

abbrev pub genesis_work : List ℕ
genesis_work = 0x62 ∷ 0xF0 ∷ 0x54 ∷ 0x17 ∷ 0xDD ∷ 0x3F ∷ 0xB6 ∷ 0x91 ∷ []

abbrev pub genesis_signature : List ℕ
genesis_signature =
    0x9F ∷ 0x0C ∷ 0x93 ∷ 0x3C ∷ 0x8A ∷ 0xDE ∷ 0x00 ∷ 0x4D ∷ 0x80 ∷ 0x8E ∷ 0xA1 ∷ 0x98 ∷ 0x5F ∷ 0xA7
    ∷ 0x46 ∷ 0xA7 ∷ 0xE9 ∷ 0x5B ∷ 0xA2 ∷ 0xA3 ∷ 0x8F ∷ 0x86 ∷ 0x76 ∷ 0x40 ∷ 0xF5 ∷ 0x3E ∷ 0xC8
    ∷ 0xF1 ∷ 0x80 ∷ 0xBD ∷ 0xFE ∷ 0x9E ∷ 0x2C ∷ 0x12 ∷ 0x68 ∷ 0xDE ∷ 0xAD ∷ 0x7C ∷ 0x26 ∷ 0x64
    ∷ 0xF3 ∷ 0x56 ∷ 0xE3 ∷ 0x7A ∷ 0xBA ∷ 0x36 ∷ 0x2B ∷ 0xC5 ∷ 0x8E ∷ 0x46 ∷ 0xDB ∷ 0xA0 ∷ 0x3E
    ∷ 0x52 ∷ 0x3A ∷ 0x7B ∷ 0x5A ∷ 0x19 ∷ 0xE4 ∷ 0xB6 ∷ 0xEB ∷ 0x12 ∷ 0xBB ∷ 0x02 ∷ []

unfoldable pub live_genesis_block : OpenBlock
live_genesis_block = record {
  source = genesis_account;
  representative = genesis_account;
  account = genesis_account;
  work = some genesis_work;
  signature = some genesis_signature;
}

-- `Network::genesis_block`, a `todo!()` but for the live network.
unfoldable pub genesis_block : Blake2b → Network → Result Block
unfolding live_genesis_block
genesis_block h live = from_open_block h live_genesis_block open_previous Raw.max
genesis_block h test = panic
genesis_block h beta = panic

-- `ensure_genesis`, which is all that `init` does.
unfoldable pub ensure_genesis : {S : Type 0} → State S → Blake2b → Ed25519 → Network → S → Result S
unfolding genesis_block
ensure_genesis store h c network s = do
  b ← genesis_block h network
  add_elected_block store c network b s
