-- ===== src/Lib.antt =====
-- feeless, a node and toolbox for the Nano block lattice: a model of the crate under src/, in the
-- order in which its parts use each other.
--
-- The parts, their files and their code:
-- * Bytes (src/bytes.rs): a cursor over a byte string. Bytes/Reader is the chain of calls that a
--   `deserialize` makes on it, and Bytes/Layout what such a chain reads.
-- * Encoding, Encoding/Bits, Encoding/Base32 (src/encoding.rs): hexadecimal, bit strings and the
--   base 32 of addresses. Hexify is the macro `hexify!`, which every newtype of bytes uses.
-- * Keys (src/keys/): Public has the keys, signing and checking, Address the text of an address,
--   Seed the derivation of keys (seed.rs) Phrase mnemonic phrases (phrase.rs),
--   and Armor signed messages as text (armor.rs).
-- * Units/Raw (src/units/raw.rs): amounts of 128 bits, in Units/Raw/Decimal as text, and Units/Unit
--   (src/units/mod.rs) the denominations over decimals.
-- * Pow (src/pow/): Difficulty, and Work with its search.
-- * Network (src/network.rs): the networks and the hash of the first block.
-- * Blocks (src/blocks/): the kinds of block, the previous block and the link, the state block and the
--   legacy blocks, and Block, the form in which all of them are stored.
-- * Node/Extensions and Node/Header (src/node/header.rs, src/version.rs): the 8 bytes in front of a
--   message. Node/Messages (src/node/messages/, cookie.rs, peer_info.rs, timestamp.rs) reads what
--   follows them: the header says how many bytes that is and which fields there are.
-- * Node/State (src/node/state/): Interface is the trait `State` with the laws that its callers rely
--   on, Memory the implementation by hash maps.
-- * Node/Peer (src/node/peer/): Elected adds the blocks that votes have chosen (blocks.rs), Publish
--   handles a state block that a peer sends (messages.rs), both over the interface of the state.
--   Publish/Steps is the same handler cut where it takes the lock of the state, for handlers that
--   interleave (Publish/Race and Publish/Fork).
--   Genesis adds the first block (genesis.rs). Session is a connection and its handshake (mod.rs,
--   messages.rs), Receive the loop that cuts packets into messages, and Runs what may happen to a peer
--   with the state in memory, as a step relation.
-- * Node/Connection (src/node/mod.rs): a node, the reader of a connection and the tasks that it joins;
--   what a socket and a task do are arguments.
-- * Wallet (src/wallet/mod.rs): the keys of a wallet, and in Wallet/Manager the file of wallets.
-- * Vanity (src/vanity.rs): the search for addresses with a given start or end.
-- * Cli (src/cli/): the commands of the toolbox, from what clap has parsed to the text that they
--   print. Keys has the conversions between the forms of a key (address.rs, public.rs, private.rs,
--   seed.rs, phrase.rs), Wallet the wallet commands on the contents of the file (wallet.rs), Verify,
--   Work, Vanity and Units the others (verify.rs, work.rs, vanity.rs, unit.rs).
-- * Common and Tests, which have no code of the crate. Common has lists and Boolean tests over native
--   numbers, results, maps and fixed-width integers; Tests has concrete stand-ins for the crates, and
--   an example of each result.
--
-- How the code is read: a byte is a number below 256 and a byte string a list; a newtype of bytes is
-- its list. A `Result` has three ends, a value, an error and a panic, so `unwrap`, `todo!()` and an
-- index out of range are panics of the model. An error keeps its kind and not its text. A method that
-- changes its object returns the new one. Integers of 64 and 128 bits are numbers with their
-- bounds written out. Assertions that only a debug build makes are left out, and so are logs. A task, a
-- connection or a node that has not ended is `none` in the place of its result (`End`).
--
-- Bounds and fuel: the loop of `handle_packet` runs on fuel. Two rounds are enough, since a round that
-- goes on has read a header, and the round behind it never goes on. The search for work runs on the list
-- of the random bytes that it draws, and is still running where they end; every other loop runs over a
-- list or a count. A byte string that is read has fewer than 2 ^ 63 bytes, as in Rust. The digits of an
-- account number in a derivation path are ten, which is enough for 32 bits, and those of an amount 39,
-- which is enough for 128.
--
-- Parameters (Crypto, Hexify, Keys/Phrase, Units/Unit, Wallet): the hash Blake2b, the signatures of
-- ed25519-dalek, the `hex` crate, the crates of mnemonic phrases, the decimals and the JSON of the
-- wallet file are records of functions with the documented facts that the code relies on. Random
-- bytes are arguments, and a regular expression is a test of a text.
--
-- Not modelled: sockets, tasks, threads and channels, of which what was sent, read and ended is kept,
-- the parsing of arguments by clap, remote procedure calls, packet capture, the disk state, of which
-- only the cookies are written and which nothing makes, the errors of the methods of the state other
-- than `add_block`, which those of the state in memory never raise, JSON by serde, the operators on
-- decimal units, and the failures of the file system. One call runs at a time, but for the handler of
-- a state block, whose turns under the lock of the state interleave in Publish/Race and Publish/Fork.
pub mod Common
pub mod Bytes
pub mod Encoding
pub mod Crypto
pub mod Keys
pub mod Hexify
pub mod Units
pub mod Pow
pub mod Network
pub mod Blocks
pub mod Node
pub mod Wallet
pub mod Vanity
pub mod Cli
pub mod Tests
