-- ===== src/Node/Connection.antt =====
-- src/node/mod.rs: the node and its connections. What tokio and the sockets do is an argument: what a
-- read gives, and what the tasks of a connection have ended with, if they have.
pub mod Lingers
pub mod Stops
use feeless.Common.{
  ℕ, Bool, true, false, ◌||◌, List, [], ◌∷◌, Option, none, some, Result, ok, err, panic, ◌>>=◌,
  ◌>>◌, Error, ok_or, if◌then◌else◌,
}
use feeless.Crypto.{Blake2b, Ed25519}
use feeless.Network.{Network, live}
use feeless.Node.State.Interface.{State}
use feeless.Node.Peer.Session.{new_with_channels}
use feeless.Node.Peer.Receive.{run}

pub record Node (S : Type 0) : Type 0 where
  pub network : Network
  pub state : S

-- One round of the reader: what the read gives, and whether the channel to the peer is open.
pub record Round : Type 0 where
  pub read : Result (List ℕ)
  pub is_open : Bool

-- The packets that a reader has sent, and what it has ended with, or nothing where it still runs.
abbrev pub Reading : Type 0
Reading = List (List ℕ) × Option (Result (Unit {0}))

abbrev send_first : List ℕ → Reading → Reading
send_first bytes (packets, end) = (bytes ∷ packets, end)

unfoldable pub read_one : Result (List ℕ) → Bool → Reading → Reading
read_one (ok bytes) is_open rest = if is_open then send_first bytes rest else ([], some (ok tt))
read_one (err e) is_open rest = ([], some (err e))
read_one panic is_open rest = ([], some panic)

-- The task that reads, over the rounds so far.
unfoldable pub reader_task : List Round → Reading
unfolding read_one
reader_task [] = ([], none)
reader_task (r ∷ rounds) = read_one r.read r.is_open (reader_task rounds)

-- What something that is awaited has ended with, or nothing where it has not ended.
abbrev pub End : Type 0 → Type 0
End A = Option (Result A)

-- The three tasks of a connection.
pub record Tasks : Type 0 where
  pub peer : End (Unit {0})
  pub reader : End (Unit {0})
  pub writer : End (Unit {0})

abbrev pub panicked : End (Unit {0}) → Bool
panicked (some panic) = true
panicked _ = false

abbrev pub running : End (Unit {0}) → Bool
running none = true
running (some r) = false

-- `try_join!`: a panic of a task is an error at once, whatever the others do; else all three are awaited, and
-- an error that a task returns is only logged.
unfoldable pub try_join : Tasks → End (Unit {0})
try_join t =
    if panicked t.peer || panicked t.reader || panicked t.writer
    then some (err Error.join_error)
    else if running t.peer || running t.reader || running t.writer
    then none
    else some (ok tt)

-- `connection`, or nothing where the peer could not be reached.
unfoldable pub connection : Option Tasks → End (Unit {0})
unfolding try_join
connection none = some (ok tt)
connection (some t) = try_join t

-- The loop over the commands that have come. Behind them it waits, until the sender that the RPC server holds
-- is dropped; a command is a `todo!`.
unfoldable pub commands : List (Unit {0}) → Bool → End (Unit {0})
commands [] closed = if closed then some (ok tt) else none
commands (c ∷ cs) closed = some panic

-- Addresses from texts, where `socket_addr` is their `FromStr`.
unfoldable pub parse_all : (List ℕ → Option (List ℕ)) → List (List ℕ) → Result (List (List ℕ))
parse_all socket_addr [] = ok []
parse_all socket_addr (text ∷ texts) = do
  address ← ok_or (socket_addr text) Error.unparsed_argument
  rest ← parse_all socket_addr texts
  ok (address ∷ rest)

-- The peers of the arguments, or those that the lookup of the host gives.
unfoldable pub first_peers :
    (List ℕ → Option (List ℕ))
    → Result (List (List ℕ))
    → Option (List (List ℕ))
    → Result (List (List ℕ))
unfolding parse_all
first_peers socket_addr found none = found
first_peers socket_addr found (some texts) = parse_all socket_addr texts

-- A connection that has not ended is waited for, one that ended with an error ends the node, and behind any
-- other the next one is made.
unfoldable pub met :
    {S : Type 0} → List ℕ → End (Unit {0}) → List (List ℕ) × End S → List (List ℕ) × End S
met address none rest = (address ∷ [], none)
met address (some (ok u)) (addresses, end) = (address ∷ addresses, end)
met address (some (err e)) rest = (address ∷ [], some (err e))
met address (some panic) rest = (address ∷ [], some panic)

-- What follows the connections.
unfoldable pub then_commands : {S : Type 0} → End S → End (Unit {0}) → End (Unit {0})
then_commands none rest = none
then_commands (some (ok s)) rest = rest
then_commands (some (err e)) rest = some (err e)
then_commands (some panic) rest = some panic

module _ {S : Type 0} (store : State S) where
  unfoldable pub add_peers : List (List ℕ) → Node S → Node S
  add_peers addresses node = record node { state = store.add_peers addresses node.state }

  -- `contact` is what a connection does with the state: its tasks, and the state that it leaves.
  module _ (contact : List ℕ → S → Option Tasks × S) where
    -- One connection after another, each awaited to its end: the addresses that were tried, and the
    -- state or the error behind the last, or nothing where the last has not ended.
    unfoldable pub connect_all : List (List ℕ) → S → List (List ℕ) × End S
    unfolding connection met
    connect_all [] s = ([], some (ok s))
    connect_all (address ∷ addresses) s =
        let (tasks, after) = contact address s in
        met address (connection tasks) (connect_all addresses after)

    unfoldable pub run_node : List (Unit {0}) → Bool → Node S → List (List ℕ) × End (Unit {0})
    unfolding connect_all commands then_commands
    run_node requests closed node =
        let (tried, end) = connect_all (store.peers node.state) node.state in
        (tried, then_commands end (commands requests closed))

    -- `start`, over a new state.
    unfoldable pub start :
        (List ℕ → Option (List ℕ))
        → Result (List (List ℕ))
        → Option (List (List ℕ))
        → List (Unit {0})
        → Bool
        → S
        → List (List ℕ) × End (Unit {0})
    unfolding first_peers run_node add_peers
    start socket_addr found override requests closed s =
        elim (first_peers socket_addr found override) [
          | ok addresses ↦
              run_node requests closed (add_peers addresses (record { network = live; state = s }))
          | err e ↦ ([], some (err e))
          | panic ↦ ([], some panic)
        ]

  -- The task of a peer, on the packets that the reader sends it.
  unfoldable pub peer_task :
      Blake2b → Ed25519 → Node S → List ℕ → List ℕ → List (List ℕ × List ℕ) → Result (Unit {0})
  unfolding run new_with_channels
  peer_task h c node address cookie packets = do
    p ← run store h c cookie packets (new_with_channels node.network node.state address)
    ok tt
