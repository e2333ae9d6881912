-- ===== src/Node/Connection/Lingers.antt =====
-- A connection that the other side has closed.
use feeless.Common.{
  ℕ, ◌≡◌, ◌<◌, refl, true, List, [], ◌∷◌, append-nil, none, some, ok, length, lt→ltb,
}
use feeless.Crypto.{Blake2b, Ed25519}
use feeless.Node.State.Interface.{State}
use feeless.Node.Peer.Session.{Peer, header_state}
use feeless.Node.Peer.Receive.{recv, handle_header, process, loop, handle_packet, handle_packets}
use feeless.Node.Connection.{Round, reader_task, read_one}

-- The read of a closed connection gives no bytes, and no error.
abbrev pub end_of_file : Round
end_of_file = record { read = ok []; is_open = true }

-- One for each seed that the peer draws: the rounds of the reader, and the packets that it sends.
abbrev pub rounds : List (List ℕ) → List Round
rounds [] = []
rounds (seed ∷ seeds) = end_of_file ∷ rounds seeds

abbrev pub empty_packets : List (List ℕ) → List (List ℕ)
empty_packets [] = []
empty_packets (seed ∷ seeds) = [] ∷ empty_packets seeds

abbrev pub with_seeds : List (List ℕ) → List (List ℕ × List ℕ)
with_seeds [] = []
with_seeds (seed ∷ seeds) = (seed, []) ∷ with_seeds seeds

-- A peer that waits for a header, with a part of one in its buffer.
abbrev pub waits_with : {S : Type 0} → List ℕ → Peer S → Peer S
waits_with part p = record p { recv_state = header_state; incoming_buffer = part }

pub reads_on : (seeds : List (List ℕ)) → reader_task (rounds seeds) ≡ (empty_packets seeds, none)
unfolding reader_task read_one
reads_on [] = refl
reads_on (seed ∷ seeds) = rw (reads_on seeds) refl

module _ {S : Type 0} (store : State S) (h : Blake2b) (c : Ed25519) (part : List ℕ)
    (p : Peer S) where
  handle_packet_empty :
      (seed : List ℕ)
      → length part < 8
      → handle_packet store h c 2 seed [] (waits_with part p) ≡ ok (some (waits_with part p))
  unfolding handle_packet loop process recv handle_header
  handle_packet_empty seed short = rw (append-nil part) (rw (lt→ltb (length part) 8 short) refl)

  -- Where the other side has closed the connection and the peer waits for a header, the reader sends
  -- one empty packet after another and does not end, and the peer handles them and neither ends nor
  -- changes.
  pub handle_packets-reader_task :
      (seeds : List (List ℕ))
      → length part < 8
      → (reader_task (rounds seeds) ≡ (empty_packets seeds, none))
        × (handle_packets store h c (with_seeds seeds) (waits_with part p) ≡ ok (waits_with part p))
  unfolding handle_packets
  handle_packets-reader_task [] short = (reads_on [], refl)
  handle_packets-reader_task (seed ∷ seeds) short = (
    reads_on (seed ∷ seeds),
    rw (handle_packet_empty seed short) (handle_packets-reader_task seeds short).1,
  )
