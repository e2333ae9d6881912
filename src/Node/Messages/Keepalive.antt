-- ===== src/Node/Messages/Keepalive.antt =====
-- src/node/messages/keepalive.rs: eight places for the addresses of peers.
use feeless.Common.{
  ℕ, zero, suc, ◌+◌, ◌*◌, ◌/◌, ◌%◌, ◌^◌, ◌<◌, ◌≤◌, ◌≡◌, ◌∙◌, refl, ap, Bool, true, false, List, [],
  ◌∷◌, ◌++◌, some, Result, ok, length, length-append, get_elem?, take, replicate, arith,
  if◌then◌else◌, eq→==, ltb-false, take_append, get_elem?,
}
use feeless.Common.Maps.{list_eq}
use feeless.Bytes.{Bytes, slice, slice_range}
use feeless.Bytes.Reader.{Reader, ◌>>=◌, pure, lift, run}
use feeless.Bytes.Layout.{
  cursor, segment, segments, length-segment, slice_then, lift_then, run_ok, bind_then,
}
use feeless.Node.Header.{Header}
use feeless.Node.Messages.Parts.{
  PeerInfo, peer_info_len, peer_info_serialize, peer_info_deserialize,
}

abbrev pub peers : ℕ
peers = 8

-- The rest of an iteration: a place of zeros is skipped (`continue`).
unfoldable pub keep_peer : Bool → List ℕ → Reader (List PeerInfo) → Reader (List PeerInfo)
keep_peer true place rest = rest
keep_peer false place rest = do
  peer ← lift (peer_info_deserialize place)
  others ← rest
  pure (peer ∷ others)

-- The loop over the places.
unfoldable pub read_peers : ℕ → Reader (List PeerInfo)
read_peers zero = pure []
read_peers (suc n) = do
  place ← slice peer_info_len
  keep_peer (list_eq place (replicate peer_info_len 0)) place (read_peers n)

-- `Wire::deserialize`
unfoldable pub keepalive_deserialize : List ℕ → Result (List PeerInfo)
keepalive_deserialize bytes = run (read_peers peers) bytes

-- `Wire::len`
unfoldable pub keepalive_len : Header → Result ℕ
keepalive_len header = ok (peer_info_len * peers)

-- The byte at a place, or 0.
abbrev pub byte : List ℕ → ℕ → ℕ
byte [] i = 0
byte (b ∷ bytes) zero = b
byte (b ∷ bytes) (suc i) = byte bytes i

byte_ok : (bytes : List ℕ) (i : ℕ) → i < length bytes → get_elem? bytes i ≡ some (byte bytes i)
byte_ok [] i h = absurd (omega arith)
byte_ok (b ∷ bytes) zero h = refl
byte_ok (b ∷ bytes) (suc i) h = byte_ok bytes i (omega arith)

-- The address that 18 bytes stand for: 16 octets and the port, low byte first.
abbrev pub peer_layout : List ℕ → PeerInfo
peer_layout place = record {
  octets = segment place 0 16;
  port = byte place 16 + byte place 17 * 256;
}

peer_info_ok :
    (place : List ℕ) → length place ≡ 18 → peer_info_deserialize place ≡ ok (peer_layout place)
unfolding peer_info_deserialize slice_range
peer_info_ok place n = rw (eq→== (length place) 18 n) (
    rw (ltb-false (length place) 16 (omega arith))
      (rw (byte_ok place 16 (omega arith)) (rw (byte_ok place 17 (omega arith)))))

-- The peers of the places that are not all zeros, in order.
abbrev pub peers_layout : List (List ℕ) → List PeerInfo
peers_layout [] = []
peers_layout (place ∷ places) =
    if list_eq place (replicate 18 0)
    then peers_layout places
    else peer_layout place ∷ peers_layout places

keep_peer_ok :
    (skipped : Bool) (place : List ℕ) (rest : Reader (List PeerInfo)) (c d : Bytes)
    (others : List PeerInfo)
    → length place ≡ 18
    → rest c ≡ ok (others, d)
    → keep_peer skipped place rest c
      ≡ ok (if skipped then others else peer_layout place ∷ others, d)
unfolding keep_peer
keep_peer_ok true place rest c d others n e = e
keep_peer_ok false place rest c d others n e =
    lift_then _ c (peer_info_ok place n) ∙ bind_then rest c _ e

read_peers_ok :
    (bytes : List ℕ) (n offset : ℕ)
    → length bytes < 2 ^ 63
    → offset + n * 18 ≤ length bytes
    → read_peers n (cursor bytes offset)
      ≡ ok (peers_layout (segments bytes offset 18 n), cursor bytes (offset + n * 18))
unfolding read_peers
read_peers_ok bytes zero offset short h =
    let e : offset ≡ offset + 0 * 18 = omega arith in ap (λ (k : ℕ). ok ([], cursor bytes k)) e
read_peers_ok bytes (suc n) offset short h =
    let place = segment bytes offset 18 in
    let e : offset + 18 + n * 18 ≡ offset + suc n * 18 = omega arith in
    let ih = read_peers_ok bytes n (offset + 18) short (omega arith) in
    slice_then bytes offset 18 _ short (omega arith)
    ∙ keep_peer_ok (list_eq place (replicate 18 0)) place _ _ _ _
        (length-segment bytes offset 18 (omega arith)) ih
    ∙ ap (λ (k : ℕ). ok (peers_layout (place ∷ segments bytes (offset + 18) 18 n), cursor bytes k))
        e

-- A keepalive of 144 bytes is read: its peers are the addresses of the places that are not all
-- zeros, in order.
pub keepalive_deserialize-layout :
    (bytes : List ℕ)
    → length bytes ≡ 144
    → keepalive_deserialize bytes ≡ ok (peers_layout (segments bytes 0 18 8))
unfolding keepalive_deserialize
keepalive_deserialize-layout bytes n =
    run_ok _ bytes (read_peers_ok bytes 8 0 (omega arith) (omega arith))

byte-append : (xs ys : List ℕ) (i j : ℕ) → j ≡ length xs + i → byte (xs ++ ys) j ≡ byte ys i
byte-append [] ys i j e = ap (byte ys) (omega arith)
byte-append (x ∷ xs) ys i zero e = absurd (omega arith)
byte-append (x ∷ xs) ys i (suc j) e = byte-append xs ys i j (omega arith)

-- An address that is sent reads back.
pub peer_info_deserialize-serialize :
    (p : PeerInfo)
    → length p.octets ≡ 16
    → p.port < 2 ^ 16
    → peer_info_deserialize (peer_info_serialize p) ≡ ok p
unfolding peer_info_serialize
peer_info_deserialize-serialize p n small =
    let port_bytes = p.port % 256 ∷ p.port / 256 % 256 ∷ [] in
    let whole = p.octets ++ port_bytes in
    let sized : length whole ≡ 18 = omega (arith, length-append p.octets port_bytes) in
    let front : take 16 whole ≡ p.octets = rw n at (take_append p.octets port_bytes) in
    let low : byte whole 16 ≡ p.port % 256 = byte-append p.octets port_bytes 0 16 (omega arith) in
    let high : byte whole 17 ≡ p.port / 256 % 256 =
      byte-append p.octets port_bytes 1 17 (omega arith) in
    let port : p.port % 256 + p.port / 256 % 256 * 256 ≡ p.port = omega arith in
    peer_info_ok whole sized ∙ rw (front, low, high, port)
