-- ===== src/Node/Peer/Handshake/Split.antt =====
-- A handshake whose header and cookie come in two packets, which is how the program sends them.
use feeless.Common.{
  ℕ, ◌≤◌, ◌≡◌, ◌∙◌, refl, sym, ap, List, [], ◌∷◌, append-nil, some, ok, err, ◌>>=◌, Error, arith,
  length, take, ltb-false, ne→==,
}
use feeless.Crypto.{Blake2b, Ed25519}
use feeless.Encoding.{expect_len}
use feeless.Bytes.Layout.{length-segment}
use feeless.Network.{Network}
use feeless.Node.Extensions
use feeless.Node.Header
use feeless.Node.Header.{Header, header_len, handshake, magic, magic_try_from}
use feeless.Node.Messages.Handshake.{handshake_len}
use feeless.Node.State.Interface.{State}
use feeless.Node.Peer.Session.{Peer, header_state}
use feeless.Node.Peer.Receive.{recv, process, loop, handle_packet, handle_packets}
use feeless.Node.Peer.Receive.Whole.{payload_len, handle_packet_split}
use feeless.Node.Peer.Handshake.{query_header, Ready}

-- Bytes that start with another byte than the magic number are no header.
not_header :
    (first : ℕ) (rest : List ℕ)
    → 7 ≤ length rest
    → ¬ (first ≡ magic)
    → Header.deserialize (take 8 (first ∷ rest)) ≡ err (Error.invalid_magic_number first)
unfolding Header.deserialize expect_len magic_try_from
not_header first rest long other =
    let n : length (take 7 rest) ≡ 7 = length-segment rest 0 7 (omega arith) in
    rw n (rw (ne→== first magic other))

query_waits : (n : Network) → payload_len handshake (query_header n) ≡ ok 32
unfolding payload_len handshake_len Header.new Extensions.query Extensions.new Extensions.is_query
    Extensions.is_response
query_waits n = refl

module _ {S : Type 0} (store : State S) (h : Blake2b) (c : Ed25519) where
  refused :
      (seed : List ℕ) (first : ℕ) (rest : List ℕ) (p : Peer S)
      → p.recv_state ≡ header_state
      → p.incoming_buffer ≡ []
      → 7 ≤ length rest
      → ¬ (first ≡ magic)
      → handle_packet store h c 2 seed (first ∷ rest) p ≡ err (Error.invalid_magic_number first)
  unfolding handle_packet loop process recv
  refused seed first rest p waits empty long other =
      let e = not_header first rest long other in
      rw (waits, empty)
        (rw (ltb-false (length (first ∷ rest)) header_len (omega arith)) (rw (e, ◌>>=◌)))

  -- To a peer that waits for a message, the header and the cookie of a handshake in two packets are an
  -- error, unless the cookie starts with the magic number of a header.
  pub handshake_split :
      (seed other : List ℕ) (first : ℕ) (rest : List ℕ) (p : Peer S)
      → Ready p
      → length (first ∷ rest) ≡ 32
      → ¬ (first ≡ magic)
      → handle_packets store h c
          ((seed, Header.serialize (query_header p.network)) ∷ (other, first ∷ rest) ∷ [])
          p
        ≡ err (Error.invalid_magic_number first)
  unfolding handle_packets
  handshake_split seed other first rest p (waits, empty, opened) long apart =
      let header = query_header p.network in
      let forgets : handle_packet store h c 2 seed (Header.serialize header) p
          ≡ ok (some (record p { recv_state = header_state; incoming_buffer = [] })) =
        ap (λ (bytes : List ℕ). handle_packet store h c 2 seed bytes p)
          (sym (append-nil (Header.serialize header)))
        ∙ handle_packet_split store h c seed handshake (Extensions.query Extensions.new) [] 32 p
            waits empty (query_waits p.network) (omega arith) in
      rw (forgets, ◌>>=◌)
        (rw (
          refused other first rest (record p { recv_state = header_state; incoming_buffer = [] })
              refl refl (omega arith) apart,
          ◌>>=◌,
        ))
