-- ===== src/Node/Header/RoundTrip.antt =====
-- A header and its bytes.
use feeless.Common.{ℕ, ◌≡◌, refl, [], ◌∷◌, ok, length, arith, >>=-eq-ok}
use feeless.Network
use feeless.Network.{Network, test, beta, live}
use feeless.Node.Extensions
use feeless.Node.Extensions.{Extensions}
use feeless.Node.Header.{
  Header, MessageType, new, serialize, deserialize, message_type_as_u8, message_type_try_from,
  magic, magic_try_from, keepalive, publish, confirm_req, confirm_ack, bulk_pull, bulk_push,
  frontier_req, handshake, bulk_pull_account, telemetry_req, telemetry_ack,
}
use feeless.Encoding.{expect_len}
use feeless.Bytes.{slice_range}

network_round_trip : (n : Network) → Network.try_from (Network.as_u8 n) ≡ ok n
unfolding Network.try_from Network.as_u8
network_round_trip test = refl
network_round_trip beta = refl
network_round_trip live = refl

message_type_round_trip : (t : MessageType) → message_type_try_from (message_type_as_u8 t) ≡ ok t
unfolding message_type_try_from message_type_as_u8
message_type_round_trip keepalive = refl
message_type_round_trip publish = refl
message_type_round_trip confirm_req = refl
message_type_round_trip confirm_ack = refl
message_type_round_trip bulk_pull = refl
message_type_round_trip bulk_push = refl
message_type_round_trip frontier_req = refl
message_type_round_trip handshake = refl
message_type_round_trip bulk_pull_account = refl
message_type_round_trip telemetry_req = refl
message_type_round_trip telemetry_ack = refl

-- A byte is a network, or a message type, just when it is the number of one.
message_type_try_from-inv :
    (v : ℕ) (t : MessageType) → message_type_try_from v ≡ ok t → message_type_as_u8 t ≡ v
unfolding message_type_try_from message_type_as_u8
message_type_try_from-inv v t h = ground arith

network_try_from-inv : (v : ℕ) (n : Network) → Network.try_from v ≡ ok n → Network.as_u8 n ≡ v
unfolding Network.try_from Network.as_u8
network_try_from-inv v n h = ground arith

module _ (network : Network) (message_type : MessageType) (ext : Extensions) where
  -- Every header that `new` makes is 8 bytes that read back as the header.
  pub deserialize-serialize :
      (deserialize (serialize (new network message_type ext)) ≡ ok (new network message_type ext))
      × (length (serialize (new network message_type ext)) ≡ 8)
  unfolding deserialize serialize new expect_len magic_try_from slice_range Extensions.try_from
  deserialize-serialize =
      (rw (network_round_trip network) (rw (message_type_round_trip message_type)), refl)

written :
    (m n t x y : ℕ) (h : Header) (network : Network) (message_type : MessageType)
    → m ≡ magic
    → Network.as_u8 network ≡ n
    → message_type_as_u8 message_type ≡ t
    → h ≡ new network message_type (record { first = x; second = y })
    → (m ≡ magic)
      × (serialize h ≡ magic ∷ n ∷ 18 ∷ 18 ∷ 18 ∷ t ∷ x ∷ y ∷ [])
      × (h ≡ new h.network h.message_type h.ext)
unfolding serialize new
written m n t x y h network message_type em en et eh = rw eh (em, rw (en, et), refl)

-- Eight bytes that read as a header: the first is the magic number, and writing the header back gives the same bytes, but
-- for the three version bytes, which are not kept: they become 18.
pub deserialize_eight :
    (m n a b c t x y : ℕ) (h : Header)
    → deserialize (m ∷ n ∷ a ∷ b ∷ c ∷ t ∷ x ∷ y ∷ []) ≡ ok h
    → (m ≡ magic)
      × (serialize h ≡ magic ∷ n ∷ 18 ∷ 18 ∷ 18 ∷ t ∷ x ∷ y ∷ [])
      × (h ≡ new h.network h.message_type h.ext)
unfolding deserialize serialize new expect_len magic_try_from slice_range Extensions.try_from
deserialize_eight m n a b c t x y h e =
    let (k, one, rest) = >>=-eq-ok (magic_try_from m) _ e in
    let (network, two, rest') = >>=-eq-ok (Network.try_from n) _ rest in
    let (message_type, three, whole) = >>=-eq-ok (message_type_try_from t) _ rest' in
    written m n t x y h network message_type (ground (arith, one))
      (network_try_from-inv n network two) (message_type_try_from-inv t message_type three)
      (cc whole)
