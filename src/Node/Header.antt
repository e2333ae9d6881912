-- ===== src/Node/Header.antt =====
-- src/node/header.rs: the 8 bytes in front of every message.
pub mod RoundTrip
use feeless.Common.{
  ℕ, Bool, List, [], ◌∷◌, Option, none, some, Result, ok, err, panic, ◌>>=◌, ◌>>◌, Error, fail_if,
  not, length, ◌==◌, unwrap_some, get_elem?, if◌then◌else◌,
}
use feeless.Network
use feeless.Network.{Network}
use feeless.Bytes.{slice_range}
use feeless.Encoding.{expect_len}
use feeless.Node.Extensions
use feeless.Node.Extensions.{Extensions}

-- src/version.rs: the two protocol versions, as the byte on the wire.
pub data Version : Type 0 where
  v18 v19 : Version

unfoldable pub version_as_u8 : Version → ℕ
version_as_u8 v18 = 18
version_as_u8 v19 = 19

abbrev pub magic : ℕ
magic = 0x52

-- `TryFrom<u8> for MagicNumber`
unfoldable pub magic_try_from : ℕ → Result ℕ
magic_try_from v = if not (v == magic) then err (Error.invalid_magic_number v) else ok magic

pub data MessageType : Type 0 where
  keepalive publish confirm_req confirm_ack bulk_pull bulk_push : MessageType
  frontier_req handshake bulk_pull_account telemetry_req telemetry_ack : MessageType

-- `message_type as u8`
unfoldable pub message_type_as_u8 : MessageType → ℕ
message_type_as_u8 keepalive = 2
message_type_as_u8 publish = 3
message_type_as_u8 confirm_req = 4
message_type_as_u8 confirm_ack = 5
message_type_as_u8 bulk_pull = 6
message_type_as_u8 bulk_push = 7
message_type_as_u8 frontier_req = 8
message_type_as_u8 handshake = 10
message_type_as_u8 bulk_pull_account = 11
message_type_as_u8 telemetry_req = 12
message_type_as_u8 telemetry_ack = 13

-- `TryFrom<u8> for MessageType`
unfoldable pub message_type_try_from : ℕ → Result MessageType
message_type_try_from v =
    if v == 2
    then ok keepalive
    else if v == 3
    then ok publish
    else if v == 4
    then ok confirm_req
    else if v == 5
    then ok confirm_ack
    else if v == 6
    then ok bulk_pull
    else if v == 7
    then ok bulk_push
    else if v == 8
    then ok frontier_req
    else if v == 10
    then ok handshake
    else if v == 11
    then ok bulk_pull_account
    else if v == 12
    then ok telemetry_req
    else if v == 13
    then ok telemetry_ack
    else err (Error.unknown_message_type v)

pub record Header : Type 0 where
  pub magic_number : ℕ
  pub network : Network
  pub version_max : Version
  pub version_using : Version
  pub version_min : Version
  pub message_type : MessageType
  pub ext : Extensions

abbrev pub header_len : ℕ
header_len = 8

unfoldable pub new : Network → MessageType → Extensions → Header
new network message_type ext = record {
  magic_number = magic;
  network = network;
  version_max = v18;
  version_using = v18;
  version_min = v18;
  message_type = message_type;
  ext = ext;
}

unfoldable pub reset : Header → MessageType → Extensions → Header
reset h message_type ext = record h { message_type = message_type; ext = ext }

unfoldable pub validate : Header → Network → Result (Unit {0})
validate h network = fail_if (not (Network.same h.network network)) Error.network_mismatch

unfoldable pub serialize : Header → List ℕ
unfolding version_as_u8 message_type_as_u8
serialize h =
    h.magic_number
    ∷ Network.as_u8 h.network
    ∷ version_as_u8 h.version_max
    ∷ version_as_u8 h.version_using
    ∷ version_as_u8 h.version_min
    ∷ message_type_as_u8 h.message_type
    ∷ h.ext.first
    ∷ h.ext.second
    ∷ []

-- `data[i]`, which panics out of range.
abbrev pub index : List ℕ → ℕ → Result ℕ
index bytes i = unwrap_some (get_elem? bytes i)

unfoldable pub deserialize : List ℕ → Result Header
unfolding magic_try_from message_type_try_from
deserialize bytes = do
  expect_len (length bytes) header_len
  magic_number ← magic_try_from (← index bytes 0)
  network ← Network.try_from (← index bytes 1)
  message_type ← message_type_try_from (← index bytes 5)
  ext ← Extensions.try_from (← slice_range bytes 6 8)
  ok (new network message_type ext)
