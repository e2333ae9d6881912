-- ===== src/Network.antt =====
-- src/network.rs: the networks.
use feeless.Common.{ℕ, Bool, true, false, Result, ok, err, Error, ◌==◌, if◌then◌else◌}

pub data Network : Type 0 where
  test beta live : Network

-- `network as u8`
unfoldable pub as_u8 : Network → ℕ
as_u8 test = 0x41
as_u8 beta = 0x42
as_u8 live = 0x43

-- `TryFrom<u8>`
unfoldable pub try_from : ℕ → Result Network
try_from v =
    if v == 0x41
    then ok test
    else if v == 0x42
    then ok beta
    else if v == 0x43
    then ok live
    else err (Error.unknown_network v)

-- The derived `PartialEq`.
unfoldable pub same : Network → Network → Bool
same test test = true
same beta beta = true
same live live = true
same _ _ = false
