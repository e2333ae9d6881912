-- ===== src/Units/Raw.antt =====
-- src/units/raw.rs: `Raw`, an amount in the smallest unit. It is a `u128`, kept as a number.
pub mod Laws
pub mod Decimal
use feeless.Common.{
  ℕ, ◌+◌, ◌-◌, ◌*◌, ◌^◌, ◌<◌, List, Option, none, some, Result, ok, err, panic, ◌>>=◌, ◌>>◌, Error,
  ok_or, length, ltb, leb, Bool, if◌then◌else◌,
}
use feeless.Common.Words.{to_be_bytes, from_be_bytes}
use feeless.Encoding.{expect_len, to_hex}
use feeless.Hexify.{Hex}

abbrev pub raw_len : ℕ
raw_len = 16

abbrev pub zero_raw : ℕ
zero_raw = 0

-- `Raw::max()`, which is `u128::MAX`.
abbrev pub max : ℕ
max = 2 ^ 128 - 1

abbrev pub IsRaw : ℕ → Type 0
IsRaw amount = amount < 2 ^ 128

unfoldable pub checked_add : ℕ → ℕ → Option ℕ
checked_add a b = if ltb max (a + b) then none else some (a + b)

unfoldable pub checked_sub : ℕ → ℕ → Option ℕ
checked_sub a b = if ltb a b then none else some (a - b)

-- `PartialOrd`: `<` and `>=`.
abbrev pub lt : ℕ → ℕ → Bool
lt a b = ltb a b

abbrev pub ge : ℕ → ℕ → Bool
ge a b = leb b a

unfoldable pub to_vec : ℕ → List ℕ
to_vec amount = to_be_bytes raw_len amount

-- `TryFrom<&[u8]>`
unfoldable pub try_from_slice : List ℕ → Result ℕ
unfolding expect_len
try_from_slice value = do expect_len (length value) raw_len; ok (from_be_bytes value)

unfoldable pub to_hex_string : ℕ → List ℕ
to_hex_string amount = to_hex (to_be_bytes raw_len amount)

unfoldable pub from_hex : Hex → List ℕ → Result ℕ
unfolding expect_len try_from_slice
from_hex x s = do
  expect_len (length s) (raw_len * 2)
  vec ← ok_or (x.decode s) Error.from_hex_error
  try_from_slice vec
