-- ===== src/Pow/Difficulty.antt =====
-- src/pow/difficulty.rs: a 64-bit threshold, kept as a number.
use feeless.Common.{
  ℕ, ◌^◌, ◌<◌, ◌==◌, List, Result, ok, panic, ◌>>=◌, ◌>>◌, Error, ok_or, length, if◌then◌else◌, ◌*◌,
}
use feeless.Common.Words.{from_le_bytes, from_be_bytes}
use feeless.Encoding.{expect_len}
use feeless.Hexify.{Hex}
use feeless.Bytes.Reader.{array}

abbrev pub difficulty_len : ℕ
difficulty_len = 8

abbrev pub IsDifficulty : ℕ → Type 0
IsDifficulty d = d < 2 ^ 64

-- `receive()` and `normal()`
abbrev pub receive : ℕ
receive = 0xFFFF_FE00_0000_0000

abbrev pub normal : ℕ
normal = 0xFFFF_FFF8_0000_0000

unfoldable pub from_be_slice : List ℕ → Result ℕ
unfolding array
from_be_slice s = do b ← array difficulty_len s; ok (from_be_bytes b)

-- `copy_from_slice` panics on a slice of another length.
unfoldable pub from_le_slice : List ℕ → Result ℕ
from_le_slice s = if length s == difficulty_len then ok (from_le_bytes s) else panic

-- `FromStr`
unfoldable pub from_str : Hex → List ℕ → Result ℕ
unfolding expect_len from_be_slice
from_str x s = do
  expect_len (length s) (difficulty_len * 2)
  bytes ← ok_or (x.decode s) Error.from_hex_error
  from_be_slice bytes
