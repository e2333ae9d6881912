-- ===== src/Bytes.antt =====
-- src/bytes.rs: a cursor over a byte slice.
pub mod Layout
pub mod Reader
use feeless.Common.{
  ℕ, ◌+◌, ◌-◌, ◌%◌, ◌^◌, Bool, List, Result, ok, err, panic, ◌||◌, ◌>>=◌, ◌>>◌, fail_if, length,
  take, drop, get_elem?, unwrap_some, leb, ltb, if◌then◌else◌,
}
use feeless.Common.{Error}

-- `struct Bytes`
pub record Bytes : Type 0 where
  pub bytes : List ℕ
  pub offset : ℕ

unfoldable pub new : List ℕ → Bytes
new bytes = record { bytes = bytes; offset = 0 }

abbrev pub len : Bytes → ℕ
len b = length b.bytes

unfoldable pub eof : Bytes → Bool
eof b = leb (len b) b.offset

-- `self.len() - self.offset()`, which panics below 0.
unfoldable pub remain : Bytes → Result ℕ
remain b = if ltb (len b) b.offset then panic else ok (len b - b.offset)

abbrev pub u64_mod : ℕ
u64_mod = 2 ^ 64

-- An `i64` is its bit pattern, below 2 ^ 64, so that `as i64` and `as usize` change nothing and a
-- sum wraps as it does in a release build.
unfoldable pub bounds_check : ℕ → Bytes → Result (Unit {0})
bounds_check size b = fail_if (ltb (len b) ((b.offset + size) % u64_mod)) Error.slice_past_end

unfoldable pub seek : ℕ → Bytes → Result Bytes
unfolding bounds_check
seek amount b = do bounds_check amount b; ok (record b { offset = (b.offset + amount) % u64_mod })

-- `&bytes[start..end]`, which panics out of range.
unfoldable pub slice_range : List ℕ → ℕ → ℕ → Result (List ℕ)
slice_range bytes start end =
    if ltb end start || ltb (length bytes) end
    then panic
    else ok (take (end - start) (drop start bytes))

unfoldable pub slice : ℕ → Bytes → Result (List ℕ × Bytes)
unfolding bounds_check slice_range
slice size b = do
  bounds_check size b
  let end = (b.offset + size) % u64_mod
  bytes ← slice_range b.bytes b.offset end
  ok (bytes, record b { offset = end })

unfoldable pub u8 : Bytes → Result (ℕ × Bytes)
unfolding bounds_check
u8 b = do
  bounds_check 1 b
  byte ← unwrap_some (get_elem? b.bytes b.offset)
  ok (byte, record b { offset = (b.offset + 1) % u64_mod })
