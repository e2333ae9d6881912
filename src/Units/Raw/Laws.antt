-- ===== src/Units/Raw/Laws.antt =====
-- The checked arithmetic and the encodings of `Raw`.
use feeless.Common.{ℕ, ◌+◌, ◌^◌, ◌<◌, ◌≡◌, ◌↔◌, List, none, some, ok, ◌>>=◌, length, arith, eq→==}
use feeless.Common.Words.{
  IsBytes, to_be_bytes, from_be_bytes, length-to_be_bytes, to_be_bytes-IsBytes,
  from_be_bytes-to_be_bytes, to_be_bytes-from_be_bytes, from_be_bytes-lt,
}
use feeless.Encoding.{to_hex}
use feeless.Hexify.{Hex}
use feeless.Hexify.RoundTrip.{decode-to_hex, length-to_hex}
use feeless.Units.Raw.{
  IsRaw, max, checked_add, checked_sub, to_vec, try_from_slice, to_hex_string, from_hex,
}

-- A sum that is not refused is the exact sum, is a `Raw`, and taking away either summand gives the
-- other back.
pub checked_add_lem :
    (a b c : ℕ)
    → IsRaw a
    → IsRaw b
    → checked_add a b ≡ some c
    → IsRaw c × (c ≡ a + b) × (checked_sub c b ≡ some a) × (checked_sub c a ≡ some b)
unfolding checked_add checked_sub
checked_add_lem a b c ha hb e = (ground arith, ground arith, ground arith, ground arith)

-- A difference that is not refused is a `Raw` and adding what was taken away gives the whole back.
pub checked_sub_lem :
    (a b c : ℕ)
    → IsRaw a
    → IsRaw b
    → checked_sub a b ≡ some c
    → IsRaw c × (checked_add c b ≡ some a) × (checked_sub a c ≡ some b)
unfolding checked_add checked_sub
checked_sub_lem a b c ha hb e = (ground arith, ground arith, ground arith)

-- A sum is refused just where it is above the maximum, and a difference just where it is negative.
checked_none :
    (a b : ℕ) → ((checked_add a b ≡ none) ↔ (max < a + b)) × ((checked_sub a b ≡ none) ↔ (a < b))
unfolding checked_add checked_sub
checked_none a b = ((λ e. ground arith, λ e. ground arith), (λ e. ground arith, λ e. ground arith))

-- The 16 bytes and the 32 hexadecimal digits of an amount read back as the amount, and 16 bytes
-- read as an amount are written back as they were.
pub amount_round_trip :
    (x : Hex) (amount : ℕ) (bytes : List ℕ)
    → IsRaw amount
    → IsBytes bytes
    → length bytes ≡ 16
    → (try_from_slice (to_vec amount) ≡ ok amount)
      × (from_hex x (to_hex_string amount) ≡ ok amount)
      × (n : ℕ) × (try_from_slice bytes ≡ ok n)
      × IsRaw n
      × (to_vec n ≡ bytes)
unfolding try_from_slice to_vec to_hex_string from_hex
amount_round_trip x amount bytes h small n =
    let back : from_be_bytes (to_be_bytes 16 amount) ≡ amount =
      from_be_bytes-to_be_bytes 16 amount (omega arith) in
    let long = length-to_be_bytes 16 amount in
    let digits : length (to_hex (to_be_bytes 16 amount)) ≡ 32 =
      omega (arith, length-to_hex (to_be_bytes 16 amount), long) in
    let bound : from_be_bytes bytes < 256 ^ 16 = rw n at (from_be_bytes-lt bytes small) in
    (
      rw (eq→== _ _ long) (rw back),
      rw (eq→== _ _ digits, ◌>>=◌)
          (rw (decode-to_hex x (to_be_bytes 16 amount) (to_be_bytes-IsBytes 16 amount))
            (rw (eq→== _ _ long) (rw back))),
      from_be_bytes bytes,
      rw (eq→== _ _ n),
      bound,
      rw n at (to_be_bytes-from_be_bytes bytes small),
    )

pub try_from_slice_ok :
    (bytes : List ℕ) → length bytes ≡ 16 → try_from_slice bytes ≡ ok (from_be_bytes bytes)
unfolding try_from_slice
try_from_slice_ok bytes n = rw (eq→== _ _ n)
