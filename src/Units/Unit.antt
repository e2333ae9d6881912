-- ===== src/Units/Unit.antt =====
-- src/units/mod.rs: the macro `unit!`, for a denomination of `10 ^ exponent` raw, and the conversions
-- of raw.rs to and from the denominations. The crate `bigdecimal` is a parameter.
pub mod Laws
use feeless.Common.{
  ℕ, suc, ◌+◌, ◌*◌, ◌/◌, ◌^◌, ◌<◌, ◌≡◌, List, Option, some, Result, ok, ◌>>=◌, Error, ok_or,
  unwrap_some,
}
use feeless.Common.Text.{decimal}
use feeless.Units.Raw.{IsRaw}
use feeless.Units.Raw.Decimal

-- What `bigdecimal` does. `Denotes d m k` says that `d` is `m / 10 ^ k`. A division panics on zero and
-- is exact where the quotient has few enough digits, `with_scale 0` drops the fraction.
pub record BigDecimal (D : Type 0) : Type 1 where
  pub from_str : List ℕ → Option D
  pub to_string : D → List ℕ
  pub with_scale : ℕ → D → D
  pub mul : D → D → D
  pub div : D → D → Result D
  pub Denotes : D → ℕ → ℕ → Type 0
  pub Denotes-shorten : (d : D) (m k j l : ℕ) → l ≡ k + j → Denotes d (m * 10 ^ j) l → Denotes d m k
  pub from_str-Denotes :
      (n : ℕ) → IsRaw n → (d : D) × (from_str (Decimal.to_string n) ≡ some d) × Denotes d n 0
  pub mul-Denotes :
      (a b : D) (m n k : ℕ) → Denotes a m k → Denotes b n 0 → Denotes (mul a b) (m * n) k
  pub div-Denotes :
      (a b : D) (m k j l : ℕ)
      → l ≡ k + j
      → m < 10 ^ 99
      → Denotes a m k
      → Denotes b (10 ^ j) 0
      → (q : D) × (div a b ≡ ok q) × Denotes q m l
  pub to_string-whole :
      (a : D) (m k : ℕ)
      → Denotes a m k
      → (digits : ℕ) × (m / 10 ^ k < 10 ^ suc digits)
        × (to_string (with_scale 0 a) ≡ decimal (suc digits) (m / 10 ^ k))

-- The exponents of `unit!(Mnano, 30)` and its like.
abbrev pub mnano : ℕ
mnano = 30

abbrev pub nano : ℕ
nano = 24

abbrev pub unbounded_raw : ℕ
unbounded_raw = 0

module _ {D : Type 0} (big : BigDecimal D) where
  unfoldable pub lazy_multiplier : ℕ → Result D
  lazy_multiplier exponent = unwrap_some (big.from_str (Decimal.to_string (10 ^ exponent)))

  unfoldable pub new_with_raw : ℕ → D → Result D
  new_with_raw exponent v = do multiplier ← lazy_multiplier exponent; big.div v multiplier

  unfoldable pub to_raw_big_decimal : ℕ → D → Result D
  to_raw_big_decimal exponent v = do
    multiplier ← lazy_multiplier exponent
    ok (big.mul v multiplier)

  -- `TryFrom<&BigDecimal> for Raw`
  unfoldable pub raw_try_from : D → Result ℕ
  raw_try_from value = Decimal.from_str (big.to_string (big.with_scale 0 value))

  unfoldable pub to_raw : ℕ → D → Result ℕ
  to_raw exponent v = do raw ← to_raw_big_decimal exponent v; raw_try_from raw

  unfoldable pub to_unbounded_raw : ℕ → D → Result D
  to_unbounded_raw exponent v = to_raw_big_decimal exponent v

  unfoldable pub to_mnano : ℕ → D → Result D
  to_mnano exponent v = do raw ← to_raw_big_decimal exponent v; new_with_raw mnano raw

  unfoldable pub to_nano : ℕ → D → Result D
  to_nano exponent v = do raw ← to_raw_big_decimal exponent v; new_with_raw nano raw

  unfoldable pub from_str : List ℕ → Result D
  from_str s = ok_or (big.from_str s) Error.parse_big_decimal_error

  -- `From<Raw>`
  unfoldable pub from_raw : ℕ → ℕ → Result D
  from_raw exponent raw = do
    big_dec ← unwrap_some (big.from_str (Decimal.to_string raw))
    multiplier ← lazy_multiplier exponent
    big.div big_dec multiplier
