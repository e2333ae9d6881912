-- ===== src/Units/Raw/Decimal.antt =====
-- src/units/raw.rs: the decimal text of `Raw`, its `Display` and `FromStr`, which are those of a
-- `u128`. A text is the list of its code points.
pub mod Laws
use feeless.Common.{
  ℕ, ◌+◌, ◌-◌, ◌*◌, ◌==◌, List, [], ◌∷◌, Option, none, some, Result, ok, err, ◌>>=◌, ◌>>◌, Error,
  ok_or, fail_if, ltb, leb, ◌&&◌, if◌then◌else◌,
}
use feeless.Common.Text.{decimal}
use feeless.Units.Raw.{max}

-- `Display`: `u128::MAX` has 39 digits.
unfoldable pub to_string : ℕ → List ℕ
to_string amount = decimal 39 amount

unfoldable pub digit : ℕ → Option ℕ
digit c = if leb 48 c && leb c 57 then some (c - 48) else none

-- One more digit, with the checks of `checked_mul` and `checked_add`.
unfoldable pub push_digit : ℕ → ℕ → Result ℕ
push_digit c amount = do
  d ← ok_or (digit c) Error.parse_int_error
  fail_if (ltb max (amount * 10)) Error.parse_int_error
  fail_if (ltb max (amount * 10 + d)) Error.parse_int_error
  ok (amount * 10 + d)

unfoldable pub parse_digits : ℕ → List ℕ → Result ℕ
parse_digits amount [] = ok amount
parse_digits amount (c ∷ cs) = do next ← push_digit c amount; parse_digits next cs

-- What follows a sign has a digit.
unfoldable pub parse_signed : List ℕ → Result ℕ
parse_signed [] = err Error.parse_int_error
parse_signed (c ∷ cs) = parse_digits 0 (c ∷ cs)

-- `FromStr`: `u128::from_str` allows a plus sign in front.
unfoldable pub from_str : List ℕ → Result ℕ
from_str [] = err Error.parse_int_error
from_str (c ∷ cs) = if c == 43 then parse_signed cs else parse_digits 0 (c ∷ cs)
