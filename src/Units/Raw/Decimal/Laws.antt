-- ===== src/Units/Raw/Decimal/Laws.antt =====
-- Reading the decimal text of a number as a `Raw`, within the range of a `u128` and above it.
use feeless.Common.{
  ℕ, zero, suc, ◌+◌, ◌*◌, ◌/◌, ◌%◌, ◌^◌, ◌<◌, ◌≤◌, ◌≡◌, refl, ap, sym, ◌∙◌, List, [], ◌∷◌, ◌++◌,
  Result, ok, err, panic, ◌>>=◌, Error, ltb, arith, >>=-assoc, if◌then◌else◌, ltb-false, lt→ltb,
  ne→==, Bool-cases, ltb→lt, inl, inr, ◌⊎◌,
}
use feeless.Common.Text.{decimal}
use feeless.Units.Raw.{IsRaw, max}
use feeless.Units.Raw.Decimal.{to_string, digit, push_digit, parse_digits, from_str}

-- A number as a `u128`, where it is one.
abbrev pub bounded : ℕ → Result ℕ
bounded n = if ltb max n then err Error.parse_int_error else ok n

>>=-ok : (m : Result ℕ) → (m >>= ok) ≡ m
>>=-ok (ok n) = refl
>>=-ok (err e) = refl
>>=-ok panic = refl

>>=-same : (m : Result ℕ) {f g : ℕ → Result ℕ} → ((n : ℕ) → f n ≡ g n) → (m >>= f) ≡ (m >>= g)
>>=-same (ok n) same = same n
>>=-same (err e) same = refl
>>=-same panic same = refl

parse_digits-append :
    (amount : ℕ) (xs : List ℕ) (c : ℕ)
    → parse_digits amount (xs ++ (c ∷ [])) ≡ (parse_digits amount xs >>= push_digit c)
unfolding parse_digits
parse_digits-append amount [] c = >>=-ok (push_digit c amount)
parse_digits-append amount (x ∷ xs) c =
    >>=-same (push_digit x amount) (λ next. parse_digits-append next xs c)
    ∙ sym (>>=-assoc (push_digit x amount) (λ next. parse_digits next xs) (push_digit c))

push_digit-bounded : (n : ℕ) → (bounded (n / 10) >>= push_digit (48 + n % 10)) ≡ bounded n
unfolding push_digit digit
push_digit-bounded n = ground arith

push_digit_one : (n : ℕ) → n < 10 → push_digit (48 + n % 10) 0 ≡ bounded n
unfolding push_digit digit
push_digit_one n h = ground arith

ten-cases : (n : ℕ) → (n < 10) ⊎ (10 ≤ n)
ten-cases n = elim (Bool-cases (ltb n 10)) [
  | inl e ↦ inl (ltb→lt n 10 e)
  | inr e ↦ inr (ground arith)
]

decimal_small : (fuel n : ℕ) → n < 10 → decimal (suc fuel) n ≡ (48 + n % 10) ∷ []
unfolding decimal
decimal_small fuel n h = rw (lt→ltb n 10 h) refl

decimal_large :
    (fuel n : ℕ) → 10 ≤ n → decimal (suc fuel) n ≡ decimal fuel (n / 10) ++ ((48 + n % 10) ∷ [])
unfolding decimal
decimal_large fuel n h = rw (ltb-false n 10 h) refl

decimal_none : (n : ℕ) → n < 1 → parse_digits 0 (decimal 0 n) ≡ bounded n
unfolding decimal parse_digits
decimal_none n h = ground arith

parse_digits-one : (n : ℕ) → n < 10 → parse_digits 0 ((48 + n % 10) ∷ []) ≡ bounded n
unfolding parse_digits
parse_digits-one n h = >>=-ok (push_digit (48 + n % 10) 0) ∙ push_digit_one n h

tenth_below : (p n : ℕ) → n < 10 * p → n / 10 < p
tenth_below p n h = omega arith

tenth_lt : (fuel n : ℕ) → n < 10 ^ suc fuel → n / 10 < 10 ^ fuel
tenth_lt fuel n h = tenth_below (10 ^ fuel) n (omega (arith, h))

parse_digits-decimal : (fuel n : ℕ) → n < 10 ^ fuel → parse_digits 0 (decimal fuel n) ≡ bounded n
parse_digits-decimal zero n h = decimal_none n h
parse_digits-decimal (suc fuel) n h = elim (ten-cases n) [
  | inl small ↦ rw (decimal_small fuel n small) (parse_digits-one n small)
  | inr large ↦ rw (decimal_large fuel n large) (
      parse_digits-append 0 (decimal fuel (n / 10)) (48 + n % 10)
      ∙ (rw (parse_digits-decimal fuel (n / 10) (tenth_lt fuel n h)) (push_digit-bounded n)))
]

decimal_one : (n : ℕ) → (c : ℕ) × (cs : List ℕ) × (decimal 1 n ≡ c ∷ cs) × (48 ≤ c)
unfolding decimal
decimal_one n = elim (Bool-cases (ltb n 10)) [
  | inl e ↦ (48 + n % 10, [], rw e refl, omega arith)
  | inr e ↦ (48 + n % 10, [], rw e refl, omega arith)
]

-- The text of a number starts with a digit.
decimal-head : (fuel n : ℕ) → (c : ℕ) × (cs : List ℕ) × (decimal (suc fuel) n ≡ c ∷ cs) × (48 ≤ c)
decimal-head zero n = decimal_one n
decimal-head (suc fuel) n = elim (ten-cases n) [
  | inl small ↦ (48 + n % 10, [], decimal_small (suc fuel) n small, omega arith)
  | inr large ↦
      (let (c, cs, e, bound) = decimal-head fuel (n / 10) in
        (
          c,
          cs ++ ((48 + n % 10) ∷ []),
          (decimal_large (suc fuel) n large ∙ ap (λ text. text ++ ((48 + n % 10) ∷ [])) e),
          bound,
        ))
]

from_str-digits : (s cs : List ℕ) (c : ℕ) → s ≡ c ∷ cs → 48 ≤ c → from_str s ≡ parse_digits 0 s
unfolding from_str
from_str-digits s cs c e h = rw e (rw (ne→== c 43 (omega arith)) refl)

pub from_str-decimal :
    (fuel n : ℕ) → n < 10 ^ suc fuel → from_str (decimal (suc fuel) n) ≡ bounded n
from_str-decimal fuel n h =
    let (c, cs, e, bound) = decimal-head fuel n in
    from_str-digits (decimal (suc fuel) n) cs c e bound ∙ parse_digits-decimal (suc fuel) n h

-- The decimal text of an amount, of at most 39 digits, reads back as the amount, and the decimal
-- text of any larger number, with all its digits, is a parse error.
pub from_str_lem :
    (amount large digits : ℕ)
    → IsRaw amount
    → max < large
    → large < 10 ^ suc digits
    → (from_str (to_string amount) ≡ ok amount)
      × (from_str (decimal (suc digits) large) ≡ err Error.parse_int_error)
unfolding to_string
from_str_lem amount large digits h above short = (
  from_str-decimal 38 amount (omega arith) ∙ rw (ltb-false max amount (omega arith)) refl,
  from_str-decimal digits large short ∙ rw (lt→ltb max large above) refl,
)
