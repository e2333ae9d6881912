-- ===== src/Tests/Decimals.antt =====
-- Fractions as a stand-in for the crate `bigdecimal`, and examples of amounts and denominations.
use feeless.Common.{
  ℕ, zero, suc, ◌+◌, ◌*◌, ◌/◌, ◌^◌, ◌<◌, ◌≡◌, refl, ap, sym, ◌∙◌, ◌==◌, List, [], ◌∷◌, Option, none,
  some, Result, ok, err, panic, ◌>>=◌, if◌then◌else◌, ne→==, arith,
}
use feeless.Common.Text.{decimal}
use feeless.Units.Raw.{IsRaw}
use feeless.Units.Raw.Decimal
use feeless.Units.Raw.Decimal.Laws.{from_str_lem}
use feeless.Units.Unit.{BigDecimal, to_raw, from_raw, mnano}
use feeless.Units.Unit.Laws.{
  into_mnano, into_nano, into_unbounded_raw, to_raw_lem, from_raw-convert, convert_all,
}
use native.Mathlib.Nat.{
  eq_of_mul-eq-mul_right, mul-div-mul_left, mul-div-mul_right, mul-pos, mul_comm,
}

record Fraction : Type 0 where
  num : ℕ
  den : ℕ

Denotes : Fraction → ℕ → ℕ → Type 0
Denotes d m k = (0 < d.den) × (d.num * 10 ^ k ≡ m * d.den)

power_pos : (j : ℕ) → 0 < 10 ^ j
power_pos zero = omega arith
power_pos (suc j) = let h = power_pos j in omega (arith, h)

power_add : (k j : ℕ) → 10 ^ (k + j) ≡ 10 ^ k * 10 ^ j
power_add k zero = grind arith
power_add k (suc j) =
    let step : k + suc j ≡ suc (k + j) = omega arith in
    let next : 10 ^ suc j ≡ 10 * 10 ^ j = omega arith in
    ap (λ t. 10 ^ t) step
    ∙ omega (arith, ap (λ t. 10 * t) (power_add k j), ap (λ t. 10 ^ k * t) next)

power_above : (n : ℕ) → n < 10 ^ suc n
power_above zero = omega arith
power_above (suc n) = let h = power_above n in omega (arith, h)

Denotes-shorten :
    (d : Fraction) (m k j l : ℕ) → l ≡ k + j → Denotes d (m * 10 ^ j) l → Denotes d m k
unfolding Denotes
Denotes-shorten d m k j l e (positive, same) = (
  positive,
  eq_of_mul-eq-mul_right (10 ^ j) (power_pos j) (d.num * 10 ^ k) (m * d.den)
      (omega (arith, same, ap (λ t. d.num * t) (ap (λ t. 10 ^ t) e ∙ power_add k j))),
)

product : Fraction → Fraction → Fraction
product a b = record { num = a.num * b.num; den = a.den * b.den }

product-Denotes :
    (a b : Fraction) (m n k : ℕ) → Denotes a m k → Denotes b n 0 → Denotes (product a b) (m * n) k
unfolding Denotes product
product-Denotes a b m n k (pos_a, same_a) (pos_b, same_b) =
    (mul-pos pos_a pos_b, omega (arith, ap (λ t. t * b.num) same_a, ap (λ t. m * a.den * t) same_b))

quotient : Fraction → Fraction → Result Fraction
quotient a b =
    if b.num == 0 then panic else ok (record { num = a.num * b.den; den = a.den * b.num })

quotient-Denotes :
    (a b : Fraction) (m k j l : ℕ)
    → l ≡ k + j
    → m < 10 ^ 99
    → Denotes a m k
    → Denotes b (10 ^ j) 0
    → (q : Fraction) × (quotient a b ≡ ok q) × Denotes q m l
unfolding Denotes quotient
quotient-Denotes a b m k j l e small (pos_a, same_a) (pos_b, same_b) =
    let positive : 0 < b.num = omega (arith, mul-pos (power_pos j) pos_b, same_b) in
    (
      record { num = a.num * b.den; den = a.den * b.num },
      rw (ne→== b.num 0 (omega arith)) refl,
      (
        mul-pos pos_a positive,
        omega (
          arith,
          ap (λ t. t * (b.den * 10 ^ j)) same_a,
          ap (λ t. m * a.den * t) same_b,
          ap (λ t. a.num * b.den * t) (ap (λ t. 10 ^ t) e ∙ power_add k j),
        ),
      ),
    )

parse : Result ℕ → Option Fraction
parse (ok n) = some (record { num = n; den = 1 })
parse (err e) = none
parse panic = none

from_text :
    (n : ℕ)
    → IsRaw n
    → parse (Decimal.from_str (Decimal.to_string n)) ≡ some (record { num = n; den = 1 })
unfolding parse
from_text n small = rw (from_str_lem n (2 ^ 128) 38 small (omega arith) (omega arith)).0 refl

parse-Denotes :
    (n : ℕ)
    → IsRaw n
    → (d : Fraction) × (parse (Decimal.from_str (Decimal.to_string n)) ≡ some d) × Denotes d n 0
unfolding Denotes parse
parse-Denotes n small = (record { num = n; den = 1 }, from_text n small, (omega arith, omega arith))

whole : ℕ → Fraction → Fraction
whole scale d = record { num = d.num / d.den; den = 1 }

spell : Fraction → List ℕ
spell d = decimal (suc (d.num / d.den)) (d.num / d.den)

cut : (d : Fraction) (m k : ℕ) → Denotes d m k → d.num / d.den ≡ m / 10 ^ k
unfolding Denotes
cut d m k (positive, same) =
    sym (mul-div-mul_right d.num d.den (power_pos k))
    ∙ (ap (λ t. t / (d.den * 10 ^ k)) (same ∙ mul_comm m d.den)
        ∙ mul-div-mul_left m (10 ^ k) positive)

spell-whole :
    (a : Fraction) (m k : ℕ)
    → Denotes a m k
    → (digits : ℕ) × (m / 10 ^ k < 10 ^ suc digits)
      × (spell (whole 0 a) ≡ decimal (suc digits) (m / 10 ^ k))
unfolding spell whole
spell-whole a m k h =
    (m / 10 ^ k, power_above (m / 10 ^ k), ap (λ t. decimal (suc t) t) (omega (arith, cut a m k h)))

abbrev fractions : BigDecimal Fraction
fractions = record {
  from_str = λ s. parse (Decimal.from_str s);
  to_string = spell;
  with_scale = whole;
  mul = product;
  div = quotient;
  Denotes = Denotes;
  Denotes-shorten = Denotes-shorten;
  from_str-Denotes = parse-Denotes;
  mul-Denotes = product-Denotes;
  div-Denotes = quotient-Denotes;
  to_string-whole = spell-whole;
}

abbrev half : Fraction
half = record { num = 1; den = 2 }

half_mnano : Denotes half 5 1
unfolding Denotes
half_mnano = (omega arith, refl)

to_raw_lem_example : to_raw fractions mnano half ≡ ok (5 * 10 ^ 29)
to_raw_lem_example = to_raw_lem fractions mnano 5 1 half (omega arith) half_mnano

from_raw-convert_example :
    (from_raw fractions mnano 12
      >>= convert_all fractions (into_nano ∷ into_unbounded_raw ∷ []) mnano)
    ≡ ok 12
from_raw-convert_example =
    from_raw-convert fractions into_mnano (into_nano ∷ into_unbounded_raw ∷ []) 12 (omega arith)
