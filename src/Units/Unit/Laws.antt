-- ===== src/Units/Unit/Laws.antt =====
-- Conversions between the denominations, and into `Raw` with its bounds.
use feeless.Common.{
  ℕ, ◌+◌, ◌*◌, ◌/◌, ◌^◌, ◌<◌, ◌≤◌, ◌≡◌, refl, ap, ◌∙◌, List, [], ◌∷◌, Result, ok, err, ◌>>=◌, Error,
  ltb, ltb-false, if◌then◌else◌, arith,
}
use feeless.Units.Raw.{IsRaw, max}
use feeless.Units.Raw.Decimal.Laws.{bounded, from_str-decimal}
use feeless.Units.Unit.{
  BigDecimal, mnano, nano, unbounded_raw, lazy_multiplier, new_with_raw, to_raw_big_decimal,
  raw_try_from, to_raw, to_unbounded_raw, to_mnano, to_nano, from_raw,
}
use native.Mathlib.Nat.{pow-le-pow_right}

power-IsRaw : (exponent : ℕ) → exponent ≤ 30 → IsRaw (10 ^ exponent)
power-IsRaw exponent h =
    omega (arith, pow-le-pow_right {n = 10} (omega arith) {i = exponent} {j = 30} h)

-- A call of one of the conversions of the macro.
pub data Conversion : Type 0 where
  into_mnano into_nano into_unbounded_raw : Conversion

abbrev pub exponent_of : Conversion → ℕ
exponent_of into_mnano = mnano
exponent_of into_nano = nano
exponent_of into_unbounded_raw = unbounded_raw

module _ {D : Type 0} (big : BigDecimal D) where
  lazy_multiplier_lem :
      (exponent : ℕ)
      → exponent ≤ 30
      → (d : D) × (lazy_multiplier big exponent ≡ ok d) × big.Denotes d (10 ^ exponent) 0
  unfolding lazy_multiplier
  lazy_multiplier_lem exponent h =
      let (d, e, denotes) = big.from_str-Denotes (10 ^ exponent) (power-IsRaw exponent h) in
      (d, rw e refl, denotes)

  pub to_raw_big_decimal_lem :
      (exponent m k : ℕ) (v : D)
      → exponent ≤ 30
      → big.Denotes v m k
      → (d : D) × (to_raw_big_decimal big exponent v ≡ ok d) × big.Denotes d (m * 10 ^ exponent) k
  unfolding to_raw_big_decimal
  to_raw_big_decimal_lem exponent m k v h denotes =
      let (d, e, power) = lazy_multiplier_lem exponent h in
      (big.mul v d, rw e refl, big.mul-Denotes v d m (10 ^ exponent) k denotes power)

  pub new_with_raw_lem :
      (exponent m k l : ℕ) (raw : D)
      → exponent ≤ 30
      → l ≡ k + exponent
      → m < 10 ^ 99
      → big.Denotes raw m k
      → (v : D) × (new_with_raw big exponent raw ≡ ok v) × big.Denotes v m l
  unfolding new_with_raw
  new_with_raw_lem exponent m k l raw h e small denotes =
      let (d, read, power) = lazy_multiplier_lem exponent h in
      let (q, divided, exact) = big.div-Denotes raw d m k exponent l e small denotes power in
      (q, rw read divided, exact)

  raw_try_from_lem :
      (m k : ℕ) (v : D) → big.Denotes v m k → raw_try_from big v ≡ bounded (m / 10 ^ k)
  unfolding raw_try_from
  raw_try_from_lem m k v denotes =
      let (digits, short, e) = big.to_string-whole v m k denotes in
      rw e (from_str-decimal digits (m / 10 ^ k) short)

  -- The amount that a decimal of a denomination is in `Raw`: its fraction of a raw is dropped, and it is
  -- a parse error where it is more than the maximum.
  pub to_raw_lem :
      (exponent m k : ℕ) (v : D)
      → exponent ≤ 30
      → big.Denotes v m k
      → to_raw big exponent v ≡ (
          if ltb max (m * 10 ^ exponent / 10 ^ k)
          then err Error.parse_int_error
          else ok (m * 10 ^ exponent / 10 ^ k))
  unfolding to_raw
  to_raw_lem exponent m k v h denotes =
      let (d, e, product) = to_raw_big_decimal_lem exponent m k v h denotes in
      rw e (raw_try_from_lem (m * 10 ^ exponent) k d product)

  abbrev pub convert : Conversion → ℕ → D → Result D
  convert into_mnano exponent v = to_mnano big exponent v
  convert into_nano exponent v = to_nano big exponent v
  convert into_unbounded_raw exponent v = to_unbounded_raw big exponent v

  unfoldable pub convert_all : List Conversion → ℕ → D → Result ℕ
  convert_all [] exponent v = to_raw big exponent v
  convert_all (c ∷ cs) exponent v = do
    converted ← convert c exponent v
    convert_all cs (exponent_of c) converted

  whole_lem :
      (exponent amount : ℕ) (v : D)
      → exponent ≤ 30
      → big.Denotes v amount exponent
      → (raw : D) × (to_raw_big_decimal big exponent v ≡ ok raw) × big.Denotes raw amount 0
  whole_lem exponent amount v h denotes =
      let (raw, e, product) = to_raw_big_decimal_lem exponent amount exponent v h denotes in
      (raw, e, big.Denotes-shorten raw amount 0 exponent exponent (omega arith) product)

  exponent_small : (c : Conversion) → exponent_of c ≤ 30
  exponent_small into_mnano = omega arith
  exponent_small into_nano = omega arith
  exponent_small into_unbounded_raw = omega arith

  convert_lem :
      (c : Conversion) (exponent amount : ℕ) (v : D)
      → exponent ≤ 30
      → IsRaw amount
      → big.Denotes v amount exponent
      → (w : D) × (convert c exponent v ≡ ok w) × big.Denotes w amount (exponent_of c)
  unfolding to_mnano to_nano to_unbounded_raw
  convert_lem into_unbounded_raw exponent amount v h small denotes =
      whole_lem exponent amount v h denotes
  convert_lem into_mnano exponent amount v h small denotes =
      let (raw, e, whole) = whole_lem exponent amount v h denotes in
      let (w, made, exact) =
        new_with_raw_lem mnano amount 0 mnano raw (omega arith) (omega arith) (omega arith) whole in
      (w, rw e made, exact)
  convert_lem into_nano exponent amount v h small denotes =
      let (raw, e, whole) = whole_lem exponent amount v h denotes in
      let (w, made, exact) =
        new_with_raw_lem nano amount 0 nano raw (omega arith) (omega arith) (omega arith) whole in
      (w, rw e made, exact)

  convert_all_lem :
      (cs : List Conversion) (exponent amount : ℕ) (v : D)
      → exponent ≤ 30
      → IsRaw amount
      → big.Denotes v amount exponent
      → convert_all cs exponent v ≡ ok amount
  unfolding convert_all to_raw
  convert_all_lem [] exponent amount v h small denotes =
      let (raw, e, whole) = whole_lem exponent amount v h denotes in
      rw e (
        raw_try_from_lem amount 0 raw whole
        ∙ rw (ltb-false max (amount / 1) (omega arith)) (ap ok (omega arith)))
  convert_all_lem (c ∷ cs) exponent amount v h small denotes =
      let (w, e, exact) = convert_lem c exponent amount v h small denotes in
      rw e (convert_all_lem cs (exponent_of c) amount w (exponent_small c) small exact)

  -- An amount that is made a decimal of a denomination and taken through any conversions between the
  -- denominations comes back as the same amount.
  pub from_raw-convert :
      (first : Conversion) (cs : List Conversion) (amount : ℕ)
      → IsRaw amount
      → (from_raw big (exponent_of first) amount >>= convert_all cs (exponent_of first)) ≡ ok amount
  unfolding from_raw new_with_raw
  from_raw-convert first cs amount small =
      let (d, e, denotes) = big.from_str-Denotes amount small in
      let (v, made, exact) =
        new_with_raw_lem (exponent_of first) amount 0 (exponent_of first) d (exponent_small first)
          (omega arith) (omega arith) denotes in
      rw e (
        rw made
          (convert_all_lem cs (exponent_of first) amount v (exponent_small first) small exact))
