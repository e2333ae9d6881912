-- ===== src/Cli/Units.antt =====
-- src/cli/unit.rs: conversion of an amount between the denominations.
use feeless.Common.{ℕ, ◌+◌, ◌*◌, ◌^◌, ◌<◌, ◌≤◌, ◌≡◌, List, some, Result, ok, ◌>>=◌, refl, arith}
use feeless.Cli.{StringOrStdin, string, resolve, println}
use feeless.Units.Unit.{
  BigDecimal, mnano, nano, unbounded_raw, from_str, to_unbounded_raw, to_nano, to_mnano,
}
use feeless.Units.Unit.Laws.{to_raw_big_decimal_lem, new_with_raw_lem}

-- `enum SrcUnit`, and `enum DstCommand` with its amount.
pub data Denomination : Type 0 where
  raw_unit nano_unit mnano_unit : Denomination

-- The exponent of the type that the macro of a source names.
abbrev pub source_exponent : Denomination → ℕ
source_exponent raw_unit = unbounded_raw
source_exponent nano_unit = nano
source_exponent mnano_unit = mnano

module _ {D : Type 0} (big : BigDecimal D) where
  -- The method that a destination calls.
  unfoldable pub convert_to : Denomination → ℕ → D → Result D
  convert_to raw_unit exponent v = to_unbounded_raw big exponent v
  convert_to nano_unit exponent v = to_nano big exponent v
  convert_to mnano_unit exponent v = to_mnano big exponent v

  unfoldable pub handle :
      List ℕ → Denomination → Denomination → StringOrStdin (List ℕ) → Result (List ℕ)
  unfolding convert_to resolve println
  handle input src dst amount = do
    text ← resolve ok input amount
    v ← from_str big text
    converted ← convert_to dst (source_exponent src) v
    ok (println (big.to_string converted))

  -- The scale at which the converted amount stands.
  abbrev pub scale_of : Denomination → ℕ → ℕ
  scale_of raw_unit k = k
  scale_of nano_unit k = k + nano
  scale_of mnano_unit k = k + mnano

  small_source : (src : Denomination) → source_exponent src ≤ 30
  small_source raw_unit = omega arith
  small_source nano_unit = omega arith
  small_source mnano_unit = omega arith

  convert_to_lem :
      (src dst : Denomination) (m k : ℕ) (v : D)
      → big.Denotes v m k
      → m * 10 ^ source_exponent src < 10 ^ 99
      → (w : D) × (convert_to dst (source_exponent src) v ≡ ok w)
        × big.Denotes w (m * 10 ^ source_exponent src) (scale_of dst k)
  unfolding convert_to to_unbounded_raw to_nano to_mnano
  convert_to_lem src raw_unit m k v denotes small =
      to_raw_big_decimal_lem big (source_exponent src) m k v (small_source src) denotes
  convert_to_lem src nano_unit m k v denotes small =
      let (raw, made, whole) =
        to_raw_big_decimal_lem big (source_exponent src) m k v (small_source src) denotes in
      let (w, divided, exact) =
        new_with_raw_lem big nano (m * 10 ^ source_exponent src) k (k + nano) raw (omega arith) refl
          small whole in
      (w, rw made divided, exact)
  convert_to_lem src mnano_unit m k v denotes small =
      let (raw, made, whole) =
        to_raw_big_decimal_lem big (source_exponent src) m k v (small_source src) denotes in
      let (w, divided, exact) =
        new_with_raw_lem big mnano (m * 10 ^ source_exponent src) k (k + mnano) raw (omega arith)
          refl small whole in
      (w, rw made divided, exact)

  -- An amount that is read as a decimal is printed as a decimal of the same value: that of its number
  -- of raw at the scale of the destination.
  pub handle_lem :
      (input text : List ℕ) (src dst : Denomination) (m k : ℕ) (v : D)
      → big.from_str text ≡ some v
      → big.Denotes v m k
      → m * 10 ^ source_exponent src < 10 ^ 99
      → (w : D) × (handle input src dst (string text) ≡ ok (println (big.to_string w)))
        × big.Denotes w (m * 10 ^ source_exponent src) (scale_of dst k)
  unfolding handle from_str resolve
  handle_lem input text src dst m k v e denotes small =
      let (w, made, exact) = convert_to_lem src dst m k v denotes small in
      (w, rw e (rw made refl), exact)
