-- ===== src/Blocks/Link/Text.antt =====
-- src/blocks/mod.rs: the previous block as text.
use mathlib.Core.Option.{some-injective}
use feeless.Common.{
  ℕ, ◌≡◌, ◌∙◌, refl, ap, sym, true, Bool-cases, inl, inr, List, Result, ok, ◌>>=◌, length,
  replicate, if◌then◌else◌, arith, All-replicate,
}
use feeless.Common.Maps.{list_eq, list_eq_refl, list_eq→eq}
use feeless.Common.Words.{IsByte, IsBytes}
use feeless.Encoding.{to_hex}
use feeless.Hexify as Hexify
use feeless.Hexify.{Hex}
use feeless.Hexify.RoundTrip.{decode-to_hex, length-to_hex, from_str_decoded}
use feeless.Blocks.Link.{
  Previous, block, open_previous, block_hash_len, previous_try_from, is_all_zeros, zero_hash,
}
use feeless.Blocks.Link.Laws.{all_zeros, array_ok}

-- `FromStr for Previous`, on the bytes of the text.
unfoldable pub from_str : Hex → List ℕ → Result Previous
from_str x hex_string =
    if list_eq hex_string (replicate 64 48)
    then ok open_previous
    else (do hash ← Hexify.from_str x block_hash_len hex_string; ok (block hash))

to_hex-zeros : to_hex zero_hash ≡ replicate 64 48
unfolding to_hex
to_hex-zeros = refl

zero_digits :
    (x : Hex) (bytes : List ℕ) → IsBytes bytes → to_hex bytes ≡ replicate 64 48 → bytes ≡ zero_hash
zero_digits x bytes small e = some-injective _ _ (
    sym (decode-to_hex x bytes small)
    ∙ (ap x.decode (e ∙ sym to_hex-zeros)
        ∙ decode-to_hex x zero_hash (All-replicate IsByte 32 0 (omega arith))))

zeros_are_zeros : is_all_zeros zero_hash ≡ true
unfolding is_all_zeros
zeros_are_zeros = refl

-- The text of 32 bytes is read as the previous block that the bytes are read as.
from_str-to_hex :
    (x : Hex) (bytes : List ℕ)
    → length bytes ≡ 32
    → IsBytes bytes
    → from_str x (to_hex bytes) ≡ previous_try_from bytes
unfolding from_str previous_try_from
from_str-to_hex x bytes n small = elim (Bool-cases (is_all_zeros bytes)) [
  | inl zeros ↦
      let digits : to_hex bytes ≡ replicate 64 48 =
        ap to_hex (all_zeros 32 bytes n zeros) ∙ to_hex-zeros in
      rw (zeros, digits) (rw (list_eq_refl (replicate 64 48)) refl)
  | inr other ↦ elim (Bool-cases (list_eq (to_hex bytes) (replicate 64 48))) [
    | inl same ↦
        let empty = zero_digits x bytes small (list_eq→eq _ _ same) in
        absurd (cc (other, ap is_all_zeros empty, zeros_are_zeros))
    | inr apart ↦
        let read : Hexify.from_str x 32 (to_hex bytes) ≡ ok bytes = rw n at (
          from_str_decoded x (to_hex bytes) bytes (decode-to_hex x bytes small)
            (length-to_hex bytes)) in
        rw (other, apart) (rw (read, ◌>>=◌) (rw (array_ok 32 bytes n) refl))
  ]
]
