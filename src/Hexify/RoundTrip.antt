-- ===== src/Hexify/RoundTrip.antt =====
-- The hexadecimal forms of a newtype.
use feeless.Common.{
  ℕ, ◌+◌, ◌*◌, ◌/◌, ◌%◌, ◌≡◌, ◌≢◌, refl, ap, ◌∙◌, List, [], ◌∷◌, some, ok, err, Error, length,
  arith, eq→==, ne→==,
}
use feeless.Common.Words.{IsBytes}
use feeless.Encoding.{to_hex, to_hex_lower}
use feeless.Hexify.{Hex, as_hex, as_hex_lower, from_str}

pub length-to_hex : (bytes : List ℕ) → length (to_hex bytes) ≡ length bytes * 2
unfolding to_hex
length-to_hex [] = omega arith
length-to_hex (b ∷ bytes) = omega (arith, length-to_hex bytes)

length-to_hex_lower : (bytes : List ℕ) → length (to_hex_lower bytes) ≡ length bytes * 2
unfolding to_hex_lower
length-to_hex_lower [] = omega arith
length-to_hex_lower (b ∷ bytes) = omega (arith, length-to_hex_lower bytes)

module _ (x : Hex) where
  pub decode-to_hex : (bytes : List ℕ) → IsBytes bytes → x.decode (to_hex bytes) ≡ some bytes
  unfolding to_hex
  decode-to_hex [] h = x.decode-nil
  decode-to_hex (b ∷ bytes) (hb, h) =
      let whole : 16 * (b / 16) + b % 16 ≡ b = omega arith in
      x.decode_upper (b / 16) (b % 16) (to_hex bytes) bytes (omega arith) (omega arith)
        (decode-to_hex bytes h)
      ∙ ap (λ (c : ℕ). some (c ∷ bytes)) whole

  decode-to_hex_lower :
      (bytes : List ℕ) → IsBytes bytes → x.decode (to_hex_lower bytes) ≡ some bytes
  unfolding to_hex_lower
  decode-to_hex_lower [] h = x.decode-nil
  decode-to_hex_lower (b ∷ bytes) (hb, h) =
      let whole : 16 * (b / 16) + b % 16 ≡ b = omega arith in
      x.decode_lower (b / 16) (b % 16) (to_hex_lower bytes) bytes (omega arith) (omega arith)
        (decode-to_hex_lower bytes h)
      ∙ ap (λ (c : ℕ). some (c ∷ bytes)) whole

  pub from_str_decoded :
      (s bytes : List ℕ)
      → x.decode s ≡ some bytes
      → length s ≡ length bytes * 2
      → from_str x (length bytes) s ≡ ok bytes
  unfolding from_str
  from_str_decoded s bytes d n = rw (eq→== _ _ n) (rw d (rw (eq→== (length bytes) _ refl)))

  -- `from_str` reads the upper-case and the lower-case form of a newtype back, and refuses every
  -- text of another length than its `LEN` says.
  pub from_str-as_hex :
      (bytes s : List ℕ)
      → IsBytes bytes
      → length s ≢ length bytes * 2
      → (from_str x (length bytes) (as_hex bytes) ≡ ok bytes)
        × (from_str x (length bytes) (as_hex_lower bytes) ≡ ok bytes)
        × (from_str x (length bytes) s ≡ err (Error.wrong_length (length bytes * 2) (length s)))
  unfolding from_str
  from_str-as_hex bytes s h n = (
    from_str_decoded (to_hex bytes) bytes (decode-to_hex bytes h) (length-to_hex bytes),
    from_str_decoded (to_hex_lower bytes) bytes (decode-to_hex_lower bytes h)
        (length-to_hex_lower bytes),
    rw (ne→== _ _ n),
  )
