-- ===== src/Keys/Address/Canonical.antt =====
-- The texts that `from_str` accepts.
use feeless.Common.{
  ℕ, ◌-◌, ◌*◌, ◌≡◌, refl, sym, ap, ◌∙◌, Bool, true, false, List, [], ◌∷◌, ◌++◌, ok, ◌>>=◌,
  >>=-eq-ok, Error, length, take, drop, arith, Bool-cases, inl, inr, some, ◌==◌, length-take,
  length-drop, take-append-drop, drop-drop, take_all, fail_if, not,
}
use feeless.Common.Maps.{list_eq→eq}
use feeless.Common.Text.{codes}
use feeless.Crypto.{Blake2b}
use feeless.Bytes.{slice_range}
use feeless.Bytes.Reader.{array}
use feeless.Encoding.{alphabet, find, view_bits, encode_nano_base_32, decode_nano_base_32}
use feeless.Encoding.Base32.{encode-decode, decode_cons, length-decode}
use feeless.Encoding.Bits.{into_vec, into_vec_whole}
use feeless.Keys.Public.{checksum}
use feeless.Keys.Address.{
  prefix, from_public, extract_public_key, validate_checksum, is_match, from_str, one_of, all_of,
}
use feeless.Keys.Address.Shape.{padded}

is_match-inv :
    (s : List ℕ)
    → is_match s ≡ true
    → (take 5 s ≡ prefix) × (length s ≡ 65) × (all_of (codes "13") (take 1 (drop 5 s)) ≡ true)
unfolding is_match
is_match-inv s h = ground (arith, list_eq→eq (take 5 s) prefix)

array-inv : (n : ℕ) (v w : List ℕ) → array n v ≡ ok w → (w ≡ v) × (length v ≡ n)
unfolding array
array-inv n v w h = ground arith

slice_range-inv :
    (s : List ℕ) (a b : ℕ) (r : List ℕ) → slice_range s a b ≡ ok r → r ≡ take (b - a) (drop a s)
unfolding slice_range
slice_range-inv s a b r h = ground arith

extract-inv :
    (s public : List ℕ)
    → extract_public_key s ≡ ok public
    → (bits : List Bool) × (decode_nano_base_32 (take 52 (drop 5 s)) ≡ ok bits)
      × (public ≡ into_vec (drop 4 bits))
unfolding extract_public_key
extract-inv s public h =
    let (part, cut, rest) = >>=-eq-ok (slice_range s 5 57) _ h in
    let (bits, decoded, fits) = >>=-eq-ok (decode_nano_base_32 part) _ rest in
    let (same, long) = array-inv 32 (into_vec (drop 4 bits)) public fits in
    (bits, rw (← slice_range-inv s 5 57 part cut) decoded, same)

fail_if-inv : (c : Bool) (e : Error) → fail_if c e ≡ ok tt → c ≡ false
fail_if-inv true e h = cc
fail_if-inv false e h = refl

not-inv : (b : Bool) → not b ≡ false → b ≡ true
not-inv true h = refl
not-inv false h = cc

validate-inv :
    (h : Blake2b) (s public : List ℕ)
    → length s ≡ 65
    → validate_checksum h s public ≡ ok tt
    → checksum h public ≡ ok (drop 57 s)
unfolding validate_checksum
validate-inv h s public n e =
    let (expected, cut, rest) = >>=-eq-ok (slice_range s 57 (length s)) _ e in
    let (sum, made, equal) = >>=-eq-ok (checksum h public) _ rest in
    let same = list_eq→eq sum expected (not-inv _ (fail_if-inv _ _ equal)) in
    let all : take (length s - 57) (drop 57 s) ≡ drop 57 s =
      take_all (length s - 57) (drop 57 s) (omega (arith, length-drop 57 s)) in
    made ∙ ap ok (same ∙ slice_range-inv s 57 (length s) expected cut ∙ all)

-- The digits 1 and 3 stand for four zeros and one bit.
leading_digit :
    (c v : ℕ) (tail : List Bool)
    → one_of (codes "13") c ≡ true
    → find c alphabet ≡ some v
    → (b : Bool) × (view_bits v ++ tail ≡ false ∷ false ∷ false ∷ false ∷ b ∷ tail)
unfolding one_of find view_bits
leading_digit c v tail h e = elim (Bool-cases (c == b'1')) [
  | inl one ↦
      let c1 : c ≡ b'1' = ground arith in let v0 : v ≡ 0 = ground (arith, c1) in (false, rw v0)
  | inr other ↦
      let c3 : c ≡ b'3' = ground arith in let v1 : v ≡ 1 = ground (arith, c3) in (true, rw v1)
]

-- 52 characters of which the first is 1 or 3 decode to four zeros and the bits of a key.
leading_zeros :
    (part : List ℕ) (bits : List Bool)
    → decode_nano_base_32 part ≡ ok bits
    → length part ≡ 52
    → all_of (codes "13") (take 1 part) ≡ true
    → false ∷ false ∷ false ∷ false ∷ drop 4 bits ≡ bits
unfolding all_of
leading_zeros [] bits h n e = absurd (omega arith)
leading_zeros (c ∷ part) bits h n e =
    let (v, tail, found, decoded, whole) = decode_cons c part bits h in
    let (b, zeros) = leading_digit c v tail (ground (arith, e)) found in
    let shape = whole ∙ zeros in
    ap (λ (t : List Bool). false ∷ false ∷ false ∷ false ∷ drop 4 t) shape ∙ sym shape

-- The key part is the encoding of the key, and the key is 32 bytes.
key_part :
    (part public : List ℕ) (bits : List Bool)
    → decode_nano_base_32 part ≡ ok bits
    → length part ≡ 52
    → all_of (codes "13") (take 1 part) ≡ true
    → public ≡ into_vec (drop 4 bits)
    → encode_nano_base_32 (padded public) ≡ ok part
key_part part public bits h n e p =
    let zeros = leading_zeros part bits h n e in
    let long : length (drop 4 bits) ≡ 8 * 32 =
      omega (arith, length-drop 4 bits, length-decode part bits h) in
    let (same, size, small) = into_vec_whole 32 (drop 4 bits) long in
    ap (λ (q : List ℕ). encode_nano_base_32 (padded q)) p
    ∙ ap (λ (t : List Bool). encode_nano_base_32 (false ∷ false ∷ false ∷ false ∷ t)) same
    ∙ ap encode_nano_base_32 zeros
    ∙ encode-decode part bits h

take-take_one : (part : List ℕ) → take 1 (take 52 part) ≡ take 1 part
take-take_one [] = refl
take-take_one (c ∷ part) = refl

three_parts : (s : List ℕ) → take 5 s ≡ prefix → prefix ++ (take 52 (drop 5 s) ++ drop 57 s) ≡ s
three_parts s e =
    ap (λ (t : List ℕ). prefix ++ (take 52 (drop 5 s) ++ t)) (sym (drop-drop 5 52 s))
    ∙ ap (λ (t : List ℕ). prefix ++ t) (take-append-drop 52 (drop 5 s))
    ∙ ap (λ (t : List ℕ). t ++ drop 5 s) (sym e)
    ∙ take-append-drop 5 s

-- A text that `from_str` accepts is the text of the address of the key that is read from it, so no
-- two texts are accepted for one key.
pub from_public-from_str :
    (h : Blake2b) (s address : List ℕ)
    → from_str h s ≡ ok address
    → (public : List ℕ) × (address ≡ s)
      × (extract_public_key s ≡ ok public)
      × (from_public h public ≡ ok s)
unfolding from_str from_public
from_public-from_str h s address e =
    let (u, matched, rest) = >>=-eq-ok (fail_if (not (is_match s)) Error.invalid_address) _ e in
    let (public, extracted, rest') = >>=-eq-ok (extract_public_key s) _ rest in
    let (w, valid, whole) = >>=-eq-ok (validate_checksum h s public) _ rest' in
    let (pre, n, first) = is_match-inv s (not-inv _ (fail_if-inv _ _ matched)) in
    let (bits, decoded, p) = extract-inv s public extracted in
    let long : length (take 52 (drop 5 s)) ≡ 52 =
      omega (arith, length-take 52 (drop 5 s), length-drop 5 s) in
    let made =
      key_part (take 52 (drop 5 s)) public bits decoded long (rw (take-take_one (drop 5 s)) first)
        p in
    let sum = validate-inv h s public n valid in
    (public, cc whole, extracted, rw (made, ◌>>=◌) (rw sum (ap ok (three_parts s pre))))
