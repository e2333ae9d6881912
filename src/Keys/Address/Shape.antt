-- ===== src/Keys/Address/Shape.antt =====
-- The text of an address is a prefix of 5 characters, 52 for the key and 8 for the checksum, and it
-- matches the pattern that `from_str` asks for.
use feeless.Common.{
  ℕ, suc, ◌+◌, ◌-◌, ◌≤◌, ◌<◌, ◌≡◌, refl, sym, ap, ◌∙◌, Bool, true, false, List, [], ◌∷◌, ◌++◌, some,
  ok, ◌>>=◌, length, length-append, arith, ltb-false, ◌==◌, reverse, Bool-cases, inl, inr,
  Option-cases, ltb, take_append, drop_append,
}
use feeless.Common.Words.{length-reverse}
use feeless.Common.Maps.{list_eq}
use feeless.Common.Text.{codes}
use feeless.Crypto.{Blake2b}
use feeless.Bytes.{slice_range}
use feeless.Encoding.{alphabet, find, view_bits, encode_nano_base_32, decode_nano_base_32}
use feeless.Encoding.Base32.{encode-Encodes, decode_cons, char_of-find, char_of}
use feeless.Encoding.Bits.{from_raw_slice, length-from_raw_slice}
use feeless.Keys.Public.{checksum}
use feeless.Keys.Address.{prefix, from_public, one_of, all_of, is_match}

-- `&s[a..b]` of a text in three parts.
pub slice_range_middle :
    (a b c : List ℕ) → slice_range (a ++ (b ++ c)) (length a) (length a + length b) ≡ ok b
unfolding slice_range
slice_range_middle a b c =
    let p : length a + length b ≤ length (a ++ (b ++ c)) =
      omega (arith, length-append a (b ++ c), length-append b c) in
    let e : length a + length b - length a ≡ length b = omega arith in
    rw (ltb-false (length a + length b) (length a) (omega arith)) (
      rw (ltb-false (length (a ++ (b ++ c))) (length a + length b) p)
        (rw (drop_append a (b ++ c)) (rw e (rw (take_append b c)))))

-- A checksum is 8 characters.
checksum_ok :
    (h : Blake2b) (public : List ℕ)
    → (s : List ℕ) × (checksum h public ≡ ok s)
      × (length s ≡ 8)
      × (bits : List Bool) × (decode_nano_base_32 s ≡ ok bits)
unfolding checksum
checksum_ok h public =
    let sum = reverse (h.blake2b 5 public) in
    let n : length (from_raw_slice sum) ≡ 40 = omega (
      arith,
      length-from_raw_slice sum,
      length-reverse (h.blake2b 5 public),
      h.length-blake2b 5 public,
    ) in
    let (s, (en, de, long)) = encode-Encodes (from_raw_slice sum) (omega arith) in
    (s, en, omega arith, from_raw_slice sum, de)

-- The bits that the key part encodes.
abbrev pub padded : List ℕ → List Bool
padded public = false ∷ false ∷ false ∷ false ∷ from_raw_slice public

key_part_ok :
    (public : List ℕ)
    → length public ≡ 32
    → (s : List ℕ) × (encode_nano_base_32 (padded public) ≡ ok s)
      × (decode_nano_base_32 s ≡ ok (padded public))
      × (length s ≡ 52)
key_part_ok public n =
    let m : length (from_raw_slice public) ≡ 256 = omega (arith, length-from_raw_slice public) in
    let (s, (en, de, long)) = encode-Encodes (padded public) (omega arith) in
    (s, en, de, omega arith)

one_of-find : (cs : List ℕ) (c v : ℕ) → find c cs ≡ some v → one_of cs c ≡ true
unfolding find one_of
one_of-find [] c v h = cc
one_of-find (x ∷ cs) c v h = elim (Bool-cases (x == c)) [
  | inl same ↦ rw same
  | inr other ↦ elim (Option-cases (find c cs)) [
    | inl missing ↦ ground (arith, missing)
    | inr (w, found) ↦ rw (one_of-find cs c w found) (ground arith)
  ]
]

-- What decodes is written in the alphabet.
all_of-decode :
    (s : List ℕ) (bits : List Bool) → decode_nano_base_32 s ≡ ok bits → all_of alphabet s ≡ true
unfolding all_of
all_of-decode [] bits h = refl
all_of-decode (c ∷ s) bits h =
    let (v, tail, found, decoded, whole) = decode_cons c s bits h in
    rw (one_of-find alphabet c v found) (all_of-decode s tail decoded)

all_of-append :
    (class s t : List ℕ)
    → all_of class s ≡ true
    → all_of class t ≡ true
    → all_of class (s ++ t) ≡ true
unfolding all_of
all_of-append class [] t hs ht = ht
all_of-append class (c ∷ s) t hs ht = ground (arith, all_of-append class s t)

-- The first character of a key part stands for four zeros and one bit of the key.
first_char :
    (c v : ℕ) (tail rest : List Bool)
    → v < 32
    → char_of v ≡ c
    → false ∷ false ∷ false ∷ false ∷ rest ≡ view_bits v ++ tail
    → one_of (codes "13") c ≡ true
unfolding view_bits one_of
first_char c v tail rest small e h = elim (Bool-cases (ltb v 2)) [
  | inl low ↦ elim (Bool-cases (v == 0)) [
    | inl is_zero ↦
        let z : v ≡ 0 = ground arith in
        let c0 : c ≡ b'1' = sym e ∙ ap char_of z ∙ (unfold char_of in refl) in rw c0
    | inr is_one ↦
        let z : v ≡ 1 = ground arith in
        let c1 : c ≡ b'3' = sym e ∙ ap char_of z ∙ (unfold char_of in refl) in rw c1
  ]
  | inr high ↦ absurd (ground arith)
]

abbrev padded_bits : List Bool → List Bool
padded_bits bits = false ∷ false ∷ false ∷ false ∷ bits

matches :
    (c : ℕ) (part sum : List ℕ)
    → one_of (codes "13") c ≡ true
    → all_of alphabet (part ++ sum) ≡ true
    → length (part ++ sum) ≡ 59
    → is_match (prefix ++ (c ∷ part ++ sum)) ≡ true
unfolding is_match all_of one_of list_eq
matches c part sum first rest n =
    let e : (suc (suc (suc (suc (suc (suc (length (part ++ sum)))))))) == 65 ≡ true =
      ground arith in
    rw e (rw rest (ground (arith, first)))

-- A key part that decodes to padded bits, and a checksum that decodes, make a text that matches.
is_match_parts :
    (part sum : List ℕ) (bits more : List Bool)
    → decode_nano_base_32 part ≡ ok (false ∷ false ∷ false ∷ false ∷ bits)
    → decode_nano_base_32 sum ≡ ok more
    → length part ≡ 52
    → length sum ≡ 8
    → is_match (prefix ++ (part ++ sum)) ≡ true
is_match_parts [] sum bits more dp ds np ns = absurd (omega arith)
is_match_parts (c ∷ part) sum bits more dp ds np ns =
    let (v, tail, found, decoded, whole) = decode_cons c part (padded_bits bits) dp in
    let (small, same) = char_of-find c v found in
    matches c part sum (first_char c v tail bits small same whole)
      (all_of-append alphabet part sum (all_of-decode part tail decoded)
        (all_of-decode sum more ds))
      (omega (arith, length-append part sum))

-- The text of the address of a key.
pub from_public_ok :
    (h : Blake2b) (public : List ℕ)
    → length public ≡ 32
    → (part : List ℕ) × (sum : List ℕ) × (from_public h public ≡ ok (prefix ++ (part ++ sum)))
      × (checksum h public ≡ ok sum)
      × (decode_nano_base_32 part ≡ ok (padded public))
      × (length part ≡ 52)
      × (length sum ≡ 8)
      × (is_match (prefix ++ (part ++ sum)) ≡ true)
unfolding from_public
from_public_ok h public n =
    let (part, en, de, np) = key_part_ok public n in
    let (sum, made, ns, more, ds) = checksum_ok h public in
    (
      part,
      sum,
      rw (en, ◌>>=◌) (rw made),
      made,
      de,
      np,
      ns,
      is_match_parts part sum (from_raw_slice public) more de ds np ns,
    )
