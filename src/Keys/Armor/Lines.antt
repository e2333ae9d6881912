-- ===== src/Keys/Armor/Lines.antt =====
-- The lines of an armoured message: texts whose characters are all seen.
use mathlib.Core.Path.{subst}
use mathlib.Core.List.{reverse_aux, reverse-reverse, reverse-append}
use feeless.Common.{
  ℕ, ◌/◌, ◌%◌, ◌<◌, ◌≡◌, ◌∙◌, refl, sym, Bool, true, false, ◌&&◌, not, List, [], ◌∷◌, ◌++◌, reverse,
  ok, ok_inj, ltb, ◌==◌, ==_iff, arith, length, Bool-cases, inl, inr,
}
use feeless.Common.Words.{IsBytes}
use feeless.Crypto.{Blake2b}
use feeless.Encoding.{alphabet, to_hex, hex_digit}
use feeless.Keys.Address.{prefix, from_public, all_of, one_of}
use feeless.Keys.Address.Letters.{both, letters_lem}
use feeless.Keys.Address.Shape.{from_public_ok}
use feeless.Keys.Armor.{utf8_char, as_bytes, is_whitespace, trim_start, trim, split}

-- A text without a line break.
unfoldable pub one_line : List ℕ → Bool
one_line [] = true
one_line (c ∷ s) = not (c == 10) && one_line s

pub split-last : (s : List ℕ) → one_line s ≡ true → split s ≡ s ∷ []
unfolding one_line split
split-last [] h = refl
split-last (c ∷ s) h = elim (Bool-cases (c == 10)) [
  | inl break ↦ let no : false ≡ true = rw break at h in cc
  | inr other ↦ let (_, rest) = both (not (c == 10)) (one_line s) h in rw (other, split-last s rest)
]

pub split-line : (s rest : List ℕ) → one_line s ≡ true → split (s ++ (10 ∷ rest)) ≡ s ∷ split rest
unfolding one_line split
split-line [] rest h = refl
split-line (c ∷ s) rest h = elim (Bool-cases (c == 10)) [
  | inl break ↦ let no : false ≡ true = rw break at h in cc
  | inr other ↦
      let (_, later) = both (not (c == 10)) (one_line s) h in rw (other, split-line s rest later)
]

-- A character that is seen: neither a space nor a control character.
abbrev pub graphic : ℕ → Bool
graphic c = ltb 32 c && ltb c 127

pub graphic-is_whitespace : (c : ℕ) → graphic c ≡ true → is_whitespace c ≡ false
unfolding is_whitespace
graphic-is_whitespace c h = ground arith

pub graphic_break : (c : ℕ) → graphic c ≡ true → not (c == 10) ≡ true
graphic_break c h = ground arith

pub graphic-utf8_char : (c : ℕ) → graphic c ≡ true → utf8_char c ≡ c ∷ []
unfolding utf8_char
graphic-utf8_char c h = ground arith

unfoldable pub all_graphic : List ℕ → Bool
all_graphic [] = true
all_graphic (c ∷ s) = graphic c && all_graphic s

pub graphic-one_line : (s : List ℕ) → all_graphic s ≡ true → one_line s ≡ true
unfolding all_graphic one_line
graphic-one_line [] h = refl
graphic-one_line (c ∷ s) h =
    let (first, rest) = both (graphic c) (all_graphic s) h in
    rw (graphic_break c first, graphic-one_line s rest)

pub graphic-as_bytes : (s : List ℕ) → all_graphic s ≡ true → as_bytes s ≡ s
unfolding all_graphic as_bytes
graphic-as_bytes [] h = refl
graphic-as_bytes (c ∷ s) h =
    let (first, rest) = both (graphic c) (all_graphic s) h in
    rw (graphic-utf8_char c first, graphic-as_bytes s rest)

pub graphic-trim_start : (s : List ℕ) → all_graphic s ≡ true → trim_start s ≡ s
unfolding all_graphic trim_start
graphic-trim_start [] h = refl
graphic-trim_start (c ∷ s) h =
    let (first, rest) = both (graphic c) (all_graphic s) h in rw (graphic-is_whitespace c first)

pub graphic-reverse_aux :
    (s t : List ℕ)
    → all_graphic s ≡ true
    → all_graphic t ≡ true
    → all_graphic (reverse_aux s t) ≡ true
unfolding all_graphic
graphic-reverse_aux [] t h k = k
graphic-reverse_aux (c ∷ s) t h k =
    let (first, rest) = both (graphic c) (all_graphic s) h in
    graphic-reverse_aux s (c ∷ t) rest (rw (first, k))

pub graphic-trim : (s : List ℕ) → all_graphic s ≡ true → trim s ≡ s
unfolding trim
graphic-trim s h =
    let back = graphic-reverse_aux s [] h (unfold all_graphic in refl) in
    rw (graphic-trim_start s h, graphic-trim_start (reverse s) back) (reverse-reverse s)

pub one_of-graphic :
    (class : List ℕ) (c : ℕ) → all_graphic class ≡ true → one_of class c ≡ true → graphic c ≡ true
unfolding one_of all_graphic
one_of-graphic [] c h k = cc
one_of-graphic (d ∷ class) c h k =
    let (first, rest) = both (graphic d) (all_graphic class) h in
    elim (Bool-cases (d == c)) [
      | inl same ↦ subst (λ (x : ℕ). graphic x ≡ true) ((==_iff d c).0 same) first
      | inr other ↦ one_of-graphic class c rest (rw other at k)
    ]

pub all_of-graphic :
    (class s : List ℕ) → all_graphic class ≡ true → all_of class s ≡ true → all_graphic s ≡ true
unfolding all_of all_graphic
all_of-graphic class [] h k = refl
all_of-graphic class (c ∷ s) h k =
    let (first, rest) = both (one_of class c) (all_of class s) k in
    rw (one_of-graphic class c h first, all_of-graphic class s h rest)

pub graphic_cons :
    (c : ℕ) (s : List ℕ) → graphic c ≡ true → all_graphic s ≡ true → all_graphic (c ∷ s) ≡ true
unfolding all_graphic
graphic_cons c s h k = rw (h, k)

pub alphabet-graphic : all_graphic alphabet ≡ true
unfolding all_graphic
alphabet-graphic = refl

pub graphic_digit : (v : ℕ) → v < 16 → graphic (hex_digit 55 v) ≡ true
graphic_digit v h = ground arith

pub graphic-to_hex : (bytes : List ℕ) → IsBytes bytes → all_graphic (to_hex bytes) ≡ true
unfolding to_hex
graphic-to_hex [] h = unfold all_graphic in refl
graphic-to_hex (b ∷ bytes) (hb, h) =
    graphic_cons _ _ (graphic_digit (b / 16) (omega arith))
      (graphic_cons _ _ (graphic_digit (b % 16) (omega arith)) (graphic-to_hex bytes h))

-- The text of the address of a key.
pub graphic-address :
    (h : Blake2b) (public address : List ℕ)
    → length public ≡ 32
    → from_public h public ≡ ok address
    → all_graphic address ≡ true
graphic-address h public address n made =
    let (part, sum, whole, _, _, _, _, match) = from_public_ok h public n in
    let letters =
      all_of-graphic alphabet (part ++ sum) alphabet-graphic (letters_lem (part ++ sum) match) in
    let same : prefix ++ (part ++ sum) ≡ address = ok_inj (sym whole ∙ made) in
    subst (λ (s : List ℕ). all_graphic s ≡ true) same
      (graphic_cons _ _ refl (
        graphic_cons _ _ refl
          (graphic_cons _ _ refl (graphic_cons _ _ refl (graphic_cons _ _ refl letters)))))

pub split_cons : (s : List ℕ) → (line : List ℕ) × (lines : List (List ℕ)) × (split s ≡ line ∷ lines)
unfolding split
split_cons [] = ([], [], refl)
split_cons (c ∷ s) = elim (Bool-cases (c == 10)) [
  | inl break ↦ ([], split s, rw break)
  | inr other ↦ let (line, lines, e) = split_cons s in (c ∷ line, lines, rw other (rw e))
]

-- A line break at the end is one more line, which is empty.
pub split-append_break : (s : List ℕ) → split (s ++ (10 ∷ [])) ≡ split s ++ ([] ∷ [])
unfolding split
split-append_break [] = refl
split-append_break (c ∷ s) = elim (Bool-cases (c == 10)) [
  | inl break ↦ rw (break, split-append_break s)
  | inr other ↦ let (line, lines, e) = split_cons s in rw other (rw (split-append_break s) (rw e))
]

-- What is printed on a line of its own reads back.
pub trim-line : (s : List ℕ) → all_graphic s ≡ true → trim (s ++ (10 ∷ [])) ≡ s
unfolding trim all_graphic
trim-line [] h = unfold is_whitespace in refl
trim-line (c ∷ s) h =
    let back = graphic-reverse_aux (c ∷ s) [] h refl in
    let (first, rest) = both (graphic c) (all_graphic s) h in
    let break : is_whitespace 10 ≡ true = unfold is_whitespace in refl in
    rw (graphic-is_whitespace c first) (
      rw (reverse-append (c ∷ s) (10 ∷ []))
        (rw break (rw (graphic-trim_start (reverse (c ∷ s)) back) (reverse-reverse (c ∷ s)))))
