-- ===== src/Encoding/Base32.antt =====
-- The two directions of the nano base 32.
use feeless.Common.{
  ℕ, zero, suc, ◌+◌, ◌*◌, ◌/◌, ◌%◌, ◌<◌, ◌≤◌, ◌≡◌, refl, ap, ◌∙◌, Bool, true, false, List, [], ◌∷◌,
  ◌++◌, Option, none, some, ok, err, ◌>>=◌, >>=-eq-ok, Error, ok_or, length, get_elem?, arith, ◌==◌,
  ==_iff, All, inl, inr, Option-cases, Bool-cases,
}
use feeless.Common.Text.{all_below, all_below_lem}
use feeless.Encoding.Bits.{bit-le, digit_is}
use feeless.Encoding.{
  alphabet, bit, load_be, encode_nano_base_32, find, view_bits, decode_nano_base_32,
}

load_be-lt : (a b c d e : Bool) → load_be a b c d e < 32
unfolding load_be
load_be-lt a b c d e = omega (arith, bit-le a, bit-le b, bit-le c, bit-le d, bit-le e)

view_bits-load_be : (a b c d e : Bool) → view_bits (load_be a b c d e) ≡ a ∷ b ∷ c ∷ d ∷ e ∷ []
unfolding view_bits load_be
view_bits-load_be a b c d e =
    let la : bit a ≤ 1 = bit-le a in
    let lb : bit b ≤ 1 = bit-le b in
    let lc : bit c ≤ 1 = bit-le c in
    let ld : bit d ≤ 1 = bit-le d in
    let le : bit e ≤ 1 = bit-le e in
    let v = 16 * bit a + 8 * bit b + 4 * bit c + 2 * bit d + bit e in
    rw (
      digit_is (v / 16 % 2) a (omega arith),
      digit_is (v / 8 % 2) b (omega arith),
      digit_is (v / 4 % 2) c (omega arith),
      digit_is (v / 2 % 2) d (omega arith),
      digit_is (v % 2) e (omega arith),
    )

-- Each value has a character, and that character is found at the value.
unfoldable pub char_of : ℕ → ℕ
char_of v = elim (get_elem? alphabet v) [ none ↦ 0 | some c ↦ c ]

is_char : ℕ → Bool
is_char v = elim (get_elem? alphabet v) [ none ↦ false | some c ↦ c == char_of v ]

finds : ℕ → Bool
finds v = elim (find (char_of v) alphabet) [ none ↦ false | some w ↦ w == v ]

some_of {ℓ} :
    {A : Type ℓ} (o : Option A) (a : A) (p : A → Bool)
    → ((x : A) → p x ≡ true → x ≡ a)
    → elim o [ none ↦ false | some x ↦ p x ] ≡ true
    → o ≡ some a
some_of none a p eq h = cc
some_of (some x) a p eq h = ap some (eq x h)

get_elem?-alphabet : (v : ℕ) → v < 32 → get_elem? alphabet v ≡ some (char_of v)
unfolding is_char
get_elem?-alphabet v h =
    some_of (get_elem? alphabet v) (char_of v) (λ c. c == char_of v) (λ c. (==_iff c (char_of v)).0)
      (all_below_lem 32 is_char v (unfold char_of all_below in refl) h)

find-char_of : (v : ℕ) → v < 32 → find (char_of v) alphabet ≡ some v
unfolding finds
find-char_of v h =
    some_of (find (char_of v) alphabet) v (λ w. w == v) (λ w. (==_iff w v).0)
      (all_below_lem 32 finds v (unfold char_of find all_below in refl) h)

encode_chunk :
    (a b c d e : Bool) (bits : List Bool) (s : List ℕ)
    → encode_nano_base_32 bits ≡ ok s
    → encode_nano_base_32 (a ∷ b ∷ c ∷ d ∷ e ∷ bits) ≡ ok (char_of (load_be a b c d e) ∷ s)
unfolding encode_nano_base_32
encode_chunk a b c d e bits s h =
    rw (get_elem?-alphabet (load_be a b c d e) (load_be-lt a b c d e)) (rw h)

decode_char :
    (v : ℕ) (s : List ℕ) (bits : List Bool)
    → v < 32
    → decode_nano_base_32 s ≡ ok bits
    → decode_nano_base_32 (char_of v ∷ s) ≡ ok (view_bits v ++ bits)
unfolding decode_nano_base_32
decode_char v s bits h e = rw (find-char_of v h) (rw e)

-- What an encoding is: a text of one character for each chunk, which decodes to the bits.
abbrev pub Encodes : List Bool → List ℕ → Type 0
Encodes bits s =
    (encode_nano_base_32 bits ≡ ok s)
    × (decode_nano_base_32 s ≡ ok bits)
    × (5 * length s ≡ length bits)

pub encode-Encodes : (bits : List Bool) → length bits % 5 ≡ 0 → (s : List ℕ) × Encodes bits s
encode-Encodes [] h =
    ([], (unfold encode_nano_base_32 in refl, unfold decode_nano_base_32 in refl, omega arith))
encode-Encodes (a ∷ []) h = absurd (omega arith)
encode-Encodes (a ∷ b ∷ []) h = absurd (omega arith)
encode-Encodes (a ∷ b ∷ c ∷ []) h = absurd (omega arith)
encode-Encodes (a ∷ b ∷ c ∷ d ∷ []) h = absurd (omega arith)
encode-Encodes (a ∷ b ∷ c ∷ d ∷ e ∷ bits) h =
    let (s, (en, de, n)) = encode-Encodes bits (omega arith) in
    let v = load_be a b c d e in
    (
      char_of v ∷ s,
      (
        encode_chunk a b c d e bits s en,
        decode_char v s bits (load_be-lt a b c d e) de
            ∙ ap (λ (t : List Bool). ok (t ++ bits)) (view_bits-load_be a b c d e),
        omega arith,
      ),
    )

-- Every string of whole chunks of bits is encoded, and decoding its encoding gives it back.
pub decode-encode :
    (bits : List Bool)
    → length bits % 5 ≡ 0
    → (encode_nano_base_32 bits >>= decode_nano_base_32) ≡ ok bits
decode-encode bits h = let (s, (en, de, n)) = encode-Encodes bits h in rw (en, ◌>>=◌) de

find-get_elem? : (c v : ℕ) (cs : List ℕ) → find c cs ≡ some v → get_elem? cs v ≡ some c
unfolding find
find-get_elem? c v [] h = cc
find-get_elem? c v (x ∷ cs) h = elim (Bool-cases (x == c)) [
  | inl same ↦ ground arith
  | inr other ↦ elim (Option-cases (find c cs)) [
    | inl missing ↦ ground (arith, missing)
    | inr (w, found) ↦
        let e : v ≡ suc w = ground (arith, found) in rw e (find-get_elem? c w cs found)
  ]
]

get_elem?-lt {ℓ} :
    {A : Type ℓ} (xs : List A) (i : ℕ) (a : A) → get_elem? xs i ≡ some a → i < length xs
get_elem?-lt [] i a h = cc
get_elem?-lt (x ∷ xs) zero a h = omega arith
get_elem?-lt (x ∷ xs) (suc i) a h = omega (arith, get_elem?-lt xs i a h)

load_be-view_bits :
    (v : ℕ)
    → v < 32
    → load_be (v / 16 % 2 == 1) (v / 8 % 2 == 1) (v / 4 % 2 == 1) (v / 2 % 2 == 1) (v % 2 == 1) ≡ v
load_be-view_bits v h = (==_iff _ v).0 (
    all_below_lem 32
      (λ v.
        load_be (v / 16 % 2 == 1) (v / 8 % 2 == 1) (v / 4 % 2 == 1) (v / 2 % 2 == 1) (v % 2 == 1)
        == v)
      v (unfold load_be all_below in refl) h)

encode_view :
    (v : ℕ) (bits : List Bool) (s : List ℕ)
    → v < 32
    → encode_nano_base_32 bits ≡ ok s
    → encode_nano_base_32 (view_bits v ++ bits) ≡ ok (char_of v ∷ s)
unfolding view_bits
encode_view v bits s h e =
    encode_chunk _ _ _ _ _ bits s e ∙ ap (λ (w : ℕ). ok (char_of w ∷ s)) (load_be-view_bits v h)

pub char_of-find : (c v : ℕ) → find c alphabet ≡ some v → (v < 32) × (char_of v ≡ c)
unfolding char_of
char_of-find c v h =
    let there = find-get_elem? c v alphabet h in (get_elem?-lt alphabet v c there, rw there)

ok_or-eq-ok {ℓ} : {A : Type ℓ} (o : Option A) (e : Error) (a : A) → ok_or o e ≡ ok a → o ≡ some a
ok_or-eq-ok none e a h = cc
ok_or-eq-ok (some b) e a h = cc

encode_joined :
    (c v : ℕ) (s : List ℕ) (bits tail : List Bool)
    → (v < 32) × (char_of v ≡ c)
    → bits ≡ view_bits v ++ tail
    → encode_nano_base_32 tail ≡ ok s
    → encode_nano_base_32 bits ≡ ok (c ∷ s)
encode_joined c v s bits tail (small, same) e h = rw (e, ← same) (encode_view v tail s small h)

pub decode_cons :
    (c : ℕ) (s : List ℕ) (bits : List Bool)
    → decode_nano_base_32 (c ∷ s) ≡ ok bits
    → (v : ℕ) × (tail : List Bool) × (find c alphabet ≡ some v)
      × (decode_nano_base_32 s ≡ ok tail)
      × (bits ≡ view_bits v ++ tail)
unfolding decode_nano_base_32
decode_cons c s bits h =
    let (v, found, more) = >>=-eq-ok (ok_or (find c alphabet) (Error.decoding_error c)) _ h in
    let (tail, decoded, whole) = >>=-eq-ok (decode_nano_base_32 s) _ more in
    (v, tail, ok_or-eq-ok _ _ v found, decoded, cc (whole))

-- A text that decodes is the encoding of the bits that it decodes to.
pub encode-decode :
    (s : List ℕ) (bits : List Bool)
    → decode_nano_base_32 s ≡ ok bits
    → encode_nano_base_32 bits ≡ ok s
encode-decode [] bits h =
    let e : bits ≡ [] = unfold decode_nano_base_32 in ground arith in
    rw e (unfold encode_nano_base_32 in refl)
encode-decode (c ∷ s) bits h =
    let (v, tail, found, decoded, whole) = decode_cons c s bits h in
    encode_joined c v s bits tail (char_of-find c v found) whole (encode-decode s tail decoded)

-- A character of the alphabet.
abbrev pub InAlphabet : ℕ → Type 0
InAlphabet c = (v : ℕ) × (find c alphabet ≡ some v)

-- Decoding succeeds on the characters of the alphabet, with five bits for each.
decode-All :
    (s : List ℕ)
    → All InAlphabet s
    → (bits : List Bool) × (decode_nano_base_32 s ≡ ok bits) × (length bits ≡ 5 * length s)
unfolding decode_nano_base_32
decode-All [] h = ([], refl, omega arith)
decode-All (c ∷ s) ((v, found), h) =
    let (bits, decoded, n) = decode-All s h in
    (view_bits v ++ bits, rw found (rw decoded), unfold view_bits in omega arith)

-- It reports the first character that is not one of them.
decode_first_bad :
    (good : List ℕ) (bad : ℕ) (s : List ℕ)
    → All InAlphabet good
    → find bad alphabet ≡ none
    → decode_nano_base_32 (good ++ (bad ∷ s)) ≡ err (Error.decoding_error bad)
unfolding decode_nano_base_32
decode_first_bad [] bad s h e = rw e
decode_first_bad (c ∷ good) bad s ((v, found), h) e =
    rw found (rw (decode_first_bad good bad s h e))

length-view_bits : (v : ℕ) (tail : List Bool) → length (view_bits v ++ tail) ≡ 5 + length tail
unfolding view_bits
length-view_bits v tail = omega arith

pub length-decode :
    (s : List ℕ) (bits : List Bool) → decode_nano_base_32 s ≡ ok bits → length bits ≡ 5 * length s
length-decode [] bits h =
    let e : bits ≡ [] = unfold decode_nano_base_32 in ground arith in rw e (omega arith)
length-decode (c ∷ s) bits h =
    let (v, tail, found, decoded, whole) = decode_cons c s bits h in
    rw whole (omega (arith, length-view_bits v tail, length-decode s tail decoded))
