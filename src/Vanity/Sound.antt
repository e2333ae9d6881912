-- ===== src/Vanity/Sound.antt =====
-- What a search finds, and which searches find nothing.
use mathlib.Core.Path.{subst}
use mathlib.Core.List.{reverse_aux}
use feeless.Common.{
  ℕ, zero, suc, ◌+◌, ◌-◌, ◌%◌, ◌^◌, ◌<◌, ◌≡◌, ◌∙◌, refl, sym, ap, inl, inr, Bool, true, false, ◌&&◌,
  ◌||◌, List, [], ◌∷◌, ◌++◌, Bool-cases, Option-cases, ==_iff, ne→==, Option, some, Result, ok, err,
  panic, >>=-eq-ok, ok_inj, Error, ltb, unwrap, if◌then◌else◌, ◌==◌, length, take, take_all, drop,
  reverse, arith,
}
use feeless.Crypto.{Blake2b, Ed25519}
use feeless.Bytes.{slice_range}
use feeless.Encoding.{alphabet}
use feeless.Keys.Public.{to_public}
use feeless.Keys.Public.Laws.{to_public-length}
use feeless.Keys.Address.{is_match, all_of, one_of, prefix}
use feeless.Keys.Address.Letters.{both, letters_rest, letters_lem}
use feeless.Keys.Address.Shape.{from_public_ok}
use feeless.Keys.Seed.{derive}
use feeless.Keys.Phrase
use feeless.Keys.Phrase.{Bip, to_private}
use feeless.Vanity.{
  SecretResult, SecretType, phrase_type, seed_type, private_type, SearchOffset, first_digit,
  skip_first_digit, Match, start_or_end, start, end, regex, validate, validate_text, starts_with,
  ends_with, is_good, Vanity, Draw, keep_if, to_address, draw_secret, single_attempt, attempts,
  collect, offset_of,
}

one_of-same :
    (class : List ℕ) (x y : ℕ) → (x == y) ≡ true → one_of class x ≡ true → one_of class y ≡ true
one_of-same class x y same h = subst (λ (k : ℕ). one_of class k ≡ true) ((==_iff x y).0 same) h

all_of-starts_with :
    (class s t : List ℕ) → all_of class s ≡ true → starts_with s t ≡ true → all_of class t ≡ true
unfolding all_of starts_with
all_of-starts_with class s [] every h = refl
all_of-starts_with class [] (d ∷ t) every h = cc
all_of-starts_with class (x ∷ s) (d ∷ t) every h =
    let (same, later) = both (x == d) (starts_with s t) h in
    let (first, rest) = both (one_of class x) (all_of class s) every in
    rw (one_of-same class x d same first) (all_of-starts_with class s t rest later)

and_swap : (a b c : Bool) → (b && (a && c)) ≡ ((a && b) && c)
and_swap true b c = refl
and_swap false true c = refl
and_swap false false c = refl

all_of-reverse_aux :
    (class s t : List ℕ) → all_of class (reverse_aux s t) ≡ (all_of class s && all_of class t)
unfolding all_of
all_of-reverse_aux class [] t = refl
all_of-reverse_aux class (x ∷ s) t =
    all_of-reverse_aux class s (x ∷ t) ∙ and_swap (one_of class x) (all_of class s) (all_of class t)

and_true : (b : Bool) → (b && true) ≡ b
and_true true = refl
and_true false = refl

all_of-reverse : (class s : List ℕ) → all_of class (reverse s) ≡ all_of class s
unfolding all_of
all_of-reverse class s = all_of-reverse_aux class s [] ∙ and_true (all_of class s)

all_of-ends_with :
    (class s t : List ℕ) → all_of class s ≡ true → ends_with s t ≡ true → all_of class t ≡ true
unfolding ends_with
all_of-ends_with class s t every h =
    sym (all_of-reverse class t)
    ∙ all_of-starts_with class (reverse s) (reverse t) (all_of-reverse class s ∙ every) h

-- The characters of an address behind `nano_`, the first of them or not.
searchable-alphabet :
    (part : List ℕ) (offset : SearchOffset)
    → is_match (prefix ++ part) ≡ true
    → all_of alphabet (drop (offset_of offset) (prefix ++ part)) ≡ true
searchable-alphabet part first_digit h = letters_lem part h
searchable-alphabet [] skip_first_digit h = unfold all_of in refl
searchable-alphabet (d ∷ part) skip_first_digit h = (letters_rest d part h).1

slice_range-eq-ok :
    (bytes cut : List ℕ) (a b : ℕ)
    → slice_range bytes a b ≡ ok cut
    → cut ≡ take (b - a) (drop a bytes)
unfolding slice_range
slice_range-eq-ok bytes cut a b e = elim (Bool-cases (ltb b a || ltb (length bytes) b)) [
  | inl out ↦ let no : panic ≡ ok cut = rw out at e in cc
  | inr within ↦
      let found : ok (take (b - a) (drop a bytes)) ≡ ok cut = rw within at e in sym (ok_inj found)
]

all_of-take :
    (class : List ℕ) (n : ℕ) (s : List ℕ) → all_of class s ≡ true → all_of class (take n s) ≡ true
unfolding all_of
all_of-take class zero s every = refl
all_of-take class (suc n) [] every = refl
all_of-take class (suc n) (x ∷ s) every =
    let (first, rest) = both (one_of class x) (all_of class s) every in
    rw (first, all_of-take class n s rest)

slice-all :
    (class bytes cut : List ℕ) (a b : ℕ)
    → slice_range bytes a b ≡ ok cut
    → all_of class (drop a bytes) ≡ true
    → all_of class cut ≡ true
slice-all class bytes cut a b e every =
    subst (λ (s : List ℕ). all_of class s ≡ true) (sym (slice_range-eq-ok bytes cut a b e))
      (all_of-take class (b - a) (drop a bytes) every)

-- A text of the alphabet only has starts and ends that `validate` lets pass.
is_good-validate :
    (m : Match) (searchable : List ℕ)
    → all_of alphabet searchable ≡ true
    → is_good m searchable ≡ true
    → validate m ≡ ok record {}
unfolding is_good validate validate_text
is_good-validate (start_or_end s) searchable every h =
    elim (Bool-cases (starts_with searchable s)) [
      | inl starts ↦ rw (all_of-starts_with alphabet searchable s every starts)
      | inr otherwise ↦ rw (all_of-ends_with alphabet searchable s every (rw otherwise at h))
    ]
is_good-validate (start s) searchable every h =
    rw (all_of-starts_with alphabet searchable s every h)
is_good-validate (end s) searchable every h = rw (all_of-ends_with alphabet searchable s every h)
is_good-validate (regex re) searchable every h = refl

unwrap-eq-ok : {A : Type 0} (r : Result A) (a : A) → unwrap r ≡ ok a → r ≡ ok a
unwrap-eq-ok (ok b) a e = e
unwrap-eq-ok (err raised) a e = cc
unwrap-eq-ok panic a e = cc

keep_if-some :
    (good : Bool) (r s : SecretResult) → keep_if good r ≡ some s → (good ≡ true) × (r ≡ s)
keep_if-some true r s e = (refl, cc)
keep_if-some false r s e = cc

module _ {M K D : Type 0} (bip : Bip M K D) (h : Blake2b) (c : Ed25519) where
  -- The address of a key, in its parts.
  to_address-match :
      (private address : List ℕ)
      → to_address bip h c private ≡ ok address
      → (part : List ℕ) × (address ≡ prefix ++ part) × (is_match (prefix ++ part) ≡ true)
  unfolding to_address
  to_address-match private address e =
      let (public, made, rest) = >>=-eq-ok (to_public c private) _ e in
      let (part, sum, whole, _, _, _, _, match) =
        from_public_ok h public (to_public-length c private public made) in
      (part ++ sum, ok_inj (sym rest ∙ whole), match)

  draw_secret-match :
      (kind : SecretType) (index : ℕ) (d : Draw M) (r : SecretResult)
      → draw_secret bip h c kind index d ≡ ok r
      → (part : List ℕ) × (r.address ≡ prefix ++ part) × (is_match (prefix ++ part) ≡ true)
  unfolding draw_secret
  draw_secret-match seed_type index d r e =
      let (private, derived, e1) = >>=-eq-ok (derive h d.bytes index) _ e in
      let (address, made, e2) = >>=-eq-ok (unwrap (to_address bip h c private)) _ e1 in
      let (part, is, match) = to_address-match private address (unwrap-eq-ok _ address made) in
      (part, ap (λ (x : SecretResult). x.address) (sym (ok_inj e2)) ∙ is, match)
  draw_secret-match private_type index d r e =
      let (address, made, e1) = >>=-eq-ok (unwrap (to_address bip h c d.bytes)) _ e in
      let (part, is, match) = to_address-match d.bytes address (unwrap-eq-ok _ address made) in
      (part, ap (λ (x : SecretResult). x.address) (sym (ok_inj e1)) ∙ is, match)
  draw_secret-match (phrase_type language) index d r e =
      let (private, derived, e1) =
        >>=-eq-ok (unwrap (to_private bip 0 [] (Phrase.random bip language d.mnemonic))) _ e in
      let (address, made, e2) = >>=-eq-ok (unwrap (to_address bip h c private)) _ e1 in
      let (part, is, match) = to_address-match private address (unwrap-eq-ok _ address made) in
      (part, ap (λ (x : SecretResult). x.address) (sym (ok_inj e2)) ∙ is, match)

  -- A found secret is the one that was drawn, and `validate` lets the search pass.
  single_attempt-some :
      (v : Vanity) (d : Draw M) (r : SecretResult)
      → single_attempt bip h c v d ≡ ok (some r)
      → (draw_secret bip h c v.secret_type v.index d ≡ ok r) × (validate v.matches ≡ ok record {})
  unfolding single_attempt
  single_attempt-some v d r e =
      let (result, drawn, e1) = >>=-eq-ok (draw_secret bip h c v.secret_type v.index d) _ e in
      let (searchable, cut, e2) =
        >>=-eq-ok (slice_range result.address (offset_of v.search_offset) (length result.address)) _
          e1 in
      let (good, same) = keep_if-some (is_good v.matches searchable) result r (ok_inj e2) in
      let (part, is, match) = draw_secret-match v.secret_type v.index d result drawn in
      let all : all_of alphabet (drop (offset_of v.search_offset) result.address) ≡ true =
        rw is (searchable-alphabet part v.search_offset match) in
      (
        drawn ∙ ap (λ (x : SecretResult). ok x) same,
        is_good-validate v.matches searchable
            (slice-all alphabet result.address searchable _ _ cut all) good,
      )

  -- A search that `validate` refuses would find nothing, whatever it draws: every round of attempts
  -- that does not panic is empty.
  pub validate_refuses :
      (v : Vanity) (draws : List (Draw M)) (found : List SecretResult) (raised : Error)
      → validate v.matches ≡ err raised
      → attempts bip h c v draws ≡ ok found
      → found ≡ []
  unfolding attempts
  validate_refuses v [] found raised refused e = sym (ok_inj e)
  validate_refuses v (d ∷ draws) found raised refused e =
      let (got, tried, e1) = >>=-eq-ok (single_attempt bip h c v d) _ e in
      let (rest, later, e2) = >>=-eq-ok (attempts bip h c v draws) _ e1 in
      let nothing = validate_refuses v draws rest raised refused later in
      elim (Option-cases got) [
        | inl missed ↦ let e3 : ok rest ≡ ok found = rw missed at e2 in sym (ok_inj e3) ∙ nothing
        | inr (r, hit) ↦
            let (_, passed) =
              single_attempt-some v d r (tried ∙ ap (λ (o : Option SecretResult). ok o) hit) in
            let no : ◌≡◌ {A = Result (Unit {0})} (err raised) (ok record {}) =
              sym refused ∙ passed in
            cc
      ]

less_one : (n : ℕ) → suc n < 2 ^ 64 → (suc n + (2 ^ 64 - 1)) % 2 ^ 64 ≡ n
less_one n small = omega arith

collect-take :
    (n : ℕ) (received : List SecretResult)
    → suc n < 2 ^ 64
    → collect (suc n) received ≡ take (suc n) received
unfolding collect
collect-take n [] small = refl
collect-take zero (r ∷ received) small = refl
collect-take (suc n) (r ∷ received) small = rw (less_one (suc n) small) (
    rw (ne→== (suc n) 0 (λ e. omega arith))
      (ap (λ (rs : List SecretResult). r ∷ rs) (collect-take n received (omega arith))))

-- `collect` gives as many results as its limit asks for where that is not 0. With a limit of 0 it
-- gives all that come in.
pub collect_lem :
    (limit : ℕ) (received : List SecretResult)
    → limit < 2 ^ 64
    → length received < 2 ^ 64
    → collect limit received ≡ (if limit == 0 then received else take limit received)
unfolding collect
collect_lem (suc n) received small short =
    rw (ne→== (suc n) 0 (λ e. omega arith)) (collect-take n received small)
collect_lem zero [] small short = refl
collect_lem zero (r ∷ received) small short =
    ap (λ (rs : List SecretResult). r ∷ rs)
      (collect-take (2 ^ 64 - 2) received (omega arith)
        ∙ take_all (2 ^ 64 - 1) received (omega arith))
