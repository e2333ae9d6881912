-- ===== src/Pow/Work/Search.antt =====
-- The walk of `generate` over nonces, as a search.
pub mod Reach
use feeless.Common.{
  ℕ, zero, suc, ◌+◌, ◌%◌, ◌<◌, ◌≡◌, refl, sym, ap, ◌∙◌, ◌==◌, ltb, Bool, true, false, List, [], ◌∷◌,
  ◌++◌, Option, none, some, Result, ok, ◌>>=◌, reverse, length, take, set, get_elem?, if◌then◌else◌,
  arith, eq→==, Bool-cases, Option-cases, inl, inr, take_append,
}
use feeless.Common.Words.{from_le_bytes, length-reverse}
use feeless.Crypto.{Blake2b}
use feeless.Bytes.Reader.{array}
use feeless.Pow.Difficulty.{from_le_slice}
use feeless.Pow.Work.{
  Subject, as_bytes, hash_work, difficulty, verify, increment, generate_loop, generate,
}
use mathlib.Core.Option
use mathlib.Core.List.{reverse-reverse}

abbrev pub next_byte : ℕ → ℕ
next_byte c = if c == 0xff then 0 else c + 1

-- The nonce with one of its bytes incremented.
unfoldable pub bump : ℕ → List ℕ → List ℕ
bump i [] = []
bump zero (c ∷ nonce) = next_byte c ∷ nonce
bump (suc i) (c ∷ nonce) = c ∷ bump i nonce

pub length-bump : (i : ℕ) (nonce : List ℕ) → length (bump i nonce) ≡ length nonce
unfolding bump
length-bump i [] = refl
length-bump zero (c ∷ nonce) = refl
length-bump (suc i) (c ∷ nonce) = ap suc (length-bump i nonce)

bump_in_place :
    (i : ℕ) (nonce subject : List ℕ)
    → i < length nonce
    → (c : ℕ) × (get_elem? (nonce ++ subject) i ≡ some c)
      × (set (nonce ++ subject) i (next_byte c) ≡ bump i nonce ++ subject)
unfolding bump
bump_in_place i [] subject h = absurd (omega arith)
bump_in_place zero (c ∷ nonce) subject h = (c, refl, refl)
bump_in_place (suc i) (x ∷ nonce) subject h =
    let (c, there, same) = bump_in_place i nonce subject (omega arith) in
    (c, there, ap (λ (t : List ℕ). x ∷ t) same)

increment-bump :
    (random : ℕ) (nonce subject : List ℕ)
    → length nonce ≡ 8
    → increment random (nonce ++ subject) ≡ ok (bump (random % 8) nonce ++ subject)
unfolding increment
increment-bump random nonce subject n =
    let (c, there, same) = bump_in_place (random % 8) nonce subject (omega arith) in
    rw there (ap ok same)

-- The first nonce on the walk that passes.
unfoldable pub search : (List ℕ → Bool) → List ℕ → List ℕ → Option (List ℕ)
search passes [] nonce = none
search passes (random ∷ randoms) nonce =
    let next = bump (random % 8) nonce in
    let rest = search passes randoms next in if passes next then some next else rest

module _ (h : Blake2b) (threshold : ℕ) (subject : List ℕ) where
  pub passes : List ℕ → Bool
  passes nonce = ltb threshold (from_le_bytes (h.blake2b 8 (nonce ++ subject)))

  le_hash :
      (bytes : List ℕ) → from_le_slice (h.blake2b 8 bytes) ≡ ok (from_le_bytes (h.blake2b 8 bytes))
  unfolding from_le_slice
  le_hash bytes = rw (eq→== _ _ (h.length-blake2b 8 bytes))

  generate_loop-search :
      (randoms nonce : List ℕ)
      → length nonce ≡ 8
      → generate_loop h threshold randoms (nonce ++ subject)
        ≡ ok (Option.map (λ n. n ++ subject) (search passes randoms nonce))
  unfolding generate_loop search passes
  generate_loop-search [] nonce n = refl
  generate_loop-search (random ∷ randoms) nonce n =
      let next = bump (random % 8) nonce in
      rw (increment-bump random nonce subject n, ◌>>=◌)
        (rw (le_hash (next ++ subject))
          (elim (Bool-cases (ltb threshold (from_le_bytes (h.blake2b 8 (next ++ subject))))) [
            | inl good ↦ rw good
            | inr bad ↦
                rw bad (generate_loop-search randoms next (length-bump (random % 8) nonce ∙ n))
          ]))

-- What the search returns is a nonce of the same length that passes.
search_found :
    (p : List ℕ → Bool) (randoms nonce found : List ℕ)
    → search p randoms nonce ≡ some found
    → (p found ≡ true) × (length found ≡ length nonce)
unfolding search
search_found p [] nonce found e = cc
search_found p (random ∷ randoms) nonce found e =
    let next = bump (random % 8) nonce in
    elim (Bool-cases (p next)) [
      | inl good ↦
          let same : next ≡ found = ground (arith, good) in
          rw (← same) (good, length-bump (random % 8) nonce)
      | inr bad ↦
          let (passed, long) = search_found p randoms next found (ground (arith, bad)) in
          (passed, long ∙ length-bump (random % 8) nonce)
    ]

module _ (h : Blake2b) (threshold : ℕ) (subject : Subject) where
  -- Work made of a nonce verifies just when the nonce passes.
  pub verify-passes :
      (nonce : List ℕ)
      → verify h (reverse nonce) subject threshold
        ≡ ok (passes h threshold (as_bytes subject) nonce)
  unfolding verify difficulty hash_work passes
  verify-passes nonce =
      rw (reverse-reverse nonce)
        (rw (le_hash h threshold (as_bytes subject) (nonce ++ as_bytes subject)))

  -- `generate` returns the work of the first nonce on the walk that passes, or is still running.
  pub generate-search :
      (initial randoms : List ℕ)
      → length initial ≡ 8
      → generate h initial randoms subject threshold
        ≡ ok (Option.map reverse (search (passes h threshold (as_bytes subject)) randoms initial))
  unfolding generate array
  generate-search initial randoms n =
      let p = passes h threshold (as_bytes subject) in
      rw (generate_loop-search h threshold (as_bytes subject) randoms initial n, ◌>>=◌)
        (elim (Option-cases (search p randoms initial)) [
          | inl running ↦ rw running
          | inr (nonce, found) ↦
              let long : length nonce ≡ 8 = (search_found p randoms initial nonce found).1 ∙ n in
              let cut : take 8 (nonce ++ as_bytes subject) ≡ nonce =
                rw long at (take_append nonce (as_bytes subject)) in
              let size : length (reverse nonce) ≡ 8 = length-reverse nonce ∙ long in
              rw found (rw cut (rw (eq→== _ _ size)))
        ])

  -- The work that `generate` returns is 8 bytes and verifies against the same subject and threshold.
  pub generate-verify :
      (initial randoms work : List ℕ)
      → length initial ≡ 8
      → generate h initial randoms subject threshold ≡ ok (some work)
      → (length work ≡ 8) × (verify h work subject threshold ≡ ok true)
  generate-verify initial randoms work n e =
      let p = passes h threshold (as_bytes subject) in
      let whole : ok (Option.map reverse (search p randoms initial)) ≡ ok (some work) =
        sym (generate-search initial randoms n) ∙ e in
      elim (Option-cases (search p randoms initial)) [
        | inl running ↦ absurd (ground (arith, running))
        | inr (nonce, found) ↦
            let (passed, long) = search_found p randoms initial nonce found in
            let same : reverse nonce ≡ work = ground (arith, found) in
            rw (← same) (length-reverse nonce ∙ long ∙ n, verify-passes nonce ∙ ap ok passed)
      ]
