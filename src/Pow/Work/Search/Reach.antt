-- ===== src/Pow/Work/Search/Reach.antt =====
-- Which nonces the walk of `generate` can reach.
use feeless.Common.{
  ℕ, zero, suc, ◌+◌, ◌-◌, ◌%◌, ◌<◌, ◌≤◌, ◌≡◌, refl, sym, ap, ◌∙◌, Bool, true, List, [], ◌∷◌, ◌++◌,
  Option, some, ok, reverse, length, length-append, replicate, arith, Bool-cases, inl, inr,
  append_assoc,
}
use feeless.Common.Words.{IsBytes, IsByte, length-reverse, All-reverse}
use feeless.Crypto.{Blake2b}
use feeless.Pow.Work.{Subject, as_bytes, verify, generate}
use feeless.Pow.Work.Search.{
  next_byte, bump, length-bump, search, passes, verify-passes, generate-search,
}
use mathlib.Core.Option
use mathlib.Core.List.{reverse-reverse}

-- Where the walk is after these random bytes.
walk : List ℕ → List ℕ → List ℕ
walk [] nonce = nonce
walk (random ∷ randoms) nonce = walk randoms (bump (random % 8) nonce)

walk-append : (xs ys nonce : List ℕ) → walk (xs ++ ys) nonce ≡ walk ys (walk xs nonce)
unfolding walk
walk-append [] ys nonce = refl
walk-append (x ∷ xs) ys nonce = walk-append xs ys (bump (x % 8) nonce)

bump_middle :
    (front : List ℕ) (c : ℕ) (back : List ℕ)
    → bump (length front) (front ++ (c ∷ back)) ≡ front ++ (next_byte c ∷ back)
unfolding bump
bump_middle [] c back = refl
bump_middle (x ∷ front) c back = ap (λ (t : List ℕ). x ∷ t) (bump_middle front c back)

next_byte-mod : (c k : ℕ) → c < 256 → (next_byte c + k) % 256 ≡ (c + suc k) % 256
next_byte-mod c k h = ground arith

next_byte-lt : (c : ℕ) → c < 256 → next_byte c < 256
next_byte-lt c h = ground arith

-- `k` increments of the byte behind `front`.
walk_byte :
    (k : ℕ) (front : List ℕ) (c : ℕ) (back : List ℕ)
    → length front < 8
    → c < 256
    → walk (replicate k (length front)) (front ++ (c ∷ back)) ≡ front ++ ((c + k) % 256 ∷ back)
unfolding walk
walk_byte zero front c back h hc = let e : (c + 0) % 256 ≡ c = omega arith in rw e
walk_byte (suc k) front c back h hc =
    let turns = replicate k (length front) in
    let e : length front % 8 ≡ length front = omega arith in
    ap (λ (i : ℕ). walk turns (bump i (front ++ (c ∷ back)))) e
    ∙ ap (walk turns) (bump_middle front c back)
    ∙ walk_byte k front (next_byte c) back h (next_byte-lt c hc)
    ∙ ap (λ (t : ℕ). front ++ (t ∷ back)) (next_byte-mod c k hc)

walk_all :
    (front current target : List ℕ)
    → length front + length current ≤ 8
    → length current ≡ length target
    → IsBytes current
    → IsBytes target
    → (randoms : List ℕ) × (walk randoms (front ++ current) ≡ front ++ target)
unfolding walk
walk_all front [] [] h n hc ht = ([], refl)
walk_all front [] (t ∷ target) h n hc ht = absurd (omega arith)
walk_all front (c ∷ current) [] h n hc ht = absurd (omega arith)
walk_all front (c ∷ current) (t ∷ target) h n (hc, hcs) (ht, hts) =
    let turns = replicate (t + 256 - c) (length front) in
    let e : (c + (t + 256 - c)) % 256 ≡ t = omega arith in
    let here : walk turns (front ++ (c ∷ current)) ≡ front ++ (t ∷ current) =
      walk_byte (t + 256 - c) front c current (omega arith) hc
      ∙ ap (λ (w : ℕ). front ++ (w ∷ current)) e in
    let (more, there) =
      walk_all (front ++ (t ∷ [])) current target (omega (arith, length-append front (t ∷ [])))
        (omega arith) hcs hts in
    (
      turns ++ more,
      walk-append turns more (front ++ (c ∷ current))
          ∙ ap (walk more) (here ∙ sym (append_assoc front (t ∷ []) current))
          ∙ there
          ∙ append_assoc front (t ∷ []) target,
    )

-- A search whose walk ends at a nonce that passes has found one.
search-walk :
    (p : List ℕ → Bool) (random : ℕ) (randoms nonce : List ℕ)
    → p (walk (random ∷ randoms) nonce) ≡ true
    → (found : List ℕ) × (search p (random ∷ randoms) nonce ≡ some found)
unfolding search walk
search-walk p random [] nonce h = (bump (random % 8) nonce, rw h)
search-walk p random (again ∷ randoms) nonce h =
    let next = bump (random % 8) nonce in
    elim (Bool-cases (p next)) [
      | inl good ↦ (next, rw good)
      | inr bad ↦ let (found, e) = search-walk p again randoms next h in (found, rw bad e)
    ]

bump-IsBytes : (i : ℕ) (nonce : List ℕ) → IsBytes nonce → IsBytes (bump i nonce)
unfolding bump
bump-IsBytes i [] h = tt
bump-IsBytes zero (c ∷ nonce) (hc, h) = (next_byte-lt c hc, h)
bump-IsBytes (suc i) (c ∷ nonce) (hc, h) = (hc, bump-IsBytes i nonce h)

-- A walk of one step at least leads to every target.
walk_to :
    (current target : List ℕ)
    → length current ≡ 8
    → length target ≡ 8
    → IsBytes current
    → IsBytes target
    → (random : ℕ) × (randoms : List ℕ) × (walk (random ∷ randoms) current ≡ target)
unfolding walk
walk_to current target n m hc ht =
    let (randoms, there) =
      walk_all [] (bump 0 current) target (omega (arith, length-bump 0 current))
        (length-bump 0 current ∙ n ∙ sym m) (bump-IsBytes 0 current hc) ht in
    (0, randoms, there)

-- Where some work verifies, `generate` finds work from every start, if the random bytes fall so.
pub generate_finds :
    (h : Blake2b) (threshold : ℕ) (subject : Subject) (work initial : List ℕ)
    → length work ≡ 8
    → IsBytes work
    → verify h work subject threshold ≡ ok true
    → length initial ≡ 8
    → IsBytes initial
    → (randoms : List ℕ) × (found : List ℕ) × (generate h initial randoms subject threshold
        ≡ ok (some found))
generate_finds h threshold subject work initial n small good m small' =
    let p = passes h threshold (as_bytes subject) in
    let (random, randoms, there) =
      walk_to initial (reverse work) m (length-reverse work ∙ n) small'
        (All-reverse IsByte work small) in
    let checked : ok (p (reverse work)) ≡ ok true =
      sym (verify-passes h threshold subject (reverse work))
      ∙ ap (λ (w : List ℕ). verify h w subject threshold) (reverse-reverse work)
      ∙ good in
    let passed : p (reverse work) ≡ true = cc checked in
    let (nonce, found) = search-walk p random randoms initial (ap p there ∙ passed) in
    (
      random ∷ randoms,
      reverse nonce,
      generate-search h threshold subject initial (random ∷ randoms) m
          ∙ ap (λ (o : Option (List ℕ)). ok (Option.map reverse o)) found,
    )
