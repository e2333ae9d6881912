-- ===== src/Tests/Search.antt =====
-- Examples of work.
use feeless.Common.{
  ℕ, ◌≡◌, ◌<◌, refl, Bool, true, false, List, [], ◌∷◌, Option, none, some, Result, ok, length,
  replicate, reverse, arith, All-replicate,
}
use feeless.Common.Words.{IsByte}
use feeless.Pow.Difficulty.{normal}
use feeless.Pow.Work.{Subject, hash, as_bytes, verify, generate}
use feeless.Pow.Work.Search.{generate-search, generate-verify, search, passes}
use feeless.Pow.Work.Search.Reach.{generate_finds}
use feeless.Tests.Instances.{blake}
use mathlib.Core.Option

abbrev some_work : List ℕ
some_work = 0 ∷ 0 ∷ 0 ∷ 0 ∷ 1 ∷ 0 ∷ 0 ∷ 0 ∷ []

abbrev a_subject : Subject
a_subject = hash (replicate 32 1)

found : generate blake (replicate 8 0) (3 ∷ []) a_subject normal ≡ ok (some some_work)
unfolding generate feeless.Pow.Work.generate_loop feeless.Pow.Work.increment
    feeless.Pow.Difficulty.from_le_slice feeless.Common.Words.from_le_bytes
found = refl

verified : verify blake (replicate 8 0) a_subject normal ≡ ok true
unfolding verify feeless.Pow.Work.difficulty feeless.Pow.Difficulty.from_le_slice
    feeless.Common.Words.from_le_bytes
verified = refl

generate-search_example :
    generate blake (replicate 8 0) (3 ∷ []) a_subject normal
    ≡ ok (
        Option.map reverse
          (search (passes blake normal (as_bytes a_subject)) (3 ∷ []) (replicate 8 0)))
generate-search_example = generate-search blake normal a_subject (replicate 8 0) (3 ∷ []) refl

generate-verify_example :
    (length some_work ≡ 8) × (verify blake some_work a_subject normal ≡ ok true)
generate-verify_example =
    generate-verify blake normal a_subject (replicate 8 0) (3 ∷ []) some_work refl found

generate_finds_example :
    (randoms : List ℕ) × (work : List ℕ) × (generate blake (replicate 8 5) randoms a_subject normal
      ≡ ok (some work))
generate_finds_example =
    generate_finds blake normal a_subject (replicate 8 0) (replicate 8 5) refl
      (All-replicate IsByte 8 0 (omega arith)) verified refl
      (All-replicate IsByte 8 5 (omega arith))
