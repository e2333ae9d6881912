-- ===== src/Keys/Address/Letters.antt =====
-- The characters of an address.
use feeless.Common.{◌≡◌, refl, ℕ, Bool, true, false, ◌&&◌, List, [], ◌∷◌, ◌++◌, arith}
use feeless.Common.Text.{codes}
use feeless.Encoding.{alphabet}
use feeless.Keys.Address.{is_match, all_of, one_of, prefix}

pub both : (a b : Bool) → (a && b) ≡ true → (a ≡ true) × (b ≡ true)
both true b h = (refl, h)
both false b h = cc

one_digit : (x : ℕ) → one_of (codes "13") x ≡ true → one_of alphabet x ≡ true
unfolding one_of
one_digit x h = ground arith

cons_all :
    (class : List ℕ) (d : ℕ) (s : List ℕ)
    → one_of class d ≡ true
    → all_of class s ≡ true
    → all_of class (d ∷ s) ≡ true
unfolding all_of
cons_all class d s first rest = rw (first, rest)

all_cons :
    (class : List ℕ) (d : ℕ) (s : List ℕ) → all_of class (d ∷ s) ≡ true → one_of class d ≡ true
unfolding all_of
all_cons class d s h = (both (one_of class d) (all_of class s) h).0

pub letters_rest :
    (d : ℕ) (part : List ℕ)
    → is_match (prefix ++ (d ∷ part)) ≡ true
    → (one_of (codes "13") d ≡ true) × (all_of alphabet part ≡ true)
unfolding is_match
letters_rest d part h =
    let (start_and_first, rest) = both _ _ h in
    let (_, first) = both _ _ start_and_first in (all_cons (codes "13") d [] first, rest)

-- What stands behind `nano_` is written in the alphabet.
pub letters_lem : (part : List ℕ) → is_match (prefix ++ part) ≡ true → all_of alphabet part ≡ true
letters_lem [] h = unfold all_of in refl
letters_lem (d ∷ part) h =
    let (first, rest) = letters_rest d part h in cons_all alphabet d part (one_digit d first) rest
