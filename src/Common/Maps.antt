-- ===== src/Common/Maps.antt =====
-- `HashMap` and `HashSet` of the Rust standard library, as association lists and lists over a key
-- type with a Boolean equality. A map holds the newest entry of a key first.
use feeless.Common.Tests.{if◌then◌else◌, Bool-cases, ◌==◌, ==_iff}
use Prim.Native.Nat.{ℕ}
use mathlib.Core.Path.{◌≡◌, refl, ◌∙◌}
use mathlib.Core.Logic.{◌↔◌, inl, inr}
use mathlib.Core.Bool.{Bool, true, false, ◌||◌, ◌&&◌}
use mathlib.Core.Option.{Option, none, some}
use mathlib.Core.List.{List, [], ◌∷◌}
use native.Mathlib.Omega.{arith}

-- `Eq` and `Hash` of a key type.
pub record Eq {ℓ} (K : Type ℓ) : Type ℓ where
  pub matches : K → K → Bool
  pub matches_iff : (j k : K) → (matches j k ≡ true) ↔ (j ≡ k)

-- Equality of byte arrays.
unfoldable pub list_eq : List ℕ → List ℕ → Bool
list_eq [] [] = true
list_eq [] (y ∷ ys) = false
list_eq (x ∷ xs) [] = false
list_eq (x ∷ xs) (y ∷ ys) = x == y && list_eq xs ys

pub list_eq_refl : (xs : List ℕ) → list_eq xs xs ≡ true
unfolding list_eq
list_eq_refl [] = refl
list_eq_refl (x ∷ xs) = ground (arith, list_eq_refl xs)

pub list_eq→eq : (xs ys : List ℕ) → list_eq xs ys ≡ true → xs ≡ ys
unfolding list_eq
list_eq→eq [] [] h = refl
list_eq→eq [] (y ∷ ys) h = cc
list_eq→eq (x ∷ xs) [] h = cc
list_eq→eq (x ∷ xs) (y ∷ ys) h = ground (arith, list_eq→eq xs ys)

pub list_eq_iff : (xs ys : List ℕ) → (list_eq xs ys ≡ true) ↔ (xs ≡ ys)
list_eq_iff xs ys = (list_eq→eq xs ys, λ e. rw e (list_eq_refl ys))

instance abbrev pub bytes_eq : Eq (List ℕ)
bytes_eq = record { matches = list_eq; matches_iff = list_eq_iff }

instance abbrev pub number_eq : Eq ℕ
number_eq = record { matches = ◌==◌; matches_iff = ==_iff }

module _ {ℓ} {K : Type ℓ} ⦃e : Eq K⦄ where
  pub beq_refl : (k : K) → e.matches k k ≡ true
  beq_refl k = (e.matches_iff k k).1 refl

  pub beq_false : (j k : K) → ¬ (j ≡ k) → e.matches j k ≡ false
  beq_false j k h = elim (Bool-cases (e.matches j k)) [
    | inl same ↦ absurd (h ((e.matches_iff j k).0 same))
    | inr other ↦ other
  ]

abbrev pub Map {ℓ κ} : Type ℓ → Type κ → Type (ℓ ⊔ κ)
Map K V = List (K × V)

module _ {ℓ κ} {K : Type ℓ} {V : Type κ} ⦃e : Eq K⦄ where
  unfoldable pub get : K → Map K V → Option V
  get k [] = none
  get k ((j, v) ∷ m) = if e.matches j k then some v else get k m

  unfoldable pub insert : K → V → Map K V → Map K V
  insert k v m = (k, v) ∷ m

  unfoldable pub remove : K → Map K V → Map K V
  remove k [] = []
  remove k ((j, v) ∷ m) = if e.matches j k then remove k m else (j, v) ∷ remove k m

  pub get-insert :
      (k j : K) (v : V) (m : Map K V)
      → get k (insert j v m) ≡ (if e.matches j k then some v else get k m)
  unfolding get insert
  get-insert k j v m = refl

  pub get-insert_self : (k : K) (v : V) (m : Map K V) → get k (insert k v m) ≡ some v
  unfolding get insert
  get-insert_self k v m = rw (beq_refl k)

  pub get-insert_ne : (k j : K) (v : V) (m : Map K V) → ¬ (j ≡ k) → get k (insert j v m) ≡ get k m
  get-insert_ne k j v m h = get-insert k j v m ∙ rw (beq_false j k h)

  pub get-remove_self : (k : K) (m : Map K V) → get k (remove k m) ≡ none
  unfolding get remove
  get-remove_self k [] = refl
  get-remove_self k ((j, v) ∷ m) = elim (Bool-cases (e.matches j k)) [
    | inl same ↦ rw same (get-remove_self k m)
    | inr other ↦ rw (other, other) (get-remove_self k m)
  ]

  pub get-remove_ne : (k j : K) (m : Map K V) → ¬ (j ≡ k) → get k (remove j m) ≡ get k m
  unfolding get remove
  get-remove_ne k j [] h = refl
  get-remove_ne k j ((i, v) ∷ m) h = elim (Bool-cases (e.matches i j)) [
    | inl same ↦
        let apart : e.matches i k ≡ false = rw ((e.matches_iff i j).0 same) (beq_false j k h) in
        rw (same, apart) (get-remove_ne k j m h)
    | inr other ↦ rw other (ground (arith, get-remove_ne k j m h))
  ]

  pub get-remove :
      (k j : K) (m : Map K V) → get k (remove j m) ≡ (if e.matches j k then none else get k m)
  get-remove k j m = elim (Bool-cases (e.matches j k)) [
    | inl same ↦
        let eq : j ≡ k = (e.matches_iff j k).0 same in rw same (rw eq (get-remove_self k m))
    | inr other ↦
        let apart : ¬ (j ≡ k) = λ eq. ground (arith, (e.matches_iff j k).1 eq) in
        rw other (get-remove_ne k j m apart)
  ]

module _ {ℓ} {K : Type ℓ} ⦃e : Eq K⦄ where
  unfoldable pub contains : K → List K → Bool
  contains k [] = false
  contains k (j ∷ s) = e.matches j k || contains k s

  unfoldable pub add : K → List K → List K
  unfolding contains
  add k s = if contains k s then s else k ∷ s

  pub contains-add_self : (k : K) (s : List K) → contains k (add k s) ≡ true
  unfolding add
  contains-add_self k s = elim (Bool-cases (contains k s)) [
    | inl old ↦ rw old old
    | inr new ↦ rw (new, beq_refl k)
  ]

  pub contains-add_ne : (k j : K) (s : List K) → ¬ (j ≡ k) → contains k (add j s) ≡ contains k s
  unfolding add
  contains-add_ne k j s h = elim (Bool-cases (contains j s)) [
    | inl old ↦ rw old
    | inr new ↦ rw (new, beq_false j k h)
  ]

  pub contains-add : (k j : K) (s : List K) → contains k (add j s) ≡ (e.matches j k || contains k s)
  contains-add k j s = elim (Bool-cases (e.matches j k)) [
    | inl same ↦
        let eq : j ≡ k = (e.matches_iff j k).0 same in rw (same, eq) (contains-add_self k s)
    | inr other ↦
        let apart : ¬ (j ≡ k) = λ eq. ground (arith, (e.matches_iff j k).1 eq) in
        rw other (contains-add_ne k j s apart)
  ]
