-- ===== src/Blocks/StateBlock/LinkType.antt =====
-- What `set_link_type` decides, and what it leaves alone.
use feeless.Common.{
  ℕ, ◌≡◌, refl, ap, ◌∙◌, Bool, true, false, List, Option, some, ok, length, Bool-cases, inl, inr,
  if◌then◌else◌, sym,
}
use feeless.Blocks.Link.{
  Link, nothing, unsure, source, destination_account, link_as_bytes, is_all_zeros,
}
use feeless.Blocks.Link.Laws.{array_ok, all_zeros}
use feeless.Blocks.StateBlock.{StateBlock, set_link, set_link_type, hash_parts}

-- The link that 32 bytes of an unsure link become.
abbrev pub decided : Bool → List ℕ → Link
decided is_send bytes =
    if is_send
    then destination_account bytes
    else if is_all_zeros bytes
    then nothing
    else source bytes

abbrev pub decided_amount : Bool → List ℕ → ℕ → Option ℕ → Option ℕ
decided_amount is_send bytes amount before =
    if is_send then some amount else if is_all_zeros bytes then before else some amount

decided-link_as_bytes :
    (is_send : Bool) (bytes : List ℕ)
    → length bytes ≡ 32
    → link_as_bytes (decided is_send bytes) ≡ bytes
unfolding link_as_bytes
decided-link_as_bytes true bytes n = refl
decided-link_as_bytes false bytes n = elim (Bool-cases (is_all_zeros bytes)) [
  | inl zeros ↦ rw zeros (sym (all_zeros 32 bytes n zeros))
  | inr other ↦ rw other
]

pub set_unsure :
    (is_send : Bool) (amount : ℕ) (b : StateBlock) (bytes : List ℕ)
    → length bytes ≡ 32
    → set_link is_send amount b (unsure bytes)
      ≡ ok (record b {
        link = decided is_send bytes;
        amount = decided_amount is_send bytes amount b.amount;
      })
unfolding set_link
set_unsure true amount b bytes n = rw (array_ok 32 bytes n)
set_unsure false amount b bytes n = elim (Bool-cases (is_all_zeros bytes)) [
  | inl zeros ↦ rw zeros
  | inr other ↦ rw other (rw (array_ok 32 bytes n))
]

set_decided :
    (is_send again : Bool) (amount : ℕ) (b : StateBlock) (bytes : List ℕ)
    → set_link again amount b (decided is_send bytes) ≡ ok b
unfolding set_link
set_decided true again amount b bytes = refl
set_decided false again amount b bytes = elim (Bool-cases (is_all_zeros bytes)) [
  | inl zeros ↦ rw zeros
  | inr other ↦ rw other
]

abbrev parts : StateBlock → List (List ℕ)
parts b = hash_parts b.account b.previous b.representative b.balance b.link

same_parts :
    (b : StateBlock) (link : Link)
    → link_as_bytes link ≡ link_as_bytes b.link
    → hash_parts b.account b.previous b.representative b.balance link ≡ parts b
unfolding hash_parts
same_parts b link e = rw e

-- On a block whose link is unsure the link becomes a destination for a send, nothing for 32 zeros
-- and a source otherwise, and the amount is kept unless the link becomes nothing. The bytes that
-- the block hashes and its hash stay the same, and a further call, whatever it is told, does nothing.
-- This is without the assertion that a debug build makes where the link becomes nothing, that the
-- amount is 0: there an amount that is not 0 is dropped.
pub set_link_type_lem :
    (is_send : Bool) (amount : ℕ) (b : StateBlock) (bytes : List ℕ)
    → b.link ≡ unsure bytes
    → length bytes ≡ 32
    → (b' : StateBlock) × (set_link_type is_send amount b ≡ ok b')
      × (b'.link ≡ decided is_send bytes)
      × (b'.amount ≡ decided_amount is_send bytes amount b.amount)
      × (parts b' ≡ parts b)
      × (b'.hash ≡ b.hash)
      × ((again : Bool) (other : ℕ) → set_link_type again other b' ≡ ok b')
unfolding set_link_type link_as_bytes
set_link_type_lem is_send amount b bytes e n =
    let b' : StateBlock = record b {
      link = decided is_send bytes;
      amount = decided_amount is_send bytes amount b.amount;
    } in
    (
      b',
      ap (set_link is_send amount b) e ∙ set_unsure is_send amount b bytes n,
      refl,
      refl,
      same_parts b (decided is_send bytes)
          (decided-link_as_bytes is_send bytes n ∙ sym (ap link_as_bytes e)),
      refl,
      λ again other. set_decided is_send again other b' bytes,
    )
