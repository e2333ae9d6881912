-- ===== src/Blocks/Link/Laws.antt =====
-- Reading 32 bytes as a hash or as a previous block, and the hash of parts.
use feeless.Common.{
  ℕ, zero, suc, ◌≡◌, refl, sym, true, List, [], ◌∷◌, ok, length, arith, eq→==, Bool-cases, inl, inr,
  if◌then◌else◌, replicate,
}
use feeless.Crypto.{Blake2b}
use feeless.Bytes.Reader.{array}
use feeless.Blocks.Link.{
  Previous, block, open_previous, previous_to_bytes, previous_try_from, is_all_zeros, concat,
  hash_block,
}

pub array_ok : (n : ℕ) (bytes : List ℕ) → length bytes ≡ n → array n bytes ≡ ok bytes
unfolding array
array_ok n bytes h = rw (eq→== _ _ h)

-- The hash of parts always has its 32 bytes.
pub hash_block_ok :
    (h : Blake2b) (parts : List (List ℕ)) → hash_block h parts ≡ ok (h.blake2b 32 (concat parts))
unfolding hash_block
hash_block_ok h parts = rw (array_ok 32 _ (h.length-blake2b 32 (concat parts)))

-- The previous block that 32 bytes name.
abbrev pub previous_of : List ℕ → Previous
previous_of bytes = if is_all_zeros bytes then open_previous else block bytes

pub previous_try_from_ok :
    (bytes : List ℕ) → length bytes ≡ 32 → previous_try_from bytes ≡ ok (previous_of bytes)
unfolding previous_try_from
previous_try_from_ok bytes h = elim (Bool-cases (is_all_zeros bytes)) [
  | inl zeros ↦ rw zeros
  | inr other ↦ rw (other) (rw (array_ok 32 bytes h))
]

pub all_zeros :
    (n : ℕ) (bytes : List ℕ) → length bytes ≡ n → is_all_zeros bytes ≡ true → bytes ≡ replicate n 0
unfolding is_all_zeros
all_zeros zero [] h e = refl
all_zeros zero (b ∷ bytes) h e = absurd (omega arith)
all_zeros (suc n) [] h e = absurd (omega arith)
all_zeros (suc n) (b ∷ bytes) h e = ground (arith, all_zeros n bytes)

-- What is read as a previous block is written back as it was.
previous_of-to_bytes :
    (bytes : List ℕ) → length bytes ≡ 32 → previous_to_bytes (previous_of bytes) ≡ bytes
unfolding previous_to_bytes
previous_of-to_bytes bytes h = elim (Bool-cases (is_all_zeros bytes)) [
  | inl zeros ↦ rw zeros (sym (all_zeros 32 bytes h zeros))
  | inr other ↦ rw other
]
