-- ===== src/Pow/Work.antt =====
-- src/pow/work.rs: checking and generating work. Work is 8 bytes, a subject 32 bytes.
pub mod Search
use feeless.Common.{
  ℕ, ◌+◌, ◌%◌, ◌<◌, ◌==◌, ltb, Bool, List, [], ◌∷◌, ◌++◌, Option, none, some, Result, ok, err,
  panic, ◌>>=◌, ◌>>◌, Error, unwrap, unwrap_some, reverse, length, take, set, get_elem?,
  if◌then◌else◌,
}
use feeless.Crypto.{Blake2b}
use feeless.Bytes.Reader.{array}
use feeless.Pow.Difficulty.{from_le_slice}

abbrev pub work_len : ℕ
work_len = 8

-- `enum Subject`
pub data Subject : Type 0 where
  hash : List ℕ → Subject
  public : List ℕ → Subject

abbrev pub as_bytes : Subject → List ℕ
as_bytes (hash h) = h
as_bytes (public p) = p

-- `Work::hash`
unfoldable pub hash_work : Blake2b → List ℕ → List ℕ
hash_work h work_and_subject = h.blake2b work_len work_and_subject

unfoldable pub difficulty : Blake2b → List ℕ → Subject → Result ℕ
unfolding hash_work
difficulty h work subject = do
  let reversed_work = reverse work
  let work_and_subject = reversed_work ++ as_bytes subject
  from_le_slice (hash_work h work_and_subject)

unfoldable pub difficulty_block_hash : Blake2b → List ℕ → List ℕ → Result ℕ
unfolding hash_work
difficulty_block_hash h work block_hash = do
  let reversed_work = reverse work
  let work_and_block_hash = reversed_work ++ block_hash
  from_le_slice (hash_work h work_and_block_hash)

unfoldable pub verify : Blake2b → List ℕ → Subject → ℕ → Result Bool
verify h work subject threshold = do d ← difficulty h work subject; ok (ltb threshold d)

-- One round of the loop of `generate`: a random byte picks one of the first 8 bytes, which is
-- incremented and wraps.
unfoldable pub increment : ℕ → List ℕ → Result (List ℕ)
increment random work_and_subject = do
  let idx = random % work_len
  c ← unwrap_some (get_elem? work_and_subject idx)
  ok (set work_and_subject idx (if c == 0xff then 0 else c + 1))

-- The loop, on the random bytes that it draws. `none` means that it is still running when they end.
unfoldable pub generate_loop : Blake2b → ℕ → List ℕ → List ℕ → Result (Option (List ℕ))
generate_loop h threshold [] work_and_subject = ok none
generate_loop h threshold (random ∷ randoms) work_and_subject = do
  next ← increment random work_and_subject
  d ← unwrap (from_le_slice (h.blake2b work_len next))
  let rest = generate_loop h threshold randoms next
  if ltb threshold d then ok (some next) else rest

-- `Work::generate`, with the bytes that `fill_bytes` gives and those that the loop draws.
unfoldable pub generate : Blake2b → List ℕ → List ℕ → Subject → ℕ → Result (Option (List ℕ))
unfolding array
generate h initial randoms subject threshold = do
  found ← generate_loop h threshold randoms (initial ++ as_bytes subject)
  elim found [
    | none ↦ ok none
    | some work_and_subject ↦ do
      let work_bytes = reverse (take work_len work_and_subject)
      work ← unwrap (array work_len work_bytes)
      ok (some work)
  ]
