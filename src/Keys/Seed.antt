-- ===== src/Keys/Seed.antt =====
-- src/keys/seed.rs: a seed of 32 bytes, from which keys are derived by their index.
use feeless.Common.{ℕ, ◌≡◌, List, ◌++◌, Result, ok, unwrap}
use feeless.Common.Words.{to_be_bytes}
use feeless.Crypto.{Blake2b}
use feeless.Bytes.Reader.{array}
use feeless.Keys.Public.{private_len}
use feeless.Blocks.Link.Laws.{array_ok}

abbrev pub seed_len : ℕ
seed_len = 32

-- `Seed::derive`, with its `expect`: the index is a `u32`.
unfoldable pub derive : Blake2b → List ℕ → ℕ → Result (List ℕ)
derive h seed index = unwrap (array private_len (h.blake2b seed_len (seed ++ to_be_bytes 4 index)))

pub derive_ok :
    (h : Blake2b) (seed : List ℕ) (index : ℕ)
    → derive h seed index ≡ ok (h.blake2b 32 (seed ++ to_be_bytes 4 index))
unfolding derive
derive_ok h seed index = rw (
    array_ok 32 (h.blake2b 32 (seed ++ to_be_bytes 4 index))
      (h.length-blake2b 32 (seed ++ to_be_bytes 4 index)))
