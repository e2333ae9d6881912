-- ===== src/Crypto.antt =====
-- The cryptography that the program calls and does not implement: the `blake2` crate and the
-- vendored `ed25519-dalek`. Each is a record of functions with the documented facts the code relies
-- on. Every byte string is a list of numbers.
use feeless.Common.{ℕ, ◌≡◌, Bool, true, List, length}
use feeless.Common.Words.{IsBytes}

-- `blake2b(size, data)` of src/encoding.rs, over `VarBlake2b`.
pub record Blake2b : Type 0 where
  pub blake2b : ℕ → List ℕ → List ℕ
  pub length-blake2b : (size : ℕ) (input : List ℕ) → length (blake2b size input) ≡ size
  pub blake2b-IsBytes : (size : ℕ) (input : List ℕ) → IsBytes (blake2b size input)

-- `PublicKey::from_bytes` succeeds on what is the point of a key; a secret key is any 32 bytes.
pub record Ed25519 : Type 0 where
  pub is_public_key : List ℕ → Bool
  pub verify : List ℕ → List ℕ → List ℕ → Bool
  pub public_key : List ℕ → List ℕ
  pub sign : List ℕ → List ℕ → List ℕ
  pub length-public_key : (secret : List ℕ) → length (public_key secret) ≡ 32
  pub public_key-IsBytes : (secret : List ℕ) → IsBytes (public_key secret)
  pub is_public_key-public_key : (secret : List ℕ) → is_public_key (public_key secret) ≡ true
  pub length-sign : (secret message : List ℕ) → length (sign secret message) ≡ 64
  pub sign-IsBytes : (secret message : List ℕ) → IsBytes (sign secret message)
  pub verify-sign :
      (secret message : List ℕ) → verify (public_key secret) message (sign secret message) ≡ true
