-- ===== src/Bytes/Reader.antt =====
-- A deserializer is a chain of calls on one cursor, such as `Public::try_from(data.slice(32)?)?`.
use feeless.Common.{
  ℕ, zero, suc, List, [], ◌∷◌, Error, Result, ok, err, panic, length, ◌==◌, if◌then◌else◌,
}
use feeless.Bytes.{Bytes, slice, new}

abbrev pub Reader : Type 0 → Type 0
Reader A = Bytes → Result (A × Bytes)

infixl 5 ◌>>=◌ ◌>>◌
abbrev pub ◌>>=◌ : {A B : Type 0} → Reader A → (A → Reader B) → Reader B
◌>>=◌ m f b = elim (m b) [ ok (a, b') ↦ f a b' | err e ↦ err e | panic ↦ panic ]

abbrev pub ◌>>◌ : {A B : Type 0} → Reader A → Reader B → Reader B
m >> k = m >>= λ _. k

abbrev pub pure : {A : Type 0} → A → Reader A
pure a b = ok (a, b)

-- A call that does not touch the cursor, with its `?`.
abbrev pub lift : {A : Type 0} → Result A → Reader A
lift r b = elim r [ ok a ↦ ok (a, b) | err e ↦ err e | panic ↦ panic ]

-- `<[u8; LEN]>::try_from(v)?`, as `hexify!` writes `TryFrom<&[u8]>` for each newtype of bytes.
unfoldable pub array : ℕ → List ℕ → Result (List ℕ)
array len v = if length v == len then ok v else err Error.try_from_slice_error

-- `T::try_from(data.slice(T::LEN)?)?` for a newtype of `LEN` bytes.
unfoldable pub field : ℕ → Reader (List ℕ)
field len = do v ← slice len; lift (array len v)

-- `for _ in 0..n { v.push(read()?) }`
unfoldable pub repeat : {A : Type 0} → ℕ → Reader A → Reader (List A)
repeat zero read = pure []
repeat (suc n) read = do a ← read; rest ← repeat n read; pure (a ∷ rest)

-- The value of a deserializer that begins at the front of `input`.
unfoldable pub run : {A : Type 0} → Reader A → List ℕ → Result A
unfolding new
run read input = elim (read (new input)) [ ok (a, b) ↦ ok a | err e ↦ err e | panic ↦ panic ]
