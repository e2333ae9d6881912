-- ===== src/Bytes/Layout.antt =====
-- What the calls on a cursor read. A cursor stands for the bytes behind its offset, so a chain of
-- calls reads the fields of a layout one after the other.
use feeless.Common.{
  ℕ, zero, suc, ◌+◌, ◌-◌, ◌%◌, ◌≤◌, ◌<◌, ◌^◌, ◌≡◌, refl, List, [], ◌∷◌, ok, err, Error, Result,
  some, length, take, drop, get_elem?, arith, length-take, length-drop, eq→==, ltb-false, lt→ltb,
}
use feeless.Bytes.{Bytes, slice, u8, u64_mod}
use feeless.Bytes.Reader.{Reader, ◌>>=◌, lift, run, array, field}

-- A Rust slice has fewer than 2 ^ 63 bytes.
abbrev pub IsSlice : List ℕ → Type 0
IsSlice bytes = length bytes < 2 ^ 63

-- A cursor over `bytes` at `offset`, and the `n` bytes that stand there.
abbrev pub cursor : List ℕ → ℕ → Bytes
cursor bytes offset = record { bytes = bytes; offset = offset }

abbrev pub segment : List ℕ → ℕ → ℕ → List ℕ
segment bytes offset n = take n (drop offset bytes)

pub length-segment :
    (bytes : List ℕ) (offset n : ℕ)
    → offset + n ≤ length bytes
    → length (segment bytes offset n) ≡ n
length-segment bytes offset n h =
    omega (arith, length-take n (drop offset bytes), length-drop offset bytes)

module _ (bytes : List ℕ) (offset : ℕ) where
  slice_ok :
      (n : ℕ)
      → IsSlice bytes
      → offset + n ≤ length bytes
      → slice n (cursor bytes offset) ≡ ok (segment bytes offset n, cursor bytes (offset + n))
  unfolding slice
  slice_ok n short h =
      let e : (offset + n) % u64_mod ≡ offset + n = omega arith in
      let e' : offset + n - offset ≡ n = omega arith in
      rw e (
        rw (ltb-false (length bytes) (offset + n) h)
          (rw (ltb-false (offset + n) offset (omega arith)) (rw e')))

  pub slice_past_end :
      (n : ℕ)
      → offset ≤ length bytes
      → IsSlice bytes
      → n < 2 ^ 63
      → length bytes < offset + n
      → slice n (cursor bytes offset) ≡ err Error.slice_past_end
  unfolding slice
  slice_past_end n within short small h =
      let e : (offset + n) % u64_mod ≡ offset + n = omega arith in
      rw e (rw (lt→ltb (length bytes) (offset + n) h))

  pub field_ok :
      (n : ℕ)
      → IsSlice bytes
      → offset + n ≤ length bytes
      → field n (cursor bytes offset) ≡ ok (segment bytes offset n, cursor bytes (offset + n))
  unfolding field array
  field_ok n short h =
      rw (slice_ok n short h, ◌>>=◌) (rw (eq→== _ _ (length-segment bytes offset n h)))

  -- One step of a chain of calls.
  pub field_then :
      {A : Type 0} (n : ℕ) (f : List ℕ → Reader A)
      → IsSlice bytes
      → offset + n ≤ length bytes
      → (field n >>= f) (cursor bytes offset)
        ≡ f (segment bytes offset n) (cursor bytes (offset + n))
  field_then n f short h = rw (field_ok n short h, ◌>>=◌)

  pub slice_then :
      {A : Type 0} (n : ℕ) (f : List ℕ → Reader A)
      → IsSlice bytes
      → offset + n ≤ length bytes
      → (slice n >>= f) (cursor bytes offset)
        ≡ f (segment bytes offset n) (cursor bytes (offset + n))
  slice_then n f short h = rw (slice_ok n short h, ◌>>=◌)

  field_past_end :
      {A : Type 0} (n : ℕ) (f : List ℕ → Reader A)
      → offset ≤ length bytes
      → IsSlice bytes
      → n < 2 ^ 63
      → length bytes < offset + n
      → (field n >>= f) (cursor bytes offset) ≡ err Error.slice_past_end
  unfolding field
  field_past_end n f within short small h = rw (slice_past_end n within short small h, ◌>>=◌)

byte_at :
    (bytes : List ℕ) (i : ℕ)
    → i < length bytes
    → (b : ℕ) × (get_elem? bytes i ≡ some b) × (segment bytes i 1 ≡ b ∷ [])
byte_at [] i h = absurd (omega arith)
byte_at (x ∷ xs) zero h = (x, refl, refl)
byte_at (x ∷ xs) (suc i) h = byte_at xs i (omega arith)

abbrev pub head : List ℕ → ℕ
head [] = 0
head (x ∷ xs) = x

pub u8_then :
    (bytes : List ℕ) (offset : ℕ) {A : Type 0} (f : ℕ → Reader A)
    → IsSlice bytes
    → offset + 1 ≤ length bytes
    → (u8 >>= f) (cursor bytes offset)
      ≡ f (head (segment bytes offset 1)) (cursor bytes (offset + 1))
unfolding u8
u8_then bytes offset f short h =
    let (b, there, alone) = byte_at bytes offset (omega arith) in
    let e : (offset + 1) % u64_mod ≡ offset + 1 = omega arith in
    rw (e, ◌>>=◌) (rw (ltb-false (length bytes) (offset + 1) h) (rw (there, alone)))

-- `n` items of `size` bytes each, from `offset` on.
abbrev pub segments : List ℕ → ℕ → ℕ → ℕ → List (List ℕ)
segments bytes offset size zero = []
segments bytes offset size (suc n) =
    segment bytes offset size ∷ segments bytes (offset + size) size n

-- A call that does not touch the cursor.
pub lift_then :
    {A B : Type 0} {r : Result A} {a : A} (f : A → Reader B) (b : Bytes)
    → r ≡ ok a
    → (lift r >>= f) b ≡ f a b
lift_then f b e = rw e

pub run_ok :
    {A : Type 0} (read : Reader A) (bytes : List ℕ) {a : A} {b : Bytes}
    → read (cursor bytes 0) ≡ ok (a, b)
    → run read bytes ≡ ok a
unfolding run
run_ok read bytes e = rw (e, run)

run_err :
    {A : Type 0} (read : Reader A) (bytes : List ℕ) {e : Error}
    → read (cursor bytes 0) ≡ err e
    → run read bytes ≡ err e
unfolding run
run_err read bytes h = rw (h, run)

pub bind_then :
    {A B : Type 0} (m : Reader A) (b : Bytes) {a : A} {b' : Bytes} (f : A → Reader B)
    → m b ≡ ok (a, b')
    → (m >>= f) b ≡ f a b'
bind_then m b f e = rw (e, ◌>>=◌)
