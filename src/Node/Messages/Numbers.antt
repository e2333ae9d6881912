-- ===== src/Node/Messages/Numbers.antt =====
-- Numbers of a fixed width on the wire: `s64.copy_from_slice(bytes.slice(8)?)` and then
-- `u64::from_be_bytes(s64)`; and reading several items of one size.
use feeless.Common.{
  ℕ, zero, suc, ◌+◌, ◌*◌, ◌≤◌, ◌≡◌, ap, ◌∙◌, List, [], ◌∷◌, map, Result, ok, panic, length, arith,
  ◌==◌, if◌then◌else◌, eq→==,
}
use feeless.Bytes.{slice}
use feeless.Bytes.Reader.{Reader, ◌>>=◌, pure, lift, repeat}
use feeless.Bytes.Layout.{
  IsSlice, cursor, segment, segments, length-segment, slice_then, lift_then, bind_then,
}

-- It panics where the lengths differ.
unfoldable pub copy_from_slice : ℕ → List ℕ → Result (List ℕ)
copy_from_slice size v = if length v == size then ok v else panic

unfoldable pub number : (List ℕ → ℕ) → ℕ → Reader ℕ
number from size = do v ← slice size; s ← lift (copy_from_slice size v); pure (from s)

copy_from_slice_ok : (size : ℕ) (v : List ℕ) → length v ≡ size → copy_from_slice size v ≡ ok v
unfolding copy_from_slice
copy_from_slice_ok size v h = rw (eq→== _ _ h)

number_ok :
    (from : List ℕ → ℕ) (bytes : List ℕ) (offset size : ℕ)
    → IsSlice bytes
    → offset + size ≤ length bytes
    → number from size (cursor bytes offset)
      ≡ ok (from (segment bytes offset size), cursor bytes (offset + size))
unfolding number
number_ok from bytes offset size short h =
    slice_then bytes offset size _ short h
    ∙ lift_then _ _ (copy_from_slice_ok size _ (length-segment bytes offset size h))

pub number_then :
    (from : List ℕ → ℕ) (bytes : List ℕ) (offset : ℕ) {A : Type 0} (size : ℕ) (f : ℕ → Reader A)
    → IsSlice bytes
    → offset + size ≤ length bytes
    → (number from size >>= f) (cursor bytes offset)
      ≡ f (from (segment bytes offset size)) (cursor bytes (offset + size))
number_then from bytes offset size f short h =
    bind_then (number from size) (cursor bytes offset) f (number_ok from bytes offset size short h)

-- Items of one size are read one behind the other.
pub repeat_ok :
    {A : Type 0} (bytes : List ℕ) (size : ℕ) (read : Reader A) (value : List ℕ → A)
    → ((o : ℕ)
        → o + size ≤ length bytes
        → read (cursor bytes o) ≡ ok (value (segment bytes o size), cursor bytes (o + size)))
    → (n offset : ℕ) → offset + n * size ≤ length bytes
    → repeat n read (cursor bytes offset)
      ≡ ok (map value (segments bytes offset size n), cursor bytes (offset + n * size))
unfolding repeat
repeat_ok bytes size read value item zero offset h =
    let e : offset ≡ offset + 0 * size = omega arith in ap (λ (k : ℕ). ok ([], cursor bytes k)) e
repeat_ok bytes size read value item (suc n) offset h =
    let e : offset + size + n * size ≡ offset + suc n * size = omega arith in
    bind_then read (cursor bytes offset) _ (item offset (omega arith))
    ∙ bind_then (repeat n read) (cursor bytes (offset + size)) _
        (repeat_ok bytes size read value item n (offset + size) (omega arith))
    ∙ ap
        (λ (k : ℕ). ok (
          value (segment bytes offset size) ∷ map value (segments bytes (offset + size) size n),
          cursor bytes k,
        ))
        e
