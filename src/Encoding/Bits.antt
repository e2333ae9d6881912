-- ===== src/Encoding/Bits.antt =====
-- Bytes as bits, most significant bit first: `extend_from_raw_slice` and `into_vec` of a
-- `BitVec<Msb0, u8>`.
use feeless.Common.{
  ℕ, zero, suc, ◌+◌, ◌*◌, ◌/◌, ◌%◌, ◌<◌, ◌≤◌, ◌≡◌, refl, ap, ◌∙◌, Bool, true, false, List, [], ◌∷◌,
  length, arith, ◌==◌, ==_iff,
}
use feeless.Common.Words.{IsBytes}
use feeless.Common.Text.{all_below, all_below_lem}
use feeless.Encoding.{bit}

pub bit-le : (b : Bool) → bit b ≤ 1
bit-le true = omega arith
bit-le false = omega arith

pub digit_is : (x : ℕ) (b : Bool) → x ≡ bit b → (x == 1) ≡ b
digit_is x true e = ground arith
digit_is x false e = ground arith

-- The bits of one byte in front of others.
unfoldable pub push_byte : ℕ → List Bool → List Bool
push_byte v bits =
    (v / 128 % 2 == 1)
    ∷ (v / 64 % 2 == 1)
    ∷ (v / 32 % 2 == 1)
    ∷ (v / 16 % 2 == 1)
    ∷ (v / 8 % 2 == 1)
    ∷ (v / 4 % 2 == 1)
    ∷ (v / 2 % 2 == 1)
    ∷ (v % 2 == 1)
    ∷ bits

unfoldable pub from_raw_slice : List ℕ → List Bool
unfolding push_byte
from_raw_slice [] = []
from_raw_slice (v ∷ bytes) = push_byte v (from_raw_slice bytes)

unfoldable pub load_byte : Bool → Bool → Bool → Bool → Bool → Bool → Bool → Bool → ℕ
load_byte a b c d e f g h =
    128 * bit a + 64 * bit b + 32 * bit c + 16 * bit d + 8 * bit e + 4 * bit f + 2 * bit g + bit h

-- Bits behind the last whole byte fill the front of one more.
unfoldable pub into_vec : List Bool → List ℕ
unfolding load_byte
into_vec [] = []
into_vec (a ∷ b ∷ c ∷ d ∷ e ∷ f ∷ g ∷ h ∷ bits) = load_byte a b c d e f g h ∷ into_vec bits
into_vec (a ∷ b ∷ c ∷ d ∷ e ∷ f ∷ g ∷ []) = load_byte a b c d e f g false ∷ []
into_vec (a ∷ b ∷ c ∷ d ∷ e ∷ f ∷ []) = load_byte a b c d e f false false ∷ []
into_vec (a ∷ b ∷ c ∷ d ∷ e ∷ []) = load_byte a b c d e false false false ∷ []
into_vec (a ∷ b ∷ c ∷ d ∷ []) = load_byte a b c d false false false false ∷ []
into_vec (a ∷ b ∷ c ∷ []) = load_byte a b c false false false false false ∷ []
into_vec (a ∷ b ∷ []) = load_byte a b false false false false false false ∷ []
into_vec (a ∷ []) = load_byte a false false false false false false false ∷ []

pub length-from_raw_slice : (bytes : List ℕ) → length (from_raw_slice bytes) ≡ 8 * length bytes
unfolding from_raw_slice
length-from_raw_slice [] = omega arith
length-from_raw_slice (v ∷ bytes) = omega (arith, length-from_raw_slice bytes)

byte_of : ℕ → ℕ
byte_of v =
    load_byte (v / 128 % 2 == 1) (v / 64 % 2 == 1) (v / 32 % 2 == 1) (v / 16 % 2 == 1)
      (v / 8 % 2 == 1) (v / 4 % 2 == 1) (v / 2 % 2 == 1) (v % 2 == 1)

byte_of_lem : (v : ℕ) → v < 256 → byte_of v ≡ v
byte_of_lem v h =
    (==_iff _ v).0
      (all_below_lem 256 (λ v. byte_of v == v) v (unfold byte_of load_byte all_below in refl) h)

pub into_vec-from_raw_slice :
    (bytes : List ℕ) → IsBytes bytes → into_vec (from_raw_slice bytes) ≡ bytes
unfolding into_vec from_raw_slice byte_of
into_vec-from_raw_slice [] h = refl
into_vec-from_raw_slice (v ∷ bytes) (hv, hs) =
    ap (λ (w : ℕ). w ∷ into_vec (from_raw_slice bytes)) (byte_of_lem v hv)
    ∙ ap (λ (t : List ℕ). v ∷ t) (into_vec-from_raw_slice bytes hs)

push_byte-load_byte :
    (a b c d e f g h : Bool) (bits : List Bool)
    → push_byte (load_byte a b c d e f g h) bits ≡ a ∷ b ∷ c ∷ d ∷ e ∷ f ∷ g ∷ h ∷ bits
unfolding push_byte load_byte
push_byte-load_byte a b c d e f g h bits =
    let la : bit a ≤ 1 = bit-le a in
    let lb : bit b ≤ 1 = bit-le b in
    let lc : bit c ≤ 1 = bit-le c in
    let ld : bit d ≤ 1 = bit-le d in
    let le : bit e ≤ 1 = bit-le e in
    let lf : bit f ≤ 1 = bit-le f in
    let lg : bit g ≤ 1 = bit-le g in
    let lh : bit h ≤ 1 = bit-le h in
    let v =
      128 * bit a
      + 64 * bit b
      + 32 * bit c
      + 16 * bit d
      + 8 * bit e
      + 4 * bit f
      + 2 * bit g
      + bit h in
    rw (
      digit_is (v / 128 % 2) a (omega arith),
      digit_is (v / 64 % 2) b (omega arith),
      digit_is (v / 32 % 2) c (omega arith),
      digit_is (v / 16 % 2) d (omega arith),
      digit_is (v / 8 % 2) e (omega arith),
      digit_is (v / 4 % 2) f (omega arith),
      digit_is (v / 2 % 2) g (omega arith),
      digit_is (v % 2) h (omega arith),
    )

load_byte-lt : (a b c d e f g h : Bool) → load_byte a b c d e f g h < 256
unfolding load_byte
load_byte-lt a b c d e f g h =
    omega (arith, bit-le a, bit-le b, bit-le c, bit-le d, bit-le e, bit-le f, bit-le g, bit-le h)

-- Whole bytes of bits pack into bytes that have those bits.
pub into_vec_whole :
    (n : ℕ) (bits : List Bool)
    → length bits ≡ 8 * n
    → (from_raw_slice (into_vec bits) ≡ bits)
      × (length (into_vec bits) ≡ n)
      × IsBytes (into_vec bits)
unfolding into_vec from_raw_slice
into_vec_whole n [] e = (refl, omega arith, tt)
into_vec_whole zero (a ∷ bits) e = absurd (omega arith)
into_vec_whole (suc n) (a ∷ b ∷ c ∷ d ∷ e ∷ f ∷ g ∷ h ∷ bits) q =
    let (same, long, small) = into_vec_whole n bits (omega arith) in
    (
      push_byte-load_byte a b c d e f g h (from_raw_slice (into_vec bits))
          ∙ ap (λ (t : List Bool). a ∷ b ∷ c ∷ d ∷ e ∷ f ∷ g ∷ h ∷ t) same,
      omega arith,
      (load_byte-lt a b c d e f g h, small),
    )
into_vec_whole (suc n) (a ∷ b ∷ c ∷ d ∷ e ∷ f ∷ g ∷ []) q = absurd (omega arith)
into_vec_whole (suc n) (a ∷ b ∷ c ∷ d ∷ e ∷ f ∷ []) q = absurd (omega arith)
into_vec_whole (suc n) (a ∷ b ∷ c ∷ d ∷ e ∷ []) q = absurd (omega arith)
into_vec_whole (suc n) (a ∷ b ∷ c ∷ d ∷ []) q = absurd (omega arith)
into_vec_whole (suc n) (a ∷ b ∷ c ∷ []) q = absurd (omega arith)
into_vec_whole (suc n) (a ∷ b ∷ []) q = absurd (omega arith)
into_vec_whole (suc n) (a ∷ []) q = absurd (omega arith)
