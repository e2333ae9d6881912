-- ===== src/Tests/Instances.antt =====
-- Stand-ins for the crates that the program calls: each is a concrete function with the facts that
-- the code relies on, so that the theorems can be run.
use feeless.Common.{
  ℕ, ◌+◌, ◌*◌, ◌-◌, ◌<◌, ◌≡◌, refl, true, List, [], ◌∷◌, Option, none, some, replicate, ltb,
  if◌then◌else◌, arith, length-replicate, All-replicate,
}
use feeless.Common.Words.{IsByte}
use feeless.Common.Maps.{list_eq, list_eq_refl}
use feeless.Encoding.{hex_digit}
use feeless.Crypto.{Blake2b, Ed25519}
use feeless.Hexify.{Hex}

-- A hash whose bytes are all 255.
abbrev pub blake : Blake2b
blake = record {
  blake2b = λ size input. replicate size 255;
  length-blake2b = λ size input. length-replicate size 255;
  blake2b-IsBytes = λ size input. All-replicate IsByte size 255 (omega arith);
}

-- One key, and one signature of every message.
abbrev pub the_key : List ℕ
the_key = replicate 32 4

abbrev pub the_signature : List ℕ
the_signature = replicate 64 9

abbrev pub curve : Ed25519
curve = record {
  is_public_key = λ key. list_eq key the_key;
  verify = λ key message signature. list_eq signature the_signature;
  public_key = λ secret. the_key;
  sign = λ secret message. the_signature;
  length-public_key = λ secret. refl;
  public_key-IsBytes = λ secret. All-replicate IsByte 32 4 (omega arith);
  is_public_key-public_key = λ secret. list_eq_refl the_key;
  length-sign = λ secret message. refl;
  sign-IsBytes = λ secret message. All-replicate IsByte 64 9 (omega arith);
  verify-sign = λ secret message. list_eq_refl the_signature;
}

-- The value of a hexadecimal digit of either case.
unfoldable pub hex_value : ℕ → Option ℕ
hex_value c =
    if ltb c 48
    then none
    else if ltb c 58
    then some (c - 48)
    else if ltb c 65
    then none
    else if ltb c 71
    then some (c - 55)
    else if ltb c 97
    then none
    else if ltb c 103
    then some (c - 87)
    else none

unfoldable join : Option ℕ → Option ℕ → Option (List ℕ) → Option (List ℕ)
join (some v) (some w) (some bytes) = some ((16 * v + w) ∷ bytes)
join _ _ _ = none

unfoldable pub decode : List ℕ → Option (List ℕ)
unfolding hex_value join
decode [] = some []
decode (c ∷ []) = none
decode (c ∷ d ∷ s) = join (hex_value c) (hex_value d) (decode s)

pub upper : (v : ℕ) → v < 16 → hex_value (hex_digit 55 v) ≡ some v
unfolding hex_value
upper v h = ground arith

pub lower : (v : ℕ) → v < 16 → hex_value (hex_digit 87 v) ≡ some v
unfolding hex_value
lower v h = ground arith

pub decode_two :
    (c d v w : ℕ) (s bytes : List ℕ)
    → hex_value c ≡ some v
    → hex_value d ≡ some w
    → decode s ≡ some bytes
    → decode (c ∷ d ∷ s) ≡ some ((16 * v + w) ∷ bytes)
unfolding decode join
decode_two c d v w s bytes hc hd e = rw (hc, hd, e)

pub decode_empty : decode [] ≡ some []
unfolding decode
decode_empty = refl

abbrev pub hex : Hex
hex = record {
  decode = decode;
  decode-nil = decode_empty;
  decode_upper = λ v w s bytes hv hw e.
      decode_two (hex_digit 55 v) (hex_digit 55 w) v w s bytes (upper v hv) (upper w hw) e;
  decode_lower = λ v w s bytes hv hw e.
      decode_two (hex_digit 87 v) (hex_digit 87 w) v w s bytes (lower v hv) (lower w hw) e;
}

-- Signatures that all verify, so that the signature of the genesis block does.
abbrev pub open_curve : Ed25519
open_curve = record {
  is_public_key = λ key. true;
  verify = λ key message signature. true;
  public_key = λ secret. the_key;
  sign = λ secret message. the_signature;
  length-public_key = λ secret. refl;
  public_key-IsBytes = λ secret. All-replicate IsByte 32 4 (omega arith);
  is_public_key-public_key = λ secret. refl;
  length-sign = λ secret message. refl;
  sign-IsBytes = λ secret message. All-replicate IsByte 64 9 (omega arith);
  verify-sign = λ secret message. refl;
}
