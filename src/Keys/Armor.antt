-- ===== src/Keys/Armor.antt =====
-- src/keys/armor.rs: a signed message with its address and signature, as a text of seven lines. A text
-- is the list of its code points.
pub mod Lines
pub mod RoundTrip
use feeless.Common.{
  ℕ, ◌+◌, ◌/◌, ◌%◌, ◌≡◌, Bool, true, false, ◌||◌, ◌&&◌, not, List, [], ◌∷◌, ◌++◌, reverse, Option,
  none, some, Result, ok, err, panic, ◌>>=◌, ◌>>◌, Error, fail_if, ok_or, unwrap, ltb, leb, ◌==◌,
  if◌then◌else◌,
}
use feeless.Common.Maps.{list_eq}
use feeless.Common.Text.{codes}
use feeless.Crypto.{Blake2b, Ed25519}
use feeless.Hexify.{Hex, as_hex}
use feeless.Hexify as Hexify
use feeless.Keys.Public
use feeless.Keys.Public.{signature_len}
use feeless.Keys.Address
use feeless.Keys.Address.{extract_public_key}

pub record Armor : Type 0 where
  pub message : List ℕ
  pub address : List ℕ
  pub signature : List ℕ

abbrev pub begin_message : List ℕ
begin_message = codes "-----BEGIN NANO SIGNED MESSAGE-----"

abbrev pub begin_address : List ℕ
begin_address = codes "-----BEGIN NANO ADDRESS-----"

abbrev pub begin_signature : List ℕ
begin_signature = codes "-----BEGIN NANO SIGNATURE-----"

abbrev pub end_signature : List ℕ
end_signature = codes "-----END NANO SIGNATURE-----"

unfoldable pub new : List ℕ → List ℕ → List ℕ → Armor
new message address signature = record {
  message = message;
  address = address;
  signature = signature;
}

-- `str::as_bytes` of one character: its UTF-8 bytes.
unfoldable pub utf8_char : ℕ → List ℕ
utf8_char c =
    if ltb c 0x80
    then c ∷ []
    else if ltb c 0x800
    then (0xC0 + c / 64) ∷ (0x80 + c % 64) ∷ []
    else if ltb c 0x10000
    then (0xE0 + c / 4096) ∷ (0x80 + c / 64 % 64) ∷ (0x80 + c % 64) ∷ []
    else (0xF0 + c / 262144) ∷ (0x80 + c / 4096 % 64) ∷ (0x80 + c / 64 % 64) ∷ (0x80 + c % 64) ∷ []

unfoldable pub as_bytes : List ℕ → List ℕ
unfolding utf8_char
as_bytes [] = []
as_bytes (c ∷ s) = utf8_char c ++ as_bytes s

-- `Armor::verify`, with the `unwrap` of `to_public`.
unfoldable pub verify : Ed25519 → Armor → Result (Unit {0})
unfolding as_bytes
verify c a = do
  public ← unwrap (extract_public_key a.address)
  Public.verify c public (as_bytes a.message) a.signature

-- `Display`
unfoldable pub to_string : Armor → List ℕ
to_string a =
    begin_message
    ++ (10
        ∷ (a.message
            ++ (10
                ∷ (begin_address
                    ++ (10
                        ∷ (a.address
                            ++ (10
                                ∷ (begin_signature
                                    ++ (10 ∷ (as_hex a.signature ++ (10 ∷ end_signature)))))))))))

-- `char::is_whitespace`
unfoldable pub is_whitespace : ℕ → Bool
is_whitespace c =
    (ltb 8 c && ltb c 14)
    || (c == 32)
    || (c == 0x85)
    || (c == 0xA0)
    || (c == 0x1680)
    || (leb 0x2000 c && leb c 0x200A)
    || (c == 0x2028)
    || (c == 0x2029)
    || (c == 0x202F)
    || (c == 0x205F)
    || (c == 0x3000)

unfoldable pub trim_start : List ℕ → List ℕ
unfolding is_whitespace
trim_start [] = []
trim_start (c ∷ s) = let rest = trim_start s in if is_whitespace c then rest else c ∷ s

-- `str::trim`
unfoldable pub trim : List ℕ → List ℕ
unfolding trim_start
trim s = reverse (trim_start (reverse (trim_start s)))

abbrev pub push : ℕ → List (List ℕ) → List (List ℕ)
push c [] = (c ∷ []) ∷ []
push c (line ∷ lines) = (c ∷ line) ∷ lines

-- `str::split("\n")`
unfoldable pub split : List ℕ → List (List ℕ)
split [] = [] ∷ []
split (c ∷ s) = let rest = split s in if c == 10 then [] ∷ rest else push c rest

-- `Iterator::next`, and what is left.
abbrev pub next : List (List ℕ) → Option (List ℕ) × List (List ℕ)
next [] = (none, [])
next (line ∷ lines) = (some line, lines)

unfoldable pub decode_static : List ℕ → Option (List ℕ) → Result (Unit {0})
unfolding trim
decode_static expected none = err Error.invalid_armor
decode_static expected (some line) =
    fail_if (not (list_eq (trim line) expected)) Error.invalid_armor

unfoldable pub decode_part : List (List ℕ) → Result (List ℕ × List (List ℕ))
unfolding trim
decode_part lines =
    let (line, rest) = next lines in do part ← ok_or line Error.invalid_armor; ok (trim part, rest)

-- `Armor::from_str`
unfoldable pub from_str : Blake2b → Hex → List ℕ → Result Armor
unfolding split decode_static decode_part new as_bytes
from_str h x s = do
  let (first, lines1) = next (split s)
  decode_static begin_message first
  (message, lines2) ← decode_part lines1
  let (second, lines3) = next lines2
  decode_static begin_address second
  (address_str, lines4) ← decode_part lines3
  address ← Address.from_str h address_str
  let (third, lines5) = next lines4
  decode_static begin_signature third
  (signature_str, lines6) ← decode_part lines5
  signature ← Hexify.from_str x signature_len (as_bytes signature_str)
  let (last, lines7) = next lines6
  decode_static end_signature last
  ok (new message address signature)
