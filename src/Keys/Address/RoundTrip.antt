-- ===== src/Keys/Address/RoundTrip.antt =====
-- Writing an address and reading it back.
use feeless.Common.{
  ℕ, ◌+◌, ◌≡◌, List, [], ◌++◌, ok, ◌>>=◌, length, length-append, arith, eq→==, append-nil,
}
use feeless.Common.Words.{IsBytes}
use feeless.Common.Maps.{list_eq_refl}
use feeless.Crypto.{Blake2b}
use feeless.Bytes.{slice_range}
use feeless.Bytes.Reader.{array}
use feeless.Encoding.{decode_nano_base_32}
use feeless.Encoding.Base32.{}
use feeless.Encoding.Bits.{into_vec-from_raw_slice}
use feeless.Keys.Public.{checksum}
use feeless.Keys.Address.{prefix, from_public, extract_public_key, validate_checksum, from_str}
use feeless.Keys.Address.Shape.{from_public_ok, padded, slice_range_middle}

module _ (part sum : List ℕ) (np : length part ≡ 52) where
  key_part_at : slice_range (prefix ++ (part ++ sum)) 5 57 ≡ ok part
  key_part_at =
      let e : 5 + length part ≡ 57 = omega arith in rw e at (slice_range_middle prefix part sum)

  checksum_at : slice_range (prefix ++ (part ++ sum)) 57 (length (prefix ++ (part ++ sum))) ≡ ok sum
  checksum_at =
      let e : length (prefix ++ part) ≡ 57 = omega arith in
      let e' : 57 + length sum ≡ length (prefix ++ (part ++ sum)) =
        omega (arith, length-append part sum) in
      let base = slice_range_middle (prefix ++ part) sum [] in
      rw e' at (rw e at (rw (append-nil sum) at base))

module _ (h : Blake2b) (public : List ℕ) (n : length public ≡ 32) (small : IsBytes public) where
  extract_parts :
      (part sum : List ℕ)
      → decode_nano_base_32 part ≡ ok (padded public)
      → length part ≡ 52
      → extract_public_key (prefix ++ (part ++ sum)) ≡ ok public
  unfolding extract_public_key array
  extract_parts part sum de np =
      rw (key_part_at part sum np, ◌>>=◌)
        (rw de (rw (into_vec-from_raw_slice public small) (rw (eq→== (length public) 32 n))))

  validate_parts :
      (part sum : List ℕ)
      → checksum h public ≡ ok sum
      → length part ≡ 52
      → length sum ≡ 8
      → validate_checksum h (prefix ++ (part ++ sum)) public ≡ ok tt
  unfolding validate_checksum
  validate_parts part sum made np ns =
      rw (checksum_at part sum np, ◌>>=◌) (rw made (rw (list_eq_refl sum)))

  -- Every key has an address, which `from_str` accepts as it is and which reads back as the key.
  pub from_str-from_public :
      (address : List ℕ) × (from_public h public ≡ ok address)
      × (from_str h address ≡ ok address)
      × (extract_public_key address ≡ ok public)
      × (length address ≡ 65)
  unfolding from_str
  from_str-from_public =
      let (part, sum, made, check, de, np, ns, match) = from_public_ok h public n in
      let extracted = extract_parts part sum de np in
      (
        prefix ++ (part ++ sum),
        made,
        rw match (rw (extracted, ◌>>=◌) (rw (validate_parts part sum check np ns))),
        extracted,
        omega (arith, length-append part sum),
      )
