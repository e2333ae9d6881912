-- ===== src/Node/Messages/Handshake.antt =====
-- src/node/messages/handshake.rs: the cookie query and the signed response.
use feeless.Common.{
  ℕ, ◌+◌, ◌-◌, ◌^◌, ◌<◌, ◌≤◌, ◌≡◌, ◌∙◌, refl, ap, Bool, true, false, List, ◌++◌, Option, none, some,
  Result, ok, length, length-append, take, drop, take_append, drop_append, take_all, arith,
  if◌then◌else◌,
}
use feeless.Bytes.{Bytes, slice, slice_range}
use feeless.Bytes.Reader.{Reader, ◌>>=◌, pure, lift, array, run}
use feeless.Bytes.Layout.{cursor, segment, length-segment, slice_then, lift_then, run_ok, bind_then}
use feeless.Keys.Public.{public_len, signature_len}
use feeless.Blocks.Link.Laws.{array_ok}
use feeless.Node.Extensions
use feeless.Node.Header.{Header}
use feeless.Node.Messages.Parts.{cookie_len, cookie_deserialize}

-- `HandshakeQuery` is a cookie.
abbrev pub query_len : ℕ
query_len = cookie_len

pub record HandshakeResponse : Type 0 where
  pub public : List ℕ
  pub signature : List ℕ

abbrev pub response_len : ℕ
response_len = 96

unfoldable pub response_serialize : HandshakeResponse → List ℕ
response_serialize r = r.public ++ r.signature

-- `&data[0..32]` and `&data[32..]`, each with its `try_from`.
unfoldable pub response_deserialize : List ℕ → Reader HandshakeResponse
response_deserialize bytes = do
  front ← lift (slice_range bytes 0 public_len)
  public ← lift (array public_len front)
  back ← lift (slice_range bytes public_len (length bytes))
  signature ← lift (array signature_len back)
  pure (record { public = public; signature = signature })

pub record Handshake : Type 0 where
  pub query : Option (List ℕ)
  pub response : Option HandshakeResponse

unfoldable pub read_query : Bool → Reader (Option (List ℕ))
read_query false = pure none
read_query true = do
  bytes ← slice query_len
  cookie ← lift (cookie_deserialize bytes)
  pure (some cookie)

unfoldable pub read_response : Bool → Reader (Option HandshakeResponse)
unfolding response_deserialize
read_response false = pure none
read_response true = do bytes ← slice response_len; r ← response_deserialize bytes; pure (some r)

-- `Wire::deserialize`
unfoldable pub handshake_deserialize : Header → List ℕ → Result Handshake
handshake_deserialize header bytes =
    run
      (do
        query ← read_query (Extensions.is_query header.ext)
        response ← read_response (Extensions.is_response header.ext)
        pure (record { query = query; response = response }))
      bytes

-- `Wire::len`
unfoldable pub handshake_len : Header → Result ℕ
handshake_len header = ok (
    (if Extensions.is_query header.ext then query_len else 0)
    + (if Extensions.is_response header.ext then response_len else 0))

-- The response that 96 bytes stand for.
abbrev pub response_layout : List ℕ → HandshakeResponse
response_layout bytes = record { public = segment bytes 0 32; signature = segment bytes 32 64 }

pub slice_range_ok :
    (bytes : List ℕ) (a b : ℕ)
    → a ≤ b
    → b ≤ length bytes
    → slice_range bytes a b ≡ ok (take (b - a) (drop a bytes))
unfolding slice_range
slice_range_ok bytes a b h k = ground arith

response_deserialize_ok :
    (bytes : List ℕ) (c : _)
    → length bytes ≡ 96
    → response_deserialize bytes c ≡ ok (response_layout bytes, c)
unfolding response_deserialize
response_deserialize_ok bytes c n =
    let back : slice_range bytes 32 (length bytes) ≡ ok (segment bytes 32 64) =
      rw n (slice_range_ok bytes 32 96 (omega arith) (omega arith)) in
    lift_then _ c (slice_range_ok bytes 0 32 (omega arith) (omega arith))
    ∙ lift_then _ c (array_ok 32 _ (length-segment bytes 0 32 (omega arith)))
    ∙ lift_then _ c back
    ∙ lift_then _ c (array_ok 64 _ (length-segment bytes 32 64 (omega arith)))

-- What the flags say of the bytes: a cookie first, then a response.
abbrev pub handshake_layout : Bool → Bool → List ℕ → Handshake
handshake_layout query response bytes = record {
  query = if query then some (segment bytes 0 32) else none;
  response =
      if response
      then some (response_layout (segment bytes (if query then 32 else 0) 96))
      else none;
}

read_query_ok :
    (query : Bool) (bytes : List ℕ)
    → length bytes < 2 ^ 63
    → (if query then 32 else 0) ≤ length bytes
    → read_query query (cursor bytes 0)
      ≡ ok (
        if query then some (segment bytes 0 32) else none,
        cursor bytes (if query then 32 else 0),
      )
unfolding read_query cookie_deserialize
read_query_ok false bytes short h = refl
read_query_ok true bytes short h =
    slice_then bytes 0 32 _ short h ∙ lift_then _ _ (array_ok 32 _ (length-segment bytes 0 32 h))

read_response_ok :
    (response : Bool) (bytes : List ℕ) (offset : ℕ)
    → length bytes < 2 ^ 63
    → offset + (if response then 96 else 0) ≤ length bytes
    → (c : Bytes) × (read_response response (cursor bytes offset)
        ≡ ok (if response then some (response_layout (segment bytes offset 96)) else none, c))
unfolding read_response
read_response_ok false bytes offset short h = (cursor bytes offset, refl)
read_response_ok true bytes offset short h = (
  cursor bytes (offset + 96),
  slice_then bytes offset 96 _ short h
      ∙ bind_then (response_deserialize (segment bytes offset 96)) _ _
          (response_deserialize_ok _ _ (length-segment bytes offset 96 h)),
)

-- A handshake is read from as many bytes as its `len` asks for: the cookie where the query flag is
-- set, and behind it the key and the signature where the response flag is.
pub handshake_deserialize-layout :
    (header : Header) (bytes : List ℕ)
    → handshake_len header ≡ ok (length bytes)
    → handshake_deserialize header bytes
      ≡ ok (
          handshake_layout
            (Extensions.is_query header.ext)
            (Extensions.is_response header.ext)
            bytes)
unfolding handshake_deserialize handshake_len
handshake_deserialize-layout header bytes e =
    let q = Extensions.is_query header.ext in
    let r = Extensions.is_response header.ext in
    let n : (if q then 32 else 0) + (if r then 96 else 0) ≡ length bytes = ground arith in
    let (c, answered) =
      read_response_ok r bytes (if q then 32 else 0) (ground arith) (ground arith) in
    run_ok _ bytes (
      bind_then (read_query q) (cursor bytes 0) _
        (read_query_ok q bytes (ground arith) (ground arith))
      ∙ bind_then (read_response r) _ _ answered)

pub response_layout-serialize :
    (r : HandshakeResponse)
    → length r.public ≡ 32
    → length r.signature ≡ 64
    → response_layout (response_serialize r) ≡ r
unfolding response_serialize
response_layout-serialize r n m =
    let whole = r.public ++ r.signature in
    let front : segment whole 0 32 ≡ r.public = rw n at (take_append r.public r.signature) in
    let tail : drop 32 whole ≡ r.signature = rw n at (drop_append r.public r.signature) in
    let back : segment whole 32 64 ≡ r.signature =
      ap (take 64) tail ∙ take_all 64 r.signature (omega arith) in
    rw (front, back)

pub length-response_serialize :
    (r : HandshakeResponse)
    → length r.public ≡ 32
    → length r.signature ≡ 64
    → length (response_serialize r) ≡ 96
unfolding response_serialize
length-response_serialize r n m = omega (arith, length-append r.public r.signature)

-- A response that is sent reads back.
pub response_deserialize-serialize :
    (r : HandshakeResponse)
    → length r.public ≡ 32
    → length r.signature ≡ 64
    → run (response_deserialize (response_serialize r)) (response_serialize r) ≡ ok r
response_deserialize-serialize r n m =
    run_ok _ (response_serialize r)
      (response_deserialize_ok (response_serialize r) _ (length-response_serialize r n m))
    ∙ ap ok (response_layout-serialize r n m)
