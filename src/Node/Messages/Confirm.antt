-- ===== src/Node/Messages/Confirm.antt =====
-- src/node/messages/confirm_req.rs and confirm_ack.rs: asking for votes, and a vote.
use feeless.Common.{
  ℕ, ◌+◌, ◌*◌, ◌^◌, ◌<◌, ◌≡◌, ◌∙◌, refl, sym, ap, Bool, true, false, List, [], ◌∷◌, ◌++◌, map,
  Result, ok, panic, ◌>>=◌, ◌>>◌, length, arith, if◌then◌else◌, >>=-eq-ok, Bool-cases, inl, inr,
}
use feeless.Crypto.{Blake2b, Ed25519}
use feeless.Encoding.{expect_len}
use feeless.Bytes.Reader.{repeat, run}
use feeless.Bytes.Layout.{segments, run_ok}
use feeless.Keys.Public
use feeless.Blocks.BlockType
use feeless.Blocks.BlockType.{
  BlockType, invalid, not_a_block, send, receive, open_block, change, state,
}
use feeless.Node.Extensions
use feeless.Node.Header.{Header}
use feeless.Node.Messages.Numbers.{repeat_ok}
use feeless.Node.Messages.Parts.{RootHashPair, root_hash_pair_len, timestamp_to_bytes}
use feeless.Node.Messages.Holder.{BlockHolder, holder_len, holder_deserialize}
use feeless.Node.Messages.Votes.{
  read_pair, ConfirmAck, vote_common_len, confirm_ack_read, ack_layout, pair_layout, read_pair_ok,
  expect_len_ok, confirm_ack_read_ok,
}

pub data ConfirmReq : Type 0 where
  confirm_req_by_hash : List RootHashPair → ConfirmReq
  block_selector : BlockHolder → ConfirmReq

unfoldable pub confirm_req_by : Bool → Blake2b → Header → List ℕ → Result ConfirmReq
confirm_req_by true h header bytes =
    let count = Extensions.item_count header.ext in
    do
      expect_len (length bytes) (root_hash_pair_len * count)
      pairs ← run (repeat count read_pair) bytes
      ok (confirm_req_by_hash pairs)
confirm_req_by false h header bytes = do
  holder ← holder_deserialize h header bytes
  ok (block_selector holder)

-- `Wire::deserialize`
unfoldable pub confirm_req_deserialize : Blake2b → Header → List ℕ → Result ConfirmReq
confirm_req_deserialize h header bytes = do
  kind ← Extensions.block_type header.ext
  confirm_req_by (BlockType.same kind not_a_block) h header bytes

-- `Wire::len`
unfoldable pub confirm_req_len : Header → Result ℕ
confirm_req_len header = do
  kind ← Extensions.block_type header.ext
  if BlockType.same kind not_a_block
      then ok (root_hash_pair_len * Extensions.item_count header.ext)
      else holder_len header

-- `Wire::deserialize`
unfoldable pub confirm_ack_deserialize : Header → List ℕ → Result ConfirmAck
confirm_ack_deserialize header bytes = run (confirm_ack_read header) bytes

-- `Wire::len`
unfoldable pub confirm_ack_len : Header → Result ℕ
confirm_ack_len header = do
  kind ← Extensions.block_type header.ext
  if BlockType.same kind not_a_block
      then ok (vote_common_len + Extensions.item_count header.ext * 32)
      else panic

unfoldable pub concat : List (List ℕ) → List ℕ
concat [] = []
concat (v ∷ vs) = v ++ concat vs

-- The bytes of "vote ".
abbrev pub vote_prefix : List ℕ
vote_prefix = 118 ∷ 111 ∷ 116 ∷ 101 ∷ 32 ∷ []

unfoldable pub inner_hash : Blake2b → ConfirmAck → List ℕ
inner_hash h ack =
    h.blake2b 32 (vote_prefix ++ (concat ack.confirm ++ timestamp_to_bytes ack.timestamp))

unfoldable pub verify_signature : Blake2b → Ed25519 → ConfirmAck → Result (Unit {0})
verify_signature h c ack = Public.verify c ack.account (inner_hash h ack) ack.signature

-- A request by hashes is read from 64 bytes for each pair that the header counts: the pairs of a
-- hash and a root, in order.
pub confirm_req_deserialize-layout :
    (h : Blake2b) (header : Header) (bytes : List ℕ)
    → Extensions.block_type header.ext ≡ ok not_a_block
    → confirm_req_len header ≡ ok (length bytes)
    → length bytes < 2 ^ 63
    → confirm_req_deserialize h header bytes
      ≡ ok (
          confirm_req_by_hash
            (map pair_layout (segments bytes 0 64 (Extensions.item_count header.ext))))
unfolding confirm_req_deserialize confirm_req_len confirm_req_by BlockType.same
confirm_req_deserialize-layout h header bytes kind sized short =
    let count = Extensions.item_count header.ext in
    let sized' : ok (64 * count) ≡ ok (length bytes) = rw (kind, ◌>>=◌) at sized in
    let n : 64 * count ≡ length bytes = ground arith in
    let pairs = run_ok (repeat count read_pair) bytes (
      repeat_ok bytes 64 read_pair pair_layout (λ o k. read_pair_ok bytes o short k) count 0
        (omega arith)) in
    rw (kind, ◌>>=◌) (rw (expect_len_ok _ _ (sym n)) (rw pairs))

named_not_a_block : (kind : BlockType) → BlockType.same kind not_a_block ≡ true → kind ≡ not_a_block
unfolding BlockType.same BlockType.as_u8
named_not_a_block not_a_block e = refl
named_not_a_block invalid e = cc
named_not_a_block send e = cc
named_not_a_block receive e = cc
named_not_a_block open_block e = cc
named_not_a_block change e = cc
named_not_a_block state e = cc

-- A vote is read from as many bytes as its `len` asks for: the account, the signature, the
-- timestamp and the hashes that the header counts. `len` asks for a number of bytes only where the
-- header names no block.
pub confirm_ack_deserialize-layout :
    (header : Header) (bytes : List ℕ)
    → confirm_ack_len header ≡ ok (length bytes)
    → length bytes < 2 ^ 63
    → confirm_ack_deserialize header bytes
      ≡ ok (ack_layout bytes (Extensions.item_count header.ext))
unfolding confirm_ack_deserialize confirm_ack_len
confirm_ack_deserialize-layout header bytes e short =
    let (kind, named, sized) = >>=-eq-ok (Extensions.block_type header.ext) _ e in
    elim (Bool-cases (BlockType.same kind not_a_block)) [
      | inl same ↦
          let n : 104 + Extensions.item_count header.ext * 32 ≡ length bytes = ground arith in
          run_ok _ bytes (
            confirm_ack_read_ok header bytes short (named ∙ ap ok (named_not_a_block kind same))
              (omega arith))
      | inr other ↦ ground arith
    ]

-- A vote whose signature is made with the key of its account passes the check.
pub verify_signature-signed :
    (h : Blake2b) (c : Ed25519) (secret : List ℕ) (ack : ConfirmAck)
    → ack.account ≡ c.public_key secret
    → ack.signature ≡ c.sign secret (inner_hash h ack)
    → verify_signature h c ack ≡ ok record {}
unfolding verify_signature Public.verify inner_hash
verify_signature-signed h c secret ack account signature =
    rw (account, signature)
      (rw (c.is_public_key-public_key secret, c.verify-sign secret (inner_hash h ack)))
