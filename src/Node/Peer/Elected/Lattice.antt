-- ===== src/Node/Peer/Elected/Lattice.antt =====
-- What an elected block that is added does to the lattice, over any store.
use feeless.Common.{
  ℕ, ◌<◌, ◌≡◌, refl, ap, sym, leb, ◌∙◌, Bool, true, false, List, Option, none, some, ok, err, ◌>>=◌,
  Error, fail_if, ok_or, >>=-eq-ok, ok_or-eq-ok, arith, not,
}
use feeless.Crypto.{Ed25519}
use feeless.Network.{Network}
use feeless.Units.Raw
use feeless.Blocks.BlockType.{send}
use feeless.Blocks.Link.{Previous, block, open_previous}
use feeless.Blocks.Block.{Block, get_hash, verify_signature}
use feeless.Node.State.Interface.{State, IsStore}
use feeless.Node.Peer.Elected.{
  is_some, previous_hash_of, check_send, check_type, add_elected_block, get_latest_block,
  account_balance,
}

fail_if-eq-ok : (c : Bool) (e : Error) (u : Unit {0}) → fail_if c e ≡ ok u → c ≡ false
fail_if-eq-ok true e u h = cc
fail_if-eq-ok false e u h = refl

is_some-false : {A : Type 0} (o : Option A) → is_some o ≡ false → o ≡ none
is_some-false none h = refl
is_some-false (some a) h = cc

above : (a b : ℕ) → leb a b ≡ false → b < a
above a b h = ground arith

previous_hash : (p : Previous) (hash : List ℕ) → previous_hash_of p ≡ ok hash → p ≡ block hash
unfolding previous_hash_of
previous_hash (block h) hash e = cc
previous_hash open_previous hash e = cc

module _ {S : Type 0} (store : State S) (c : Ed25519) (network : Network) where
  -- What an accepted block passed.
  pub accepted :
      (b : Block) (s t : S)
      → add_elected_block store c network b s ≡ ok t
      → (hash : List ℕ) × (get_hash b ≡ ok hash)
        × (store.get_block_by_hash hash s ≡ none)
        × (verify_signature c b.account b ≡ ok record {})
        × (check_type store c network b.block_type b s ≡ ok record {})
        × (store.add_block b s ≡ ok t)
  unfolding add_elected_block
  accepted b s t e =
      let (hash, named, e1) = >>=-eq-ok (get_hash b) _ e in
      let (u1, fresh, e2) = >>=-eq-ok (fail_if (is_some (store.get_block_by_hash hash s)) _) _ e1 in
      let (u2, signed, e3) = >>=-eq-ok (verify_signature c b.account b) _ e2 in
      let (u3, worked, e4) = >>=-eq-ok (fail_if (not (is_some b.work)) _) _ e3 in
      let (u4, checked, e5) = >>=-eq-ok (check_type store c network b.block_type b s) _ e4 in
      (hash, named, is_some-false _ (fail_if-eq-ok _ _ _ fresh), signed, checked, e5)

  check_send-eq-ok :
      (b : Block) (s : S)
      → check_send store c network b s ≡ ok record {}
      → (parent : List ℕ) × (prev : Block) × (b.previous ≡ block parent)
        × (store.get_block_by_hash parent s ≡ some prev)
        × (b.balance < prev.balance)
  unfolding check_send
  check_send-eq-ok b s e =
      let (parent, p, e1) = >>=-eq-ok (previous_hash_of b.previous) _ e in
      let (prev, found, e2) = >>=-eq-ok (ok_or (store.get_block_by_hash parent s) _) _ e1 in
      let (u, less, e3) = >>=-eq-ok (fail_if (Raw.ge b.balance prev.balance) _) _ e2 in
      (
        parent,
        prev,
        previous_hash b.previous parent p,
        ok_or-eq-ok _ _ found,
        above prev.balance b.balance (fail_if-eq-ok _ _ _ less),
      )

  -- A send block is added only where its previous block is in the store and has a larger balance.
  pub add_elected_block-send :
      (b : Block) (s t : S)
      → add_elected_block store c network b s ≡ ok t
      → b.block_type ≡ send
      → (parent : List ℕ) × (prev : Block) × (b.previous ≡ block parent)
        × (store.get_block_by_hash parent s ≡ some prev)
        × (b.balance < prev.balance)
  unfolding check_type
  add_elected_block-send b s t e kind =
      let (hash, named, fresh, signed, checked, stored) = accepted b s t e in
      let branch : check_type store c network b.block_type b s ≡ check_send store c network b s =
        ap (λ (k : _). check_type store c network k b s) kind in
      check_send-eq-ok b s (sym branch ∙ checked)

  -- Over a lawful store, a block that is added sets the balance of its account to its own.
  pub account_balance-add_elected_block :
      IsStore store
      → (b : Block) (s t : S) → add_elected_block store c network b s ≡ ok t
      → account_balance store b.account t ≡ b.balance
  unfolding account_balance get_latest_block
  account_balance-add_elected_block lawful b s t e =
      let (hash, named, fresh, signed, checked, stored) = accepted b s t e in
      rw (lawful.add_latest b s t hash named stored, account_balance, get_latest_block)
        (rw (lawful.add_finds b s t hash named stored))

  -- A block that was added is refused when it comes again.
  pub add_elected_block_twice :
      IsStore store
      → (b : Block) (s t : S) → add_elected_block store c network b s ≡ ok t
      → add_elected_block store c network b t ≡ err Error.block_exists
  unfolding add_elected_block
  add_elected_block_twice lawful b s t e =
      let (hash, named, fresh, signed, checked, stored) = accepted b s t e in
      rw (named, ◌>>=◌) (rw (lawful.add_finds b s t hash named stored))

  -- Only a block whose signature is that of its account over its hash is added.
  pub add_elected_block-verify_signature :
      (b : Block) (s t : S)
      → add_elected_block store c network b s ≡ ok t
      → verify_signature c b.account b ≡ ok record {}
  add_elected_block-verify_signature b s t e =
      let (hash, named, fresh, signed, checked, stored) = accepted b s t e in signed
