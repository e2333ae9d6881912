-- ===== src/Node/Peer/Publish/Race.antt =====
-- Two handlers of published state blocks that share the state in memory, on their turns under the
-- lock.
use feeless.Common.{
  ℕ, zero, suc, ◌-◌, ◌<◌, ◌≤◌, ◌≡◌, ◌∙◌, refl, sym, ap, Bool, true, false, List, [], ◌∷◌, ◌++◌,
  none, some, Option-cases, inl, inr, ok, ◌>>=◌, length, replicate, arith, lt→ltb, ltb-false,
}
use feeless.Common.Maps.{bytes_eq}
use feeless.Crypto.{Blake2b, Ed25519}
use feeless.Units.Raw
use feeless.Pow.Difficulty.{normal}
use feeless.Pow.Work.{difficulty_block_hash}
use feeless.Blocks.Link.{Link, block, unsure, destination_account, link_as_bytes, concat}
use feeless.Blocks.StateBlock
use feeless.Blocks.StateBlock.{StateBlock, hash_parts, set_link_type, verify_self_signature}
use feeless.Blocks.StateBlock.LinkType.{set_unsure}
use feeless.Blocks.Block.{Block, get_hash}
use feeless.Blocks.Block.Hash.{own_hash, as_block, from_state_block-as_block}
use feeless.Node.State.Interface.{State}
use feeless.Node.Peer.Publish.{change_of}
use feeless.Node.Peer.Publish.Accepts.{Previously}
use feeless.Node.Peer.Publish.Complete.{account_info-head, is_head}
use feeless.Node.Peer.Publish.Steps.{
  Task, block_existed, block_by_hash, latest_hash, latest_block, store_block, after_existed,
  after_signature, after_previous, with_info, good_send, with_link, with_previous, on_head,
  to_store, step, steps,
}
use feeless.Node.Peer.Publish.Alone.{stepped, newest_none, newest_some, step_latest_some}

-- The send that a block is taken for.
abbrev pub send_of : StateBlock → List ℕ → ℕ → StateBlock
send_of b bytes amount = record b { link = destination_account bytes; amount = some amount }

-- The turns of two handlers: true is a turn of the first.
unfoldable pub interleave :
    {S : Type 0} → State S → Blake2b → Ed25519 → List Bool → Task → Task → S → Task × Task × S
interleave store h c [] a b s = (a, b, s)
interleave store h c (true ∷ turns) a b s =
    let (next, t) = step store h c a s in interleave store h c turns next b t
interleave store h c (false ∷ turns) a b s =
    let (next, t) = step store h c b s in interleave store h c turns a next t

module _ (h : Blake2b) where
  good_send_ok :
      (b : StateBlock) (work : List ℕ) (d : ℕ)
      → b.work ≡ some work
      → difficulty_block_hash h work b.hash ≡ ok d
      → normal ≤ d
      → good_send h b ≡ ok (some (as_block h b))
  unfolding good_send
  good_send_ok b work d w r e =
      simp (w, from_state_block-as_block h b) (rw (r, ◌>>=◌) (rw (ltb-false d normal e) refl))

  with_previous_ok :
      (b q : StateBlock) (bytes work : List ℕ) (d : ℕ)
      → b.link ≡ unsure bytes
      → length bytes ≡ 32
      → b.balance < q.balance
      → b.work ≡ some work
      → difficulty_block_hash h work b.hash ≡ ok d
      → normal ≤ d
      → with_previous h b q ≡ ok (some (as_block h (send_of b bytes (q.balance - b.balance))))
  unfolding with_previous change_of Raw.checked_sub set_link_type with_link
  with_previous_ok b q bytes work d l n less w r e =
      let amount = q.balance - b.balance in
      let linked = ap (StateBlock.set_link true amount b) l ∙ set_unsure true amount b bytes n in
      rw (lt→ltb b.balance q.balance less) (
        rw (ltb-false q.balance b.balance (omega arith))
          (rw (linked, ◌>>=◌) (good_send_ok (send_of b bytes amount) work d w r e)))

module _ {S : Type 0} (store : State S) (h : Blake2b) (c : Ed25519) where
  pub interleave-first :
      (n : ℕ) (rest : List Bool) (a b : Task) (s : S)
      → interleave store h c (replicate n true ++ rest) a b s
        ≡ interleave store h c rest (steps store h c n a s).0 b (steps store h c n a s).1
  unfolding interleave steps
  interleave-first zero rest a b s = refl
  interleave-first (suc n) rest a b s =
      interleave-first n rest (step store h c a s).0 b (step store h c a s).1

  pub interleave-second :
      (n : ℕ) (rest : List Bool) (a b : Task) (s : S)
      → interleave store h c (replicate n false ++ rest) a b s
        ≡ interleave store h c rest a (steps store h c n b s).0 (steps store h c n b s).1
  unfolding interleave steps
  interleave-second zero rest a b s = refl
  interleave-second (suc n) rest a b s =
      interleave-second n rest a (step store h c b s).0 (step store h c b s).1

  -- A state block that would be stored as a send behind the newest block of an account: it is new,
  -- has its own hash, is signed, lowers the balance, and has enough work.
  pub record Ready (parent : List ℕ) (s : S) (before : Previously store h parent s) (b : StateBlock)
      : Type 0 where
    pub bytes : List ℕ
    pub work : List ℕ
    pub difficulty : ℕ
    pub is_unsure : b.link ≡ unsure bytes
    pub length-bytes : length bytes ≡ 32
    pub is_own : b.hash ≡ own_hash h b
    pub is_fresh : store.get_block_by_hash b.hash s ≡ none
    pub is_signed : verify_self_signature c b ≡ ok record {}
    pub is_behind : b.previous ≡ block parent
    pub falls : b.balance < before.previous_block.balance
    pub has_work : b.work ≡ some work
    pub is_difficult : difficulty_block_hash h work b.hash ≡ ok difficulty
    pub is_enough : normal ≤ difficulty

  module _ {parent : List ℕ} {s : S} (before : Previously store h parent s) {b : StateBlock}
      (ready : Ready parent s before b) where
    -- The send that it is taken for, and the block that is stored.
    abbrev pub sent : StateBlock
    sent = send_of b ready.bytes (before.previous_block.balance - b.balance)

    abbrev pub stored : Block
    stored = as_block h sent

    pub get_hash-stored : get_hash stored ≡ ok b.hash
    unfolding get_hash
    get_hash-stored =
        let parts = λ (l : Link).
          h.blake2b 32 (concat (hash_parts b.account b.previous b.representative b.balance l)) in
        ap ok (
          sym
            (ready.is_own ∙ (ap parts ready.is_unsure ∙ (unfold hash_parts link_as_bytes in refl))))

    decides : on_head h b parent before.previous_block (some before.newest) ≡ ok (some stored)
    unfolding on_head with_info
    decides =
        let (q, info, balance) = account_info-head store h before.previous_block in
        let falls : b.balance < q.balance = rw balance ready.falls in
        let made =
          with_previous_ok h b q ready.bytes ready.work ready.difficulty ready.is_unsure
            ready.length-bytes falls ready.has_work ready.is_difficult ready.is_enough in
        rw (is_head before.newest parent before.has_hash, ◌>>=◌)
          (rw before.is_state (
            rw (info, ◌>>=◌)
              (made
                ∙ ap (λ (k : ℕ). ok (some (as_block h (send_of b ready.bytes (k - b.balance)))))
                    balance)))

    -- After four turns the handler waits to store it.
    pub reaches : steps store h c 4 (block_existed b) s ≡ (store_block stored, s)
    unfolding steps
    reaches =
        let p = before.previous_block in
        elim (Option-cases (store.get_latest_block_hash_for_account p.account s)) [
          | inl missing ↦
              absurd (cc (sym (newest_none store s h c p.account missing) ∙ before.is_newest))
          | inr (hash, newest) ↦
              let known = sym (newest_some store s h c p.account hash newest) ∙ before.is_newest in
              stepped store s h c 3 (block_existed b) (block_by_hash b parent) (
                unfold step after_existed after_signature in
                rw ready.is_fresh (rw ready.is_signed (rw ready.is_behind refl)))
              ∙ (stepped store s h c 2 (block_by_hash b parent) (latest_hash b parent p)
                    (unfold step after_previous in rw before.is_known refl)
                  ∙ (stepped store s h c 1 (latest_hash b parent p) (latest_block b parent p hash)
                        (step_latest_some store s h c b parent hash p newest)
                      ∙ stepped store s h c 0 (latest_block b parent p hash) (store_block stored)
                          (unfold step to_store in rw known (rw decides refl))))
        ]
