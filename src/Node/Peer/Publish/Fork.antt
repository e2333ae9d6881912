-- ===== src/Node/Peer/Publish/Fork.antt =====
-- Two published state blocks behind the same block, with the state in memory.
use feeless.Common.{
  ℕ, ◌≡◌, ◌≢◌, ◌∙◌, refl, sym, ap, Bool, true, false, List, [], ◌∷◌, ◌++◌, none, some, ok, err,
  ◌>>=◌, Error, replicate,
}
use feeless.Common.Maps.{beq_false, bytes_eq}
use feeless.Crypto.{Blake2b, Ed25519}
use feeless.Blocks.Link.{block}
use feeless.Blocks.StateBlock.{StateBlock}
use feeless.Blocks.Block.{Block, get_hash}
use feeless.Node.State.Memory
use feeless.Node.State.Memory.{MemoryState, memory, memory-IsStore}
use feeless.Node.Peer.Publish.{
  state_block_handler, is_head_of, account_info, account_info_of, previous_as_account_info,
  process_previous, process_valid_existing_state_block, if_new, if_valid,
}
use feeless.Node.Peer.Publish.Accepts.{Previously}
use feeless.Node.Peer.Publish.Steps.{block_existed, store_block, ended, after_store, step}
use feeless.Node.Peer.Publish.Alone.{steps-state_block_handler, newest_some}
use feeless.Node.Peer.Publish.Race.{
  interleave, interleave-first, interleave-second, Ready, stored, get_hash-stored, reaches,
}

-- Both handlers read the state before either writes.
abbrev pub racing : List Bool
racing = replicate 4 true ++ (replicate 4 false ++ (true ∷ false ∷ []))

-- A stored block that is not the one that the hash names is not the head.
not_head :
    (newest : Block) (hash parent : List ℕ)
    → get_hash newest ≡ ok hash
    → hash ≢ parent
    → is_head_of (some newest) parent ≡ ok false
unfolding is_head_of
not_head newest hash parent e apart = rw (e, ◌>>=◌) (rw (beq_false hash parent apart))

found_ne :
    {hash parent : List ℕ} {p : Block} (s : MemoryState)
    → Memory.get_block_by_hash hash s ≡ none
    → Memory.get_block_by_hash parent s ≡ some p
    → hash ≢ parent
found_ne {hash} {parent} s missing known same =
    cc (sym missing ∙ (ap (λ (k : List ℕ). Memory.get_block_by_hash k s) same ∙ known))

add_stored :
    (k : Block) (hash : List ℕ) (s : MemoryState)
    → get_hash k ≡ ok hash
    → (t : MemoryState) × (Memory.add_block k s ≡ ok t)
unfolding Memory.add_block
add_stored k hash s e = (Memory.added k hash s, rw (e, ◌>>=◌) refl)

step_store :
    (h : Blake2b) (c : Ed25519) (k : Block) (s t : MemoryState)
    → Memory.add_block k s ≡ ok t
    → step memory h c (store_block k) s ≡ (ended (ok tt), t)
unfolding step after_store
step_store h c k s t e = rw e refl

module _ (h : Blake2b) (c : Ed25519) {parent : List ℕ} {s : MemoryState}
    (before : Previously memory h parent s) {b1 b2 : StateBlock}
    (first : Ready memory h c parent s before b1) (second : Ready memory h c parent s before b2)
    (apart : b1.hash ≢ b2.hash) where
  abbrev k1 : Block
  k1 = stored memory h c before first

  abbrev k2 : Block
  k2 = stored memory h c before second

  -- The state behind the first block.
  behind_first :
      (t : MemoryState) × (Memory.add_block k1 s ≡ ok t)
      × (Memory.get_block_by_hash b1.hash t ≡ some k1)
      × (Memory.get_block_by_hash b2.hash t ≡ none)
      × (Memory.get_block_by_hash parent t ≡ some before.previous_block)
  behind_first =
      let own = get_hash-stored memory h c before first in
      let (t, added) = add_stored k1 b1.hash s own in
      let other = found_ne s first.is_fresh before.is_known in
      (
        t,
        added,
        memory-IsStore.add_finds k1 s t b1.hash own added,
        memory-IsStore.add_keeps k1 s t b1.hash b2.hash own added apart ∙ second.is_fresh,
        memory-IsStore.add_keeps k1 s t b1.hash parent own added other ∙ before.is_known,
      )

  -- The state behind both, in that order.
  behind_both :
      (t : MemoryState)
      → Memory.get_block_by_hash b1.hash t ≡ some k1
      → (u : MemoryState) × (Memory.add_block k2 t ≡ ok u)
        × (Memory.get_block_by_hash b1.hash u ≡ some k1)
        × (Memory.get_block_by_hash b2.hash u ≡ some k2)
  behind_both t there =
      let own = get_hash-stored memory h c before second in
      let (u, added) = add_stored k2 b2.hash t own in
      (
        u,
        added,
        memory-IsStore.add_keeps k2 t u b2.hash b1.hash own added (λ same. apart (sym same))
            ∙ there,
        memory-IsStore.add_finds k2 t u b2.hash own added,
      )

  -- Two handlers of different state blocks, each of which would be stored behind the same block, share
  -- the state in memory. Where both read the state before either of them writes, both blocks are stored
  -- behind that block, and neither handler fails.
  pub interleave_fork :
      (u : MemoryState) × (interleave memory h c racing (block_existed b1) (block_existed b2) s
        ≡ (ended (ok tt), ended (ok tt), u))
      × (Memory.get_block_by_hash b1.hash u ≡ some k1)
      × (k1.previous ≡ block parent)
      × (Memory.get_block_by_hash b2.hash u ≡ some k2)
      × (k2.previous ≡ block parent)
  unfolding interleave
  interleave_fork =
      let (t, added, there, _, _) = behind_first in
      let (u, both, there1, there2) = behind_both t there in
      let turns1 = replicate 4 false ++ (true ∷ false ∷ []) in
      let ready1 = reaches memory h c before first in
      let ready2 = reaches memory h c before second in
      (
        u,
        interleave-first memory h c 4 turns1 (block_existed b1) (block_existed b2) s
            ∙ (rw ready1 (
                interleave-second memory h c 4 (true ∷ false ∷ []) (store_block k1)
                  (block_existed b2) s
                ∙ rw ready2
                    (rw (step_store h c k1 s t added) (rw (step_store h c k2 t u both) refl)))),
        there1,
        first.is_behind,
        there2,
        second.is_behind,
      )

  -- Where the first is of the account of the block behind which both stand, the second is refused then.
  refused :
      (t : MemoryState)
      → b1.account ≡ before.previous_block.account
      → Memory.add_block k1 s ≡ ok t
      → Memory.get_block_by_hash b1.hash t ≡ some k1
      → Memory.get_block_by_hash b2.hash t ≡ none
      → Memory.get_block_by_hash parent t ≡ some before.previous_block
      → state_block_handler memory h c b2 t ≡ err Error.previous_not_head
  unfolding state_block_handler if_new if_valid process_valid_existing_state_block process_previous
      previous_as_account_info account_info_of account_info
  refused t same added there missing known =
      let p = before.previous_block in
      let own = get_hash-stored memory h c before first in
      let latest : Memory.get_latest_block_hash_for_account p.account t ≡ some b1.hash =
        rw same at (memory-IsStore.add_latest k1 s t b1.hash own added) in
      let newest = newest_some memory t h c p.account b1.hash latest ∙ there in
      let other = found_ne s first.is_fresh before.is_known in
      rw missing (
        rw second.is_signed (
          rw second.is_behind (
            rw known (
              rw newest
                (rw (not_head k1 b1.hash parent own other, ◌>>=◌) (rw before.is_state refl))))))

  -- One after the other, the second is refused where the first is of the account of the block behind
  -- which both stand: that block is no longer the newest.
  pub interleave_serial :
      b1.account ≡ before.previous_block.account
      → (t : MemoryState) × (interleave memory h c
            (replicate 5 true ++ replicate 5 false)
            (block_existed b1)
            (block_existed b2)
            s
          ≡ (ended (ok tt), ended (err Error.previous_not_head), t))
        × (Memory.get_block_by_hash b1.hash t ≡ some k1)
        × (Memory.get_block_by_hash b2.hash t ≡ none)
  unfolding interleave
  interleave_serial same =
      let (t, added, there, missing, known) = behind_first in
      (
        t,
        interleave-first memory h c 4 (true ∷ replicate 5 false) (block_existed b1)
              (block_existed b2) s
            ∙ rw (reaches memory h c before first) (
                rw (step_store h c k1 s t added) (
                  interleave-second memory h c 5 [] (ended (ok tt)) (block_existed b2) t
                  ∙ rw (steps-state_block_handler memory t h c b2) (
                      rw (refused t same added there missing known) (unfold after_store in refl)))),
        there,
        missing,
      )
