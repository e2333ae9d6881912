-- ===== src/Node/Peer/Publish/Alone.antt =====
-- The steps of a handler that runs alone, against `state_block_handler`.
use feeless.Common.{
  ℕ, zero, suc, ◌≡◌, ◌∙◌, refl, sym, ap, List, Option, none, some, Option-cases, Result, ok, err,
  panic, ◌>>=◌, Result-cases, inl, inr,
}
use feeless.Crypto.{Blake2b, Ed25519}
use feeless.Blocks.BlockType
use feeless.Blocks.BlockType.{state}
use feeless.Blocks.Link.{Previous, block, open_previous}
use feeless.Blocks.StateBlock.{StateBlock, verify_self_signature}
use feeless.Blocks.Block.{Block}
use feeless.Node.State.Interface.{State}
use feeless.Node.Peer.Elected.{get_latest_block}
use feeless.Node.Peer.Publish.{
  is_head_of, account_info, account_info_of, previous_as_account_info, process_with,
  process_previous, process_valid_existing_state_block, if_valid, if_new, state_block_handler,
}
use feeless.Node.Peer.Publish.Steps.{
  Task, block_existed, block_by_hash, latest_hash, latest_block, ended, on_head, to_store,
  after_signature, after_existed, after_previous, after_latest, after_store, step, steps,
}
use feeless.Node.Peer.Publish.Finish.{finish, finish-on_head}

module _ {S : Type 0} (store : State S) (s : S) where
  module _ (h : Blake2b) (c : Ed25519) where
    steps_ended :
        (n : ℕ) (r : Result (Unit {0})) (t : S) → steps store h c n (ended r) t ≡ (ended r, t)
    unfolding steps step
    steps_ended zero r t = refl
    steps_ended (suc n) r t = steps_ended n r t

    -- One step that leaves the state alone.
    pub stepped :
        (n : ℕ) (task next : Task)
        → step store h c task s ≡ (next, s)
        → steps store h c (suc n) task s ≡ steps store h c n next s
    unfolding steps
    stepped n task next e = rw e refl

    steps-to_store :
        (n : ℕ) (r : Result (Option Block))
        → steps store h c (suc n) (to_store r) s ≡ after_store store h c (finish store s r) s
    unfolding to_store finish steps step after_store
    steps-to_store n (ok none) = steps_ended n (ok tt) s
    steps-to_store n (err e) = steps_ended n (err e) s
    steps-to_store n panic = steps_ended n panic s
    steps-to_store n (ok (some stored)) = elim (Result-cases (store.add_block stored s)) [
      | inl (t, added) ↦ rw added (steps_ended n (ok tt) t)
      | inr (inl (e, failed)) ↦ rw failed (steps_ended n (err e) s)
      | inr (inr stopped) ↦ rw stopped (steps_ended n panic s)
    ]

    -- What becomes of the newest block of the account of the previous one.
    abbrev on_newest : StateBlock → List ℕ → Block → Option Block → Result S
    on_newest b previous_hash previous_block newest =
        (is_head_of newest previous_hash >>= λ is_head.
        account_info h is_head (BlockType.same previous_block.block_type state) previous_block)
        >>= λ info. process_with store h info b s

    steps-on_head :
        (n : ℕ) (b : StateBlock) (previous_hash : List ℕ) (previous_block : Block)
        (newest : Option Block)
        → steps store h c (suc n) (to_store (on_head h b previous_hash previous_block newest)) s
          ≡ after_store store h c (on_newest b previous_hash previous_block newest) s
    steps-on_head n b previous_hash previous_block newest =
        steps-to_store n (on_head h b previous_hash previous_block newest)
        ∙ ap (λ (r : Result S). after_store store h c r s)
            (finish-on_head store s h b previous_hash previous_block newest)

    pub newest_none :
        (account : List ℕ)
        → store.get_latest_block_hash_for_account account s ≡ none
        → get_latest_block store account s ≡ none
    unfolding get_latest_block
    newest_none account e = rw (e, get_latest_block) refl

    pub newest_some :
        (account hash : List ℕ)
        → store.get_latest_block_hash_for_account account s ≡ some hash
        → get_latest_block store account s ≡ store.get_block_by_hash hash s
    unfolding get_latest_block
    newest_some account hash e = rw (e, get_latest_block) refl

    step_latest_none :
        (b : StateBlock) (previous_hash : List ℕ) (p : Block)
        → store.get_latest_block_hash_for_account p.account s ≡ none
        → step store h c (latest_hash b previous_hash p) s
          ≡ (to_store (on_head h b previous_hash p none), s)
    unfolding step after_latest
    step_latest_none b previous_hash p e = rw e refl

    pub step_latest_some :
        (b : StateBlock) (previous_hash hash : List ℕ) (p : Block)
        → store.get_latest_block_hash_for_account p.account s ≡ some hash
        → step store h c (latest_hash b previous_hash p) s
          ≡ (latest_block b previous_hash p hash, s)
    unfolding step after_latest
    step_latest_some b previous_hash hash p e = rw e refl

    -- From asking for the newest block of the account of the previous one on.
    steps-latest_hash :
        (b : StateBlock) (previous_hash : List ℕ) (p : Block)
        → steps store h c 3 (latest_hash b previous_hash p) s
          ≡ after_store store h c
              (on_newest b previous_hash p (get_latest_block store p.account s))
              s
    steps-latest_hash b previous_hash p =
        let end =
          λ (newest : Option Block). after_store store h c (on_newest b previous_hash p newest) s in
        elim (Option-cases (store.get_latest_block_hash_for_account p.account s)) [
          | inl missing ↦
              stepped 2 (latest_hash b previous_hash p)
                (to_store (on_head h b previous_hash p none))
                (step_latest_none b previous_hash p missing)
              ∙ (steps-on_head 1 b previous_hash p none
                  ∙ ap end (sym (newest_none p.account missing)))
          | inr (hash, newest) ↦
              let found = store.get_block_by_hash hash s in
              stepped 2 (latest_hash b previous_hash p) (latest_block b previous_hash p hash)
                (step_latest_some b previous_hash hash p newest)
              ∙ (stepped 1 (latest_block b previous_hash p hash)
                    (to_store (on_head h b previous_hash p found)) (unfold step in refl)
                  ∙ (steps-on_head 0 b previous_hash p found
                      ∙ ap end (sym (newest_some p.account hash newest))))
        ]

    steps-block_by_hash :
        (b : StateBlock) (previous_hash : List ℕ)
        → steps store h c 4 (block_by_hash b previous_hash) s
          ≡ after_store store h c (process_previous store h (block previous_hash) b s) s
    unfolding process_previous previous_as_account_info account_info_of
    steps-block_by_hash b previous_hash =
        elim (Option-cases (store.get_block_by_hash previous_hash s)) [
          | inl missing ↦
              stepped 3 (block_by_hash b previous_hash) (ended (ok tt))
                (unfold step after_previous in rw missing refl)
              ∙ (steps_ended 3 (ok tt) s ∙ (unfold process_with after_store in rw missing refl))
          | inr (p, known) ↦
              stepped 3 (block_by_hash b previous_hash) (latest_hash b previous_hash p)
                (unfold step after_previous in rw known refl)
              ∙ (steps-latest_hash b previous_hash p ∙ rw known refl)
        ]

    steps-after_signature :
        (b : StateBlock) (r : Result (Unit {0})) (p : Previous)
        → steps store h c 4 (after_signature r b p) s
          ≡ after_store store h c (if_valid r s (process_previous store h p b s)) s
    unfolding after_signature if_valid
    steps-after_signature b (ok u) (block previous_hash) = steps-block_by_hash b previous_hash
    steps-after_signature b (ok u) open_previous =
        steps_ended 4 panic s ∙ (unfold process_previous after_store in refl)
    steps-after_signature b (err e) p = steps_ended 4 (ok tt) s ∙ (unfold after_store in refl)
    steps-after_signature b panic p = steps_ended 4 panic s ∙ (unfold after_store in refl)

    -- A handler that runs alone has ended after five times under the lock, in the way in which
    -- `state_block_handler` ends and with the state that it leaves.
    pub steps-state_block_handler :
        (b : StateBlock)
        → steps store h c 5 (block_existed b) s
          ≡ after_store store h c (state_block_handler store h c b s) s
    unfolding state_block_handler if_new process_valid_existing_state_block
    steps-state_block_handler b = elim (Option-cases (store.get_block_by_hash b.hash s)) [
      | inr (known, there) ↦
          stepped 4 (block_existed b) (ended (ok tt)) (unfold step after_existed in rw there refl)
          ∙ (steps_ended 4 (ok tt) s ∙ (unfold after_store in rw there refl))
      | inl fresh ↦
          stepped 4 (block_existed b) (after_signature (verify_self_signature c b) b b.previous)
            (unfold step after_existed in rw fresh refl)
          ∙ (steps-after_signature b (verify_self_signature c b) b.previous ∙ rw fresh refl)
    ]
