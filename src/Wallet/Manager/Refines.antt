-- ===== src/Wallet/Manager/Refines.antt =====
-- The manager of wallets against a function from wallet ids to wallets.
use feeless.Common.{
  ℕ, ◌≡◌, ◌∙◌, refl, ap, inl, inr, Bool, true, false, List, [], ◌∷◌, Option, none, some,
  Option-cases, Result, ok, err, panic, ◌>>=◌, Error, ok_or, if◌then◌else◌,
}
use feeless.Common.Maps.{get, insert, remove, get-insert, get-remove, bytes_eq, list_eq}
use feeless.Wallet.{Wallet, WalletStorage, new_storage, Json}
use feeless.Wallet.Manager
use feeless.Wallet.Manager.{has}

-- The calls of a client.
pub data Command : Type 0 where
  ensure_file : Command
  add_wallet : List ℕ → Wallet → Command
  delete_wallet : List ℕ → Command
  look_up : List ℕ → Command

-- What a client sees: a wallet where it asked for one, or the error.
abbrev pub Reply : Type 0
Reply = Result (Option Wallet)

-- A call that fails leaves the file as it was.
abbrev settle : {A : Type 0} → A → Result A → Reply × A
settle before (ok after) = (ok none, after)
settle before (err raised) = (err raised, before)
settle before panic = (panic, before)

module _ {F : Type 0} (json : Json F) where
  unfoldable pub step : Command → Option F → Reply × Option F
  step ensure_file file = settle file (Manager.ensure json file)
  step (add_wallet id w) file = settle file (Manager.add json id w file)
  step (delete_wallet id) file = settle file (Manager.delete json id file)
  step (look_up id) file = ((Manager.wallet json id file >>= λ w. ok (some w)), file)

  unfoldable pub run : List Command → Option F → List Reply
  unfolding step
  run [] file = []
  run (command ∷ commands) file =
      let (reply, after) = step command file in reply ∷ run commands after

-- No file, or the wallet of every id.
abbrev pub Wallets : Type 0
Wallets = Option (List ℕ → Option Wallet)

abbrev pub update : List ℕ → Option Wallet → (List ℕ → Option Wallet) → List ℕ → Option Wallet
update id w m k = if list_eq id k then w else m k

abbrev pub ideal_add : Bool → List ℕ → Wallet → (List ℕ → Option Wallet) → Reply × Wallets
ideal_add true id w m = (err Error.wallet_exists, some m)
ideal_add false id w m = (ok none, some (update id (some w) m))

abbrev pub ideal_delete : Bool → List ℕ → (List ℕ → Option Wallet) → Reply × Wallets
ideal_delete true id m = (ok none, some (update id none m))
ideal_delete false id m = (err Error.wallet_missing, some m)

-- The same calls on the function: without a file all but the first fail.
abbrev pub ideal_step : Command → Wallets → Reply × Wallets
ideal_step ensure_file none = (ok none, some (λ id. none))
ideal_step ensure_file (some m) = (ok none, some m)
ideal_step (add_wallet id w) none = (err Error.wallet_file_error, none)
ideal_step (add_wallet id w) (some m) = ideal_add (has (m id)) id w m
ideal_step (delete_wallet id) none = (err Error.wallet_file_error, none)
ideal_step (delete_wallet id) (some m) = ideal_delete (has (m id)) id m
ideal_step (look_up id) none = (err Error.wallet_file_error, none)
ideal_step (look_up id) (some m) =
    ((ok_or (m id) Error.wallet_not_found >>= λ w. ok (some w)), some m)

abbrev pub ideal_run : List Command → Wallets → List Reply
ideal_run [] m = []
ideal_run (command ∷ commands) m =
    let (reply, after) = ideal_step command m in reply ∷ ideal_run commands after

module _ {F : Type 0} (json : Json F) where
  data Shows : Option F → Wallets → Type 0 where
    no_file : Shows none none
    holds :
        {contents : F} {m : List ℕ → Option Wallet} (store : WalletStorage)
        → json.from_reader contents ≡ ok store
        → ((id : List ℕ) → get id store.wallets ≡ m id)
        → Shows (some contents) (some m)

  written :
      (store : WalletStorage) (m : List ℕ → Option Wallet)
      → ((id : List ℕ) → get id store.wallets ≡ m id)
      → Shows (some (json.to_writer store)) (some m)
  written store m same =
      let (back, read, kept) = json.from_reader-to_writer store in
      holds back read (λ id. kept id ∙ same id)

  after_insert :
      (id k : List ℕ) (w : Wallet) (store : WalletStorage) (m : List ℕ → Option Wallet)
      → ((id : List ℕ) → get id store.wallets ≡ m id)
      → get k (insert id w store.wallets) ≡ update id (some w) m k
  after_insert id k w store m same = get-insert k id w store.wallets ∙ rw (same k)

  after_remove :
      (id k : List ℕ) (store : WalletStorage) (m : List ℕ → Option Wallet)
      → ((id : List ℕ) → get id store.wallets ≡ m id)
      → get k (remove id store.wallets) ≡ update id none m k
  after_remove id k store m same = get-remove k id store.wallets ∙ rw (same k)

  Simulates : Reply × Option F → Reply × Wallets → Type 0
  Simulates r i = (r.0 ≡ i.0) × Shows r.1 i.1

  ensure-Shows :
      (file : Option F) (m : Wallets)
      → Shows file m
      → Simulates (step json ensure_file file) (ideal_step ensure_file m)
  unfolding step Manager.ensure Simulates new_storage get
  ensure-Shows _ _ no_file = (refl, written new_storage (λ id. none) (λ id. refl))
  ensure-Shows _ _ (holds store read same) = (refl, holds store read same)

  look_up-Shows :
      (id : List ℕ) (file : Option F) (m : Wallets)
      → Shows file m
      → Simulates (step json (look_up id) file) (ideal_step (look_up id) m)
  unfolding step Manager.wallet Simulates
  look_up-Shows id _ _ no_file = (refl, no_file)
  look_up-Shows id _ _ (holds store read same) =
      (rw (read, ◌>>=◌) (rw (same id)), holds store read same)

  add-Shows :
      (id : List ℕ) (w : Wallet) (file : Option F) (m : Wallets)
      → Shows file m
      → Simulates (step json (add_wallet id w) file) (ideal_step (add_wallet id w) m)
  unfolding step Manager.add Simulates
  add-Shows id w _ _ no_file = (refl, no_file)
  add-Shows id w _ _ (holds {m = m} store read same) = elim (Option-cases (m id)) [
    | inl missing ↦
        rw (read, ◌>>=◌)
          (rw (same id) (
            rw missing (
              refl,
              written (record { wallets = insert id w store.wallets }) (update id (some w) m)
                  (λ k. after_insert id k w store m same),
            )))
    | inr (known, found) ↦ rw (read, ◌>>=◌) (rw (same id) (rw found (refl, holds store read same)))
  ]

  delete-Shows :
      (id : List ℕ) (file : Option F) (m : Wallets)
      → Shows file m
      → Simulates (step json (delete_wallet id) file) (ideal_step (delete_wallet id) m)
  unfolding step Manager.delete Simulates
  delete-Shows id _ _ no_file = (refl, no_file)
  delete-Shows id _ _ (holds {m = m} store read same) = elim (Option-cases (m id)) [
    | inl missing ↦ rw (read, ◌>>=◌) (rw (same id) (rw missing (refl, holds store read same)))
    | inr (known, found) ↦
        rw (read, ◌>>=◌)
          (rw (same id) (
            rw found (
              refl,
              written (record { wallets = remove id store.wallets }) (update id none m)
                  (λ k. after_remove id k store m same),
            )))
  ]

  step-Shows :
      (command : Command) (file : Option F) (m : Wallets)
      → Shows file m
      → Simulates (step json command file) (ideal_step command m)
  step-Shows ensure_file file m shows = ensure-Shows file m shows
  step-Shows (add_wallet id w) file m shows = add-Shows id w file m shows
  step-Shows (delete_wallet id) file m shows = delete-Shows id file m shows
  step-Shows (look_up id) file m shows = look_up-Shows id file m shows

  run-Shows :
      (commands : List Command) (file : Option F) (m : Wallets)
      → Shows file m
      → run json commands file ≡ ideal_run commands m
  unfolding run Simulates
  run-Shows [] file m shows = refl
  run-Shows (command ∷ commands) file m shows =
      let (reply, after) = step-Shows command file m shows in
      ap (λ (r : Reply). r ∷ run json commands (step json command file).1) reply
      ∙ ap (λ (rs : List Reply). (ideal_step command m).0 ∷ rs)
          (run-Shows commands (step json command file).1 (ideal_step command m).1 after)

  -- From no file on, a client of the manager sees what it would see of a function from ids to wallets:
  -- whatever it calls in whatever order, each call gives the wallet or the error that the same call
  -- gives on the function. So a wallet that was added is found until it is deleted, an id is not given
  -- twice, and a call that fails changes nothing.
  pub run_refines : (commands : List Command) → run json commands none ≡ ideal_run commands none
  run_refines commands = run-Shows commands none none no_file
