-- ===== src/Wallet/Manager.antt =====
-- `WalletManager`: each operation on the contents of its file, which are `none` where there is no
-- file. Opening, creating and writing a file that may be opened are taken to succeed.
pub mod Refines
use feeless.Common.{
  ℕ, ◌≡◌, Bool, true, false, List, [], ◌∷◌, Option, none, some, Result, ok, err, panic, ◌>>=◌, ◌>>◌,
  Error, ok_or, fail_if, not,
}
use feeless.Common.Maps.{get, insert, remove, bytes_eq}
use feeless.Keys.Phrase
use feeless.Keys.Phrase.{Bip, Language}
use feeless.Wallet.{
  Wallet, WalletStorage, new_storage, Json, seed_wallet, private_wallet, phrase_wallet,
}

abbrev pub has : {A : Type 0} → Option A → Bool
has none = false
has (some a) = true

module _ {F : Type 0} (json : Json F) where
  unfoldable pub ensure : Option F → Result (Option F)
  ensure (some contents) = ok (some contents)
  ensure none = ok (some (json.to_writer new_storage))

  unfoldable pub load_unlocked : Option F → Result WalletStorage
  load_unlocked none = err Error.wallet_file_error
  load_unlocked (some contents) = json.from_reader contents

  unfoldable pub wallet : List ℕ → Option F → Result Wallet
  unfolding load_unlocked
  wallet reference file = do
    store ← load_unlocked file
    ok_or (get reference store.wallets) Error.wallet_not_found

  unfoldable pub add : List ℕ → Wallet → Option F → Result (Option F)
  unfolding load_unlocked
  add reference w file = do
    storage ← load_unlocked file
    fail_if (has (get reference storage.wallets)) Error.wallet_exists
    ok (some (json.to_writer (record { wallets = insert reference w storage.wallets })))

  unfoldable pub delete : List ℕ → Option F → Result (Option F)
  unfolding load_unlocked
  delete reference file = do
    storage ← load_unlocked file
    fail_if (not (has (get reference storage.wallets))) Error.wallet_missing
    ok (some (json.to_writer (record { wallets = remove reference storage.wallets })))

  -- The wallets that are added with a secret that was drawn at random.
  unfoldable pub add_random_seed : List ℕ → List ℕ → Option F → Result (Wallet × Option F)
  unfolding add
  add_random_seed id seed file = do
    after ← add id (seed_wallet seed) file
    ok (seed_wallet seed, after)

  unfoldable pub add_random_private : List ℕ → List ℕ → Option F → Result (Wallet × Option F)
  unfolding add
  add_random_private reference private file = do
    after ← add reference (private_wallet private) file
    ok (private_wallet private, after)

  unfoldable pub add_random_phrase :
      {M K D : Type 0} → Bip M K D → List ℕ → Language → M → Option F → Result (Wallet × Option F)
  unfolding add
  add_random_phrase bip id lang m file = do
    let w = phrase_wallet (Phrase.random bip lang m)
    after ← add id w file
    ok (w, after)
