-- ===== src/Cli/Wallet/Calls.antt =====
-- What the calls of the wallet manager leave of a wallet that the file has.
use feeless.Common.{
  ℕ, ◌≡◌, ◌≢◌, ◌∙◌, sym, ap, List, Option, none, some, ok, ◌>>=◌ as bind, >>=-eq-ok, ok_or-eq-ok,
  Option-cases, inl, inr,
}
use feeless.Common.Maps.{get, insert, remove, bytes_eq, get-insert_ne, get-remove_ne}
use feeless.Wallet.{Wallet, WalletStorage, Json}
use feeless.Wallet.Manager
use feeless.Cli.Wallet.{settle_file, read}

taken_ne :
    (reference id : List ℕ) (store : WalletStorage) {w : Wallet}
    → get reference store.wallets ≡ none
    → get id store.wallets ≡ some w
    → reference ≢ id
taken_ne reference id store free got same =
    cc (sym free ∙ (ap (λ (k : List ℕ). get k store.wallets) same ∙ got))

module _ {F : Type 0} (json : Json F) (id : List ℕ) (w : Wallet) where
  -- The file has this wallet under this id.
  abbrev pub Has : Option F → Type 0
  Has file = Manager.wallet json id file ≡ ok w

  stored :
      (contents : F)
      → Has (some contents)
      → (store : WalletStorage) × (json.from_reader contents ≡ ok store)
        × (get id store.wallets ≡ some w)
  unfolding Manager.wallet Manager.load_unlocked
  stored contents has =
      let (store, read, got) = >>=-eq-ok (json.from_reader contents) _ has in
      (store, read, ok_or-eq-ok (get id store.wallets) _ got)

  pub Has-to_writer :
      (store : WalletStorage) → get id store.wallets ≡ some w → Has (some (json.to_writer store))
  unfolding Manager.wallet Manager.load_unlocked
  Has-to_writer store got =
      let (back, read, kept) = json.from_reader-to_writer store in
      rw (read, bind) (rw (kept id ∙ got))

  pub Has-ensure :
      (file : Option F) → Has file → Has (settle_file file (Manager.ensure json file)).1
  unfolding Manager.ensure
  Has-ensure (some contents) has = has
  Has-ensure none has = unfold Manager.wallet Manager.load_unlocked in cc has

  pub Has-add :
      (reference : List ℕ) (v : Wallet) (file : Option F)
      → Has file
      → Has (settle_file file (Manager.add json reference v file)).1
  unfolding Manager.add Manager.load_unlocked
  Has-add reference v none has = unfold Manager.wallet in cc has
  Has-add reference v (some contents) has =
      let (store, read, got) = stored contents has in
      elim (Option-cases (get reference store.wallets)) [
        | inr (old, taken) ↦ rw (read, bind) (rw taken has)
        | inl free ↦
            let apart : reference ≢ id = taken_ne reference id store free got in
            rw (read, bind)
              (rw free (
                Has-to_writer (record { wallets = insert reference v store.wallets })
                  (get-insert_ne id reference v store.wallets apart ∙ got)))
      ]

  pub Has-delete :
      (reference : List ℕ) (file : Option F)
      → reference ≢ id
      → Has file
      → Has (settle_file file (Manager.delete json reference file)).1
  unfolding Manager.delete Manager.load_unlocked
  Has-delete reference none apart has = unfold Manager.wallet in cc has
  Has-delete reference (some contents) apart has =
      let (store, read, got) = stored contents has in
      elim (Option-cases (get reference store.wallets)) [
        | inl missing ↦ rw (read, bind) (rw missing has)
        | inr (old, there) ↦
            rw (read, bind)
              (rw there (
                Has-to_writer (record { wallets = remove reference store.wallets })
                  (get-remove_ne id reference store.wallets apart ∙ got)))
      ]
