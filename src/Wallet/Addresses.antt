-- ===== src/Wallet/Addresses.antt =====
-- The keys and the addresses of a wallet.
use feeless.Common.{ℕ, ◌≡◌, ◌∙◌, refl, List, ◌++◌, Option, none, some, ok, err, ◌>>=◌, Error, ne→==}
use feeless.Common.Words.{to_be_bytes}
use feeless.Common.Maps.{get, insert, get-insert_self, bytes_eq}
use feeless.Crypto.{Blake2b, Ed25519}
use feeless.Keys.Public.Laws.{to_public_ok}
use feeless.Keys.Address.{from_str, extract_public_key}
use feeless.Keys.Address.RoundTrip.{from_str-from_public}
use feeless.Keys.Seed.{derive_ok}
use feeless.Keys.Phrase.{Bip}
use feeless.Wallet.{
  WalletStorage, Json, seed_wallet, private_wallet, wallet_private, wallet_public, wallet_address,
}
use feeless.Wallet.Manager.{wallet, add, add_random_seed, load_unlocked}

module _ {M K D : Type 0} (bip : Bip M K D) (h : Blake2b) (c : Ed25519) where
  -- A wallet of a seed has an address at every index, with no error: that of the key of the hash of
  -- the seed and the index as four bytes. `from_str` accepts it and it reads back as that key.
  pub wallet_address-seed :
      (seed : List ℕ) (index : ℕ)
      → (address : List ℕ) × (wallet_address bip h c (seed_wallet seed) index ≡ ok address)
        × (from_str h address ≡ ok address)
        × (extract_public_key address
            ≡ ok (c.public_key (h.blake2b 32 (seed ++ to_be_bytes 4 index))))
  unfolding wallet_address wallet_public wallet_private
  wallet_address-seed seed index =
      let private = h.blake2b 32 (seed ++ to_be_bytes 4 index) in
      let (address, made, accepted, back, _) =
        from_str-from_public h (c.public_key private) (c.length-public_key private)
          (c.public_key-IsBytes private) in
      (
        address,
        rw (derive_ok h seed index, ◌>>=◌)
            (rw (to_public_ok c private (h.length-blake2b 32 (seed ++ to_be_bytes 4 index)), ◌>>=◌)
              made),
        accepted,
        back,
      )

  -- A wallet of a single key has that key at index 0 and no other.
  wallet_private-private :
      (private : List ℕ) (index : ℕ)
      → ¬ (index ≡ 0)
      → (wallet_private bip h c (private_wallet private) 0 ≡ ok private)
        × (wallet_private bip h c (private_wallet private) index ≡ err Error.wallet_error)
  unfolding wallet_private
  wallet_private-private private index other = (refl, rw (ne→== index 0 other))

-- A random seed that is added under an id that has no wallet is the wallet that is found there.
wallet-add_random_seed :
    {F : Type 0} (json : Json F) (id seed : List ℕ) (file : Option F) (store : WalletStorage)
    → load_unlocked json file ≡ ok store
    → get id store.wallets ≡ none
    → (after : Option F) × (add_random_seed json id seed file ≡ ok (seed_wallet seed, after))
      × (wallet json id after ≡ ok (seed_wallet seed))
unfolding add_random_seed wallet add load_unlocked
wallet-add_random_seed json id seed file store loaded free =
    let written : WalletStorage = record { wallets = insert id (seed_wallet seed) store.wallets } in
    let (back, read, kept) = json.from_reader-to_writer written in
    (
      some (json.to_writer written),
      rw (loaded, ◌>>=◌) (rw free),
      rw (read, ◌>>=◌) (rw (kept id ∙ get-insert_self id (seed_wallet seed) store.wallets)),
    )
