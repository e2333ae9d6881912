-- ===== src/Wallet.antt =====
-- src/wallet/mod.rs: wallets, and the manager that keeps them in a file.
use feeless.Common.{
  ℕ, ◌≡◌, Bool, true, false, List, [], Option, none, some, Result, ok, err, panic, ◌>>=◌, ◌>>◌,
  Error, ok_or, fail_if, not, ◌==◌, if◌then◌else◌, replicate,
}
use feeless.Common.Maps.{Map, get, insert, remove, bytes_eq}
use feeless.Crypto.{Blake2b, Ed25519}
use feeless.Keys.Public.{to_public}
use feeless.Keys.Address.{from_public}
use feeless.Keys.Seed.{derive}
use feeless.Keys.Phrase
use feeless.Keys.Phrase.{Phrase, Bip, Language, to_private}
pub mod Manager
pub mod Addresses

pub data Wallet : Type 0 where
  phrase_wallet : Phrase → Wallet
  seed_wallet : List ℕ → Wallet
  private_wallet : List ℕ → Wallet

-- `WalletId::LEN`, `WalletId::zero`
abbrev pub id_len : ℕ
id_len = 32

unfoldable pub zero_id : List ℕ
zero_id = replicate id_len 0

module _ {M K D : Type 0} (bip : Bip M K D) (h : Blake2b) (c : Ed25519) where
  unfoldable pub wallet_private : Wallet → ℕ → Result (List ℕ)
  wallet_private (seed_wallet seed) index = derive h seed index
  wallet_private (private_wallet private) index =
      if not (index == 0) then err Error.wallet_error else ok private
  wallet_private (phrase_wallet phrase) index = to_private bip index [] phrase

  unfoldable pub wallet_public : Wallet → ℕ → Result (List ℕ)
  unfolding wallet_private
  wallet_public w index = do private ← wallet_private w index; to_public c private

  unfoldable pub wallet_address : Wallet → ℕ → Result (List ℕ)
  unfolding wallet_public
  wallet_address w index = do public ← wallet_public w index; from_public h public

-- `struct WalletStorage`
pub record WalletStorage : Type 0 where
  pub wallets : Map (List ℕ) Wallet

unfoldable pub new_storage : WalletStorage
new_storage = record { wallets = [] }

-- `serde_json::to_writer_pretty` and `from_reader` on the contents of a file: what is written reads
-- back as a storage with the same wallets.
pub record Json (Contents : Type 0) : Type 0 where
  pub to_writer : WalletStorage → Contents
  pub from_reader : Contents → Result WalletStorage
  pub from_reader-to_writer :
      (store : WalletStorage)
      → (back : WalletStorage) × (from_reader (to_writer store) ≡ ok back)
        × ((id : List ℕ) → get id back.wallets ≡ get id store.wallets)
