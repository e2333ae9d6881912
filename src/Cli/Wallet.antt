-- ===== src/Cli/Wallet.antt =====
-- src/cli/wallet.rs: the wallet commands. A command runs on the contents of the wallet file, which it
-- may have changed where it fails. The paths of the options only choose that file.
pub mod Calls
pub mod Keeps
pub mod Signs
use feeless.Common.{
  ℕ, Bool, true, false, List, [], ◌++◌, Option, none, some, Result, ok, err, panic, if◌then◌else◌,
}
use feeless.Common.Text.{codes}
use feeless.Crypto.{Blake2b, Ed25519}
use feeless.Hexify.{Hex, as_hex}
use feeless.Keys.Public
use feeless.Keys.Public.{private_len}
use feeless.Keys.Seed.{seed_len}
use feeless.Keys.Phrase
use feeless.Keys.Phrase.{Bip, Language}
use feeless.Keys.Armor
use feeless.Keys.Armor.{as_bytes}
use feeless.Wallet.{
  Wallet, Json, zero_id, seed_wallet, private_wallet, phrase_wallet, wallet_private, wallet_public,
  wallet_address,
}
use feeless.Wallet.Manager
use feeless.Cli.{StringOrStdin, resolve, read_hex, println}

-- A call of the manager on the file, with the file that is left.
abbrev pub Run : Type 0 → Type 0 → Type 0
Run F A = Option F → Result A × Option F

-- The rest of a command behind one of its calls.
abbrev pub continue : {F A B : Type 0} → (A → Run F B) → Result A × Option F → Result B × Option F
continue next (ok a, after) = next a after
continue next (err e, after) = (err e, after)
continue next (panic, after) = (panic, after)

infixl 5 ◌>>=◌ ◌>>◌
unfoldable pub ◌>>=◌ : {F A B : Type 0} → Run F A → (A → Run F B) → Run F B
◌>>=◌ m next file = continue next (m file)

unfoldable pub ◌>>◌ : {F B : Type 0} → Run F (Unit {0}) → Run F B → Run F B
unfolding ◌>>=◌
m >> k = m >>= λ _. k

-- A step that leaves the file alone.
unfoldable pub pure : {F A : Type 0} → Result A → Run F A
pure r file = (r, file)

-- A call of the manager that fails leaves the file as it was.
abbrev pub settle : {F A : Type 0} → Option F → Result (A × Option F) → Result A × Option F
settle before (ok (a, after)) = (ok a, after)
settle before (err e) = (err e, before)
settle before panic = (panic, before)

abbrev pub settle_file : {F : Type 0} → Option F → Result (Option F) → Result (Unit {0}) × Option F
settle_file before (ok after) = (ok tt, after)
settle_file before (err e) = (err e, before)
settle_file before panic = (panic, before)

unfoldable pub call : {F A : Type 0} → (Option F → Result (A × Option F)) → Run F A
call m file = settle file (m file)

unfoldable pub call_file : {F : Type 0} → (Option F → Result (Option F)) → Run F (Unit {0})
call_file m file = settle_file file (m file)

-- `CommonOpts` and `CommonOptsCreate`, without the paths.
pub record CommonOpts : Type 0 where
  pub id : Option (List ℕ)

pub record CommonOptsCreate : Type 0 where
  pub common_opts : CommonOpts
  pub default : Bool

pub data CreateType : Type 0 where
  create_phrase : Language → CommonOptsCreate → CreateType
  create_seed : CommonOptsCreate → CreateType
  create_private : CommonOptsCreate → CreateType

pub data ImportType : Type 0 where
  import_phrase : StringOrStdin (List ℕ) → Language → CommonOptsCreate → ImportType
  import_seed : StringOrStdin (List ℕ) → CommonOptsCreate → ImportType
  import_private : StringOrStdin (List ℕ) → CommonOptsCreate → ImportType

pub record SignOpts : Type 0 where
  pub message : StringOrStdin (List ℕ)
  pub armor : Bool
  pub address : ℕ
  pub opts : CommonOpts

pub data Command : Type 0 where
  new : CreateType → Command
  import : ImportType → Command
  private : ℕ → CommonOpts → Command
  public : ℕ → CommonOpts → Command
  address : ℕ → CommonOpts → Command
  sign : SignOpts → Command
  delete : CommonOpts → Command

-- What a command draws: a wallet id, 32 bytes for a seed or a key, the mnemonic of a phrase.
pub record Draw (M : Type 0) : Type 0 where
  pub id : List ℕ
  pub bytes : List ℕ
  pub mnemonic : M

abbrev pub or_else : Option (List ℕ) → List ℕ → List ℕ
or_else none k = k
or_else (some id) k = id

-- `CommonOpts::wallet_id`
unfoldable pub wallet_id : CommonOpts → List ℕ
wallet_id o = or_else o.id zero_id

-- `CommonOptsCreate::wallet_id`, with the id that is drawn.
unfoldable pub create_id : List ℕ → CommonOptsCreate → List ℕ
create_id random o = if o.default then zero_id else or_else o.common_opts.id random

module _ {F : Type 0} (json : Json F) where
  unfoldable pub read : CommonOpts → Run F Wallet
  read o file = (Manager.wallet json (wallet_id o) file, file)

  unfoldable pub create : List ℕ → CommonOptsCreate → Run F (List ℕ)
  create random o = do call_file (Manager.ensure json); pure (ok (create_id random o))

  unfoldable pub delete_opts : CommonOpts → Run F (List ℕ)
  delete_opts o = do call_file (Manager.ensure json); pure (ok (wallet_id o))

  unfoldable pub add : List ℕ → Wallet → Run F (Unit {0})
  add id w = call_file (Manager.add json id w)

  module _ {M K D : Type 0} (bip : Bip M K D) (h : Blake2b) (c : Ed25519) (x : Hex) where
    unfoldable pub new_handle : Draw M → CreateType → Run F (List ℕ)
    new_handle drawn (create_phrase language opts) = do
      id ← create drawn.id opts
      w ← call (Manager.add_random_phrase json bip id language drawn.mnemonic)
      pure (ok (println (as_hex id)))
    new_handle drawn (create_seed opts) = do
      id ← create drawn.id opts
      w ← call (Manager.add_random_seed json id drawn.bytes)
      pure (ok (println (as_hex id)))
    new_handle drawn (create_private opts) = do
      id ← create drawn.id opts
      w ← call (Manager.add_random_private json id drawn.bytes)
      pure (ok (println (as_hex id)))

    unfoldable pub import_handle : Draw M → List ℕ → ImportType → Run F (List ℕ)
    import_handle drawn input (import_phrase words language opts) = do
      id ← create drawn.id opts
      text ← pure (resolve ok input words)
      phrase ← pure (Phrase.from_words bip language text)
      add id (phrase_wallet phrase)
      pure (ok (println (as_hex id)))
    import_handle drawn input (import_seed s opts) = do
      id ← create drawn.id opts
      seed ← pure (resolve (read_hex x seed_len) input s)
      add id (seed_wallet seed)
      pure (ok (println (as_hex id)))
    import_handle drawn input (import_private s opts) = do
      id ← create drawn.id opts
      key ← pure (resolve (read_hex x private_len) input s)
      add id (private_wallet key)
      pure (ok (println (as_hex id)))

    -- What `sign` prints: the armoured message, or the signature alone.
    unfoldable pub print_signed : Bool → ℕ → Wallet → List ℕ → List ℕ → Run F (List ℕ)
    print_signed true index w text signed = do
      at ← pure (wallet_address bip h c w index)
      pure (ok (println (Armor.to_string (Armor.new text at signed))))
    print_signed false index w text signed = pure (ok (println (as_hex signed)))

    -- `WalletOpts::handle`
    unfoldable pub handle : Draw M → List ℕ → Command → Run F (List ℕ)
    handle drawn input (new kind) = new_handle drawn kind
    handle drawn input (import kind) = import_handle drawn input kind
    handle drawn input (delete o) = do
      id ← delete_opts o
      call_file (Manager.delete json id)
      pure (ok (println (codes "Wallet WalletId(" ++ (as_hex id ++ codes ") was deleted"))))
    handle drawn input (private index o) = do
      w ← read o
      key ← pure (wallet_private bip h c w index)
      pure (ok (println (as_hex key)))
    handle drawn input (public index o) = do
      w ← read o
      key ← pure (wallet_public bip h c w index)
      pure (ok (println (as_hex key)))
    handle drawn input (address index o) = do
      w ← read o
      at ← pure (wallet_address bip h c w index)
      pure (ok (println at))
    handle drawn input (sign o) = do
      w ← read o.opts
      text ← pure (resolve ok input o.message)
      key ← pure (wallet_private bip h c w o.address)
      signed ← pure (Public.sign c key (as_bytes text))
      print_signed o.armor o.address w text signed
