-- ===== src/Cli/Wallet/Signs.antt =====
-- Signing with the wallet commands and checking what they printed with the verify command.
use feeless.Common.{
  ℕ, ◌≡◌, ◌∙◌, refl, Bool, true, false, List, ◌++◌, Option, none, some, ok, ◌>>=◌ as bind,
}
use feeless.Common.Maps.{get, insert, bytes_eq, get-insert_self}
use feeless.Common.Text.{codes}
use feeless.Common.Words.{to_be_bytes}
use feeless.Crypto.{Blake2b, Ed25519}
use feeless.Hexify.{Hex, as_hex}
use feeless.Keys.Public.{signature_len}
use feeless.Keys.Public.Laws.{to_public_ok, sign_ok, verify_own}
use feeless.Keys.Address
use feeless.Keys.Address.{from_public, extract_public_key}
use feeless.Keys.Address.RoundTrip.{from_str-from_public}
use feeless.Keys.Armor
use feeless.Keys.Armor.{Armor, as_bytes, trim}
use feeless.Keys.Armor.Lines.{one_line}
use feeless.Keys.Armor.RoundTrip.{from_str-println}
use feeless.Keys.Phrase.{Bip}
use feeless.Keys.Seed.{derive_ok}
use feeless.Wallet.{
  Wallet, WalletStorage, Json, new_storage, seed_wallet, wallet_private, wallet_public,
  wallet_address,
}
use feeless.Wallet.Manager
use feeless.Cli.{string, resolve, read_hex, println}
use feeless.Cli.Keys.Pipes.{read_hex_ok}
use feeless.Cli.Verify
use feeless.Cli.Verify.{VerifyOpts}
use feeless.Cli.Wallet.{
  ◌>>=◌, ◌>>◌, pure, call_file, Command, Draw, ImportType, CommonOptsCreate, create, create_id,
  wallet_id, add, import_handle, print_signed, read, handle,
}
use feeless.Cli.Wallet.Calls.{Has, Has-to_writer}

module _ {F : Type 0} (json : Json F) where
  -- There is no file yet, or one without a wallet of this id.
  abbrev pub Free : List ℕ → Option F → Type 0
  Free id none = Unit {0}
  Free id (some contents) =
      (store : WalletStorage) × (json.from_reader contents ≡ ok store)
      × (get id store.wallets ≡ none)

  add_absent :
      (id : List ℕ) (w : Wallet) (contents : F) (store : WalletStorage)
      → json.from_reader contents ≡ ok store
      → get id store.wallets ≡ none
      → (after : Option F) × (Manager.add json id w (some contents) ≡ ok after)
        × Has json id w after
  unfolding Manager.add Manager.load_unlocked
  add_absent id w contents store read absent =
      let written : WalletStorage = record { wallets = insert id w store.wallets } in
      (
        some (json.to_writer written),
        rw (read, bind) (rw absent),
        Has-to_writer json id w written (get-insert_self id w store.wallets),
      )

  -- A wallet is added under an id that is free, and found there.
  add-Free :
      (id : List ℕ) (w : Wallet) (file : Option F)
      → Free id file
      → (before after : Option F) × (Manager.ensure json file ≡ ok before)
        × (Manager.add json id w before ≡ ok after)
        × Has json id w after
  unfolding Manager.ensure
  add-Free id w none free =
      let (back, read, kept) = json.from_reader-to_writer new_storage in
      let (after, added, has) =
        add_absent id w (json.to_writer new_storage) back read
          (kept id ∙ (unfold new_storage get in refl)) in
      (some (json.to_writer new_storage), after, refl, added, has)
  add-Free id w (some contents) (store, read, absent) =
      let (after, added, has) = add_absent id w contents store read absent in
      (some contents, after, refl, added, has)

  module _ {M K D : Type 0} (bip : Bip M K D) (h : Blake2b) (c : Ed25519) (x : Hex) (drawn : Draw M)
      (input : List ℕ) where
    -- Importing a seed adds its wallet where the id is free, and prints the id.
    import_seed-Free :
        (seed : List ℕ) (o : CommonOptsCreate) (file : Option F)
        → Free (create_id drawn.id o) file
        → (after : Option F) × (handle json bip h c x drawn input
              (Command.import (ImportType.import_seed (string seed) o))
              file
            ≡ (ok (println (as_hex (create_id drawn.id o))), after))
          × Has json (create_id drawn.id o) (seed_wallet seed) after
    unfolding handle import_handle create add pure call_file ◌>>=◌ ◌>>◌ resolve
    import_seed-Free seed o file free =
        let (before, after, ensured, added, has) =
          add-Free (create_id drawn.id o) (seed_wallet seed) file free in
        (after, rw (ensured, added) refl, has)

    module _ (id seed : List ℕ) (index : ℕ) (file : Option F)
        (has : Has json id (seed_wallet seed) file) where
      abbrev key : List ℕ
      key = h.blake2b 32 (seed ++ to_be_bytes 4 index)

      -- The address that a wallet of a seed prints.
      print_address :
          (at : List ℕ) × (handle json bip h c x drawn input
              (Command.address index (record { id = some id }))
              file
            ≡ (ok (println at), file))
          × (wallet_address bip h c (seed_wallet seed) index ≡ ok at)
          × (from_public h (c.public_key key) ≡ ok at)
          × (Address.from_str h at ≡ ok at)
          × (extract_public_key at ≡ ok (c.public_key key))
      unfolding handle read wallet_id pure ◌>>=◌ wallet_address wallet_public wallet_private
      print_address =
          let (at, made, accepted, back, _) =
            from_str-from_public h (c.public_key key) (c.length-public_key key)
              (c.public_key-IsBytes key) in
          let long = h.length-blake2b 32 (seed ++ to_be_bytes 4 index) in
          let address : wallet_address bip h c (seed_wallet seed) index ≡ ok at =
            rw (derive_ok h seed index, to_public_ok c key long) made in
          (at, rw (has, address) refl, address, made, accepted, back)

      -- What it prints when it signs.
      print_sign :
          (message : List ℕ) (armor : Bool)
          → handle json bip h c x drawn input
              (Command.sign (record {
                message = string message;
                armor = armor;
                address = index;
                opts = record { id = some id };
              }))
              file
            ≡ print_signed json bip h c x armor index
                (seed_wallet seed)
                message
                (c.sign key (as_bytes message))
                file
      unfolding handle read wallet_id pure ◌>>=◌ wallet_private resolve
      print_sign message armor =
          rw
            (
              has,
              derive_ok h seed index,
              sign_ok c key (as_bytes message) (h.length-blake2b 32 (seed ++ to_be_bytes 4 index)),
            )
            refl

    -- A seed is imported under an id that is free, and the wallet then signs a message of one line with no
    -- space around it in armour: no command fails, and what `wallet sign --armor` prints passes
    -- `verify --armor`.
    pub handle_armor-sign :
        (seed message : List ℕ) (index : ℕ) (o : CommonOptsCreate) (file : Option F)
        → Free (create_id drawn.id o) file
        → one_line message ≡ true
        → trim message ≡ message
        → (after : Option F) × (signed : List ℕ) × (handle json bip h c x drawn input
              (Command.import (ImportType.import_seed (string seed) o))
              file
            ≡ (ok (println (as_hex (create_id drawn.id o))), after))
          × (handle json bip h c x drawn input
                (Command.sign (record {
                  message = string message;
                  armor = true;
                  address = index;
                  opts = record { id = some (create_id drawn.id o) };
                }))
                after
              ≡ (ok signed, after))
          × (Verify.handle h c x signed (record {
            address = none;
            public = none;
            signature = none;
            message = none;
            armor = true;
          })
              ≡ ok (println (codes "OK")))
    unfolding Verify.handle print_signed pure ◌>>=◌ Armor.verify Armor.new
    handle_armor-sign seed message index o file free line tight =
        let (after, imported, has) = import_seed-Free seed o file free in
        let id = create_id drawn.id o in
        let secret = key id seed index after has in
        let signature = c.sign secret (as_bytes message) in
        let (at, printed, address, made, accepted, back) = print_address id seed index after has in
        let armored = Armor.new message at signature in
        let read =
          from_str-println h x armored (c.public_key secret) line (c.length-public_key secret)
            (c.public_key-IsBytes secret) made (c.length-sign secret (as_bytes message))
            (c.sign-IsBytes secret (as_bytes message)) in
        (
          after,
          println (Armor.to_string armored),
          imported,
          print_sign id seed index after has message true ∙ rw address refl,
          unfold println in
              rw (read, bind) (rw tight (rw (back, verify_own c secret (as_bytes message)) refl)),
        )

    -- The same with the address and the signature on their own, for any message: `wallet address` prints
    -- an address that `FromStr` takes, `wallet sign` prints a text that `FromStr` of a signature reads, and
    -- `verify` with the address and the signature that are read passes.
    pub handle_args-sign :
        (seed message : List ℕ) (index : ℕ) (o : CommonOptsCreate) (file : Option F)
        → Free (create_id drawn.id o) file
        → (after : Option F) × (at text signature : List ℕ) × (handle json bip h c x drawn input
              (Command.import (ImportType.import_seed (string seed) o))
              file
            ≡ (ok (println (as_hex (create_id drawn.id o))), after))
          × (handle json bip h c x drawn input
                (Command.address index (record { id = some (create_id drawn.id o) }))
                after
              ≡ (ok (println at), after))
          × (handle json bip h c x drawn input
                (Command.sign (record {
                  message = string message;
                  armor = false;
                  address = index;
                  opts = record { id = some (create_id drawn.id o) };
                }))
                after
              ≡ (ok (println text), after))
          × (Address.from_str h at ≡ ok at)
          × (read_hex x signature_len text ≡ ok signature)
          × (Verify.handle h c x input (record {
            address = some at;
            public = none;
            signature = some signature;
            message = some message;
            armor = false;
          })
              ≡ ok (println (codes "OK")))
    unfolding Verify.handle print_signed pure
    handle_args-sign seed message index o file free =
        let (after, imported, has) = import_seed-Free seed o file free in
        let id = create_id drawn.id o in
        let secret = key id seed index after has in
        let signature = c.sign secret (as_bytes message) in
        let (at, printed, address, made, accepted, back) = print_address id seed index after has in
        let read : read_hex x 64 (as_hex signature) ≡ ok signature =
          rw (c.length-sign secret (as_bytes message)) at
            (read_hex_ok x signature (c.sign-IsBytes secret (as_bytes message))) in
        (
          after,
          at,
          as_hex signature,
          signature,
          imported,
          printed,
          print_sign id seed index after has message false,
          accepted,
          read,
          rw (back, verify_own c secret (as_bytes message)) refl,
        )
