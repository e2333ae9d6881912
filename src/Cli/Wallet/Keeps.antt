-- ===== src/Cli/Wallet/Keeps.antt =====
-- What the wallet commands leave of the wallets that the file has.
use feeless.Common.{
  ℕ, ◌≡◌, ◌≢◌, refl, Bool, true, false, List, Option, Result, ok, err, panic, ◌>>=◌ as bind,
}
use feeless.Common.Maps.{bytes_eq}
use feeless.Crypto.{Blake2b, Ed25519}
use feeless.Hexify.{Hex}
use feeless.Keys.Phrase.{Bip}
use feeless.Wallet.{Wallet, Json}
use feeless.Wallet.Manager
use feeless.Cli.Wallet.Calls.{Has, Has-ensure, Has-add, Has-delete}
use feeless.Cli.Wallet.{
  Run, ◌>>=◌, ◌>>◌, pure, call, call_file, continue, settle, settle_file, Command, Draw, CreateType,
  ImportType, CommonOpts, CommonOptsCreate, wallet_id, create, delete_opts, add, new_handle,
  import_handle, print_signed, read, handle,
}

module _ {F : Type 0} (json : Json F) (id : List ℕ) (w : Wallet) where
  -- What is run keeps it, whether it succeeds or not.
  pub record Keeps {A : Type 0} (m : Run F A) : Type 0 where
    pub apply : (file : Option F) → Has json id w file → Has json id w (m file).1

  Has-continue :
      {A B : Type 0} (next : A → Run F B) (m : Result A × Option F)
      → Has json id w m.1
      → ((a : A) → Keeps (next a))
      → Has json id w (continue next m).1
  Has-continue next (ok a, after) kept step = (step a).apply after kept
  Has-continue next (err e, after) kept step = kept
  Has-continue next (panic, after) kept step = kept

  keep_bind :
      {A B : Type 0} (m : Run F A) (next : A → Run F B)
      → Keeps m
      → ((a : A) → Keeps (next a))
      → Keeps (m >>= next)
  unfolding ◌>>=◌
  keep_bind m next k step = record {
    apply = λ file has. Has-continue next (m file) (k.apply file has) step;
  }

  keep_then : {B : Type 0} (m : Run F (Unit {0})) (k : Run F B) → Keeps m → Keeps k → Keeps (m >> k)
  unfolding ◌>>◌
  keep_then m k first second = keep_bind m (λ _. k) first (λ _. second)

  keep_pure : {A : Type 0} (r : Result A) → Keeps (pure r)
  unfolding pure
  keep_pure r = record { apply = λ file has. has }

  keep_ensure : Keeps (call_file (Manager.ensure json))
  unfolding call_file
  keep_ensure = record { apply = Has-ensure json id w }

  keep_add : (reference : List ℕ) (v : Wallet) → Keeps (call_file (Manager.add json reference v))
  unfolding call_file
  keep_add reference v = record { apply = Has-add json id w reference v }

  keep_delete :
      (reference : List ℕ) → reference ≢ id → Keeps (call_file (Manager.delete json reference))
  unfolding call_file
  keep_delete reference apart = record { apply = λ file. Has-delete json id w reference file apart }

  -- Adding a wallet that was drawn adds it and then hands it back.
  Has-settle :
      {A : Type 0} (a : A) (file : Option F) (r : Result (Option F))
      → Has json id w (settle_file file r).1
      → Has json id w (settle file (bind r (λ after. ok (a, after)))).1
  Has-settle a file (ok after) has = has
  Has-settle a file (err e) has = has
  Has-settle a file panic has = has

  keep_drawn :
      (reference : List ℕ) (v : Wallet) (m : Option F → Result (Wallet × Option F))
      → ((file : Option F)
          → m file ≡ bind (Manager.add json reference v file) (λ after. ok (v, after)))
      → Keeps (call m)
  unfolding call
  keep_drawn reference v m same = record {
    apply = λ file has. rw (same file) (
        Has-settle v file (Manager.add json reference v file)
          (Has-add json id w reference v file has));
  }

  Has-known :
      {A B : Type 0} (a : A) (next : A → Run F B) (m : Result (Unit {0}) × Option F)
      → Has json id w m.1
      → Keeps (next a)
      → Has json id w (continue next (continue (λ _ after. (ok a, after)) m)).1
  Has-known a next (ok u, after) kept step = step.apply after kept
  Has-known a next (err e, after) kept step = kept
  Has-known a next (panic, after) kept step = kept

  -- The rest of a command behind a value that is known.
  keep_known :
      {A B : Type 0} (m : Run F (Unit {0})) (a : A) (next : A → Run F B)
      → Keeps m
      → Keeps (next a)
      → Keeps (m >> pure (ok a) >>= next)
  unfolding ◌>>=◌ ◌>>◌ pure
  keep_known m a next k step = record {
    apply = λ file has. Has-known a next (m file) (k.apply file has) step;
  }

  keep_read : (o : CommonOpts) → Keeps (read json o)
  unfolding read
  keep_read o = record { apply = λ file has. has }

  keep_create : (random : List ℕ) (o : CommonOptsCreate) → Keeps (create json random o)
  unfolding create
  keep_create random o = keep_then _ _ keep_ensure (keep_pure _)

  -- What a command other than `delete` of this wallet leaves alone.
  abbrev pub Spares : Command → Type 0
  Spares (Command.delete o) = wallet_id o ≢ id
  Spares _ = Unit {0}

  module _ {M K D : Type 0} (bip : Bip M K D) (h : Blake2b) (c : Ed25519) (x : Hex) (drawn : Draw M)
      (input : List ℕ) where
    keep_new : (kind : CreateType) → Keeps (new_handle json bip h c x drawn kind)
    unfolding new_handle Manager.add_random_phrase Manager.add_random_seed
        Manager.add_random_private
    keep_new (CreateType.create_phrase language o) =
        keep_bind _ _ (keep_create drawn.id o)
          (λ i. keep_bind _ _ (keep_drawn i _ _ (λ file. refl)) (λ v. keep_pure _))
    keep_new (CreateType.create_seed o) =
        keep_bind _ _ (keep_create drawn.id o)
          (λ i. keep_bind _ _ (keep_drawn i _ _ (λ file. refl)) (λ v. keep_pure _))
    keep_new (CreateType.create_private o) =
        keep_bind _ _ (keep_create drawn.id o)
          (λ i. keep_bind _ _ (keep_drawn i _ _ (λ file. refl)) (λ v. keep_pure _))

    keep_import : (kind : ImportType) → Keeps (import_handle json bip h c x drawn input kind)
    unfolding import_handle add
    keep_import (ImportType.import_phrase words language o) =
        keep_bind _ _ (keep_create drawn.id o) (λ i. keep_bind _ _ (keep_pure _) (λ text.
          keep_bind _ _ (keep_pure _) (λ phrase. keep_then _ _ (keep_add i _) (keep_pure _))))
    keep_import (ImportType.import_seed seed o) =
        keep_bind _ _ (keep_create drawn.id o)
          (λ i. keep_bind _ _ (keep_pure _) (λ s. keep_then _ _ (keep_add i _) (keep_pure _)))
    keep_import (ImportType.import_private key o) =
        keep_bind _ _ (keep_create drawn.id o)
          (λ i. keep_bind _ _ (keep_pure _) (λ s. keep_then _ _ (keep_add i _) (keep_pure _)))

    keep_signed :
        (armor : Bool) (index : ℕ) (v : Wallet) (text signed : List ℕ)
        → Keeps (print_signed json bip h c x armor index v text signed)
    unfolding print_signed
    keep_signed true index v text signed = keep_bind _ _ (keep_pure _) (λ at. keep_pure _)
    keep_signed false index v text signed = keep_pure _

    keep_handle :
        (command : Command) → Spares command → Keeps (handle json bip h c x drawn input command)
    unfolding handle delete_opts
    keep_handle (Command.new kind) spared = keep_new kind
    keep_handle (Command.import kind) spared = keep_import kind
    keep_handle (Command.private index o) spared =
        keep_bind _ _ (keep_read o) (λ v. keep_bind _ _ (keep_pure _) (λ key. keep_pure _))
    keep_handle (Command.public index o) spared =
        keep_bind _ _ (keep_read o) (λ v. keep_bind _ _ (keep_pure _) (λ key. keep_pure _))
    keep_handle (Command.address index o) spared =
        keep_bind _ _ (keep_read o) (λ v. keep_bind _ _ (keep_pure _) (λ at. keep_pure _))
    keep_handle (Command.sign o) spared = keep_bind _ _ (keep_read o.opts) (λ v.
        keep_bind _ _ (keep_pure _) (λ text. keep_bind _ _ (keep_pure _) (λ key.
          keep_bind _ _ (keep_pure _) (λ signed. keep_signed o.armor o.address v text signed))))
    keep_handle (Command.delete o) spared =
        keep_known _ (wallet_id o) _ keep_ensure
          (keep_then _ _ (keep_delete (wallet_id o) spared) (keep_pure _))

    -- A wallet that the file has stays there whatever command is run and however it ends, unless it is
    -- `delete` of its id: no `new` or `import` replaces it.
    pub handle-Has :
        (command : Command) (file : Option F)
        → Spares command
        → Has json id w file
        → Has json id w (handle json bip h c x drawn input command file).1
    handle-Has command file spared has = (keep_handle command spared).apply file has
