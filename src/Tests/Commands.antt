-- ===== src/Tests/Commands.antt =====
-- Examples of the commands of the toolbox.
use feeless.Common.{
  ℕ, ◌≡◌, ◌≢◌, ◌>>=◌, refl, ap, Bool, true, false, List, [], ◌∷◌, Option, none, some, ok, replicate,
  arith,
}
use feeless.Common.Text.{codes}
use feeless.Keys.Armor.{trim}
use feeless.Keys.Armor.Lines.{one_line}
use feeless.Keys.Address
use feeless.Hexify.{as_hex}
use feeless.Wallet.{WalletStorage, seed_wallet}
use feeless.Wallet.Manager
use feeless.Cli.{string, stdin, read_hex, println}
use feeless.Cli.Keys.{
  AddressCommand, PublicCommand, PrivateCommand, SeedCommand, address_handle, public_handle,
  private_handle, seed_handle,
}
use feeless.Cli.Keys.Pipes.{seed_handle-pipe}
use feeless.Vanity.{SecretResult, seed_secret}
use feeless.Cli.Verify
use feeless.Cli.Wallet as Commands
use feeless.Cli.Wallet.{Command, Draw, ImportType, CommonOpts, CommonOptsCreate, create_id}
use feeless.Cli.Wallet.Calls.{Has}
use feeless.Cli.Wallet.Keeps.{handle-Has}
use feeless.Cli.Wallet.Signs.{handle_armor-sign, handle_args-sign}
use feeless.Tests.Instances.{blake, curve, hex}
use feeless.Tests.Toolbox.{words, plain}

abbrev a_seed : List ℕ
a_seed = replicate 32 1

seed_handle-pipe_example :
    ((do
      private ← seed_handle blake curve hex [] [] (SeedCommand.to_private (string a_seed) 3)
      public ← private_handle blake curve hex [] private (PrivateCommand.to_public stdin)
      public_handle blake curve hex public (PublicCommand.to_address stdin))
      ≡ seed_handle blake curve hex [] [] (SeedCommand.to_address (string a_seed) 3))
    × ((do
      private ← seed_handle blake curve hex [] [] (SeedCommand.to_private (string a_seed) 3)
      public ← private_handle blake curve hex [] private (PrivateCommand.to_public stdin)
      address ← public_handle blake curve hex public (PublicCommand.to_address stdin)
      address_handle blake curve hex address (AddressCommand.to_public stdin))
        ≡ seed_handle blake curve hex [] [] (SeedCommand.to_public (string a_seed) 3))
seed_handle-pipe_example = seed_handle-pipe blake curve hex [] [] (string a_seed) 3

abbrev draw : Draw (List ℕ)
draw = record { id = replicate 32 5; bytes = replicate 32 6; mnemonic = [] }

abbrev an_id : List ℕ
an_id = replicate 32 7

abbrev one_wallet : Option WalletStorage
one_wallet = some (record { wallets = (an_id, seed_wallet a_seed) ∷ [] })

one_wallet-Has : Has plain an_id (seed_wallet a_seed) one_wallet
unfolding Manager.wallet Manager.load_unlocked feeless.Common.Maps.get feeless.Common.Maps.list_eq
one_wallet-Has = refl

-- It would replace the wallet.
abbrev same_id : CommonOptsCreate
same_id = record { common_opts = record { id = some an_id }; default = false }

abbrev import_over : Command
import_over = Command.import (ImportType.import_seed (string (replicate 32 2)) same_id)

handle-Has_example :
    Has plain an_id
      (seed_wallet a_seed)
      (Commands.handle plain words blake curve hex draw [] import_over one_wallet).1
handle-Has_example =
    handle-Has plain an_id (seed_wallet a_seed) words blake curve hex draw [] import_over one_wallet
      tt one_wallet-Has

abbrev any_id : CommonOptsCreate
any_id = record { common_opts = record { id = none }; default = false }

hi_line : one_line (codes "hi") ≡ true
unfolding one_line
hi_line = refl

hi_tight : trim (codes "hi") ≡ codes "hi"
unfolding trim feeless.Keys.Armor.is_whitespace
hi_tight = refl

handle_armor-sign_example :
    (after : Option WalletStorage) × (signed : List ℕ) × (Commands.handle plain words blake curve
        hex draw []
        (Command.import (ImportType.import_seed (string a_seed) any_id))
        none
      ≡ (ok (println (as_hex (create_id draw.id any_id))), after))
    × (Commands.handle plain words blake curve hex draw []
          (Command.sign (record {
            message = string (codes "hi");
            armor = true;
            address = 3;
            opts = record { id = some (create_id draw.id any_id) };
          }))
          after
        ≡ (ok signed, after))
    × (Verify.handle blake curve hex signed
          (record { address = none; public = none; signature = none; message = none; armor = true })
        ≡ ok (println (codes "OK")))
handle_armor-sign_example =
    handle_armor-sign plain words blake curve hex draw [] a_seed (codes "hi") 3 any_id none tt
      hi_line hi_tight

handle_args-sign_example :
    (after : Option WalletStorage) × (at text signature : List ℕ) × (Commands.handle plain words
        blake curve hex draw []
        (Command.import (ImportType.import_seed (string a_seed) any_id))
        none
      ≡ (ok (println (as_hex (create_id draw.id any_id))), after))
    × (Commands.handle plain words blake curve hex draw []
          (Command.address 3 (record { id = some (create_id draw.id any_id) }))
          after
        ≡ (ok (println at), after))
    × (Commands.handle plain words blake curve hex draw []
          (Command.sign (record {
            message = string (codes " hi");
            armor = false;
            address = 3;
            opts = record { id = some (create_id draw.id any_id) };
          }))
          after
        ≡ (ok (println text), after))
    × (Address.from_str blake at ≡ ok at)
    × (read_hex hex 64 text ≡ ok signature)
    × (Verify.handle blake curve hex [] (record {
      address = some at;
      public = none;
      signature = some signature;
      message = some (codes " hi");
      armor = false;
    })
        ≡ ok (println (codes "OK")))
handle_args-sign_example =
    handle_args-sign plain words blake curve hex draw [] a_seed (codes " hi") 3 any_id none tt

abbrev a_result : SecretResult
a_result = record { secret = seed_secret a_seed; address = codes "nano_" }
