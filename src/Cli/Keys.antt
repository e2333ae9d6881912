-- ===== src/Cli/Keys.antt =====
-- src/cli/address.rs, public.rs, private.rs, seed.rs and phrase.rs: conversions between the forms of a
-- key.
pub mod Pipes
use feeless.Common.{ℕ, List, [], Option, none, some, Result, ok, ◌>>=◌, unwrap}
use feeless.Crypto.{Blake2b, Ed25519}
use feeless.Hexify.{Hex, as_hex}
use feeless.Keys.Public
use feeless.Keys.Public.{public_len, private_len}
use feeless.Keys.Address
use feeless.Keys.Address.{from_public, extract_public_key}
use feeless.Keys.Seed.{seed_len, derive}
use feeless.Keys.Phrase
use feeless.Keys.Phrase.{Bip, Language, from_words}
use feeless.Cli.{StringOrStdin, resolve, read_hex, println}

-- `enum Command` of each file.
pub data AddressCommand : Type 0 where
  to_public : StringOrStdin (List ℕ) → AddressCommand

pub data PublicCommand : Type 0 where
  to_address : StringOrStdin (List ℕ) → PublicCommand

pub data PrivateCommand : Type 0 where
  new : PrivateCommand
  to_public : StringOrStdin (List ℕ) → PrivateCommand
  to_address : StringOrStdin (List ℕ) → PrivateCommand

pub data SeedCommand : Type 0 where
  new : SeedCommand
  to_private : StringOrStdin (List ℕ) → ℕ → SeedCommand
  to_public : StringOrStdin (List ℕ) → ℕ → SeedCommand
  to_address : StringOrStdin (List ℕ) → ℕ → SeedCommand

pub record FromPhraseOpts : Type 0 where
  pub words : StringOrStdin (List ℕ)
  pub language : Language
  pub account : ℕ
  pub passphrase : Option (List ℕ)

pub data PhraseCommand : Type 0 where
  new : Language → PhraseCommand
  to_private : FromPhraseOpts → PhraseCommand
  to_public : FromPhraseOpts → PhraseCommand
  to_address : FromPhraseOpts → PhraseCommand

-- `Option::unwrap_or`
abbrev pub unwrap_or : Option (List ℕ) → List ℕ → List ℕ
unwrap_or none s = s
unwrap_or (some t) s = t

module _ (h : Blake2b) (c : Ed25519) (x : Hex) where
  unfoldable pub address_handle : List ℕ → AddressCommand → Result (List ℕ)
  unfolding resolve println
  address_handle input (AddressCommand.to_public p) = do
    address ← resolve (Address.from_str h) input p
    public ← unwrap (extract_public_key address)
    ok (println (as_hex public))

  unfoldable pub public_handle : List ℕ → PublicCommand → Result (List ℕ)
  unfolding resolve println
  public_handle input (PublicCommand.to_address a) = do
    public ← resolve (read_hex x public_len) input a
    address ← from_public h public
    ok (println address)

  unfoldable pub private_handle : List ℕ → List ℕ → PrivateCommand → Result (List ℕ)
  unfolding resolve println
  private_handle random input PrivateCommand.new = ok (println (as_hex random))
  private_handle random input (PrivateCommand.to_public a) = do
    private ← resolve (read_hex x private_len) input a
    public ← Public.to_public c private
    ok (println (as_hex public))
  private_handle random input (PrivateCommand.to_address a) = do
    private ← resolve (read_hex x private_len) input a
    public ← Public.to_public c private
    address ← from_public h public
    ok (println address)

  unfoldable pub seed_handle : List ℕ → List ℕ → SeedCommand → Result (List ℕ)
  unfolding resolve println
  seed_handle random input SeedCommand.new = ok (println (as_hex random))
  seed_handle random input (SeedCommand.to_private o index) = do
    seed ← resolve (read_hex x seed_len) input o
    private ← derive h seed index
    ok (println (as_hex private))
  seed_handle random input (SeedCommand.to_public o index) = do
    seed ← resolve (read_hex x seed_len) input o
    private ← derive h seed index
    public ← Public.to_public c private
    ok (println (as_hex public))
  seed_handle random input (SeedCommand.to_address o index) = do
    seed ← resolve (read_hex x seed_len) input o
    private ← derive h seed index
    public ← Public.to_public c private
    address ← from_public h public
    ok (println address)

  module _ {M K D : Type 0} (bip : Bip M K D) where
    -- `FromPhraseOpts::to_private`, with its `unwrap`.
    unfoldable pub opts_to_private : List ℕ → FromPhraseOpts → Result (List ℕ)
    unfolding resolve
    opts_to_private input o = do
      words ← unwrap (resolve ok input o.words)
      phrase ← from_words bip o.language words
      Phrase.to_private bip o.account (unwrap_or o.passphrase []) phrase

    unfoldable pub phrase_handle : M → List ℕ → PhraseCommand → Result (List ℕ)
    unfolding opts_to_private println
    phrase_handle drawn input (PhraseCommand.new language) = do
      words ← Phrase.to_string bip (Phrase.random bip language drawn)
      ok (println words)
    phrase_handle drawn input (PhraseCommand.to_private o) = do
      private ← opts_to_private input o
      ok (println (as_hex private))
    phrase_handle drawn input (PhraseCommand.to_public o) = do
      private ← opts_to_private input o
      public ← Public.to_public c private
      ok (println (as_hex public))
    phrase_handle drawn input (PhraseCommand.to_address o) = do
      private ← opts_to_private input o
      public ← Public.to_public c private
      address ← from_public h public
      ok (println address)
