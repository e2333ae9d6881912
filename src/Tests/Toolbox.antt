-- ===== src/Tests/Toolbox.antt =====
-- Examples of wallets, of their file and of vanity addresses.
use feeless.Common.{ℕ, ◌≡◌, refl, List, [], ◌∷◌, ◌++◌, none, some, ok, err, Error, replicate, take}
use feeless.Common.Text.{codes}
use feeless.Keys.Address.{from_str, extract_public_key}
use feeless.Keys.Phrase.{Bip, english}
use feeless.Wallet.{WalletStorage, Json, seed_wallet, private_wallet}
use feeless.Wallet.Manager.Refines.{
  Command, ensure_file, add_wallet, delete_wallet, look_up, run, ideal_run, run_refines,
}
use feeless.Vanity.{
  Vanity, Draw, SecretResult, private_secret, private_type, start, skip_first_digit, validate,
  attempts,
}
use feeless.Vanity.Sound.{validate_refuses}
use feeless.Tests.Instances.{blake, curve}

-- Mnemonics that are their entropy, and extended keys and paths that are bytes.
abbrev pub words : Bip (List ℕ) (List ℕ) (List ℕ)
words = record {
  from_language_code = λ code. some english;
  from_entropy = λ entropy language. ok entropy;
  from_phrase = λ text language. ok text;
  entropy = λ m. m;
  phrase = λ m. m;
  seed = λ m passphrase. m ++ passphrase;
  from_seed = λ seed. ok seed;
  parse_path = λ path. ok path;
  derive = λ path key. ok (key ++ path);
  secret_key = λ key. take 32 key;
  from_entropy-entropy = λ text language m e. (m, refl, refl);
}

-- A file that holds the storage as it is.
abbrev pub plain : Json WalletStorage
plain = record {
  to_writer = λ store. store;
  from_reader = λ store. ok store;
  from_reader-to_writer = λ store. (store, refl, λ id. refl);
}

abbrev some_calls : List Command
some_calls =
    look_up (replicate 32 0)
    ∷ ensure_file
    ∷ add_wallet (replicate 32 0) (seed_wallet (replicate 32 1))
    ∷ add_wallet (replicate 32 0) (private_wallet (replicate 32 2))
    ∷ look_up (replicate 32 0)
    ∷ delete_wallet (replicate 32 0)
    ∷ look_up (replicate 32 0)
    ∷ []

run_refines_example : run plain some_calls none ≡ ideal_run some_calls none
run_refines_example = run_refines plain some_calls

-- `l` is not in the alphabet of addresses.
abbrev never : Vanity
never = record {
  secret_type = private_type;
  matches = start (codes "l");
  index = 0;
  tasks = none;
  search_offset = skip_first_digit;
  check_count = 10000;
}

abbrev a_draw : Draw (List ℕ)
a_draw = record { bytes = replicate 32 1; mnemonic = [] }

never_is_refused : validate never.matches ≡ err Error.search_never_matches
unfolding validate
never_is_refused = refl

none_found : attempts words blake curve never (a_draw ∷ []) ≡ ok []
unfolding attempts feeless.Keys.Public.to_public feeless.Keys.Address.from_public
    feeless.Encoding.encode_nano_base_32 feeless.Encoding.Bits.from_raw_slice
    feeless.Keys.Public.checksum feeless.Bytes.slice_range
none_found = refl

validate_refuses_example : ◌≡◌ {A = List SecretResult} [] []
validate_refuses_example =
    validate_refuses words blake curve never (a_draw ∷ []) [] Error.search_never_matches
      never_is_refused none_found

abbrev a_result : SecretResult
a_result = record { secret = private_secret (replicate 32 1); address = codes "nano_" }
