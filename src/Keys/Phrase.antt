-- ===== src/Keys/Phrase.antt =====
-- src/keys/phrase.rs: mnemonic phrases. The crates `bip39` and `ed25519-dalek-bip32` that they wrap
-- are parameters.
use feeless.Common.{
  ℕ, ◌≡◌, List, ◌++◌, Option, Result, ok, ◌>>=◌, Error, unwrap, ok_or, >>=-eq-ok, ok_inj, ap, sym,
  ◌∙◌,
}
use feeless.Common.Text.{codes, decimal}
use feeless.Bytes.Reader.{array}
use feeless.Keys.Public.{private_len}

pub data Language : Type 0 where
  english chinese_simplified chinese_traditional french italian japanese korean spanish : Language

-- What `bip39` does with a mnemonic, and `ed25519-dalek-bip32` with an extended key. A mnemonic that
-- was read from words has an entropy that gives a mnemonic again, of the same entropy.
pub record Bip (Mnemonic ExtendedKey DerivationPath : Type 0) : Type 0 where
  pub from_language_code : List ℕ → Option Language
  pub from_entropy : List ℕ → Language → Result Mnemonic
  pub from_phrase : List ℕ → Language → Result Mnemonic
  pub entropy : Mnemonic → List ℕ
  pub phrase : Mnemonic → List ℕ
  pub seed : Mnemonic → List ℕ → List ℕ
  pub from_seed : List ℕ → Result ExtendedKey
  pub parse_path : List ℕ → Result DerivationPath
  pub derive : DerivationPath → ExtendedKey → Result ExtendedKey
  pub secret_key : ExtendedKey → List ℕ
  pub from_entropy-entropy :
      (words : List ℕ) (language : Language) (m : Mnemonic)
      → from_phrase words language ≡ ok m
      → (n : Mnemonic) × (from_entropy (entropy m) language ≡ ok n) × (entropy n ≡ entropy m)

pub record Phrase : Type 0 where
  pub language : Language
  pub entropy : List ℕ

-- `format!("m/44'/165'/{}'", account)`
unfoldable pub path_of : ℕ → List ℕ
unfolding decimal
path_of account = codes "m/44'/165'/" ++ (decimal 10 account ++ codes "'")

module _ {M K D : Type 0} (bip : Bip M K D) where
  -- `Language::from_str`
  unfoldable pub language_from_str : List ℕ → Result Language
  language_from_str s = ok_or (bip.from_language_code s) Error.language_error

  -- `random`, from the mnemonic that the crate draws.
  unfoldable pub random : Language → M → Phrase
  random language m = record { language = language; entropy = bip.entropy m }

  unfoldable pub to_mnemonic : Phrase → Result M
  to_mnemonic p = bip.from_entropy p.entropy p.language

  unfoldable pub to_bip39_seed : List ℕ → Phrase → Result (List ℕ)
  unfolding to_mnemonic
  to_bip39_seed passphrase p = do mnemonic ← to_mnemonic p; ok (bip.seed mnemonic passphrase)

  unfoldable pub to_bip32_ext_key : ℕ → List ℕ → Phrase → Result K
  unfolding to_bip39_seed path_of
  to_bip32_ext_key account passphrase p = do
    bip39_seed ← to_bip39_seed passphrase p
    key ← bip.from_seed bip39_seed
    path ← unwrap (bip.parse_path (path_of account))
    bip.derive path key

  unfoldable pub to_private : ℕ → List ℕ → Phrase → Result (List ℕ)
  unfolding to_bip32_ext_key array
  to_private account passphrase p = do
    ext_key ← to_bip32_ext_key account passphrase p
    array private_len (bip.secret_key ext_key)

  unfoldable pub from_words : Language → List ℕ → Result Phrase
  from_words language words = do
    m ← bip.from_phrase words language
    ok (record { language = language; entropy = bip.entropy m })

  -- `Display`, with its `unwrap`.
  unfoldable pub to_string : Phrase → Result (List ℕ)
  unfolding to_mnemonic
  to_string p = do mnemonic ← unwrap (to_mnemonic p); ok (bip.phrase mnemonic)

  -- Words that are accepted give a phrase that can be printed, with no panic, from a mnemonic of the
  -- same entropy.
  pub to_string-from_words :
      (language : Language) (words : List ℕ) (p : Phrase)
      → from_words language words ≡ ok p
      → (m : M) × (to_string p ≡ ok (bip.phrase m)) × (bip.entropy m ≡ p.entropy)
  unfolding from_words to_string
  to_string-from_words language words p e =
      let (m, read, rest) = >>=-eq-ok (bip.from_phrase words language) _ e in
      let same = ok_inj rest in
      let (n, again, kept) = bip.from_entropy-entropy words language m read in
      let back : to_mnemonic p ≡ ok n = ap to_mnemonic (sym same) ∙ again in
      (n, rw (back, ◌>>=◌), kept ∙ ap (λ (x : Phrase). x.entropy) same)
