-- ===== src/Vanity.antt =====
-- src/vanity.rs: the search for an address with a given start or end. What is drawn at random and
-- the regular expressions of the crate `regex` are parameters. A thread is left out: what is modelled
-- is the loop that it runs.
pub mod Sound
use feeless.Common.{
  ℕ, zero, suc, ◌+◌, ◌-◌, ◌%◌, ◌^◌, ◌≡◌, Bool, true, false, ◌&&◌, ◌||◌, List, [], ◌∷◌, Option, none,
  some, Result, ok, err, panic, ◌>>=◌, ◌>>◌, Error, unwrap, fail_if, not, if◌then◌else◌, ◌==◌,
  length, reverse,
}
use feeless.Crypto.{Blake2b, Ed25519}
use feeless.Bytes.{slice_range}
use feeless.Encoding.{alphabet}
use feeless.Keys.Public.{to_public}
use feeless.Keys.Address.{from_public, all_of}
use feeless.Keys.Seed.{derive}
use feeless.Keys.Phrase
use feeless.Keys.Phrase.{Phrase, Bip, Language, to_private}

pub data SecretType : Type 0 where
  phrase_type : Language → SecretType
  seed_type private_type : SecretType

pub data Secret : Type 0 where
  phrase_secret : Phrase → Secret
  seed_secret : List ℕ → Secret
  private_secret : List ℕ → Secret

pub record SecretResult : Type 0 where
  pub secret : Secret
  pub address : List ℕ

pub data SearchOffset : Type 0 where
  first_digit skip_first_digit : SearchOffset

-- `self.search_offset as usize`
abbrev pub offset_of : SearchOffset → ℕ
offset_of first_digit = 5
offset_of skip_first_digit = 6

-- `enum Match`; a regular expression is what its `is_match` says of a text.
pub data Match : Type 0 where
  start_or_end : List ℕ → Match
  start : List ℕ → Match
  end : List ℕ → Match
  regex : (List ℕ → Bool) → Match

pub record Vanity : Type 0 where
  pub secret_type : SecretType
  pub matches : Match
  pub index : ℕ
  pub tasks : Option ℕ
  pub search_offset : SearchOffset
  pub check_count : ℕ

unfoldable pub new : SecretType → Match → Vanity
new secret_type matches = record {
  secret_type = secret_type;
  matches = matches;
  index = 0;
  tasks = none;
  search_offset = skip_first_digit;
  check_count = 10000;
}

unfoldable pub set_tasks : ℕ → Vanity → Vanity
set_tasks n v = record v { tasks = some n }

unfoldable pub include_first_digit : Bool → Vanity → Vanity
include_first_digit on v = record v { search_offset = if on then first_digit else skip_first_digit }

-- Whether `^[alphabet]*$` matches.
unfoldable pub validate_text : List ℕ → Result (Unit {0})
unfolding all_of
validate_text s = fail_if (not (all_of alphabet s)) Error.search_never_matches

unfoldable pub validate : Match → Result (Unit {0})
unfolding validate_text
validate (start_or_end s) = validate_text s
validate (start s) = validate_text s
validate (end s) = validate_text s
validate (regex re) = ok record {}

unfoldable pub starts_with : List ℕ → List ℕ → Bool
starts_with s [] = true
starts_with [] (c ∷ t) = false
starts_with (d ∷ s) (c ∷ t) = d == c && starts_with s t

unfoldable pub ends_with : List ℕ → List ℕ → Bool
unfolding starts_with
ends_with s t = starts_with (reverse s) (reverse t)

-- `match &self.matches`
unfoldable pub is_good : Match → List ℕ → Bool
unfolding starts_with ends_with
is_good (start_or_end s) searchable = starts_with searchable s || ends_with searchable s
is_good (start s) searchable = starts_with searchable s
is_good (end s) searchable = ends_with searchable s
is_good (regex re) searchable = re searchable

-- What an attempt draws: 32 bytes for a seed or a key, or the mnemonic of a phrase.
pub record Draw (M : Type 0) : Type 0 where
  pub bytes : List ℕ
  pub mnemonic : M

-- `if good`
abbrev pub keep_if : Bool → SecretResult → Option SecretResult
keep_if true result = some result
keep_if false result = none

module _ {M K D : Type 0} (bip : Bip M K D) (h : Blake2b) (c : Ed25519) where
  -- `Private::to_address`
  unfoldable pub to_address : List ℕ → Result (List ℕ)
  to_address private = do public ← to_public c private; from_public h public

  unfoldable pub draw_secret : SecretType → ℕ → Draw M → Result SecretResult
  unfolding to_address
  draw_secret seed_type index d = do
    private ← derive h d.bytes index
    address ← unwrap (to_address private)
    ok (record { secret = seed_secret d.bytes; address = address })
  draw_secret private_type index d = do
    address ← unwrap (to_address d.bytes)
    ok (record { secret = private_secret d.bytes; address = address })
  draw_secret (phrase_type language) index d = do
    let phrase = Phrase.random bip language d.mnemonic
    private ← unwrap (to_private bip 0 [] phrase)
    address ← unwrap (to_address private)
    ok (record { secret = phrase_secret phrase; address = address })

  unfoldable pub single_attempt : Vanity → Draw M → Result (Option SecretResult)
  unfolding draw_secret is_good
  single_attempt v d = do
    result ← draw_secret v.secret_type v.index d
    searchable ← slice_range result.address (offset_of v.search_offset) (length result.address)
    ok (keep_if (is_good v.matches searchable) result)

  -- The `for` loop of a worker, on the draws of its attempts: what it sends, in order.
  unfoldable pub attempts : Vanity → List (Draw M) → Result (List SecretResult)
  unfolding single_attempt
  attempts v [] = ok []
  attempts v (d ∷ draws) = do
    got ← single_attempt v d
    rest ← attempts v draws
    ok (elim got [ none ↦ rest | some result ↦ result ∷ rest ])

-- `collect`, on what the workers send: `limit -= 1` wraps as in a release build.
unfoldable pub collect : ℕ → List SecretResult → List SecretResult
collect limit [] = []
collect limit (result ∷ received) =
    let left = (limit + (2 ^ 64 - 1)) % 2 ^ 64 in
    let rest = collect left received in if left == 0 then result ∷ [] else result ∷ rest
