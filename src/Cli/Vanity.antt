-- ===== src/Cli/Vanity.antt =====
-- src/cli/vanity.rs: the options of a search, and printing what it finds.
use feeless.Common.{
  ℕ, ◌+◌, Bool, true, false, List, [], ◌∷◌, ◌++◌, Option, none, some, Result, ok, ◌>>=◌, ◌>>◌,
  if◌then◌else◌, ◌==◌,
}
use feeless.Hexify.{as_hex}
use feeless.Keys.Phrase
use feeless.Keys.Phrase.{Bip, Language}
use feeless.Vanity
use feeless.Vanity.{
  Vanity, Match, SecretType, Secret, SecretResult, phrase_type, seed_type, private_type,
  phrase_secret, seed_secret, private_secret, validate,
}
use feeless.Cli.{println}

pub record CommonOpts : Type 0 where
  pub matching : List ℕ
  pub start : Bool
  pub end : Bool
  pub regex : Bool
  pub include_digit : Bool
  pub tasks : Option ℕ
  pub limit : Option ℕ

-- `Match::regex`, where `compile` is `Regex::new`.
unfoldable pub match_of : (List ℕ → Result (List ℕ → Bool)) → CommonOpts → Result Match
match_of compile o =
    if o.start
    then ok (Match.start o.matching)
    else if o.end
    then ok (Match.end o.matching)
    else if o.regex
    then (do r ← compile o.matching; ok (Match.regex r))
    else ok (Match.start_or_end o.matching)

abbrev pub with_tasks : Option ℕ → Vanity → Vanity
with_tasks none v = v
with_tasks (some tasks) v = Vanity.set_tasks tasks v

-- The search that `handle` starts.
unfoldable pub search_of :
    (List ℕ → Result (List ℕ → Bool)) → SecretType → CommonOpts → Result Vanity
unfolding match_of
search_of compile secret_type o = do
  matches ← match_of compile o
  let v = with_tasks o.tasks (Vanity.new secret_type matches)
  let search = if o.include_digit then Vanity.include_first_digit true v else v
  validate search.matches
  ok search

module _ {M K D : Type 0} (bip : Bip M K D) where
  -- `to_string` of the secret.
  unfoldable pub secret_text : Secret → Result (List ℕ)
  secret_text (phrase_secret p) = Phrase.to_string bip p
  secret_text (seed_secret s) = ok (as_hex s)
  secret_text (private_secret p) = ok (as_hex p)

  unfoldable pub line : SecretResult → Result (List ℕ)
  unfolding secret_text println
  line r = do s ← secret_text r.secret; ok (println (r.address ++ (44 ∷ s)))

  abbrev pub reached : Option ℕ → ℕ → Bool
  reached none found = false
  reached (some limit) found = limit == found

  -- The loop, on the results that the channel gives until it is closed: what is printed.
  unfoldable pub print_results : Option ℕ → ℕ → List SecretResult → Result (List ℕ)
  print_results limit found [] = ok []
  print_results limit found (r ∷ received) =
      let more = print_results limit (found + 1) received in
      do text ← line r; rest ← if reached limit (found + 1) then ok [] else more; ok (text ++ rest)

  abbrev pub lines : List SecretResult → Result (List ℕ)
  lines [] = ok []
  lines (r ∷ received) = do text ← line r; rest ← lines received; ok (text ++ rest)
