-- ===== src/Cli.antt =====
-- src/cli/: the commands of the toolbox. What clap parses is the argument of a command, the standard
-- input is a text, what is drawn at random is an argument, and a command gives the text it prints.
pub mod Keys
pub mod Verify
pub mod Wallet
pub mod Units
pub mod Vanity
pub mod Work
use feeless.Common.{
  ℕ, List, [], ◌∷◌, ◌++◌, Result, ok, err, panic, ◌>>=◌, Error, map_err, if◌then◌else◌,
}
use feeless.Common.Maps.{list_eq}
use feeless.Common.Text.{codes}
use feeless.Keys.Armor.{trim, as_bytes}
use feeless.Hexify as Hexify
use feeless.Hexify.{Hex}

pub data StringOrStdin (A : Type 0) : Type 0 where
  string : A → StringOrStdin A
  stdin : StringOrStdin A

module _ {A : Type 0} (read : List ℕ → Result A) where
  -- `resolve`, with the text that the standard input holds.
  unfoldable pub resolve : List ℕ → StringOrStdin A → Result A
  resolve input (string t) = ok t
  resolve input stdin = map_err (read (trim input)) Error.conversion_failed

  -- `FromStr`
  unfoldable pub from_str : List ℕ → Result (StringOrStdin A)
  from_str s =
      if list_eq s (codes "-")
      then ok stdin
      else (do x ← map_err (read s) Error.unparsed_argument; ok (string x))

-- `FromStr` of a newtype of bytes, from a text.
unfoldable pub read_hex : Hex → ℕ → List ℕ → Result (List ℕ)
read_hex x len s = Hexify.from_str x len (as_bytes s)

-- `println!`
unfoldable pub println : List ℕ → List ℕ
println s = s ++ (10 ∷ [])
