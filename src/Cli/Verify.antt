-- ===== src/Cli/Verify.antt =====
-- src/cli/verify.rs: checking a signature, of an armoured message or of the arguments.
use feeless.Common.{
  ℕ, Bool, List, Option, none, some, Result, ok, ◌>>=◌, ◌>>◌, Error, ok_or, unwrap, if◌then◌else◌,
}
use feeless.Common.Text.{codes}
use feeless.Crypto.{Blake2b, Ed25519}
use feeless.Hexify.{Hex}
use feeless.Keys.Public
use feeless.Keys.Address.{extract_public_key}
use feeless.Keys.Armor
use feeless.Keys.Armor.{as_bytes}
use feeless.Cli.{println}

pub record VerifyOpts : Type 0 where
  pub address : Option (List ℕ)
  pub public : Option (List ℕ)
  pub signature : Option (List ℕ)
  pub message : Option (List ℕ)
  pub armor : Bool

-- The address where there is one, else the public key.
unfoldable pub public_of : Option (List ℕ) → Option (List ℕ) → Result (List ℕ)
public_of (some address) public = unwrap (extract_public_key address)
public_of none public = ok_or public Error.no_public

module _ (h : Blake2b) (c : Ed25519) (x : Hex) where
  unfoldable pub handle_armor : List ℕ → Result (Unit {0})
  handle_armor input = do armor ← Armor.from_str h x input; Armor.verify c armor

  unfoldable pub handle_args : VerifyOpts → Result (Unit {0})
  unfolding public_of
  handle_args o = do
    message ← ok_or o.message Error.no_message
    signature ← ok_or o.signature Error.no_signature
    public ← public_of o.address o.public
    Public.verify c public (as_bytes message) signature

  unfoldable pub handle : List ℕ → VerifyOpts → Result (List ℕ)
  unfolding handle_armor handle_args println
  handle input o = do
    if o.armor then handle_armor input else handle_args o
    ok (println (codes "OK"))
