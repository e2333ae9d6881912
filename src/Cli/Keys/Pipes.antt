-- ===== src/Cli/Keys/Pipes.antt =====
-- The commands on keys behind one another in a pipe.
use feeless.Common.{ℕ, ◌≡◌, refl, List, ◌++◌, ok, ◌>>=◌, Result-cases, inl, inr, length}
use feeless.Common.Words.{IsBytes, to_be_bytes}
use feeless.Crypto.{Blake2b, Ed25519}
use feeless.Encoding.{to_hex}
use feeless.Hexify.{Hex, as_hex}
use feeless.Hexify.RoundTrip.{decode-to_hex, from_str_decoded, length-to_hex}
use feeless.Keys.Public.Laws.{to_public_ok}
use feeless.Keys.Address
use feeless.Keys.Address.{from_public, extract_public_key}
use feeless.Keys.Address.RoundTrip.{from_str-from_public}
use feeless.Keys.Armor.Lines.{trim-line, graphic-to_hex, graphic-as_bytes, graphic-address}
use feeless.Keys.Seed.{derive_ok}
use feeless.Cli.{StringOrStdin, stdin, resolve, read_hex, println}
use feeless.Cli.Keys.{
  AddressCommand, PublicCommand, PrivateCommand, SeedCommand, address_handle, public_handle,
  private_handle, seed_handle,
}

pub read_hex_ok :
    (x : Hex) (bytes : List ℕ) → IsBytes bytes → read_hex x (length bytes) (to_hex bytes) ≡ ok bytes
unfolding read_hex
read_hex_ok x bytes h =
    rw (graphic-as_bytes (to_hex bytes) (graphic-to_hex bytes h))
      (from_str_decoded x (to_hex bytes) bytes (decode-to_hex x bytes h) (length-to_hex bytes))

-- The bytes that a command has printed are those that the next one reads.
resolve-as_hex :
    (x : Hex) (bytes : List ℕ)
    → IsBytes bytes
    → length bytes ≡ 32
    → resolve (read_hex x 32) (println (as_hex bytes)) stdin ≡ ok bytes
unfolding resolve println
resolve-as_hex x bytes h n =
    let read = rw n at (read_hex_ok x bytes h) in
    rw (trim-line (to_hex bytes) (graphic-to_hex bytes h)) (rw read)

resolve-from_public :
    (h : Blake2b) (public address : List ℕ)
    → length public ≡ 32
    → IsBytes public
    → from_public h public ≡ ok address
    → Address.from_str h address ≡ ok address
    → resolve (Address.from_str h) (println address) stdin ≡ ok address
unfolding resolve println
resolve-from_public h public address n small made accepted =
    rw (trim-line address (graphic-address h public address n made)) (rw accepted)

module _ (h : Blake2b) (c : Ed25519) (x : Hex) (random input : List ℕ) where
  -- `seed to-private`, `private to-public` and `public to-address` in a pipe print what `seed to-address`
  -- prints, and with `address to-public` behind them what `seed to-public` prints; where the seed cannot
  -- be read, each fails as the other does.
  pub seed_handle-pipe :
      (seed : StringOrStdin (List ℕ)) (index : ℕ)
      → ((do
        private ← seed_handle h c x random input (SeedCommand.to_private seed index)
        public ← private_handle h c x random private (PrivateCommand.to_public stdin)
        public_handle h c x public (PublicCommand.to_address stdin))
          ≡ seed_handle h c x random input (SeedCommand.to_address seed index))
        × ((do
          private ← seed_handle h c x random input (SeedCommand.to_private seed index)
          public ← private_handle h c x random private (PrivateCommand.to_public stdin)
          address ← public_handle h c x public (PublicCommand.to_address stdin)
          address_handle h c x address (AddressCommand.to_public stdin))
            ≡ seed_handle h c x random input (SeedCommand.to_public seed index))
  unfolding seed_handle private_handle public_handle address_handle
  seed_handle-pipe o index = elim (Result-cases (resolve (read_hex x 32) input o)) [
    | inl (seed, read) ↦
        let private = h.blake2b 32 (seed ++ to_be_bytes 4 index) in
        let public = c.public_key private in
        let long = h.length-blake2b 32 (seed ++ to_be_bytes 4 index) in
        let bytes = h.blake2b-IsBytes 32 (seed ++ to_be_bytes 4 index) in
        let (address, made, accepted, back, _) =
          from_str-from_public h public (c.length-public_key private)
            (c.public_key-IsBytes private) in
        let key = resolve-as_hex x private bytes long in
        let sent =
          resolve-as_hex x public (c.public_key-IsBytes private) (c.length-public_key private) in
        let at =
          resolve-from_public h public address (c.length-public_key private)
            (c.public_key-IsBytes private) made accepted in
        (
          rw (read, derive_ok h seed index, key, to_public_ok c private long, sent, made) refl,
          rw (read, derive_ok h seed index, key, to_public_ok c private long, sent, made, at, back)
              refl,
        )
    | inr (inl (e, raised)) ↦ (rw raised, rw raised)
    | inr (inr stopped) ↦ (rw stopped, rw stopped)
  ]
