-- ===== src/Tests/Armored.antt =====
-- Examples of armoured messages.
use feeless.Common.{◌≡◌, refl, true, List, ok, arith, All-replicate}
use feeless.Common.Words.{IsByte}
use feeless.Common.Text.{codes}
use feeless.Keys.Address.{from_public}
use feeless.Keys.Address.RoundTrip.{from_str-from_public}
use feeless.Keys.Armor.{Armor, to_string, from_str, trim}
use feeless.Keys.Armor.Lines.{one_line}
use feeless.Keys.Armor.RoundTrip.{from_str-to_string}
use feeless.Tests.Instances.{blake, curve, hex, the_key, the_signature}

-- The address of the key.
written : (address : List _) × (from_public blake the_key ≡ ok address)
written =
    let (address, made, _, _, _) =
      from_str-from_public blake the_key refl (curve.public_key-IsBytes the_key) in
    (address, made)

abbrev padded_message : Armor
padded_message = record { message = codes " hi "; address = written.0; signature = the_signature }

padded_line : one_line (codes " hi ") ≡ true
unfolding one_line
padded_line = refl

from_str-to_string_example :
    from_str blake hex (to_string padded_message)
    ≡ ok (record padded_message { message = trim (codes " hi ") })
from_str-to_string_example =
    from_str-to_string blake hex padded_message the_key padded_line refl
      (curve.public_key-IsBytes the_key) written.1 refl (All-replicate IsByte 64 9 (omega arith))
