-- ===== src/Keys/Armor/RoundTrip.antt =====
-- Reading an armoured message that was written.
use feeless.Common.{
  ℕ, ◌≡◌, ◌∙◌, refl, sym, ap, true, List, [], ◌∷◌, ◌++◌, append-nil, ok, ◌>>=◌, ok_inj, length,
}
use feeless.Common.Words.{IsBytes}
use feeless.Common.Maps.{list_eq_refl}
use feeless.Crypto.{Blake2b, Ed25519}
use feeless.Encoding.{to_hex}
use feeless.Hexify.{Hex, as_hex}
use feeless.Hexify as Hexify
use feeless.Hexify.RoundTrip.{length-to_hex, decode-to_hex, from_str_decoded}
use feeless.Keys.Public.Laws.{verify_own}
use feeless.Keys.Address
use feeless.Keys.Address.{prefix, from_public, extract_public_key, all_of, one_of}
use feeless.Keys.Address.RoundTrip.{from_str-from_public}
use feeless.Keys.Armor.Lines.{
  one_line, split-last, split-line, graphic-one_line, graphic-as_bytes, graphic-trim,
  graphic-to_hex, graphic-address, split-append_break,
}
use feeless.Keys.Armor
use feeless.Keys.Armor.{
  Armor, begin_message, begin_address, begin_signature, end_signature, utf8_char, as_bytes, verify,
  to_string, is_whitespace, trim_start, trim, push, split, next, decode_static, decode_part,
  from_str,
}

abbrev lines_of : Armor → List (List ℕ)
lines_of a =
    begin_message
    ∷ a.message
    ∷ begin_address
    ∷ a.address
    ∷ begin_signature
    ∷ as_hex a.signature
    ∷ end_signature
    ∷ []

split-to_string :
    (a : Armor)
    → one_line a.message ≡ true
    → one_line a.address ≡ true
    → one_line (as_hex a.signature) ≡ true
    → split (to_string a) ≡ lines_of a
unfolding to_string
split-to_string a m d s =
    split-line begin_message _ (unfold one_line in refl)
    ∙ ap (λ (ls : List (List ℕ)). begin_message ∷ ls)
        (split-line a.message _ m
          ∙ ap (λ (ls : List (List ℕ)). a.message ∷ ls)
              (split-line begin_address _ (unfold one_line in refl)
                ∙ ap (λ (ls : List (List ℕ)). begin_address ∷ ls)
                    (split-line a.address _ d
                      ∙ ap (λ (ls : List (List ℕ)). a.address ∷ ls)
                          (split-line begin_signature _ (unfold one_line in refl)
                            ∙ ap (λ (ls : List (List ℕ)). begin_signature ∷ ls)
                                (split-line (as_hex a.signature) _ s
                                  ∙ ap (λ (ls : List (List ℕ)). as_hex a.signature ∷ ls)
                                      (split-last end_signature (unfold one_line in refl)))))))

address_ok :
    (h : Blake2b) (public address : List ℕ)
    → length public ≡ 32
    → IsBytes public
    → from_public h public ≡ ok address
    → (Address.from_str h address ≡ ok address) × (extract_public_key address ≡ ok public)
address_ok h public address n small made =
    let (written, same, accepted, back, _) = from_str-from_public h public n small in
    let is : written ≡ address = ok_inj (sym same ∙ made) in (rw is at accepted, rw is at back)

signature_ok :
    (x : Hex) (signature : List ℕ)
    → length signature ≡ 64
    → IsBytes signature
    → Hexify.from_str x 64 (as_bytes (to_hex signature)) ≡ ok signature
signature_ok x signature long bytes =
    rw (graphic-as_bytes (to_hex signature) (graphic-to_hex signature bytes)) (
      rw long at (
        from_str_decoded x (to_hex signature) signature (decode-to_hex x signature bytes)
          (length-to_hex signature)))

-- The lines of a message, with anything behind them.
from_str_lines :
    (h : Blake2b) (x : Hex) (a : Armor) (public s : List ℕ) (rest : List (List ℕ))
    → split s ≡ lines_of a ++ rest
    → length public ≡ 32
    → IsBytes public
    → from_public h public ≡ ok a.address
    → length a.signature ≡ 64
    → IsBytes a.signature
    → from_str h x s ≡ ok (record a { message = trim a.message })
unfolding from_str decode_part
from_str_lines h x a public s rest lines n small made long bytes =
    let graphic_a = graphic-address h public a.address n made in
    let graphic_s = graphic-to_hex a.signature bytes in
    rw (lines, ◌>>=◌)
      (rw (list_eq_refl begin_message) (
        rw (list_eq_refl begin_address) (
          rw (graphic-trim a.address graphic_a) (
            rw ((address_ok h public a.address n small made).0, ◌>>=◌)
              (rw (list_eq_refl begin_signature) (
                rw (graphic-trim (to_hex a.signature) graphic_s) (
                  rw (signature_ok x a.signature long bytes, ◌>>=◌)
                    (rw (list_eq_refl end_signature)))))))))

module _ (h : Blake2b) (x : Hex) (a : Armor) (public : List ℕ) (line : one_line a.message ≡ true)
    (n : length public ≡ 32) (small : IsBytes public) (made : from_public h public ≡ ok a.address)
    (long : length a.signature ≡ 64) (bytes : IsBytes a.signature) where
  lines : split (to_string a) ≡ lines_of a
  lines =
      split-to_string a line
        (graphic-one_line a.address (graphic-address h public a.address n made))
        (graphic-one_line (as_hex a.signature) (graphic-to_hex a.signature bytes))

  -- An armoured message of one line, with the address of a key and a signature of 64 bytes, reads back
  -- with its address and its signature, and with its message without the space around it.
  pub from_str-to_string : from_str h x (to_string a) ≡ ok (record a { message = trim a.message })
  from_str-to_string =
      from_str_lines h x a public (to_string a) [] (lines ∙ sym (append-nil (lines_of a))) n small
        made long bytes

  -- So it does with a line break behind it.
  pub from_str-println :
      from_str h x (to_string a ++ (10 ∷ [])) ≡ ok (record a { message = trim a.message })
  from_str-println =
      from_str_lines h x a public (to_string a ++ (10 ∷ [])) ([] ∷ [])
        (split-append_break (to_string a) ∙ ap (λ (ls : List (List ℕ)). ls ++ ([] ∷ [])) lines) n
        small made long bytes

-- A message of one line with no space around it that is signed with a key of 32 bytes, and written with
-- the address of that key, reads back and verifies.
pub verify-from_str :
    (h : Blake2b) (x : Hex) (c : Ed25519) (private message address : List ℕ)
    → one_line message ≡ true
    → trim message ≡ message
    → from_public h (c.public_key private) ≡ ok address
    → (a : Armor) × (from_str h x
          (to_string (Armor.new message address (c.sign private (as_bytes message))))
        ≡ ok a)
      × (a.message ≡ message)
      × (verify c a ≡ ok record {})
unfolding verify Armor.new
verify-from_str h x c private message address line tight made =
    let bytes = c.sign-IsBytes private (as_bytes message) in
    let a = Armor.new message address (c.sign private (as_bytes message)) in
    let public = c.public_key private in
    let read =
      from_str-to_string h x a public line (c.length-public_key private)
        (c.public_key-IsBytes private) made (c.length-sign private (as_bytes message)) bytes in
    let (_, back) =
      address_ok h public address (c.length-public_key private) (c.public_key-IsBytes private)
        made in
    (a, read ∙ rw tight, refl, rw (back, ◌>>=◌) (verify_own c private (as_bytes message)))
