-- ===== src/Common/Outcome.antt =====
-- How a call of the program ends: with a value, with one of its errors, or in a panic.
use mathlib.Core.Path.{◌≡◌, refl}
use mathlib.Core.Logic.{◌⊎◌, inl, inr}
use mathlib.Core.Bool.{Bool}
use mathlib.Core.Option.{Option, none, some}
use Prim.Native.Nat.{ℕ}
use feeless.Common.Tests.{if◌then◌else◌}

-- The errors of errors.rs that the modelled code returns, and one constructor for each message of
-- an `anyhow!` that it raises. The text of a message is not kept.
pub data Error : Type 0 where
  conversion_failed unparsed_argument no_message no_signature no_public : Error
  language_error wallet_file_error invalid_armor : Error
  from_hex_error signature_error try_from_slice_error wallet_error : Error
  invalid_address invalid_checksum bad_public_key parse_int_error parse_big_decimal_error : Error
  decoding_error : ℕ → Error
  wrong_length : ℕ → ℕ → Error
  slice_past_end : Error
  invalid_magic_number unknown_network unknown_message_type invalid_block_type : ℕ → Error
  network_mismatch unhandled_message : Error
  block_not_hashable signature_missing not_open not_send incorrect_link : Error
  wallet_not_found wallet_exists wallet_missing search_never_matches : Error
  block_exists work_missing blank_previous previous_not_found balance_increase amount_error : Error
  previous_not_head previous_not_supported confirm_block response_missing channel_closed : Error
  join_error : Error

pub data Result {ℓ} (A : Type ℓ) : Type ℓ where
  ok : A → Result A
  err : Error → Result A
  panic : Result A

infixl 5 ◌>>=◌ ◌>>◌
abbrev pub ◌>>=◌ {ℓ κ} : {A : Type ℓ} {B : Type κ} → Result A → (A → Result B) → Result B
ok a >>= f = f a
err e >>= f = err e
panic >>= f = panic

abbrev pub ◌>>◌ {ℓ} : {B : Type ℓ} → Result (Unit {0}) → Result B → Result B
m >> k = m >>= λ _. k

-- `?` on a test that returns early with `e` where it holds.
abbrev pub fail_if : Bool → Error → Result (Unit {0})
fail_if c e = if c then err e else ok tt

-- `Option::ok_or`
abbrev pub ok_or {ℓ} : {A : Type ℓ} → Option A → Error → Result A
ok_or none e = err e
ok_or (some a) e = ok a

-- `Result::unwrap` and `expect`
abbrev pub unwrap {ℓ} : {A : Type ℓ} → Result A → Result A
unwrap (ok a) = ok a
unwrap (err e) = panic
unwrap panic = panic

-- `Result::map_err`
abbrev pub map_err {ℓ} : {A : Type ℓ} → Result A → Error → Result A
map_err (ok a) e = ok a
map_err (err raised) e = err e
map_err panic e = panic

-- `Option::unwrap` and `expect`
abbrev pub unwrap_some {ℓ} : {A : Type ℓ} → Option A → Result A
unwrap_some none = panic
unwrap_some (some a) = ok a

-- Where a chain succeeds, so did its first call, and the rest on its value.
pub >>=-eq-ok {ℓ κ} :
    {X : Type ℓ} {Y : Type κ} (first : Result X) (rest : X → Result Y) {end : Y}
    → (first >>= rest) ≡ ok end
    → (x : X) × (first ≡ ok x) × (rest x ≡ ok end)
>>=-eq-ok panic rest done = cc
>>=-eq-ok (err raised) rest done = cc
>>=-eq-ok (ok x) rest done = (x, refl, done)

pub >>=-assoc {ℓ κ μ} :
    {X : Type ℓ} {Y : Type κ} {Z : Type μ} (first : Result X) (next : X → Result Y)
    (last : Y → Result Z)
    → ((first >>= next) >>= last) ≡ (first >>= λ x. next x >>= last)
>>=-assoc (ok x) next last = refl
>>=-assoc (err raised) next last = refl
>>=-assoc panic next last = refl

pub ok_inj {ℓ} : {X : Type ℓ} {x y : X} → ok x ≡ ok y → x ≡ y
ok_inj e = cc

pub ok_or-eq-ok {ℓ} :
    {X : Type ℓ} (o : Option X) (e : Error) {x : X} → ok_or o e ≡ ok x → o ≡ some x
ok_or-eq-ok none e h = cc
ok_or-eq-ok (some a) e h = cc

-- The three ends of a call, with the equation.
pub Result-cases {ℓ} :
    {X : Type ℓ} (r : Result X)
    → ((x : X) × (r ≡ ok x)) ⊎ (((raised : Error) × (r ≡ err raised)) ⊎ (r ≡ panic))
Result-cases (ok x) = inl (x, refl)
Result-cases (err raised) = inr (inl (raised, refl))
Result-cases panic = inr (inr refl)
