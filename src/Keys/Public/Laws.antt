-- ===== src/Keys/Public/Laws.antt =====
-- What keys and signatures of the right lengths do.
use feeless.Common.{ℕ, ◌≡◌, List, ok, length, >>=-eq-ok, ok_inj, ap, sym, ◌∙◌}
use feeless.Crypto.{Ed25519}
use feeless.Blocks.Link.Laws.{array_ok}
use feeless.Keys.Public

pub to_public_ok :
    (c : Ed25519) (private : List ℕ)
    → length private ≡ 32
    → Public.to_public c private ≡ ok (c.public_key private)
unfolding Public.to_public Public.to_ed25519_dalek
to_public_ok c private e = rw e

pub sign_ok :
    (c : Ed25519) (private message : List ℕ)
    → length private ≡ 32
    → Public.sign c private message ≡ ok (c.sign private message)
unfolding Public.sign Public.to_ed25519_dalek
sign_ok c private message e =
    rw e (array_ok 64 (c.sign private message) (c.length-sign private message))

pub verify_own :
    (c : Ed25519) (private message : List ℕ)
    → Public.verify c (c.public_key private) message (c.sign private message) ≡ ok record {}
unfolding Public.verify
verify_own c private message =
    rw (c.is_public_key-public_key private, c.verify-sign private message)

pub to_public-length :
    (c : Ed25519) (private public : List ℕ)
    → Public.to_public c private ≡ ok public
    → length public ≡ 32
unfolding Public.to_public Public.to_ed25519_dalek
to_public-length c private public e =
    let (dalek, made, rest) = >>=-eq-ok (Public.to_ed25519_dalek private) _ e in
    ap length (sym (ok_inj rest)) ∙ c.length-public_key dalek
