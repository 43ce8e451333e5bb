-- ===== src/Auth/Soundness.antt =====
-- What an accepted response of node/auth.py tells of its sender, whatever bytes arrived.
use zki_nevod.Base.{
  String, ◌∙◌, ◌≡◌, refl, Bool, true, false, Option, none, some, ◌⊎◌, ap, subst, arith, eq_iff,
}
use mathlib.Core.Option.{some-injective}
use zki_nevod.Base.Outcome.{Result, ok, err, >>=-eq-ok, ok_injective}
use zki_nevod.Bytes.{Bytes, hex}
use zki_nevod.Value.{Value, bin, is_bin, as_bin}
use zki_nevod.Value.Laws.{bin_of_as_bin, bin_of_is_bin}
use zki_nevod.Value.Codec.{Codec}
use zki_nevod.Crypto.{verify}
use zki_nevod.Crypto.Library.{Primitives}
use zki_nevod.Crypto.Laws.{verify-eq-true}
use zki_nevod.Protocol.{RawPacket}
use zki_nevod.Auth.{
  AuthResult, Claim, unless, granted, is_expected, claim_of, check_claim, resolve, verify_response,
}

-- The expected identity, where there is one, is `claim`.
abbrev pub Expected : Option String → String → Type 0
Expected none claim = Unit
Expected (some e) claim = (e ≡ "") ⊎ (claim ≡ e)

is_expected_sound :
    (o : Option String) (claim : String) → is_expected o claim ≡ true → Expected o claim
unfolding is_expected
is_expected_sound none claim h = tt
is_expected_sound (some e) claim h = ground (arith, eq_iff e "", eq_iff claim e)

unless-eq-some {ℓ} :
    {A : Type ℓ} (test : Bool) (rest : Result (Option A)) {a : A}
    → unless test rest ≡ ok (some a)
    → (test ≡ true) × (rest ≡ ok (some a))
unfolding unless
unless-eq-some true rest h = (refl, h)
unless-eq-some false rest h = cc

-- What is known of a result that was granted for a nonce.
pub record IsProven (P : Primitives) (nonce : Bytes) (expected : Option String) (a : AuthResult)
    : Type 0 where
  pub signature : Bytes
  pub accepted : P.ed25519_verify a.signing_pubkey signature nonce ≡ ok tt
  pub identity : a.node_id ≡ hex a.signing_pubkey
  pub is_expected : Expected expected a.node_id

claimed_is : {v : Value} {a b : Bytes} → v ≡ bin a → v ≡ bin b → a ≡ b
claimed_is p q = cc (p, q)

module _ (P : Primitives) where
  IsProven-of_parts :
      (c : Claim) (nonce key signature : Bytes) (expected : Option String) {a : AuthResult}
      → is_expected expected (hex key) ≡ true
      → verify P nonce signature key ≡ ok true
      → granted key c.enc_pubkey ≡ a
      → IsProven P nonce expected a
  unfolding granted
  IsProven-of_parts c nonce key signature expected e passed same =
      subst (IsProven P nonce expected) same (record {
        signature = signature;
        accepted = verify-eq-true P nonce signature key passed;
        identity = refl;
        is_expected = is_expected_sound expected (hex key) e;
      })

  check_claim_sound :
      (c : Claim) (nonce : Bytes) (expected : Option String) {a : AuthResult}
      → check_claim P c nonce expected ≡ ok (some a)
      → IsProven P nonce expected a
  unfolding check_claim
  check_claim_sound c nonce expected h =
      let (fresh, h₁) = unless-eq-some (is_bin c.nonce nonce) _ h in
      let (key, is_key, h₂) = >>=-eq-ok (as_bin c.signing_pubkey) _ h₁ in
      let (known, h₃) = unless-eq-some (is_expected expected (hex key)) _ h₂ in
      let (claimed, is_nonce, h₄) = >>=-eq-ok (as_bin c.nonce) _ h₃ in
      let (signature, is_sig, h₅) = >>=-eq-ok (as_bin c.sig) _ h₄ in
      let (passed, verified, h₆) = >>=-eq-ok (verify P claimed signature key) _ h₅ in
      let (accepted, same) = unless-eq-some passed _ h₆ in
      IsProven-of_parts c nonce key signature expected known
        (subst (λ n. verify P n signature key ≡ ok true)
          (claimed_is (bin_of_as_bin c.nonce is_nonce) (bin_of_is_bin c.nonce nonce fresh))
          (verified ∙ ap ok accepted))
        (some-injective _ _ (ok_injective same))

  resolve_sound :
      (r : Result Claim) (nonce : Bytes) (expected : Option String) {a : AuthResult}
      → resolve P r nonce expected ≡ ok (some a)
      → IsProven P nonce expected a
  unfolding resolve
  resolve_sound (err e) nonce expected h = absurd (cc h)
  resolve_sound (ok c) nonce expected h = check_claim_sound c nonce expected h

module _ (C : Codec) (P : Primitives) where
  -- If a response is accepted for a nonce, the key of the result has a signature of the nonce
  -- that the primitive accepts, the identity of the result is the hexadecimal text of this key,
  -- and it is the expected identity, where one that is not empty was named.
  pub verify_response_sound :
      (response : RawPacket) (nonce : Bytes) (expected : Option String) {a : AuthResult}
      → verify_response C P response nonce expected ≡ ok (some a)
      → IsProven P nonce expected a
  unfolding verify_response
  verify_response_sound response nonce expected h =
      resolve_sound P (claim_of C response) nonce expected h
