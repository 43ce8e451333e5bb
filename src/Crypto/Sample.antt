-- ===== src/Crypto/Sample.antt =====
-- Primitives that meet the assumptions, for the examples: a signature names the key and the
-- message, the shared secret is a sum, and nothing is hidden.
use zki_nevod.Base.{
  ℕ, ◌+◌, ◌%◌, refl, ◌∙◌, ap, Bool, true, false, [], ◌∷◌, ◌++◌, arith, bytes_eq, bytes_eq_refl,
}
use zki_nevod.Base.Outcome.{Result, ok, err, invalid_signature}
use zki_nevod.Bytes.{Bytes, AreBytes}
use zki_nevod.Crypto.Library.{Primitives, IsLawful}

reduce : Bytes → Bytes
reduce [] = []
reduce (x ∷ xs) = (x % 256) ∷ reduce xs

reduce-AreBytes : (b : Bytes) → AreBytes (reduce b)
unfolding reduce
reduce-AreBytes [] = tt
reduce-AreBytes (x ∷ xs) = (omega arith, reduce-AreBytes xs)

total : Bytes → ℕ
total [] = 0
total (x ∷ xs) = x + total xs

accept : Bool → Result (Unit {0})
accept true = ok tt
accept false = err invalid_signature

unfoldable pub sample : Primitives
unfolding reduce total accept
sample = record {
  ed25519_public = reduce;
  ed25519_sign = λ key message. 1 ∷ (reduce key ++ message);
  ed25519_verify = λ key signature message. accept (bytes_eq signature (1 ∷ (key ++ message)));
  ed25519_from_private_bytes = λ b. ok b;
  x25519_public = λ key. key;
  x25519_exchange = λ a b. ok ((total a + total b) ∷ []);
  x25519_from_private_bytes = λ b. ok b;
  hkdf_sha256 = λ salt info secret. secret;
  chacha20_encrypt = λ key nonce text. text;
  chacha20_decrypt = λ key nonce text. ok text;
}

pub sample-IsLawful : IsLawful sample
unfolding sample
sample-IsLawful = record {
  verify-sign = λ key message. rw (bytes_eq_refl (reduce key ++ message));
  sign-ne-nil = λ key message h. cc h;
  public_bytes = reduce-AreBytes;
  exchange_agrees = λ a b secret h. ap (λ (n : ℕ). ok (n ∷ [])) (omega arith) ∙ h;
  decrypt-encrypt = λ key nonce text. refl;
}
