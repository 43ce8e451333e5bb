-- ===== src/Crypto/Laws.antt =====
-- Signatures and end-to-end encryption as the callers of node/crypto.py see them.
use zki_nevod.Base.{◌≡◌, ◌≢◌, [], refl, true, arith}
use zki_nevod.Base.Outcome.{ok, err, value_error, >>=-eq-ok}
use zki_nevod.Bytes.{Bytes}
use zki_nevod.Crypto.Library.{Primitives, IsLawful}
use zki_nevod.Crypto.{
  SigningKeypair, EncryptionKeypair, Encrypted, gen_signing, gen_encryption, sign, verify, verdict,
  kdf, encrypt, decrypt,
}

-- the public half is that of the private half
pub record IsSigning (P : Primitives) (k : SigningKeypair) : Type 0 where
  pub matches : k.public ≡ P.ed25519_public k.private

pub record IsEncryption (P : Primitives) (k : EncryptionKeypair) : Type 0 where
  pub matches : k.public ≡ P.x25519_public k.private

module _ (P : Primitives) where
  pub gen_signing-IsSigning : (priv : Bytes) → IsSigning P (gen_signing P priv)
  unfolding gen_signing
  gen_signing-IsSigning priv = record { matches = refl }

  pub gen_encryption-IsEncryption : (priv : Bytes) → IsEncryption P (gen_encryption P priv)
  unfolding gen_encryption
  gen_encryption-IsEncryption priv = record { matches = refl }

  pub sign-ne-nil : IsLawful P → (k : SigningKeypair) (message : Bytes) → sign P message k ≢ []
  unfolding sign
  sign-ne-nil L k message = L.sign-ne-nil k.private message

  -- What a key pair signs, its public key accepts.
  pub verify-sign :
      IsLawful P
      → (k : SigningKeypair) (message : Bytes) → IsSigning P k
      → verify P message (sign P message k) k.public ≡ ok true
  unfolding verify sign verdict
  verify-sign L k message m = rw m.matches (rw (L.verify-sign k.private message))

  -- An accepted signature is one that the primitive accepts for this key and this message.
  pub verify-eq-true :
      (message signature key : Bytes)
      → verify P message signature key ≡ ok true
      → P.ed25519_verify key signature message ≡ ok tt
  unfolding verify verdict
  verify-eq-true message signature key h = ground arith

  -- An exception other than `InvalidSignature` goes through `verify`.
  pub verify-eq-err :
      (message signature key : Bytes)
      → P.ed25519_verify key signature message ≡ err value_error
      → verify P message signature key ≡ err value_error
  unfolding verify verdict
  verify-eq-err message signature key h = rw h

  -- With lawful primitives, the holder of a matching key pair decrypts what was encrypted to
  -- its public key.
  pub decrypt-encrypt :
      IsLawful P
      → (k : EncryptionKeypair) (ephemeral nonce plaintext : Bytes) {e : Encrypted}
      → IsEncryption P k
      → encrypt P ephemeral nonce plaintext k.public ≡ ok e
      → decrypt P e.ciphertext e.nonce e.ephemeral_pubkey k ≡ ok plaintext
  unfolding encrypt decrypt
  decrypt-encrypt L k ephemeral nonce plaintext m h =
      let (secret, agreed, made) = >>=-eq-ok (P.x25519_exchange ephemeral k.public) _ h in
      let shared = L.exchange_agrees ephemeral k.private secret (rw (← m.matches) agreed) in
      let key = kdf P secret (P.x25519_public ephemeral) in
      ground (arith, shared, L.decrypt-encrypt key nonce plaintext)
