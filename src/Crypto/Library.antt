-- ===== src/Crypto/Library.antt =====
-- The calls of the `cryptography` package that node/crypto.py makes, on raw encodings, and the
-- documented behaviour that the theorems rely on.
use zki_nevod.Base.{◌≡◌, ◌≢◌, []}
use zki_nevod.Base.Outcome.{Result, ok}
use zki_nevod.Bytes.{Bytes, AreBytes}

pub record Primitives : Type 0 where
  pub ed25519_public : Bytes → Bytes
  pub ed25519_sign : Bytes → Bytes → Bytes
  -- `Ed25519PublicKey.from_public_bytes(key).verify(signature, message)`
  pub ed25519_verify : Bytes → Bytes → Bytes → Result (Unit {0})
  pub ed25519_from_private_bytes : Bytes → Result Bytes
  pub x25519_public : Bytes → Bytes
  -- `private.exchange(X25519PublicKey.from_public_bytes(key))`
  pub x25519_exchange : Bytes → Bytes → Result Bytes
  pub x25519_from_private_bytes : Bytes → Result Bytes
  -- salt, info and secret
  pub hkdf_sha256 : Bytes → Bytes → Bytes → Bytes
  -- key, nonce and text
  pub chacha20_encrypt : Bytes → Bytes → Bytes → Bytes
  pub chacha20_decrypt : Bytes → Bytes → Bytes → Result Bytes

pub record IsLawful (P : Primitives) : Type 0 where
  pub verify-sign :
      (key message : Bytes)
      → P.ed25519_verify (P.ed25519_public key) (P.ed25519_sign key message) message ≡ ok tt
  -- a signature has 64 bytes
  pub sign-ne-nil : (key message : Bytes) → P.ed25519_sign key message ≢ []
  pub public_bytes : (key : Bytes) → AreBytes (P.ed25519_public key)
  -- both sides of a Diffie-Hellman exchange reach the same secret
  pub exchange_agrees :
      (a b secret : Bytes)
      → P.x25519_exchange a (P.x25519_public b) ≡ ok secret
      → P.x25519_exchange b (P.x25519_public a) ≡ ok secret
  pub decrypt-encrypt :
      (key nonce text : Bytes)
      → P.chacha20_decrypt key nonce (P.chacha20_encrypt key nonce text) ≡ ok text
