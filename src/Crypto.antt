-- ===== src/Crypto.antt =====
-- node/crypto.py. A private key is its raw encoding; what `generate` and `os.urandom` draw is an
-- argument. `Primitives` stands for the `cryptography` package.
pub mod Library
pub mod Laws
pub mod Sample
use zki_nevod.Base.{Bool, true, false}
use zki_nevod.Base.Outcome.{Result, ok, err, Error, invalid_signature, ◌>>=◌}
use zki_nevod.Bytes.{Bytes, encode}
use Library.{Primitives}

pub record SigningKeypair : Type 0 where
  pub private : Bytes
  pub public : Bytes

pub record EncryptionKeypair : Type 0 where
  pub private : Bytes
  pub public : Bytes

abbrev pub kdf_info : Bytes
unfolding encode
kdf_info = encode "nevod-e2e-v1"

-- the dict that `encrypt` returns
pub record Encrypted : Type 0 where
  pub ephemeral_pubkey : Bytes
  pub nonce : Bytes
  pub ciphertext : Bytes

-- `except InvalidSignature: return False`; another exception goes on
verdict : Result (Unit {0}) → Result Bool
verdict (ok _) = ok true
verdict (err invalid_signature) = ok false
verdict (err e) = err e

module _ (P : Primitives) where
  unfoldable pub gen_signing : Bytes → SigningKeypair
  gen_signing priv = record { private = priv; public = P.ed25519_public priv }

  unfoldable pub gen_encryption : Bytes → EncryptionKeypair
  gen_encryption priv = record { private = priv; public = P.x25519_public priv }

  unfoldable pub sign : Bytes → SigningKeypair → Bytes
  sign message signing_key = P.ed25519_sign signing_key.private message

  unfoldable pub verify : Bytes → Bytes → Bytes → Result Bool
  unfolding verdict
  verify message signature pubkey_bytes = verdict (P.ed25519_verify pubkey_bytes signature message)

  -- the salt is the ephemeral public key
  unfoldable pub kdf : Bytes → Bytes → Bytes
  kdf shared_secret ephemeral_pubkey = P.hkdf_sha256 ephemeral_pubkey kdf_info shared_secret

  unfoldable pub encrypt : Bytes → Bytes → Bytes → Bytes → Result Encrypted
  unfolding kdf
  encrypt ephemeral nonce plaintext recipient_enc_pubkey = do
    shared ← P.x25519_exchange ephemeral recipient_enc_pubkey
    let ephemeral_pubkey = P.x25519_public ephemeral
    ok (record {
      ephemeral_pubkey = ephemeral_pubkey;
      nonce = nonce;
      ciphertext = P.chacha20_encrypt (kdf shared ephemeral_pubkey) nonce plaintext;
    })

  unfoldable pub decrypt : Bytes → Bytes → Bytes → EncryptionKeypair → Result Bytes
  unfolding kdf
  decrypt ciphertext nonce ephemeral_pubkey enc_keypair = do
    shared ← P.x25519_exchange enc_keypair.private ephemeral_pubkey
    P.chacha20_decrypt (kdf shared ephemeral_pubkey) nonce ciphertext
