-- ===== src/Auth.antt =====
-- node/auth.py: the challenge, the response and its verification. `os.urandom` draws the nonce,
-- which is an argument.
pub mod Soundness
pub mod Honest
use zki_nevod.Base.{
  ℕ, String, Bool, true, false, not, ◌&&◌, Option, none, some, str_eq, is_empty, ◌≡◌, refl,
  bytes_eq, if◌then◌else◌,
}
use zki_nevod.Base.Outcome.{Result, ok, err, ◌>>=◌}
use zki_nevod.Bytes.{Bytes, hex}
use zki_nevod.Value.{Value, bin, subscript, is_bin, as_bin}
use zki_nevod.Value.Codec.{Codec}
use zki_nevod.Crypto.{SigningKeypair, EncryptionKeypair, sign, verify}
use zki_nevod.Crypto.Library.{Primitives}
use zki_nevod.Protocol.{RawPacket, Packet, decode_payload}
use zki_nevod.Protocol.Constructors.{Stamp, make_auth_challenge, make_auth_response}

abbrev pub nonce_size : ℕ
nonce_size = 32

-- The encryption key is whatever value the peer sent: nothing looks into it.
pub record AuthResult : Type 0 where
  pub node_id : String
  pub signing_pubkey : Bytes
  pub enc_pubkey : Value

-- the four entries that a response must have
pub record Claim : Type 0 where
  pub nonce : Value
  pub sig : Value
  pub signing_pubkey : Value
  pub enc_pubkey : Value

-- `if expected_node_id and node_id_claim != expected_node_id: return None` does not return
unfoldable pub is_expected : Option String → String → Bool
is_expected none claim = true
is_expected (some e) claim = if is_empty e then true else str_eq claim e

-- `if not test: return None`
pub unless {ℓ} : {A : Type ℓ} → Bool → Result (Option A) → Result (Option A)
unless test rest = if test then rest else ok none

unfoldable pub granted : Bytes → Value → AuthResult
granted signing_pubkey enc_pubkey = record {
  node_id = hex signing_pubkey;
  signing_pubkey = signing_pubkey;
  enc_pubkey = enc_pubkey;
}

module _ (C : Codec) where
  unfoldable pub make_challenge : Stamp → String → String → Bytes → Packet × Bytes
  make_challenge stamp from_node to_node nonce =
      (make_auth_challenge C stamp from_node to_node nonce, nonce)

  -- the body of the `try`
  unfoldable pub claim_of : RawPacket → Result Claim
  unfolding as_bin decode_payload
  claim_of response = do
    payload ← as_bin response.payload
    d ← decode_payload C payload
    nonce ← subscript d "nonce"
    sig ← subscript d "sig"
    signing_pubkey ← subscript d "signing_pubkey"
    enc_pubkey ← subscript d "enc_pubkey"
    ok (record {
      nonce = nonce;
      sig = sig;
      signing_pubkey = signing_pubkey;
      enc_pubkey = enc_pubkey;
    })

module _ (P : Primitives) where
  -- what follows the `try`
  unfoldable pub check_claim : Claim → Bytes → Option String → Result (Option AuthResult)
  unfolding is_bin as_bin is_expected unless granted
  check_claim c expected_nonce expected_node_id = unless (is_bin c.nonce expected_nonce) do
    signing_pubkey ← as_bin c.signing_pubkey
    unless (is_expected expected_node_id (hex signing_pubkey)) do
      nonce ← as_bin c.nonce
      sig ← as_bin c.sig
      passed ← verify P nonce sig signing_pubkey
      unless passed (ok (some (granted signing_pubkey c.enc_pubkey)))

  -- The checks of a claim whose entries are byte strings.
  pub check_claim-bin :
      (nonce expected_nonce key signature : Bytes) (enc : Value) (expected : Option String)
      → check_claim
          (record {
            nonce = bin nonce;
            sig = bin signature;
            signing_pubkey = bin key;
            enc_pubkey = enc;
          })
          expected_nonce
          expected
        ≡ unless (bytes_eq nonce expected_nonce) (
            unless (is_expected expected (hex key)) (do
              passed ← verify P nonce signature key
              unless passed (ok (some (granted key enc)))))
  unfolding check_claim
  check_claim-bin nonce expected_nonce key signature enc expected = refl

  -- `except Exception: return None`
  pub resolve : Result Claim → Bytes → Option String → Result (Option AuthResult)
  resolve (err e) expected_nonce expected_node_id = ok none
  resolve (ok c) expected_nonce expected_node_id = check_claim c expected_nonce expected_node_id

module _ (C : Codec) (P : Primitives) where
  -- The nonce is the peer's: signing a value that is no byte string raises.
  unfoldable pub make_response :
      Stamp → String → Value → Value → SigningKeypair → EncryptionKeypair → Result RawPacket
  unfolding as_bin
  make_response stamp from_node to_node nonce signing enc = do
    message ← as_bin nonce
    ok (
        make_auth_response C stamp from_node to_node nonce (sign P message signing) signing.public
          enc.public)

  unfoldable pub verify_response : RawPacket → Bytes → Option String → Result (Option AuthResult)
  unfolding claim_of check_claim resolve
  verify_response response expected_nonce expected_node_id =
      resolve P (claim_of C response) expected_nonce expected_node_id
