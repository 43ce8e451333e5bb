-- ===== src/Auth/Honest.antt =====
-- What node/auth.py makes of the response of an honest peer.
use zki_nevod.Base.{
  String, ◌≡◌, refl, Bool, true, ◌&&◌, Option, none, some, bytes_eq, subst, arith, if◌then◌else◌,
}
use zki_nevod.Base.Outcome.{ok, ok_injective}
use zki_nevod.Bytes.{Bytes, hex}
use zki_nevod.Value.{Value, bin, subscript}
use zki_nevod.Value.Codec.{Codec}
use zki_nevod.Value.Codec as Codec
use zki_nevod.Crypto.{SigningKeypair, EncryptionKeypair, sign}
use zki_nevod.Crypto.Library.{Primitives}
use zki_nevod.Crypto.Library
use zki_nevod.Crypto.Laws.{IsSigning, verify-sign}
use zki_nevod.Protocol.{RawPacket}
use zki_nevod.Protocol.Constructors.{Stamp, make_auth_response, auth_response_payload}
use zki_nevod.Auth.{
  is_expected, unless, granted, claim_of, check_claim-bin, make_response, verify_response,
}

unless-unless {ℓ} :
    {A : Type ℓ} (a b : Bool) (x : A)
    → unless a (unless b (unless true (ok (some x)))) ≡ ok (if a && b then some x else none)
unfolding unless
unless-unless a b x = ground arith

module _ (C : Codec) (coded : Codec.IsLawful C) where
  pub claim_of-make_auth_response :
      (stamp : Stamp) (from_node : String) (to_node : Value) (nonce signature key enc : Bytes)
      → claim_of C (make_auth_response C stamp from_node to_node (bin nonce) signature key enc)
        ≡ ok (record {
          nonce = bin nonce;
          sig = bin signature;
          signing_pubkey = bin key;
          enc_pubkey = bin enc;
        })
  unfolding claim_of make_auth_response subscript
  claim_of-make_auth_response stamp from_node to_node nonce signature key enc = rw (
      coded.unpackb-packb (auth_response_payload (bin nonce) signature key enc)
        (refl, tt, (refl, tt, (refl, tt, (refl, tt, tt)))))

module _ (C : Codec) (P : Primitives) (coded : Codec.IsLawful C) (lawful : Library.IsLawful P) where
  -- For a lawful codec and lawful primitives, a response that a matching key pair made for the
  -- nonce m is accepted for the nonce n exactly if m is n and the identity of the key is the
  -- one that is expected, where one is; otherwise it is refused without an exception.
  pub verify_response-make_response :
      (stamp : Stamp) (from_node : String) (to_node : Value) (m n : Bytes)
      (signing : SigningKeypair) (enc : EncryptionKeypair) (expected : Option String)
      {p : RawPacket}
      → IsSigning P signing
      → make_response C P stamp from_node to_node (bin m) signing enc ≡ ok p
      → verify_response C P p n expected
        ≡ ok (
            if bytes_eq m n && is_expected expected (hex signing.public)
            then some (granted signing.public (bin enc.public))
            else none)
  unfolding make_response verify_response
  verify_response-make_response stamp from_node to_node m n signing enc expected matched h =
      subst
        (λ q.
          verify_response C P q n expected
          ≡ ok (
              if bytes_eq m n && is_expected expected (hex signing.public)
              then some (granted signing.public (bin enc.public))
              else none))
        (ok_injective h)
        (rw
          (claim_of-make_auth_response C coded stamp from_node to_node m (sign P m signing)
            signing.public enc.public)
          (rw (check_claim-bin P m n signing.public (sign P m signing) (bin enc.public) expected) (
            rw (verify-sign P lawful signing m matched)
              (unless-unless (bytes_eq m n) (is_expected expected (hex signing.public)) _))))
