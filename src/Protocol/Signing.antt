-- ===== src/Protocol/Signing.antt =====
-- Packet signatures: who can make one that passes, and what it covers.
use Prim.Native.Char.{code}
use zki_nevod.Base.{
  String, ◌<>◌, ◌≡◌, ◌≢◌, refl, ap, sym, subst, true, [], ◌∷◌, ◌++◌, inl, inr, Bool-cases,
}
use mathlib.Core.List.{append_assoc}
use text.Mathlib.TextLemmas.{nil-append, cons-append}
use zki_nevod.Base.Outcome.{ok, ◌>>=◌, >>=-eq-ok, ok_injective}
use zki_nevod.Bytes.{Bytes, encode, utf8}
use zki_nevod.Value.{bin, truthy, as_str, as_bin}
use zki_nevod.Value.Codec.{Codec}
use zki_nevod.Crypto.{SigningKeypair, sign, verify}
use zki_nevod.Crypto.Library.{Primitives, IsLawful}
use zki_nevod.Crypto.Laws
use zki_nevod.Crypto.Laws.{IsSigning}
use zki_nevod.Protocol.{RawPacket, Packet, raw, typed, show, sign_data, sign_packet, verify_packet}

encode-append : (s t : String) → encode (s <> t) ≡ encode s ++ encode t
unfolding encode
encode-append String.[] t = ap encode (nil-append t)
encode-append (String.◌∷◌ c s) t =
    rw (cons-append c s t) (rw (encode-append s t) (sym (append_assoc (utf8 (code c)) _ _)))

-- The bytes that a packet's signature covers.
pub signed_bytes : Codec → Packet → Bytes
signed_bytes C p =
    encode p.id
    ++ (encode p.type ++ (encode p.from_addr ++ (encode p.to_addr ++ (p.payload ++ show C p.ts))))

typed_of_parts :
    (r : RawPacket) {type id from_addr to_addr : String} {payload sig : Bytes}
    → as_str r.type ≡ ok type
    → as_bin r.payload ≡ ok payload
    → as_str r.id ≡ ok id
    → as_str r.from_addr ≡ ok from_addr
    → as_str r.to_addr ≡ ok to_addr
    → as_bin r.sig ≡ ok sig
    → typed r
      ≡ ok (record {
        type = type;
        payload = payload;
        id = id;
        from_addr = from_addr;
        to_addr = to_addr;
        sig = sig;
        ts = r.ts;
        v = r.v;
      })
unfolding typed
typed_of_parts r a b c d e f = rw (a, b, c, d, e, f)

module _ (C : Codec) (P : Primitives) where
  sign_data-raw : (p : Packet) → sign_data C (raw p) ≡ ok (signed_bytes C p)
  unfolding sign_data raw signed_bytes
  sign_data-raw p = refl

  -- Signing a packet of the declared types does not raise.
  pub sign_packet-raw :
      (p : Packet) (k : SigningKeypair)
      → sign_packet C P (raw p) k ≡ ok (raw (record p { sig = sign P (signed_bytes C p) k }))
  unfolding sign_packet raw signed_bytes
  sign_packet-raw p k = refl

  truthy_of_ne : (b : Bytes) → b ≢ [] → truthy (bin b) ≡ true
  unfolding truthy
  truthy_of_ne [] h = absurd (h refl)
  truthy_of_ne (x ∷ b) h = refl

  -- With lawful primitives and a matching key pair, what `sign_packet` returns passes
  -- `verify_packet` under the public key.
  pub verify_packet-sign_packet :
      IsLawful P
      → (p : RawPacket) (k : SigningKeypair) {q : RawPacket} → IsSigning P k
      → sign_packet C P p k ≡ ok q
      → verify_packet C P q k.public ≡ ok true
  unfolding sign_packet verify_packet
  verify_packet-sign_packet L p k m h =
      let (message, signs, made) = >>=-eq-ok (sign_data C p) _ h in
      let signature = sign P message k in
      subst (λ q. verify_packet C P q k.public ≡ ok true) (ok_injective made)
        (rw (truthy_of_ne signature (Laws.sign-ne-nil P L k message))
          (rw signs (Laws.verify-sign P L k message m)))

  -- A packet that passes `verify_packet` has the declared types, and the primitive accepts its
  -- signature of its fields for the given key.
  pub verify_packet-eq-true :
      (r : RawPacket) (key : Bytes)
      → verify_packet C P r key ≡ ok true
      → (p : Packet) × (typed r ≡ ok p) × (P.ed25519_verify key p.sig (signed_bytes C p) ≡ ok tt)
  unfolding verify_packet typed signed_bytes
  verify_packet-eq-true r key h = elim (Bool-cases (truthy r.sig)) [
    | inl signed ↦
        let passed : (do m ← sign_data C r; signature ← as_bin r.sig; verify P m signature key)
            ≡ ok true =
          rw signed at h in
        let (message, signs, h₀) = >>=-eq-ok (sign_data C r) _ passed in
        let (sig, is_sig, accepted) = >>=-eq-ok (as_bin r.sig) _ h₀ in
        let (id, is_id, h₁) = >>=-eq-ok (as_str r.id) _ signs in
        let (type, is_type, h₂) = >>=-eq-ok (as_str r.type) _ h₁ in
        let (from_addr, is_from, h₃) = >>=-eq-ok (as_str r.from_addr) _ h₂ in
        let (to_addr, is_to, h₄) = >>=-eq-ok (as_str r.to_addr) _ h₃ in
        let (payload, is_payload, h₅) = >>=-eq-ok (as_bin r.payload) _ h₄ in
        (
          record {
            type = type;
            payload = payload;
            id = id;
            from_addr = from_addr;
            to_addr = to_addr;
            sig = sig;
            ts = r.ts;
            v = r.v;
          },
          typed_of_parts r is_type is_payload is_id is_from is_to is_sig,
          subst (λ m. P.ed25519_verify key sig m ≡ ok tt) (sym (ok_injective h₅))
              (Laws.verify-eq-true P message sig key accepted),
        )
    | inr unsigned ↦ absurd (cc (rw unsigned at h))
  ]

  -- The verdict on a packet, whatever its signature, is the same if a text is moved from the
  -- front of its recipient to the end of its sender.
  pub verify_packet_shift :
      (p : Packet) (s t : String) (key : Bytes)
      → verify_packet C P (raw (record p { to_addr = s <> t })) key
        ≡ verify_packet C P (raw (record p { from_addr = p.from_addr <> s; to_addr = t })) key
  unfolding verify_packet raw
  verify_packet_shift p s t key =
      rw (encode-append s t, encode-append p.from_addr s)
        (rw (append_assoc (encode p.from_addr) (encode s)) (rw (append_assoc (encode s)) refl))
