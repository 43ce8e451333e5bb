-- ===== src/Protocol/Wire.antt =====
-- The wire form of node/protocol.py: `pack` and `unpack`.
use zki_nevod.Base.{◌≡◌, refl, ◌∙◌, ap, sym, []}
use zki_nevod.Base.Outcome.{ok, ◌>>=◌, >>=-eq-ok, ok_injective}
use zki_nevod.Value.{bin, as_str, as_bin, or_value, find_field, get_value}
use zki_nevod.Value.Laws.{str_of_as_str, bin_of_as_bin, or_value_bin}
use zki_nevod.Value.Codec.{Codec, IsWire, IsLawful}
use zki_nevod.Protocol.{RawPacket, Packet, raw, typed, packet_value, pack, packet_of, unpack}

-- msgpack can carry every field
pub record IsSendable (p : RawPacket) : Type 0 where
  pub type : IsWire p.type
  pub payload : IsWire p.payload
  pub id : IsWire p.id
  pub from_addr : IsWire p.from_addr
  pub to_addr : IsWire p.to_addr
  pub sig : IsWire p.sig
  pub ts : IsWire p.ts
  pub v : IsWire p.v

-- The two fields of bytes, where an empty or missing value becomes `b""`.
pub record HasBytes (p : RawPacket) : Type 0 where
  pub payload : or_value p.payload (bin []) ≡ p.payload
  pub sig : or_value p.sig (bin []) ≡ p.sig

packet_value-IsWire : (p : RawPacket) → IsSendable p → IsWire (packet_value p)
unfolding packet_value find_field
packet_value-IsWire p h = (
  refl,
  h.v,
  (
    refl,
    h.id,
    (
      refl,
      h.type,
      (refl, h.from_addr, (refl, h.to_addr, (refl, h.payload, (refl, h.sig, (refl, h.ts, tt))))),
    ),
  ),
)

packet_of-packet_value : (p : RawPacket) → HasBytes p → packet_of (packet_value p) ≡ ok p
unfolding packet_of packet_value find_field get_value
packet_of-packet_value p h = ap (λ (q : RawPacket). ok q) (rw (h.payload, h.sig))

raw-HasBytes : (p : Packet) → HasBytes (raw p)
unfolding raw
raw-HasBytes p = record { payload = or_value_bin p.payload; sig = or_value_bin p.sig }

raw-IsSendable : (p : Packet) → IsWire p.ts → IsWire p.v → IsSendable (raw p)
unfolding raw
raw-IsSendable p ts v = record {
  type = tt;
  payload = tt;
  id = tt;
  from_addr = tt;
  to_addr = tt;
  sig = tt;
  ts = ts;
  v = v;
}

pub typed-raw : (p : Packet) → typed (raw p) ≡ ok p
unfolding typed raw
typed-raw p = refl

-- A packet that has the declared types is the raw form of what `typed` makes of it.
pub raw-typed : (r : RawPacket) {p : Packet} → typed r ≡ ok p → raw p ≡ r
unfolding typed raw
raw-typed r {p} h =
    let (type, is_type, h₁) = >>=-eq-ok (as_str r.type) _ h in
    let (payload, is_payload, h₂) = >>=-eq-ok (as_bin r.payload) _ h₁ in
    let (id, is_id, h₃) = >>=-eq-ok (as_str r.id) _ h₂ in
    let (from_addr, is_from, h₄) = >>=-eq-ok (as_str r.from_addr) _ h₃ in
    let (to_addr, is_to, h₅) = >>=-eq-ok (as_str r.to_addr) _ h₄ in
    let (sig, is_sig, h₆) = >>=-eq-ok (as_bin r.sig) _ h₅ in
    ap raw (sym (ok_injective h₆)) ∙ λ i. record {
      type = sym (str_of_as_str r.type is_type) i;
      payload = sym (bin_of_as_bin r.payload is_payload) i;
      id = sym (str_of_as_str r.id is_id) i;
      from_addr = sym (str_of_as_str r.from_addr is_from) i;
      to_addr = sym (str_of_as_str r.to_addr is_to) i;
      sig = sym (bin_of_as_bin r.sig is_sig) i;
      ts = r.ts;
      v = r.v;
    }

module _ (C : Codec) (L : IsLawful C) where
  -- What is packed is unpacked, field by field, whatever the fields hold.
  pub unpack-pack_raw : (p : RawPacket) → IsSendable p → HasBytes p → unpack C (pack C p) ≡ ok p
  unfolding pack unpack
  unpack-pack_raw p sendable has_bytes =
      rw (L.unpackb-packb (packet_value p) (packet_value-IsWire p sendable))
        (packet_of-packet_value p has_bytes)

  pub unpack-pack_typed :
      (p : Packet) → IsWire p.ts → IsWire p.v → unpack C (pack C (raw p)) ≡ ok (raw p)
  unpack-pack_typed p ts v = unpack-pack_raw (raw p) (raw-IsSendable p ts v) (raw-HasBytes p)

  -- With a lawful codec, unpacking a packed packet gives the packet back, if its time stamp and
  -- its version are values that msgpack can carry.
  pub unpack-pack :
      (p : Packet) → IsWire p.ts → IsWire p.v → (unpack C (pack C (raw p)) >>= typed) ≡ ok p
  unpack-pack p ts v = rw (unpack-pack_typed p ts v) (typed-raw p)
