-- ===== src/Value/Codec.antt =====
-- The msgpack library and `str` of values that are not numbers, which the node calls and does not
-- implement.
use zki_nevod.Base.{◌<◌, ◌^◌, ◌≡◌, none}
use zki_nevod.Base.Outcome.{Result, ok}
use zki_nevod.Bytes.{Bytes}
use zki_nevod.Value.{
  Value, nil, bool, int, negative, str, bin, arr, obj, Items, end, item, Fields, empty, field,
  find_field,
}

pub record Codec : Type 0 where
  -- `msgpack.packb(v, use_bin_type=True)`
  pub packb : Value → Bytes
  -- `msgpack.unpackb(data, raw=False)`
  pub unpackb : Bytes → Result Value
  -- the UTF-8 code of `str(v)`, for a value that is no natural number
  pub text_of : Value → Bytes

-- What msgpack can carry: integers of 64 bits, and dicts, whose keys are distinct.
abbrev mutual
  pub IsWire : Value → Type 0
  IsWire nil = Unit
  IsWire (bool b) = Unit
  IsWire (int n) = n < 2 ^ 64
  IsWire (negative n) = n < 2 ^ 63
  IsWire (str s) = Unit
  IsWire (bin b) = Unit
  IsWire (arr vs) = AreWire vs
  IsWire (obj fs) = FieldsAreWire fs

  pub AreWire : Items → Type 0
  AreWire end = Unit
  AreWire (item v vs) = IsWire v × AreWire vs

  pub FieldsAreWire : Fields → Type 0
  FieldsAreWire empty = Unit
  FieldsAreWire (field k v fs) = (find_field k fs ≡ none) × IsWire v × FieldsAreWire fs

-- Decoding takes back what was encoded.
pub record IsLawful (C : Codec) : Type 0 where
  pub unpackb-packb : (v : Value) → IsWire v → C.unpackb (C.packb v) ≡ ok v
