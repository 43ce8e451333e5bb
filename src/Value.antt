-- ===== src/Value.antt =====
-- What a msgpack message holds once it is decoded, as a dynamic language sees it: one type of
-- values, with the tests and the subscripts that the node applies to them. `Codec` is the msgpack
-- library: `packb` and `unpackb`.
pub mod Codec
pub mod Laws
pub mod Sample
use zki_nevod.Base.{
  ℕ, zero, suc, String, Bool, true, false, not, Option, none, some, List, [], ◌∷◌, str_eq, is_empty,
  bytes_eq, if◌then◌else◌,
}
use zki_nevod.Base.Outcome.{Result, ok, err, key_error, type_error, attribute_error}
use zki_nevod.Bytes.{Bytes}

mutual
  pub data Value : Type 0 where
    nil : Value
    bool : Bool → Value
    -- an `int` of at least 0, and -(n + 1)
    int : ℕ → Value
    negative : ℕ → Value
    str : String → Value
    bin : Bytes → Value
    arr : Items → Value
    obj : Fields → Value

  pub data Items : Type 0 where
    end : Items
    item : Value → Items → Items

  pub data Fields : Type 0 where
    empty : Fields
    field : String → Value → Fields → Fields

-- `if v:`
unfoldable pub truthy : Value → Bool
truthy nil = false
truthy (bool b) = b
truthy (int zero) = false
truthy (int (suc n)) = true
truthy (negative n) = true
truthy (str s) = not (is_empty s)
truthy (bin []) = false
truthy (bin (x ∷ b)) = true
truthy (arr end) = false
truthy (arr (item v vs)) = true
truthy (obj empty) = false
truthy (obj (field k v fs)) = true

-- `v or default`
unfoldable pub or_value : Value → Value → Value
unfolding truthy
or_value v default = if truthy v then v else default

unfoldable pub find_field : String → Fields → Option Value
find_field k empty = none
find_field k (field j v fs) = if str_eq j k then some v else find_field k fs

required : Option Value → Result Value
required none = err key_error
required (some v) = ok v

-- `d[k]`
unfoldable pub subscript : Value → String → Result Value
unfolding find_field required
subscript (obj fs) k = required (find_field k fs)
subscript v k = err type_error

value_or : Value → Option Value → Value
value_or default none = default
value_or default (some v) = v

-- `d.get(k, default)`: only a dict has the method
unfoldable pub get_value : Value → String → Value → Result Value
unfolding find_field value_or
get_value (obj fs) k default = ok (value_or default (find_field k fs))
get_value v k default = err attribute_error

-- `v == s` for a text `s`
unfoldable pub is_str : Value → String → Bool
is_str (str t) s = str_eq t s
is_str v s = false

-- `v == b` for a byte string `b`
unfoldable pub is_bin : Value → Bytes → Bool
is_bin (bin c) b = bytes_eq c b
is_bin v b = false

-- Where the code applies a method of `str` or of `bytes`, another value raises.
unfoldable pub as_str : Value → Result String
as_str (str s) = ok s
as_str v = err attribute_error

unfoldable pub as_bin : Value → Result Bytes
as_bin (bin b) = ok b
as_bin v = err type_error
