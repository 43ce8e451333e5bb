-- ===== src/Value/Laws.antt =====
-- What the tests on values tell of them.
use zki_nevod.Base.{String, ◌≡◌, refl, ap, true, [], ◌∷◌, arith, bytes_eq_sound}
use zki_nevod.Base.Outcome.{ok}
use zki_nevod.Bytes.{Bytes}
use zki_nevod.Value.{Value, str, bin, truthy, or_value, is_bin, as_str, as_bin}

pub str_of_as_str : (v : Value) {s : String} → as_str v ≡ ok s → v ≡ str s
unfolding as_str
str_of_as_str (str t) h = ground arith
str_of_as_str v h = ground arith

pub bin_of_as_bin : (v : Value) {b : Bytes} → as_bin v ≡ ok b → v ≡ bin b
unfolding as_bin
bin_of_as_bin (bin t) h = ground arith
bin_of_as_bin v h = ground arith

pub bin_of_is_bin : (v : Value) (b : Bytes) → is_bin v b ≡ true → v ≡ bin b
unfolding is_bin
bin_of_is_bin (bin c) b h = ap bin (bytes_eq_sound c b h)
bin_of_is_bin v b h = ground arith

pub or_value_bin : (b : Bytes) → or_value (bin b) (bin []) ≡ bin b
unfolding or_value truthy
or_value_bin [] = refl
or_value_bin (x ∷ b) = refl
