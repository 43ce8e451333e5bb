-- ===== src/Value/Sample.antt =====
-- A codec that meets the assumptions: a prefix code, with the fuel of its reader in front. The
-- examples run over it.
mod Characters
use Prim.Native.Char.{code}
use Characters.{to_char, to_char-code}
use zki_nevod.Base.{
  ℕ, zero, suc, ◌+◌, ◌≤◌, ◌<◌, String, ◌≡◌, refl, true, false, Option, none, some, [], ◌∷◌, arith,
}
use zki_nevod.Base.Outcome.{Result, ok, err, unpack_error}
use zki_nevod.Bytes.{Bytes}
use zki_nevod.Value.{
  Value, nil, bool, int, negative, str, bin, arr, obj, Items, end, item, Fields, empty, field,
}
use zki_nevod.Value.Codec.{Codec, IsLawful}

-- Each element is written one larger, and 0 ends a row.
print_bytes : Bytes → Bytes → Bytes
print_bytes [] rest = 0 ∷ rest
print_bytes (x ∷ xs) rest = suc x ∷ print_bytes xs rest

print_text : String → Bytes → Bytes
print_text String.[] rest = 0 ∷ rest
print_text (String.◌∷◌ c s) rest = suc (code c) ∷ print_text s rest

mutual
  print : Value → Bytes → Bytes
  print nil rest = 0 ∷ rest
  print (bool true) rest = 1 ∷ rest
  print (bool false) rest = 2 ∷ rest
  print (int n) rest = 3 ∷ n ∷ rest
  print (negative n) rest = 4 ∷ n ∷ rest
  print (str s) rest = 5 ∷ print_text s rest
  print (bin b) rest = 6 ∷ print_bytes b rest
  print (arr vs) rest = 7 ∷ print_items vs rest
  print (obj fs) rest = 8 ∷ print_fields fs rest

  print_items : Items → Bytes → Bytes
  print_items end rest = 0 ∷ rest
  print_items (item v vs) rest = 1 ∷ print v (print_items vs rest)

  print_fields : Fields → Bytes → Bytes
  print_fields empty rest = 0 ∷ rest
  print_fields (field k v fs) rest = 1 ∷ print_text k (print v (print_fields fs rest))

-- What a reader returns: a value, and what follows it.
abbrev Read : Type 0 → Type 0
Read A = Option (A × Bytes)

abbrev then_read : {A B : Type 0} → Read A → (A → Bytes → Read B) → Read B
then_read none f = none
then_read (some (a, rest)) f = f a rest

read_bytes : Bytes → Read Bytes
read_bytes [] = none
read_bytes (zero ∷ rest) = some ([], rest)
read_bytes (suc x ∷ xs) = then_read (read_bytes xs) (λ b rest. some (x ∷ b, rest))

read_text : Bytes → Read String
read_text [] = none
read_text (zero ∷ rest) = some (String.[], rest)
read_text (suc x ∷ xs) = then_read (read_text xs) (λ s rest. some (String.◌∷◌ (to_char x) s, rest))

mutual
  read : ℕ → Bytes → Read Value
  read zero b = none
  read (suc fuel) (zero ∷ b) = some (nil, b)
  read (suc fuel) ((suc zero) ∷ b) = some (bool true, b)
  read (suc fuel) ((suc (suc zero)) ∷ b) = some (bool false, b)
  read (suc fuel) ((suc (suc (suc zero))) ∷ n ∷ b) = some (int n, b)
  read (suc fuel) ((suc (suc (suc (suc zero)))) ∷ n ∷ b) = some (negative n, b)
  read (suc fuel) ((suc (suc (suc (suc (suc zero))))) ∷ b) =
      then_read (read_text b) (λ s rest. some (str s, rest))
  read (suc fuel) ((suc (suc (suc (suc (suc (suc zero)))))) ∷ b) =
      then_read (read_bytes b) (λ s rest. some (bin s, rest))
  read (suc fuel) ((suc (suc (suc (suc (suc (suc (suc zero))))))) ∷ b) =
      then_read (read_items fuel b) (λ vs rest. some (arr vs, rest))
  read (suc fuel) ((suc (suc (suc (suc (suc (suc (suc (suc zero)))))))) ∷ b) =
      then_read (read_fields fuel b) (λ fs rest. some (obj fs, rest))
  read (suc fuel) b = none

  read_items : ℕ → Bytes → Read Items
  read_items zero b = none
  read_items (suc fuel) (zero ∷ b) = some (end, b)
  read_items (suc fuel) (suc zero ∷ b) =
      then_read (read fuel b)
        (λ v rest. then_read (read_items fuel rest) (λ vs rest. some (item v vs, rest)))
  read_items (suc fuel) b = none

  read_fields : ℕ → Bytes → Read Fields
  read_fields zero b = none
  read_fields (suc fuel) (zero ∷ b) = some (empty, b)
  read_fields (suc fuel) (suc zero ∷ b) = then_read (read_text b) (λ k rest.
      then_read (read fuel rest)
        (λ v rest. then_read (read_fields fuel rest) (λ fs rest. some (field k v fs, rest))))
  read_fields (suc fuel) b = none

mutual
  size : Value → ℕ
  size (arr vs) = suc (size_items vs)
  size (obj fs) = suc (size_fields fs)
  size v = 1

  size_items : Items → ℕ
  size_items end = 1
  size_items (item v vs) = suc (size v + size_items vs)

  size_fields : Fields → ℕ
  size_fields empty = 1
  size_fields (field k v fs) = suc (size v + size_fields fs)

read_bytes-print_bytes : (b rest : Bytes) → read_bytes (print_bytes b rest) ≡ some (b, rest)
unfolding read_bytes print_bytes
read_bytes-print_bytes [] rest = refl
read_bytes-print_bytes (x ∷ xs) rest = rw (read_bytes-print_bytes xs rest)

read_text-print_text : (s : String) (rest : Bytes) → read_text (print_text s rest) ≡ some (s, rest)
unfolding read_text print_text
read_text-print_text String.[] rest = refl
read_text-print_text (String.◌∷◌ c s) rest = rw (read_text-print_text s rest) (rw (to_char-code c))

size-pos : (v : Value) → 0 < size v
unfolding size
size-pos nil = omega arith
size-pos _ = omega arith

size_items-pos : (vs : Items) → 0 < size_items vs
unfolding size_items
size_items-pos end = omega arith
size_items-pos (item v vs) = omega arith

size_fields-pos : (fs : Fields) → 0 < size_fields fs
unfolding size_fields
size_fields-pos empty = omega arith
size_fields-pos (field k v fs) = omega arith

mutual
  unfolding read print size

  read-print :
      (v : Value) (fuel : ℕ) (rest : Bytes)
      → size v ≤ fuel
      → read fuel (print v rest) ≡ some (v, rest)
  read-print v zero rest h = absurd (omega (arith, size-pos v))
  read-print nil (suc fuel) rest h = refl
  read-print (bool true) (suc fuel) rest h = refl
  read-print (bool false) (suc fuel) rest h = refl
  read-print (int n) (suc fuel) rest h = refl
  read-print (negative n) (suc fuel) rest h = refl
  read-print (str s) (suc fuel) rest h = rw (read_text-print_text s rest)
  read-print (bin b) (suc fuel) rest h = rw (read_bytes-print_bytes b rest)
  read-print (arr vs) (suc fuel) rest h = rw (read_items-print vs fuel rest (omega arith))
  read-print (obj fs) (suc fuel) rest h = rw (read_fields-print fs fuel rest (omega arith))

  read_items-print :
      (vs : Items) (fuel : ℕ) (rest : Bytes)
      → size_items vs ≤ fuel
      → read_items fuel (print_items vs rest) ≡ some (vs, rest)
  read_items-print vs zero rest h = absurd (omega (arith, size_items-pos vs))
  read_items-print end (suc fuel) rest h = refl
  read_items-print (item v vs) (suc fuel) rest h =
      rw (read-print v fuel (print_items vs rest) (omega arith))
        (rw (read_items-print vs fuel rest (omega arith)))

  read_fields-print :
      (fs : Fields) (fuel : ℕ) (rest : Bytes)
      → size_fields fs ≤ fuel
      → read_fields fuel (print_fields fs rest) ≡ some (fs, rest)
  read_fields-print fs zero rest h = absurd (omega (arith, size_fields-pos fs))
  read_fields-print empty (suc fuel) rest h = refl
  read_fields-print (field k v fs) (suc fuel) rest h =
      rw (read_text-print_text k (print v (print_fields fs rest))) (
        rw (read-print v fuel (print_fields fs rest) (omega arith))
          (rw (read_fields-print fs fuel rest (omega arith))))

whole : Read Value → Result Value
whole none = err unpack_error
whole (some (v, rest)) = ok v

unpack_sample : Bytes → Result Value
unpack_sample [] = err unpack_error
unpack_sample (fuel ∷ b) = whole (read fuel b)

unfoldable pub sample : Codec
unfolding size print print_text print_bytes unpack_sample whole read read_text read_bytes to_char
sample = record { packb = λ v. size v ∷ print v []; unpackb = unpack_sample; text_of = λ v. [] }

pub sample-IsLawful : IsLawful sample
unfolding sample
sample-IsLawful = record { unpackb-packb = λ v wire. rw (read-print v (size v) [] (omega arith)) }
