-- ===== src/Bytes/Hex.antt =====
-- `bytes.hex` and `bytes.fromhex`, which stand for identities in node/identity.py.
use Prim.Native.Char.{Char, code}
use zki_nevod.Base.{
  ℕ, zero, suc, ◌+◌, ◌*◌, ◌/◌, ◌%◌, ◌<◌, String, ◌≡◌, refl, ◌∙◌, ap, Bool, true, false, ◌&&◌,
  Option, none, some, [], ◌∷◌, arith, ◌==◌,
}
use zki_nevod.Base.Outcome.{ok}
use zki_nevod.Bytes.{Bytes, AreBytes, hex_digit, hex, hex_value, cons_byte, from_hex_onto, from_hex}

-- `p` holds below `n`
holds : Option ℕ → ℕ → Bool
holds none n = false
holds (some v) n = v == n

holds_sound : (o : Option ℕ) (n : ℕ) → holds o n ≡ true → o ≡ some n
unfolding holds
holds_sound none n h = ground arith
holds_sound (some v) n h = ground arith

-- reading the digit of n gives n
digit_agrees : ℕ → Bool
unfolding holds
digit_agrees n = holds (hex_value (code (hex_digit n))) n

digits_agree : ℕ → Bool
digits_agree zero = true
digits_agree (suc limit) = digit_agrees limit && digits_agree limit

digits_agree_at : (limit n : ℕ) → n < limit → digits_agree limit ≡ true → digit_agrees n ≡ true
unfolding digits_agree
digits_agree_at zero n below agree = absurd (omega arith)
digits_agree_at (suc limit) n below agree = ground (arith, digits_agree_at limit n)

first_digits_agree : digits_agree 16 ≡ true
unfolding digits_agree digit_agrees hex_value hex_digit
first_digits_agree = refl

pub hex_value-hex_digit : (n : ℕ) → n < 16 → hex_value (code (hex_digit n)) ≡ some n
unfolding digit_agrees
hex_value-hex_digit n h = holds_sound _ n (digits_agree_at 16 n h first_digits_agree)

high_digit :
    (c : Char) (s : String) (h : ℕ)
    → hex_value (code c) ≡ some h
    → from_hex_onto none (String.◌∷◌ c s) ≡ from_hex_onto (some h) s
unfolding from_hex_onto
high_digit c s h e = rw (e, from_hex_onto)

low_digit :
    (c : Char) (s : String) (h l : ℕ)
    → hex_value (code c) ≡ some l
    → from_hex_onto (some h) (String.◌∷◌ c s) ≡ cons_byte (h * 16 + l) (from_hex_onto none s)
unfolding from_hex_onto
low_digit c s h l e = rw (e, from_hex_onto)

from_hex_onto-hex : (b : Bytes) → AreBytes b → from_hex_onto none (hex b) ≡ ok b
unfolding hex
from_hex_onto-hex [] h = unfold from_hex_onto in refl
from_hex_onto-hex (x ∷ xs) (h, hs) =
    let split : x / 16 * 16 + x % 16 ≡ x = omega arith in
    high_digit _ _ _ (hex_value-hex_digit (x / 16) (omega arith))
    ∙ low_digit _ _ _ _ (hex_value-hex_digit (x % 16) (omega arith))
    ∙ rw (from_hex_onto-hex xs hs, split) (unfold cons_byte in refl)

-- Reading back the hexadecimal text of a byte string gives the byte string.
pub from_hex-hex : (b : Bytes) → AreBytes b → from_hex (hex b) ≡ ok b
unfolding from_hex
from_hex-hex b h = from_hex_onto-hex b h

-- Two byte strings with the same hexadecimal text are the same.
pub hex_injective : (a b : Bytes) → AreBytes a → AreBytes b → hex a ≡ hex b → a ≡ b
hex_injective a b ha hb h = cc (from_hex-hex a ha, from_hex-hex b hb, ap from_hex h)
