-- ===== src/Bytes.antt =====
-- Python's `bytes` and the built-in conversions that the node uses on them: `bytes.hex`,
-- `bytes.fromhex`, `str.encode` and `str` of an `int` (node/identity.py, node/auth.py,
-- node/protocol.py, nevod.py).
pub mod Hex
pub mod Decimal
use Prim.Native.Char.{Char, code}
use zki_nevod.Base.{
  ℕ, zero, suc, ◌+◌, ◌-◌, ◌*◌, ◌/◌, ◌%◌, ◌<◌, String, ◌≡◌, refl, Bool, true, false, ◌&&◌, ◌||◌,
  Option, none, some, List, [], ◌∷◌, ◌++◌, ltb, leb, ◌==◌, if◌then◌else◌, All,
}
use zki_nevod.Base.Outcome.{Result, ok, err, value_error, ◌>>=◌}

abbrev pub Bytes : Type 0
Bytes = List ℕ

abbrev pub AreBytes : Bytes → Type 0
AreBytes = All (λ x. x < 256)

-- The character of a text at a place, `0` past the end.
abbrev char_at : String → ℕ → Char
char_at String.[] n = "0"
char_at (String.◌∷◌ c s) zero = c
char_at (String.◌∷◌ c s) (suc n) = char_at s n

-- the digits of `bytes.hex`
unfoldable pub hex_digit : ℕ → Char
hex_digit n = char_at "0123456789abcdef" n

-- `b.hex()`
unfoldable pub hex : Bytes → String
hex [] = String.[]
hex (x ∷ xs) = String.◌∷◌ (hex_digit (x / 16)) (String.◌∷◌ (hex_digit (x % 16)) (hex xs))

unfoldable pub hex_value : ℕ → Option ℕ
hex_value c =
    if leb b'0' c && leb c b'9'
    then some (c - b'0')
    else if leb b'a' c && leb c b'f'
    then some (c - b'a' + 10)
    else if leb b'A' c && leb c b'F'
    then some (c - b'A' + 10)
    else none

-- ASCII white space, which `bytes.fromhex` skips between two bytes
abbrev pub is_space : ℕ → Bool
is_space c = c == b' ' || (leb 9 c && leb c 13)

cons_byte : ℕ → Result Bytes → Result Bytes
cons_byte x (ok xs) = ok (x ∷ xs)
cons_byte x (err e) = err e

-- `bytes.fromhex(s)`, with the first digit of a byte that has begun
unfoldable pub from_hex_onto : Option ℕ → String → Result Bytes
unfolding cons_byte
from_hex_onto none String.[] = ok []
from_hex_onto (some h) String.[] = err value_error
from_hex_onto none (String.◌∷◌ c s) = elim (hex_value (code c)) [
  | some h ↦ from_hex_onto (some h) s
  | none ↦ let rest = from_hex_onto none s in if is_space (code c) then rest else err value_error
]
from_hex_onto (some h) (String.◌∷◌ c s) = elim (hex_value (code c)) [
  | some l ↦ cons_byte (h * 16 + l) (from_hex_onto none s)
  | none ↦ err value_error
]

unfoldable pub from_hex : String → Result Bytes
unfolding from_hex_onto
from_hex s = from_hex_onto none s

-- The UTF-8 code of a character.
unfoldable pub utf8 : ℕ → Bytes
utf8 c =
    if ltb c 0x80
    then c ∷ []
    else if ltb c 0x800
    then (0xc0 + c / 64) ∷ (0x80 + c % 64) ∷ []
    else if ltb c 0x10000
    then (0xe0 + c / 4096) ∷ (0x80 + c / 64 % 64) ∷ (0x80 + c % 64) ∷ []
    else (0xf0 + c / 262144) ∷ (0x80 + c / 4096 % 64) ∷ (0x80 + c / 64 % 64) ∷ (0x80 + c % 64) ∷ []

-- `s.encode()`
unfoldable pub encode : String → Bytes
unfolding utf8
encode String.[] = []
encode (String.◌∷◌ c s) = utf8 (code c) ++ encode s
