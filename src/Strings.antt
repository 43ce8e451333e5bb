-- ===== src/Strings.antt =====
-- The methods of Python's `str` that nevod.py and node/node.py use on typed lines and addresses.
pub mod Laws
pub mod Words
use Prim.Native.Char.{Char, code}
use zki_nevod.Base.{
  ℕ, zero, suc, ◌-◌, ◌*◌, ◌+◌, String, Bool, true, false, ◌&&◌, ◌||◌, Option, none, some, List, [],
  ◌∷◌, if◌then◌else◌, ◌==◌, leb,
}

-- `str.isspace` of one character
unfoldable pub is_white : ℕ → Bool
is_white c =
    (leb 0x09 c && leb c 0x0d)
    || (leb 0x1c c && leb c 0x20)
    || c == 0x85
    || c == 0xa0
    || c == 0x1680
    || (leb 0x2000 c && leb c 0x200a)
    || c == 0x2028
    || c == 0x2029
    || c == 0x202f
    || c == 0x205f
    || c == 0x3000

-- `s.lstrip()`
unfoldable pub strip_left : String → String
strip_left String.[] = String.[]
strip_left (String.◌∷◌ c s) =
    let rest = strip_left s in if is_white (code c) then rest else String.◌∷◌ c s

unfoldable pub cons_kept : Char → String → String
cons_kept c String.[] = if is_white (code c) then String.[] else String.◌∷◌ c String.[]
cons_kept c (String.◌∷◌ d s) = String.◌∷◌ c (String.◌∷◌ d s)

-- `s.rstrip()`
unfoldable pub strip_right : String → String
strip_right String.[] = String.[]
strip_right (String.◌∷◌ c s) = cons_kept c (strip_right s)

-- `s.strip()`
unfoldable pub strip : String → String
strip s = strip_right (strip_left s)

-- a word that has ended, if there was one
unfoldable pub finish : String × List String → List String
finish (String.[], ws) = ws
finish (String.◌∷◌ c w, ws) = String.◌∷◌ c w ∷ ws

-- the word that the text begins with, and the words behind it
unfoldable pub word_and_rest : Char → String × List String → String × List String
word_and_rest c (w, ws) =
    if is_white (code c) then (String.[], finish (w, ws)) else (String.◌∷◌ c w, ws)

unfoldable pub split_words : String → String × List String
split_words String.[] = (String.[], [])
split_words (String.◌∷◌ c s) = word_and_rest c (split_words s)

-- `s.split()`
unfoldable pub split : String → List String
split s = finish (split_words s)

-- what follows a prefix: `s[len(p):]` where `s.startswith(p)`
unfoldable pub drop_prefix : String → String → Option String
drop_prefix String.[] s = some s
drop_prefix (String.◌∷◌ d p) String.[] = none
drop_prefix (String.◌∷◌ d p) (String.◌∷◌ c s) =
    let rest = drop_prefix p s in if code d == code c then rest else none

unfoldable pub cons_first : Char → Option (String × String) → Option (String × String)
cons_first c none = none
cons_first c (some (s, t)) = some (String.◌∷◌ c s, t)

unfoldable pub here_or : Option String → Option (String × String) → Option (String × String)
here_or none later = later
here_or (some t) later = some (String.[], t)

-- `s.split(sep, 1)` where `sep in s`; no separator is empty
unfoldable pub split_once : String → String → Option (String × String)
split_once sep String.[] = none
split_once sep (String.◌∷◌ c s) =
    here_or (drop_prefix sep (String.◌∷◌ c s)) (cons_first c (split_once sep s))

-- `s[:n]`
unfoldable pub take : ℕ → String → String
take zero s = String.[]
take (suc n) String.[] = String.[]
take (suc n) (String.◌∷◌ c s) = String.◌∷◌ c (take n s)
