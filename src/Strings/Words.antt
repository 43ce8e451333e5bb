-- ===== src/Strings/Words.antt =====
-- Texts without white space: the digits of a key among them, and what stripping leaves of them.
use Prim.Native.Char.{Char, code}
use text.Mathlib.TextLemmas.{cons-ne-nil, nil-append, cons-append, append_assoc}
use zki_nevod.Base.{
  is_empty, str_eq_false, ℕ, ◌<>◌, sym, subst, ◌/◌, ◌%◌, String, ◌≡◌, ◌≢◌, refl, ap, ◌∙◌, false,
  some, [], ◌∷◌, arith,
}
use zki_nevod.Bytes.{Bytes, AreBytes, hex_digit, hex, hex_value}
use zki_nevod.Bytes.Hex.{hex_value-hex_digit}
use zki_nevod.Strings.{is_white, strip_left, cons_kept, strip_right, strip}
use zki_nevod.Strings.Laws.{HasNoWhite}

hex_value-is_white : (c h : ℕ) → hex_value c ≡ some h → is_white c ≡ false
unfolding hex_value is_white
hex_value-is_white c h e = ground arith

pub hex-HasNoWhite : (b : Bytes) → AreBytes b → HasNoWhite (hex b)
unfolding hex
hex-HasNoWhite [] h = tt
hex-HasNoWhite (x ∷ b) (h, hs) = (
  hex_value-is_white (code (hex_digit (x / 16))) (x / 16)
      (hex_value-hex_digit (x / 16) (omega arith)),
  (
    hex_value-is_white (code (hex_digit (x % 16))) (x % 16)
        (hex_value-hex_digit (x % 16) (omega arith)),
    hex-HasNoWhite b hs,
  ),
)

pub hex-nonempty : (x : ℕ) (b : Bytes) → hex (x ∷ b) ≢ ""
unfolding hex
hex-nonempty x b h = cons-ne-nil _ _ h

strip_left_word : (w : String) → HasNoWhite w → strip_left w ≡ w
unfolding strip_left
strip_left_word String.[] h = refl
strip_left_word (String.◌∷◌ c w) (h, hs) = rw h refl

cons_kept_word :
    (c : Char) (w : String) → is_white (code c) ≡ false → cons_kept c w ≡ String.◌∷◌ c w
unfolding cons_kept
cons_kept_word c String.[] h = rw h refl
cons_kept_word c (String.◌∷◌ d w) h = refl

strip_right_word : (w : String) → HasNoWhite w → strip_right w ≡ w
unfolding strip_right
strip_right_word String.[] h = refl
strip_right_word (String.◌∷◌ c w) (h, hs) =
    ap (cons_kept c) (strip_right_word w hs) ∙ cons_kept_word c w h

pub strip_word : (w : String) → HasNoWhite w → strip w ≡ w
unfolding strip
strip_word w h = ap strip_right (strip_left_word w h) ∙ strip_right_word w h

-- A text that is not empty and does not end in white space.
abbrev pub EndsInText : String → Type 0
EndsInText t = (strip_right t ≡ t) × (t ≢ "")

-- A text that begins with a character that is no white space.
abbrev pub BeginsInText : String → Type 0
BeginsInText String.[] = ⊥
BeginsInText (String.◌∷◌ c t) = is_white (code c) ≡ false

pub word-EndsInText : (w : String) → w ≢ "" → HasNoWhite w → EndsInText w
word-EndsInText w ne h = (strip_right_word w h, ne)

cons_kept-text : (c : Char) (t : String) → t ≢ "" → cons_kept c t ≡ String.◌∷◌ c t
unfolding cons_kept
cons_kept-text c String.[] ne = absurd (ne refl)
cons_kept-text c (String.◌∷◌ d t) ne = refl

strip_right-cons :
    (c : Char) (t : String) → strip_right (String.◌∷◌ c t) ≡ cons_kept c (strip_right t)
unfolding strip_right
strip_right-cons c t = refl

cons-EndsInText : (c : Char) (t : String) → EndsInText t → EndsInText (String.◌∷◌ c t)
cons-EndsInText c t (kept, ne) =
    (strip_right-cons c t ∙ ap (cons_kept c) kept ∙ cons_kept-text c t ne, λ h. cons-ne-nil _ _ h)

pub append-EndsInText : (s t : String) → EndsInText t → EndsInText (s <> t)
append-EndsInText String.[] t h = subst EndsInText (sym (nil-append t)) h
append-EndsInText (String.◌∷◌ c s) t h =
    subst EndsInText (sym (cons-append c s t))
      (cons-EndsInText c (s <> t) (append-EndsInText s t h))

strip_right-newline : (t : String) → strip_right (t <> "\n") ≡ strip_right t
strip_right-newline String.[] =
    ap strip_right (nil-append "\n") ∙ (unfold strip_right cons_kept is_white in refl)
strip_right-newline (String.◌∷◌ c t) =
    ap strip_right (cons-append c t "\n")
    ∙ strip_right-cons c (t <> "\n")
    ∙ ap (cons_kept c) (strip_right-newline t)
    ∙ sym (strip_right-cons c t)

strip_left-cons :
    (c : Char) (t : String)
    → is_white (code c) ≡ false
    → strip_left (String.◌∷◌ c t) ≡ String.◌∷◌ c t
unfolding strip_left
strip_left-cons c t h = rw h refl

strip_left-text : (s t : String) → BeginsInText s → strip_left (s <> t) ≡ s <> t
strip_left-text String.[] t h = absurd h
strip_left-text (String.◌∷◌ c s) t h =
    ap strip_left (cons-append c s t) ∙ strip_left-cons c (s <> t) h ∙ sym (cons-append c s t)

-- A typed line without its end.
pub strip_line : (s t : String) → BeginsInText s → EndsInText t → strip ((s <> t) <> "\n") ≡ s <> t
unfolding strip
strip_line s t begins ends =
    ap (λ l. strip_right (strip_left l)) (append_assoc s t "\n")
    ∙ ap strip_right (strip_left-text s (t <> "\n") begins)
    ∙ ap strip_right (sym (append_assoc s t "\n"))
    ∙ strip_right-newline (s <> t)
    ∙ (append-EndsInText s t ends).0

pub is_empty-append : (s t : String) → BeginsInText s → is_empty (s <> t) ≡ false
is_empty-append String.[] t h = absurd h
is_empty-append (String.◌∷◌ c s) t h =
    ap is_empty (cons-append c s t) ∙ str_eq_false _ "" (λ h. cons-ne-nil _ _ h)
