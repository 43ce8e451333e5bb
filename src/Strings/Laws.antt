-- ===== src/Strings/Laws.antt =====
-- What splitting makes of texts that were put together.
use Prim.Native.Char.{Char, code}
use text.Mathlib.TextLemmas.{nil-append, cons-append}
use zki_nevod.Base.{
  String, ◌<>◌, ◌≡◌, ◌≢◌, refl, sym, ap, ◌∙◌, true, false, none, some, [], ◌∷◌, ◌==◌, ==_iff, arith,
  str_eq, str_eq_false, subst, false≢true, if◌then◌else◌,
}
use zki_nevod.Strings.{
  is_white, finish, word_and_rest, split_words, split, drop_prefix, cons_first, here_or, split_once,
}

-- no white space in a text
abbrev pub HasNoWhite : String → Type 0
HasNoWhite String.[] = Unit
HasNoWhite (String.◌∷◌ c s) = (is_white (code c) ≡ false) × HasNoWhite s

pub space_cons : (t : String) → " " <> t ≡ String.◌∷◌ " " t
space_cons t = cons-append " " String.[] t ∙ ap (String.◌∷◌ " ") (nil-append t)

space-is_white : is_white b' ' ≡ true
unfolding is_white
space-is_white = refl

colon-is_white : is_white b':' ≡ false
unfolding is_white
colon-is_white = refl

split_words-word : (w : String) → HasNoWhite w → split_words w ≡ (w, [])
unfolding split_words word_and_rest
split_words-word String.[] h = refl
split_words-word (String.◌∷◌ c w) (h, hs) = rw (split_words-word w hs, h) refl

split_words-space : (t : String) → split_words (" " <> t) ≡ ("", split t)
unfolding split_words word_and_rest split
split_words-space t = rw (space_cons t, space-is_white) refl

split_words-cons :
    (c : Char) (s : String) → split_words (String.◌∷◌ c s) ≡ word_and_rest c (split_words s)
unfolding split_words
split_words-cons c s = refl

word_and_rest-word :
    (c : Char) (x : _) → is_white (code c) ≡ false → word_and_rest c x ≡ (String.◌∷◌ c x.0, x.1)
unfolding word_and_rest
word_and_rest-word c x h = rw h refl

split_words-append : (w t : String) → HasNoWhite w → split_words (w <> (" " <> t)) ≡ (w, split t)
split_words-append String.[] t h = ap split_words (nil-append (" " <> t)) ∙ split_words-space t
split_words-append (String.◌∷◌ c w) t (h, hs) =
    ap split_words (cons-append c w (" " <> t))
    ∙ split_words-cons c (w <> (" " <> t))
    ∙ word_and_rest-word c (split_words (w <> (" " <> t))) h
    ∙ ap (λ x. (String.◌∷◌ c x.0, x.1)) (split_words-append w t hs)

finish_word : (w : String) {ws : _} → w ≢ "" → finish (w, ws) ≡ w ∷ ws
unfolding finish
finish_word String.[] h = absurd (h refl)
finish_word (String.◌∷◌ c w) h = refl

-- the first word of a text, and the last one
pub split-append : (w t : String) → w ≢ "" → HasNoWhite w → split (w <> (" " <> t)) ≡ w ∷ split t
unfolding split
split-append w t ne h = rw (split_words-append w t h) (finish_word w ne)

pub split-word : (w : String) → w ≢ "" → HasNoWhite w → split w ≡ w ∷ []
unfolding split
split-word w ne h = rw (split_words-word w h) (finish_word w ne)

pub drop_prefix-append : (p t : String) → drop_prefix p (p <> t) ≡ some t
unfolding drop_prefix
drop_prefix-append String.[] t = ap some (nil-append t)
drop_prefix-append (String.◌∷◌ c p) t =
    rw (cons-append c p t) (ground (arith, drop_prefix-append p t, ==_iff (code c) (code c)))

HasNoWhite-append_right : (s t : String) → HasNoWhite (s <> t) → HasNoWhite t
HasNoWhite-append_right String.[] t h = subst HasNoWhite (nil-append t) h
HasNoWhite-append_right (String.◌∷◌ c s) t h =
    HasNoWhite-append_right s t (subst HasNoWhite (cons-append c s t) h).1

-- A text with a space in it is no word.
pub str_eq-space : (s t w : String) → HasNoWhite w → str_eq (s <> (" " <> t)) w ≡ false
str_eq-space s t w h = str_eq_false (s <> (" " <> t)) w λ same. false≢true (
    sym
      (subst HasNoWhite (space_cons t)
        (HasNoWhite-append_right s (" " <> t) (subst HasNoWhite (sym same) h))).0
    ∙ space-is_white)

-- no white space and no colon in a text
abbrev pub IsPlain : String → Type 0
IsPlain String.[] = Unit
IsPlain (String.◌∷◌ c s) = (is_white (code c) ≡ false) × (code c ≢ b':') × IsPlain s

colon_cons : (t : String) → ":" <> t ≡ String.◌∷◌ ":" t
colon_cons t = cons-append ":" String.[] t ∙ ap (String.◌∷◌ ":") (nil-append t)

drop_prefix-cons :
    (d c : Char) (p s : String)
    → drop_prefix (String.◌∷◌ d p) (String.◌∷◌ c s)
      ≡ (if code d == code c then drop_prefix p s else none)
unfolding drop_prefix
drop_prefix-cons d c p s = refl

not_white_code : (c : Char) → is_white (code c) ≡ false → (b' ' == code c) ≡ false
not_white_code c h = ground (arith, ==_iff b' ' (code c), space-is_white)

pub colon_space : (t : String) → ": " <> t ≡ ":" <> (" " <> t)
colon_space t = cons-append ":" " " t ∙ sym (colon_cons (" " <> t))

starts_with_space : (w t : String) → HasNoWhite w → drop_prefix " " (w <> (":" <> t)) ≡ none
starts_with_space String.[] t h =
    ap (drop_prefix " ") (nil-append (":" <> t) ∙ colon_cons t) ∙ (unfold drop_prefix in refl)
starts_with_space (String.◌∷◌ c w) t (h, hs) =
    ap (drop_prefix " ") (cons-append c w (":" <> t))
    ∙ drop_prefix-cons " " c "" (w <> (":" <> t))
    ∙ rw (not_white_code c h) refl

-- A word that a colon follows does not begin with another word and a space.
pub drop_prefix-word :
    (p w t : String) → IsPlain p → HasNoWhite w → drop_prefix (p <> " ") (w <> (":" <> t)) ≡ none
drop_prefix-word String.[] w t hp h =
    ap (λ q. drop_prefix q (w <> (":" <> t))) (nil-append " ") ∙ starts_with_space w t h
drop_prefix-word (String.◌∷◌ d p) String.[] t (hd, ne, hp) h =
    rw (cons-append d p " ", nil-append (":" <> t), colon_cons t)
      (drop_prefix-cons d ":" (p <> " ") t ∙ ground (arith, ==_iff (code d) b':'))
drop_prefix-word (String.◌∷◌ d p) (String.◌∷◌ c w) t (hd, ne, hp) (h, hs) =
    rw (cons-append d p " ", cons-append c w (":" <> t))
      (drop_prefix-cons d c (p <> " ") (w <> (":" <> t))
        ∙ ground (arith, drop_prefix-word p w t hp hs))

colon_elsewhere :
    (c : Char) (w t : String)
    → HasNoWhite w
    → drop_prefix ": " (String.◌∷◌ c (w <> (":" <> t))) ≡ none
colon_elsewhere c w t h =
    drop_prefix-cons ":" c " " (w <> (":" <> t)) ∙ ground (arith, starts_with_space w t h)

split_once-cons :
    (sep : String) (c : Char) (s : String)
    → split_once sep (String.◌∷◌ c s)
      ≡ here_or (drop_prefix sep (String.◌∷◌ c s)) (cons_first c (split_once sep s))
unfolding split_once
split_once-cons sep c s = refl

split_once-here :
    (sep : String) (t u : String)
    → drop_prefix sep u ≡ some t
    → u ≢ ""
    → split_once sep u ≡ some ("", t)
unfolding here_or
split_once-here sep t String.[] found ne = absurd (ne refl)
split_once-here sep t (String.◌∷◌ c s) found ne = split_once-cons sep c s ∙ rw found refl

-- The first colon with a space behind it, where a word stands before it.
split_once-word :
    (w t : String) → HasNoWhite w → split_once ": " (w <> (":" <> (" " <> t))) ≡ some (w, t)
split_once-word String.[] t h =
    ap (split_once ": ") (nil-append (":" <> (" " <> t)) ∙ colon_cons (" " <> t))
    ∙ split_once-cons ": " ":" (" " <> t)
    ∙ rw (sym (colon_cons (" " <> t)), sym (colon_space t), drop_prefix-append ": " t)
        (unfold here_or in refl)
split_once-word (String.◌∷◌ c w) t (h, hs) =
    ap (split_once ": ") (cons-append c w (":" <> (" " <> t)))
    ∙ split_once-cons ": " c (w <> (":" <> (" " <> t)))
    ∙ rw (colon_elsewhere c w (" " <> t) hs, split_once-word w t hs)
        (unfold here_or cons_first in refl)

pub split_once-append :
    (w t : String) → HasNoWhite w → split_once ": " (w <> (": " <> t)) ≡ some (w, t)
split_once-append w t h = rw (colon_space t) (split_once-word w t h)
