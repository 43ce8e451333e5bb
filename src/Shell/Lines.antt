-- ===== src/Shell/Lines.antt =====
-- The lines of the chat of nevod.py as they are typed, and what reading makes of their texts.
use text.Mathlib.TextLemmas.{append_assoc}
use zki_nevod.Base.{
  is_empty, String, ◌<>◌, ◌≡◌, ◌≢◌, refl, ap, ◌∙◌, false, none, [], ◌∷◌, str_eq, length, arith,
}
use zki_nevod.Base.Outcome.{ok}
use zki_nevod.Base.Effects.{pure, ◌>>◌}
use zki_nevod.Bytes.{Bytes, AreBytes, hex}
use zki_nevod.Bytes.Hex.{from_hex-hex}
use zki_nevod.Strings.{is_white, split, drop_prefix}
use zki_nevod.Strings.Laws.{
  HasNoWhite, IsPlain, split-append, split-word, str_eq-space, drop_prefix-word, colon_space,
}
use zki_nevod.Strings.Words.{
  hex-HasNoWhite, hex-nonempty, EndsInText, BeginsInText, strip_line, is_empty-append,
}
use zki_nevod.Client.{Client}
use zki_nevod.Shell.{
  ShellState, go_on, enc_pub_of, is_quit, add_or_say, command, read_stripped, read_line,
}

-- the two texts of the chat's manual
abbrev pub adding : String → String → Bytes → String
adding alias addr key = "/add " <> (alias <> (" " <> (addr <> (" " <> hex key))))

abbrev pub saying : String → String → String
saying alias text = alias <> (": " <> text)

abbrev pub IsWord : String → Type 0
IsWord w = (w ≢ "") × HasNoWhite w

abbrev pub IsKey : Bytes → Type 0
IsKey key = AreBytes key × (length key ≡ 32)

slash_quit : HasNoWhite "/quit"
unfolding is_white
slash_quit = (refl, (refl, (refl, (refl, (refl, tt)))))

slash_exit : HasNoWhite "/exit"
unfolding is_white
slash_exit = (refl, (refl, (refl, (refl, (refl, tt)))))

bare_quit : HasNoWhite "quit"
unfolding is_white
bare_quit = (refl, (refl, (refl, (refl, tt))))

bare_exit : HasNoWhite "exit"
unfolding is_white
bare_exit = (refl, (refl, (refl, (refl, tt))))

slash_contacts : HasNoWhite "/contacts"
unfolding is_white
slash_contacts = (refl, (refl, (refl, (refl, (refl, (refl, (refl, (refl, (refl, tt)))))))))

command-space :
    (K : Client) (line : String) (st : ShellState)
    → str_eq line "/contacts" ≡ false
    → command K line st ≡ add_or_say K line (drop_prefix "/add " line) st
unfolding command
command-space K line st other = rw other refl

-- A text with a space is no one-word command.
pub read_stripped-space :
    (K : Client) (line s t : String) (st : ShellState)
    → line ≡ s <> (" " <> t)
    → read_stripped K line st ≡ (do add_or_say K line (drop_prefix "/add " line); pure go_on) st
unfolding read_stripped is_quit
read_stripped-space K line s t st same =
    let no = λ (w : String) (h : HasNoWhite w). ap (λ l. str_eq l w) same ∙ str_eq-space s t w h in
    rw
      (
        no "" tt,
        no "/quit" slash_quit,
        no "/exit" slash_exit,
        no "quit" bare_quit,
        no "exit" bare_exit,
        command-space K line st (no "/contacts" slash_contacts),
      )
      refl

-- A typed line, with its end.
pub read_line-stripped :
    (K : Client) (s t : String) (st : ShellState)
    → BeginsInText s
    → EndsInText t
    → read_line K ((s <> t) <> "\n") st ≡ read_stripped K (s <> t) st
unfolding read_line
read_line-stripped K s t st begins ends =
    rw
      (
        ap is_empty (append_assoc s t "\n") ∙ is_empty-append s (t <> "\n") begins,
        strip_line s t begins ends,
      )
      refl

pub enc_pub_of-hex : (key : Bytes) → IsKey key → enc_pub_of (hex key) ≡ ok key
unfolding enc_pub_of
enc_pub_of-hex key (bytes, size) = rw (from_hex-hex key bytes, size) refl

pub hex-IsWord : (key : Bytes) → IsKey key → IsWord (hex key)
hex-IsWord [] (bytes, size) = absurd (omega arith)
hex-IsWord (x ∷ key) (bytes, size) = (hex-nonempty x key, hex-HasNoWhite (x ∷ key) bytes)

pub split_three :
    (v w x : String)
    → IsWord v
    → IsWord w
    → IsWord x
    → split (v <> (" " <> (w <> (" " <> x)))) ≡ v ∷ w ∷ x ∷ []
split_three v w x (nv, hv) (nw, hw) (nx, hx) =
    split-append v (w <> (" " <> x)) nv hv
    ∙ ap (λ ws. v ∷ ws) (split-append w x nw hw ∙ ap (λ ws. w ∷ ws) (split-word x nx hx))

pub slash_begins : BeginsInText "/add "
unfolding is_white
slash_begins = refl

pub slash_add : IsPlain "/add"
unfolding is_white
slash_add = (refl, omega arith, (refl, omega arith, (refl, omega arith, (refl, omega arith, tt))))

pub not_adding :
    (alias text : String) → HasNoWhite alias → drop_prefix "/add " (saying alias text) ≡ none
not_adding alias text h =
    ap (λ t. drop_prefix "/add " (alias <> t)) (colon_space text)
    ∙ drop_prefix-word "/add" alias (" " <> text) slash_add h

pub word-BeginsInText : (w : String) → IsWord w → BeginsInText w
word-BeginsInText String.[] (ne, h) = absurd (ne refl)
word-BeginsInText (String.◌∷◌ c w) (ne, h) = h.0
