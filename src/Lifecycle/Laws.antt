-- ===== src/Lifecycle/Laws.antt =====
-- What starting a node does, and how the address of a node is read.
use Prim.Native.Char.{Char, code}
use text.Mathlib.TextLemmas.{nil-append, cons-append}
use zki_nevod.Base.{
  ℕ, ◌+◌, ◌*◌, ◌-◌, ◌≤◌, String, ◌<>◌, ◌≡◌, ◌≢◌, ◌⊎◌, inl, inr, refl, ap, ◌∙◌, Bool, true, false,
  none, some, arith,
}
use zki_nevod.Base.Outcome.{Error, Result, ok, err, Result-cases}
use zki_nevod.Base.Effects.{◌>>◌}
use zki_nevod.Strings.{is_white}
use zki_nevod.Strings.Laws.{HasNoWhite}
use zki_nevod.Strings.Words.{strip_word}
use zki_nevod.Identity.{NodeIdentity}
use zki_nevod.Lifecycle.{
  Process, cons_last, split_last, digits_from, signed_as, read_sign, parse_int, with_port,
  split_address, start_gossip, set_server, start_transport, start,
}

-- ASCII digits
abbrev pub AreDigits : String → Type 0
AreDigits String.[] = Unit
AreDigits (String.◌∷◌ c s) = (b'0' ≤ code c) × (code c ≤ b'9') × AreDigits s

-- the number that digits stand for, behind those of n
abbrev pub number_from : ℕ → String → ℕ
number_from n String.[] = n
number_from n (String.◌∷◌ c s) = number_from (n * 10 + (code c - b'0')) s

digit-is_white : (c : ℕ) → b'0' ≤ c → c ≤ b'9' → is_white c ≡ false
unfolding is_white
digit-is_white c low high = ground arith

AreDigits-HasNoWhite : (d : String) → AreDigits d → HasNoWhite d
AreDigits-HasNoWhite String.[] h = tt
AreDigits-HasNoWhite (String.◌∷◌ c d) (low, high, h) =
    (digit-is_white (code c) low high, AreDigits-HasNoWhite d h)

digits_from-digits :
    (last : Bool) (n : ℕ) (c : Char) (d : String)
    → AreDigits (String.◌∷◌ c d)
    → digits_from last n (String.◌∷◌ c d) ≡ some (number_from n (String.◌∷◌ c d))
unfolding digits_from
digits_from-digits last n c String.[] (low, high, h) = ground arith
digits_from-digits last n c (String.◌∷◌ c' d) (low, high, h) =
    ground (arith, digits_from-digits true (n * 10 + (code c - b'0')) c' d h)

parse_int-digits : (d : String) → d ≢ "" → AreDigits d → parse_int d ≡ ok (false, number_from 0 d)
unfolding parse_int read_sign signed_as
parse_int-digits String.[] ne h = absurd (ne refl)
parse_int-digits (String.◌∷◌ c d) ne (low, high, h) =
    rw
      (
        strip_word (String.◌∷◌ c d) (AreDigits-HasNoWhite (String.◌∷◌ c d) (low, high, h)),
        digits_from-digits false 0 c d (low, high, h),
      )
      (ground arith)

split_last-digits : (d : String) → AreDigits d → split_last d ≡ none
unfolding split_last cons_last
split_last-digits String.[] h = refl
split_last-digits (String.◌∷◌ c d) (low, high, h) = rw (split_last-digits d h) (ground arith)

split_last-join : (host d : String) → AreDigits d → split_last (host <> (":" <> d)) ≡ some (host, d)
unfolding split_last cons_last
split_last-join String.[] d h =
    ap split_last
      (nil-append (":" <> d) ∙ cons-append ":" String.[] d ∙ ap (String.◌∷◌ ":") (nil-append d))
    ∙ rw (split_last-digits d h) refl
split_last-join (String.◌∷◌ c host) d h =
    rw (cons-append c host (":" <> d)) (rw (split_last-join host d h) refl)

-- An address that ends in a colon and ASCII digits is split into what stands before this colon, whatever
-- it is, and the number of the digits.
pub split_address-join :
    (host d : String)
    → d ≢ ""
    → AreDigits d
    → split_address (host <> (":" <> d)) ≡ ok (host, (false, number_from 0 d))
unfolding split_address with_port
split_address-join host d ne h = rw (split_last-join host d h, parse_int-digits d ne h) refl

module _ (serve : String × (Bool × ℕ) → Result (Unit {0})) (identity : NodeIdentity)
    (p : Process) where
  abbrev pub Started : Result (Unit {0}) × Process → Type 0
  Started (r, q) =
      (endpoint : String × (Bool × ℕ)) × (split_address identity.address ≡ ok endpoint)
      × (serve endpoint ≡ ok tt)
      × (r ≡ ok tt)
      × (q ≡ record p { server = some endpoint; gossiping = true })

  start_at :
      (endpoint : String × (Bool × ℕ))
      → ((e : Error) × ((do start_transport serve endpoint; start_gossip) p ≡ (err e, p)))
        ⊎ ((serve endpoint ≡ ok tt)
            × ((do start_transport serve endpoint; start_gossip) p
                ≡ (ok tt, record p { server = some endpoint; gossiping = true })))
  unfolding start_transport set_server start_gossip
  start_at endpoint = elim (Result-cases (serve endpoint)) [
    | inl (e, raised) ↦ inl (e, rw raised refl)
    | inr (a, served) ↦ inr (served, rw served refl)
  ]

  -- Starting a node either raises and changes nothing, or makes it listen at the endpoint of its address
  -- and gossip.
  pub start-cases :
      ((e : Error) × (start serve identity p ≡ (err e, p))) ⊎ Started (start serve identity p)
  unfolding start
  start-cases = elim (Result-cases (split_address identity.address)) [
    | inl (e, bad) ↦ inl (e, rw bad refl)
    | inr (endpoint, good) ↦ elim (start_at endpoint) [
      | inl (e, raised) ↦ inl (e, rw good raised)
      | inr (served, same) ↦
          inr (endpoint, good, served, rw good (ap (λ x. x.0) same), rw good (ap (λ x. x.1) same))
    ]
  ]
