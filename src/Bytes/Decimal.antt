-- ===== src/Bytes/Decimal.antt =====
-- `str(n)` of a natural number: its decimal digits, by repeated division. A number has fewer
-- digits than its successor counts, so `suc n` rounds are enough.
use zki_nevod.Base.{
  ℕ, zero, suc, ◌+◌, ◌*◌, ◌/◌, ◌%◌, ◌<◌, ◌-◌, ◌≡◌, refl, ◌∙◌, ap, inl, inr, [], ◌∷◌, arith, ltb,
  if◌then◌else◌, Bool-cases,
}
use zki_nevod.Bytes.{Bytes}

-- the digits above those in `low`
digits_onto : ℕ → ℕ → Bytes → Bytes
digits_onto zero n low = low
digits_onto (suc rounds) n low =
    let more = digits_onto rounds (n / 10) ((b'0' + n % 10) ∷ low) in
    if ltb n 10 then (b'0' + n) ∷ low else more

unfoldable pub decimal : ℕ → Bytes
unfolding digits_onto
decimal n = digits_onto (suc n) n []

-- the number that a row of digits stands for, after the digits that were read
unfoldable pub read_onto : ℕ → Bytes → ℕ
read_onto n [] = n
read_onto n (c ∷ s) = read_onto (n * 10 + (c - b'0')) s

read_digits_onto :
    (rounds n : ℕ) (low : Bytes)
    → n < rounds
    → read_onto 0 (digits_onto rounds n low) ≡ read_onto n low
unfolding digits_onto read_onto
read_digits_onto zero n low h = absurd (omega arith)
read_digits_onto (suc rounds) n low h = elim (Bool-cases (ltb n 10)) [
  | inl small ↦ rw small (ap (λ k. read_onto k low) (omega arith))
  | inr large ↦ rw large (
      read_digits_onto rounds (n / 10) ((b'0' + n % 10) ∷ low) (ground arith)
      ∙ ap (λ k. read_onto k low) (omega arith))
]

-- The digits of a number stand for it.
pub read_onto-decimal : (n : ℕ) → read_onto 0 (decimal n) ≡ n
unfolding decimal
read_onto-decimal n = read_digits_onto (suc n) n [] (omega arith) ∙ unfold read_onto in refl

pub decimal_injective : (m n : ℕ) → decimal m ≡ decimal n → m ≡ n
decimal_injective m n h = cc (read_onto-decimal m, read_onto-decimal n, ap (read_onto 0) h)

decimal_1714000000 :
    decimal 1714000000 ≡ 0x31 ∷ 0x37 ∷ 0x31 ∷ 0x34 ∷ 0x30 ∷ 0x30 ∷ 0x30 ∷ 0x30 ∷ 0x30 ∷ 0x30 ∷ []
unfolding decimal
decimal_1714000000 = refl
