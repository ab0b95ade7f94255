-- ===== src/Worker/Decimal.antt =====
-- backend/worker/tasks.py and backend/loadgen/app.py: `str` of a number, and the number read back.
use workato_take_home.Prelude.{
  ℕ, zero, suc, ◌+◌, ◌-◌, ◌*◌, ◌/◌, ◌%◌, ◌<◌, ◌≤◌, ◌≡◌, refl, ◌∙◌, ap, sym, [], ◌∷◌, ◌++◌, arith,
  inl, inr, Bool-cases, Text, ltb,
}
use workato_take_home.Worker.Errors.{decimal_rounds, decimal}

-- `int` of a text of digits, after the digits that `value` stands for.
read_digits : ℕ → Text → ℕ
read_digits value [] = value
read_digits value (c ∷ cs) = read_digits (value * 10 + (c - 48)) cs

read_digits-last :
    (v c : ℕ) (cs : Text) → read_digits v (cs ++ c ∷ []) ≡ read_digits v cs * 10 + (c - 48)
unfolding read_digits
read_digits-last v c [] = refl
read_digits-last v c (d ∷ cs) = read_digits-last (v * 10 + (d - 48)) c cs

read_digits-decimal_rounds : (fuel n : ℕ) → n < fuel → read_digits 0 (decimal_rounds fuel n) ≡ n
unfolding decimal_rounds read_digits
read_digits-decimal_rounds zero n h = omega (arith, h)
read_digits-decimal_rounds (suc fuel) n h = elim (Bool-cases (ltb n 10)) [
  | inl digit ↦ rw (digit, decimal_rounds) (omega arith)
  | inr more ↦
      let large : 10 ≤ n = ground (arith, more) in
      rw (more, decimal_rounds)
        (read_digits-last 0 (48 + n % 10) (decimal_rounds fuel (n / 10))
          ∙ omega (arith, read_digits-decimal_rounds fuel (n / 10) (omega (arith, h, large))))
]

-- Numbers with the same decimal digits are equal.
pub decimal-injective : (m n : ℕ) → decimal m ≡ decimal n → m ≡ n
unfolding decimal
decimal-injective m n h =
    sym (read_digits-decimal_rounds (suc m) m (omega arith))
    ∙ ap (read_digits 0) h
    ∙ read_digits-decimal_rounds (suc n) n (omega arith)
