-- ===== src/Rows/Instance/Decimal.antt =====
-- The decimal text of a number, digit by digit.
use agentx_subagent.Prelude.{
  ℕ, zero, suc, ◌+◌, ◌*◌, ◌/◌, ◌%◌, ◌^◌, ◌<◌, ◌≡◌, refl, ◌∙◌, [], ◌∷◌, ◌++◌, ◌==◌, if◌then◌else◌,
  arith,
}
use agentx_subagent.Rows.Instance.{digits, decimal}

-- One digit more of fuel changes nothing where the digits fit.
digits_fuel : (f n : ℕ) → n < 10 ^ suc f → digits (suc (suc f)) n ≡ digits (suc f) n
unfolding digits
digits_fuel zero n h = ground arith
digits_fuel (suc f) n h = ground (arith, digits_fuel f (n / 10) (omega arith))

digits_step :
    (f n : ℕ)
    → digits (suc f) n
      ≡ (if n / 10 == 0 then (b'0' + n % 10) ∷ [] else digits f (n / 10) ++ ((b'0' + n % 10) ∷ []))
unfolding digits
digits_step f n = refl

-- A number below ten is one digit.
pub decimal_digit : (d : ℕ) → d < 10 → decimal d ≡ (b'0' + d) ∷ []
unfolding decimal
decimal_digit d h = digits_step 19 d ∙ ground arith

-- A digit is written behind a number by multiplying it by ten and adding.
pub decimal_snoc :
    (v d : ℕ) → 0 < v → d < 10 → v < 2 ^ 32 → decimal (v * 10 + d) ≡ decimal v ++ ((b'0' + d) ∷ [])
unfolding decimal
decimal_snoc v d pos small fits =
    let quotient : (v * 10 + d) / 10 ≡ v = omega arith in
    let last : (v * 10 + d) % 10 ≡ d = omega arith in
    digits_step 19 (v * 10 + d) ∙ rw (quotient, last, digits_fuel 18 v (omega arith)) (ground arith)
