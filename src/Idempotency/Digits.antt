-- ===== src/Idempotency/Digits.antt =====
-- The decimal digits of a number are all there, whatever fuel above it is given.
use apag_be.Prelude.{
  ℕ, zero, suc, ◌+◌, ◌*◌, ◌/◌, ◌%◌, ◌<◌, ◌≡◌, refl, sym, ◌∙◌, ap, inl, inr, ◌-◌, false, Bool-cases,
  ltb, [], ◌∷◌, arith,
}
use apag_be.Idempotency.Canonical.{Text, digits}

-- A number above its tenth.
tenth : (n : ℕ) → ltb n 10 ≡ false → n / 10 < n
tenth n h = ground arith

-- More fuel than the number gives no other text.
pub digits-fuel :
    (fuel more n : ℕ) (rest : Text) → n < fuel → n < more → digits fuel n rest ≡ digits more n rest
unfolding digits
digits-fuel zero more n rest h k = absurd (omega arith)
digits-fuel (suc fuel) zero n rest h k = absurd (omega arith)
digits-fuel (suc fuel) (suc more) n rest h k = elim (Bool-cases (ltb n 10)) [
  | inl e ↦ rw e refl
  | inr e ↦
      let less = tenth n e in
      rw e (digits-fuel fuel more (n / 10) ((b'0' + n % 10) ∷ rest) (omega arith) (omega arith))
]

-- The number that decimal digits write, behind one that stands before them.
unfoldable value_of : ℕ → Text → ℕ
value_of before [] = before
value_of before (c ∷ cs) = value_of (10 * before + (c - 48)) cs

digits-read :
    (fuel n : ℕ) (rest : Text) → n < fuel → value_of 0 (digits fuel n rest) ≡ value_of n rest
unfolding digits value_of
digits-read zero n rest h = absurd (omega arith)
digits-read (suc fuel) n rest h = elim (Bool-cases (ltb n 10)) [
  | inl e ↦ rw e (ap (λ v. value_of v rest) (omega arith))
  | inr e ↦
      let less = tenth n e in
      let written = digits-read fuel (n / 10) ((b'0' + n % 10) ∷ rest) (omega arith) in
      rw e (written ∙ ap (λ v. value_of v rest) (omega arith))
]

-- No two numbers are written alike.
pub digits-injective : (m n : ℕ) → digits (m + 1) m [] ≡ digits (n + 1) n [] → m ≡ n
unfolding value_of
digits-injective m n h =
    sym (digits-read (m + 1) m [] (omega arith))
    ∙ (ap (value_of 0) h ∙ digits-read (n + 1) n [] (omega arith))
