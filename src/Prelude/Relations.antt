-- ===== src/Prelude/Relations.antt =====
-- Relations between the rows of a list, and updates of one row.
use mathlib.Core.Path.{◌≡◌}
use mathlib.Core.Logic.{inl, inr}
use mathlib.Core.Bool.{Bool, true, false}
use mathlib.Core.List.{List, [], ◌∷◌, ◌++◌}
use native.Mathlib.Omega.{arith}
use apag_be.Prelude.Tests.{if◌then◌else◌, Bool-cases}
use apag_be.Prelude.Lists.{All, All-combine, any, update_where}

module _ {ℓ} {A : Type ℓ} where
  -- Any two rows, the earlier one first.
  abbrev pub Pairwise {κ} : (A → A → Type κ) → List A → Type κ
  Pairwise R [] = Unit
  Pairwise R (x ∷ xs) = All (R x) xs × Pairwise R xs

  pub All-append {κ} :
      (P : A → Type κ) (xs : List A) {x : A} → All P xs → P x → All P (xs ++ x ∷ [])
  All-append P [] h p = (p, tt)
  All-append P (y ∷ xs) h p = (h.0, All-append P xs h.1 p)

  pub Pairwise-append {κ} :
      (R : A → A → Type κ) (xs : List A) (x : A)
      → Pairwise R xs
      → All (λ y. R y x) xs
      → Pairwise R (xs ++ x ∷ [])
  Pairwise-append R [] x h p = (tt, tt)
  Pairwise-append R (y ∷ xs) x h p = (All-append (R y) xs h.0 p.0, Pairwise-append R xs x h.1 p.1)

  pub All-weaken {κ μ} :
      {P : A → Type κ} {Q : A → Type μ} (xs : List A) → ((x : A) → P x → Q x) → All P xs → All Q xs
  All-weaken [] f h = tt
  All-weaken (x ∷ xs) f h = (f x h.0, All-weaken xs f h.1)

  pub All-every {κ} : {P : A → Type κ} (xs : List A) → ((x : A) → P x) → All P xs
  All-every [] f = tt
  All-every (x ∷ xs) f = (f x, All-every xs f)

  -- No row passes a test that none passes.
  pub any-false : (p : A → Bool) (xs : List A) → any p xs ≡ false → All (λ x. p x ≡ false) xs
  any-false p [] h = tt
  any-false p (x ∷ xs) h =
      let rest : any p xs ≡ false = ground arith in (ground arith, any-false p xs rest)

  module _ (p : A → Bool) (g : A → A) where
    abbrev pub row_after : A → A
    row_after x = if p x then g x else x

    pub All-update_where {κ μ} :
        (P : A → Type κ) (Q : A → Type μ) (xs : List A)
        → ((x : A) → P x → Q (row_after x))
        → All P xs
        → All Q (update_where p g xs)
    All-update_where P Q [] f h = tt
    All-update_where P Q (x ∷ xs) f h = (f x h.0, All-update_where P Q xs f h.1)

    pub Pairwise-update_where {κ} :
        (R : A → A → Type κ) (xs : List A)
        → ((x y : A) → R x y → R (row_after x) (row_after y))
        → Pairwise R xs
        → Pairwise R (update_where p g xs)
    Pairwise-update_where R [] f h = tt
    Pairwise-update_where R (x ∷ xs) f h = (
      All-update_where (R x) (R (row_after x)) xs (λ y. f x y) h.0,
      Pairwise-update_where R xs f h.1,
    )

    -- An update of one row keeps a relation if the new row is in it with all others, which may be known
    -- from what holds of each row.
    module _ {κ μ ν} (D : A → A → Type κ) (R : A → A → Type μ) (E : A → Type ν)
        (alone : (x y : A) → D x y → p x ≡ true → p y ≡ true → ⊥)
        (fits : (x y : A) → E x → E y → p x ≡ true → p y ≡ false → R (g x) y × R y (g x)) where
      pair_after : (x y : A) → D x y → E x → E y → R x y → R (row_after x) (row_after y)
      pair_after x y d ex ey r = elim (Bool-cases (p x)) [
        | inl e ↦ elim (Bool-cases (p y)) [
          | inl k ↦ absurd (alone x y d e k)
          | inr k ↦ rw e (rw k (fits x y ex ey e k).0)
        ]
        | inr e ↦ elim (Bool-cases (p y)) [
          | inl k ↦ rw e (rw k (fits y x ey ex k e).1)
          | inr k ↦ rw e (rw k r)
        ]
      ]

      pub Pairwise-replace :
          (xs : List A)
          → Pairwise D xs
          → All E xs
          → Pairwise R xs
          → Pairwise R (update_where p g xs)
      Pairwise-replace [] d known h = tt
      Pairwise-replace (x ∷ xs) d known h = (
        All-update_where (λ y. (D x y × R x y) × E y) (R (row_after x)) xs
            (λ y k. pair_after x y k.0.0 known.0 k.1 k.0.1)
            (All-combine xs (λ y k ey. (k, ey)) (All-combine xs (λ y k r. (k, r)) d.0 h.0) known.1),
        Pairwise-replace xs d.1 known.1 h.1,
      )
