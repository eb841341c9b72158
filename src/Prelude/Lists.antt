-- ===== src/Prelude/Lists.antt =====
-- Lists measured by native numbers, filters by Boolean tests, and predicates on all elements.
use Prim.Native.Nat.{ℕ, suc, ◌+◌}
use mathlib.Core.Path.{◌≡◌, refl}
use mathlib.Core.Bool.{Bool, true, false, ◌||◌}
use mathlib.Core.List.{List, [], ◌∷◌, map}
use native.Mathlib.Omega.{arith}
use apag_be.Prelude.Tests.{if◌then◌else◌}

module _ {ℓ} {A : Type ℓ} where
  abbrev pub length : List A → ℕ
  length [] = 0
  length (x ∷ xs) = suc (length xs)

  -- `xs.some(p)`
  abbrev pub any : (A → Bool) → List A → Bool
  any p [] = false
  any p (x ∷ xs) = p x || any p xs

  -- The rows that a `where` selects.
  abbrev pub where_rows : (A → Bool) → List A → List A
  where_rows p [] = []
  where_rows p (x ∷ xs) = let rest = where_rows p xs in if p x then x ∷ rest else rest

  -- `count({ where })`
  abbrev pub count_where : (A → Bool) → List A → ℕ
  count_where p [] = 0
  count_where p (x ∷ xs) = (if p x then 1 else 0) + count_where p xs

  -- `updateMany({ where, data })`: the rows afterwards.
  abbrev pub update_where : (A → Bool) → (A → A) → List A → List A
  update_where p g [] = []
  update_where p g (x ∷ xs) = (if p x then g x else x) ∷ update_where p g xs

  abbrev pub sum_by : (A → ℕ) → List A → ℕ
  sum_by f [] = 0
  sum_by f (x ∷ xs) = f x + sum_by f xs

  abbrev pub All {κ} : (A → Type κ) → List A → Type κ
  All P [] = Unit
  All P (x ∷ xs) = P x × All P xs

  -- What a `where` selects meets it, and whatever all rows meet.
  pub All-where_rows {κ} :
      (P : A → Type κ) (p : A → Bool) (xs : List A)
      → All P xs
      → All (λ x. P x × (p x ≡ true)) (where_rows p xs)
  All-where_rows P p [] h = tt
  All-where_rows P p (x ∷ xs) h = go (p x) refl (All-where_rows P p xs h.1)
    where
      go :
          (b : Bool)
          → p x ≡ b
          → All (λ y. P y × (p y ≡ true)) (where_rows p xs)
          → All (λ y. P y × (p y ≡ true)) (if b then x ∷ where_rows p xs else where_rows p xs)
      go true e rest = ((h.0, e), rest)
      go false e rest = rest

  pub All-combine {κ μ ν} :
      {P : A → Type κ} {Q : A → Type μ} {R : A → Type ν} (xs : List A)
      → ((x : A) → P x → Q x → R x)
      → All P xs
      → All Q xs
      → All R xs
  All-combine [] f h k = tt
  All-combine (x ∷ xs) f h k = (f x h.0 k.0, All-combine xs f h.1 k.1)

  pub length-where_rows : (p : A → Bool) (xs : List A) → length (where_rows p xs) ≡ count_where p xs
  length-where_rows p [] = refl
  length-where_rows p (x ∷ xs) = ground (arith, length-where_rows p xs)

module _ {ℓ κ μ} {A : Type ℓ} {B : Type κ} where
  pub All-map :
      (P : B → Type μ) (f : A → B) (xs : List A) → All (λ x. P (f x)) xs → All P (map f xs)
  All-map P f [] h = tt
  All-map P f (x ∷ xs) h = (h.0, All-map P f xs h.1)
