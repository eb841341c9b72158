-- ===== src/Idempotency/Sorting.antt =====
-- The order of the keys, and the entries of an object once they are sorted.
use apag_be.Prelude.{◌≡◌, refl, sym, ◌≢◌, inl, inr, Bool-cases, true, false, List, [], ◌∷◌, arith}
use apag_be.Idempotency.Canonical.{Text, Entry, leq, insert_entry, sort_entries}

leq_total : (a b : Text) → leq a b ≡ false → leq b a ≡ true
unfolding leq
leq_total [] b h = cc
leq_total (x ∷ a) [] h = refl
leq_total (x ∷ a) (y ∷ b) h = ground (arith, leq_total a b)

leq_antisym : (a b : Text) → leq a b ≡ true → leq b a ≡ true → a ≡ b
unfolding leq
leq_antisym [] [] h k = refl
leq_antisym [] (y ∷ b) h k = cc
leq_antisym (x ∷ a) [] h k = cc
leq_antisym (x ∷ a) (y ∷ b) h k = ground (arith, leq_antisym a b)

leq_trans : (a b c : Text) → leq a b ≡ true → leq b c ≡ true → leq a c ≡ true
unfolding leq
leq_trans [] b c h k = refl
leq_trans (x ∷ a) [] c h k = cc
leq_trans (x ∷ a) (y ∷ b) [] h k = cc
leq_trans (x ∷ a) (y ∷ b) (z ∷ c) h k = ground (arith, leq_trans a b c)

-- The first of two entries goes in front of the second.
front :
    (e d : Entry) (es : List Entry)
    → leq e.key d.key ≡ true
    → leq d.key e.key ≡ false
    → insert_entry e (insert_entry d es) ≡ insert_entry d (insert_entry e es)
unfolding insert_entry
front e d [] h k = ground arith
front e d (x ∷ xs) h k = ground (arith, leq_trans e.key d.key x.key, front e d xs)

-- Two entries of different keys may be inserted in either order.
insert_entry-swap :
    (e d : Entry) (es : List Entry)
    → e.key ≢ d.key
    → insert_entry e (insert_entry d es) ≡ insert_entry d (insert_entry e es)
insert_entry-swap e d es differ = elim (Bool-cases (leq e.key d.key)) [
  | inl le ↦ elim (Bool-cases (leq d.key e.key)) [
    | inl ge ↦ absurd (differ (leq_antisym e.key d.key le ge))
    | inr lt ↦ front e d es le lt
  ]
  | inr gt ↦ sym (front d e es (leq_total e.key d.key gt) gt)
]

-- Two neighbours of different keys sort alike in either order.
pub sort_entries-swap :
    (e d : Entry) (es : List Entry)
    → e.key ≢ d.key
    → sort_entries (e ∷ d ∷ es) ≡ sort_entries (d ∷ e ∷ es)
unfolding sort_entries
sort_entries-swap e d es differ = insert_entry-swap e d (sort_entries es) differ
