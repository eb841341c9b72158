-- ===== src/Idempotency/Alike.antt =====
-- Inputs that are hashed alike, and scopes that are not.
use apag_be.Prelude.{String, ◌≡◌, refl, ◌∙◌, ◌≢◌, inl, inr, Bool-cases, List}
use apag_be.Idempotency.Values.{
  Value, Items, Fields, undefined, array, object, no_items, item, no_fields, field, Clock,
}
use apag_be.Idempotency.Canonical.{
  codes, Entry, sort_entries, is_defined, canonical, canonical_items, canonical_fields,
}
use apag_be.Idempotency.Sorting.{sort_entries-swap}

-- One input is the other with the entries of objects, at any depth, in another order, and with
-- entries that are undefined left out or put in.
mutual
  pub data Alike : Value → Value → Type 0 where
    same : {v : Value} → Alike v v
    in_array : {xs ys : Items} → AlikeItems xs ys → Alike (array xs) (array ys)
    in_object : {fs gs : Fields} → AlikeFields fs gs → Alike (object fs) (object gs)

  pub data AlikeItems : Items → Items → Type 0 where
    no_more : AlikeItems no_items no_items
    one_more :
        {v w : Value} {xs ys : Items}
        → Alike v w
        → AlikeItems xs ys
        → AlikeItems (item v xs) (item w ys)

  pub data AlikeFields : Fields → Fields → Type 0 where
    no_entry : AlikeFields no_fields no_fields
    one_entry :
        {k : String} {v w : Value} {fs gs : Fields}
        → Alike v w
        → AlikeFields fs gs
        → AlikeFields (field k v fs) (field k w gs)
    swapped :
        {k j : String} {v w : Value} {fs : Fields}
        → codes k ≢ codes j
        → AlikeFields (field k v (field j w fs)) (field j w (field k v fs))
    left_out : {k : String} {fs : Fields} → AlikeFields (field k undefined fs) fs
    put_in : {k : String} {fs : Fields} → AlikeFields fs (field k undefined fs)
    after : {fs gs hs : Fields} → AlikeFields fs gs → AlikeFields gs hs → AlikeFields fs hs

Alike-is_defined : {v w : Value} → Alike v w → is_defined v ≡ is_defined w
Alike-is_defined same = refl
Alike-is_defined (in_array xs) = refl
Alike-is_defined (in_object fs) = refl

module _ (clock : Clock) where
  abbrev sorted : Fields → List Entry
  sorted fs = sort_entries (canonical_fields clock fs)

  abbrev entry : String → Value → Entry
  entry k v = record { key = codes k; text = canonical clock v }

  sorted-one_more :
      (k : String) (v w : Value) (fs gs : Fields)
      → is_defined v ≡ is_defined w
      → canonical clock v ≡ canonical clock w
      → sorted fs ≡ sorted gs
      → sorted (field k v fs) ≡ sorted (field k w gs)
  unfolding canonical_fields sort_entries
  sorted-one_more k v w fs gs defined text rest = elim (Bool-cases (is_defined w)) [
    | inl e ↦ rw defined (rw e (rw text (rw rest refl)))
    | inr e ↦ rw defined (rw e rest)
  ]

  sorted-swapped :
      (k j : String) (v w : Value) (fs : Fields)
      → codes k ≢ codes j
      → sorted (field k v (field j w fs)) ≡ sorted (field j w (field k v fs))
  unfolding canonical_fields
  sorted-swapped k j v w fs differ = elim (Bool-cases (is_defined v)) [
    | inl e ↦ elim (Bool-cases (is_defined w)) [
      | inl d ↦
          rw e (rw d (sort_entries-swap (entry k v) (entry j w) (canonical_fields clock fs) differ))
      | inr d ↦ rw e (rw d refl)
    ]
    | inr e ↦ rw e refl
  ]

  mutual
    unfolding canonical

    alike : (v w : Value) → Alike v w → canonical clock v ≡ canonical clock w
    alike v _ same = refl
    alike (array xs) (array ys) (in_array h) = rw (alike_items xs ys h) refl
    alike (object fs) (object gs) (in_object h) = rw (alike_fields fs gs h) refl

    alike_items :
        (xs ys : Items) → AlikeItems xs ys → canonical_items clock xs ≡ canonical_items clock ys
    alike_items _ _ no_more = refl
    alike_items (item v xs) (item w ys) (one_more h hs) = cc (alike v w h, alike_items xs ys hs)

    alike_fields : (fs gs : Fields) → AlikeFields fs gs → sorted fs ≡ sorted gs
    alike_fields _ _ no_entry = refl
    alike_fields (field k v fs) (field _ w gs) (one_entry h hs) =
        sorted-one_more k v w fs gs (Alike-is_defined h) (alike v w h) (alike_fields fs gs hs)
    alike_fields _ _ (swapped {k} {j} {v} {w} {fs} differ) = sorted-swapped k j v w fs differ
    alike_fields _ _ left_out = refl
    alike_fields _ _ put_in = refl
    alike_fields fs hs (after {gs = gs} h k) = alike_fields fs gs h ∙ alike_fields gs hs k

-- The text that is hashed does not depend on the order in which an object names its entries, at any
-- depth, nor on entries that are undefined.
pub canonical-Alike :
    (clock : Clock) (v w : Value) → Alike v w → canonical clock v ≡ canonical clock w
canonical-Alike clock v w h = alike clock v w h
