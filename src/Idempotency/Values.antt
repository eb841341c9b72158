-- ===== src/Idempotency/Values.antt =====
-- common/idempotency/idempotent-operation.ts: what an operation takes and returns, and the tagged tree
-- that a receipt keeps of a response. A number is a natural one, a date is its milliseconds since 1970.
use apag_be.Prelude.{ℕ, String, ◌≡◌, refl, ap, Bool}

pub data Scalar : Type 0 where
  string : String → Scalar
  number : ℕ → Scalar
  boolean : Bool → Scalar
  null : Scalar

-- `Items` and `Fields` are the elements of an array and the entries of an object.
mutual
  pub data Value : Type 0 where
    undefined : Value
    date : ℕ → Value
    array : Items → Value
    object : Fields → Value
    scalar : Scalar → Value

  pub data Items : Type 0 where
    no_items : Items
    item : Value → Items → Items

  pub data Fields : Type 0 where
    no_fields : Fields
    field : String → Value → Fields → Fields

mutual
  pub data Saved : Type 0 where
    date : String → Saved
    undefined : Saved
    array : SavedItems → Saved
    object : SavedFields → Saved
    value : Scalar → Saved

  pub data SavedItems : Type 0 where
    no_items : SavedItems
    item : Saved → SavedItems → SavedItems

  pub data SavedFields : Type 0 where
    no_fields : SavedFields
    field : String → Saved → SavedFields → SavedFields

-- `Date.prototype.toISOString`, and `new Date(text)`.
pub record Clock : Type 0 where
  pub to_iso_string : ℕ → String
  pub new_date : String → ℕ

unfoldable mutual
  pub save : Clock → Value → Saved
  save clock undefined = Saved.undefined
  save clock (date t) = Saved.date (clock.to_iso_string t)
  save clock (array xs) = Saved.array (save_items clock xs)
  save clock (object fs) = Saved.object (save_fields clock fs)
  save clock (scalar s) = Saved.value s

  pub save_items : Clock → Items → SavedItems
  save_items clock no_items = SavedItems.no_items
  save_items clock (item v xs) = SavedItems.item (save clock v) (save_items clock xs)

  pub save_fields : Clock → Fields → SavedFields
  save_fields clock no_fields = SavedFields.no_fields
  save_fields clock (field k v fs) = SavedFields.field k (save clock v) (save_fields clock fs)

unfoldable mutual
  pub restore : Clock → Saved → Value
  restore clock (Saved.date text) = date (clock.new_date text)
  restore clock Saved.undefined = undefined
  restore clock (Saved.array xs) = array (restore_items clock xs)
  restore clock (Saved.object fs) = object (restore_fields clock fs)
  restore clock (Saved.value s) = scalar s

  pub restore_items : Clock → SavedItems → Items
  restore_items clock SavedItems.no_items = no_items
  restore_items clock (SavedItems.item v xs) = item (restore clock v) (restore_items clock xs)

  pub restore_fields : Clock → SavedFields → Fields
  restore_fields clock SavedFields.no_fields = no_fields
  restore_fields clock (SavedFields.field k v fs) =
      field k (restore clock v) (restore_fields clock fs)

-- The ISO text of a date is read as that date.
abbrev pub ReadsIso : Clock → Type 0
ReadsIso clock = (t : ℕ) → clock.new_date (clock.to_iso_string t) ≡ t

module _ (clock : Clock) (reads : ReadsIso clock) where
  mutual
    unfolding save restore

    whole : (v : Value) → restore clock (save clock v) ≡ v
    whole undefined = refl
    whole (date t) = ap date (reads t)
    whole (array xs) = ap array (whole_items xs)
    whole (object fs) = ap object (whole_fields fs)
    whole (scalar s) = refl

    whole_items : (xs : Items) → restore_items clock (save_items clock xs) ≡ xs
    whole_items no_items = refl
    whole_items (item v xs) = cc (whole v, whole_items xs)

    whole_fields : (fs : Fields) → restore_fields clock (save_fields clock fs) ≡ fs
    whole_fields no_fields = refl
    whole_fields (field k v fs) = cc (whole v, whole_fields fs)

-- What a receipt keeps of a response is read back as that response: arrays and objects of any depth,
-- dates as dates and undefined as undefined, where the ISO text of a date is read as that date.
pub restore-save : (clock : Clock) (v : Value) → ReadsIso clock → restore clock (save clock v) ≡ v
restore-save clock v reads = whole clock reads v
