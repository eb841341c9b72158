-- ===== src/Idempotency/Canonical.antt =====
-- common/idempotency/idempotent-operation.ts: the text that stands for an input when it is hashed, as
-- the list of its code points.
use Prim.Native.Char.{code}
use apag_be.Prelude.{
  ℕ, zero, suc, ◌+◌, ◌/◌, ◌%◌, String, Bool, true, false, List, [], ◌∷◌, ◌++◌, map, ◌==◌, ltb,
  if◌then◌else◌,
}
use apag_be.Idempotency.Values.{
  Scalar, string, number, boolean, null, Value, Items, Fields, undefined, date, array, object,
  scalar, no_items, item, no_fields, field, Clock,
}

abbrev pub Text : Type 0
Text = List ℕ

abbrev pub codes : String → Text
codes String.[] = []
codes (String.◌∷◌ c s) = code c ∷ codes s

-- A hexadecimal digit.
abbrev hex_digit : ℕ → ℕ
hex_digit d = if ltb d 10 then b'0' + d else 87 + d

-- A character inside `JSON.stringify` of a string.
unfoldable pub escape : ℕ → Text
escape c =
    if c == 34
    then 92 ∷ 34 ∷ []
    else if c == 92
    then 92 ∷ 92 ∷ []
    else if c == 8
    then 92 ∷ b'b' ∷ []
    else if c == 9
    then 92 ∷ b't' ∷ []
    else if c == 10
    then 92 ∷ b'n' ∷ []
    else if c == 12
    then 92 ∷ b'f' ∷ []
    else if c == 13
    then 92 ∷ b'r' ∷ []
    else if ltb c 32
    then 92 ∷ b'u' ∷ b'0' ∷ b'0' ∷ hex_digit (c / 16) ∷ hex_digit (c % 16) ∷ []
    else c ∷ []

unfoldable pub escapes : Text → Text
escapes [] = []
escapes (c ∷ cs) = escape c ++ escapes cs

abbrev pub quote : Text → Text
quote cs = 34 ∷ escapes cs ++ 34 ∷ []

-- The decimal digits, the fuel being at least their number.
unfoldable pub digits : ℕ → ℕ → Text → Text
digits zero n rest = rest
digits (suc fuel) n rest =
    let more = digits fuel (n / 10) ((b'0' + n % 10) ∷ rest) in
    if ltb n 10 then (b'0' + n) ∷ rest else more

abbrev pub scalar_text : Scalar → Text
scalar_text (string s) = quote (codes s)
scalar_text (number n) = digits (n + 1) n []
scalar_text (boolean true) = codes "true"
scalar_text (boolean false) = codes "false"
scalar_text null = codes "null"

-- `.join(',')`
unfoldable pub join : List Text → Text
join [] = []
join (t ∷ []) = t
join (t ∷ u ∷ ts) = t ++ b',' ∷ join (u ∷ ts)

pub record Entry : Type 0 where
  pub key : Text
  pub text : Text

-- `a <= b` on strings, which compares code units: on the ASCII names of a request the code points.
unfoldable pub leq : Text → Text → Bool
leq [] b = true
leq (x ∷ a) [] = false
leq (x ∷ a) (y ∷ b) = let rest = leq a b in if ltb x y then true else if x == y then rest else false

-- `.sort(([a], [b]) => (a < b ? -1 : a > b ? 1 : 0))`, which is stable.
unfoldable pub insert_entry : Entry → List Entry → List Entry
insert_entry e [] = e ∷ []
insert_entry e (x ∷ xs) =
    let rest = insert_entry e xs in if leq e.key x.key then e ∷ x ∷ xs else x ∷ rest

unfoldable pub sort_entries : List Entry → List Entry
sort_entries [] = []
sort_entries (e ∷ es) = insert_entry e (sort_entries es)

abbrev pub entry_text : Entry → Text
entry_text e = quote e.key ++ b':' ∷ e.text

abbrev pub braces : List Entry → Text
braces es = b'{' ∷ join (map entry_text (sort_entries es)) ++ b'}' ∷ []

-- `v !== undefined`
abbrev pub is_defined : Value → Bool
is_defined undefined = false
is_defined _ = true

unfoldable mutual
  pub canonical : Clock → Value → Text
  canonical clock undefined = codes "null"
  canonical clock (date t) = quote (codes (clock.to_iso_string t))
  canonical clock (array xs) = b'[' ∷ join (canonical_items clock xs) ++ b']' ∷ []
  canonical clock (object fs) = braces (canonical_fields clock fs)
  canonical clock (scalar s) = scalar_text s

  pub canonical_items : Clock → Items → List Text
  canonical_items clock no_items = []
  canonical_items clock (item v xs) = canonical clock v ∷ canonical_items clock xs

  pub canonical_fields : Clock → Fields → List Entry
  canonical_fields clock no_fields = []
  canonical_fields clock (field k v fs) =
      let e : Entry = record { key = codes k; text = canonical clock v } in
      let rest = canonical_fields clock fs in if is_defined v then e ∷ rest else rest
