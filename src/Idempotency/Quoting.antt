-- ===== src/Idempotency/Quoting.antt =====
-- A quoted string can be read off the front of a text.
use mathlib.Core.List.{append_assoc}
use apag_be.Prelude.{
  ℕ, ◌+◌, ◌*◌, ◌-◌, ◌≡◌, refl, sym, ap, ◌∙◌, ◌≢◌, [], ◌∷◌, ◌++◌, arith, ltb, ◌==◌, if◌then◌else◌,
}
use apag_be.Idempotency.Canonical.{Text, escape, escapes, quote}

abbrev unhex : ℕ → ℕ
unhex d = if ltb d 58 then d - 48 else d - 87

-- What a letter stands for behind a backslash.
unfoldable unescape : ℕ → ℕ
unescape x =
    if x == b'b'
    then 8
    else if x == b't'
    then 9
    else if x == b'n'
    then 10
    else if x == b'f'
    then 12
    else if x == b'r'
    then 13
    else x

unfoldable read_hex : Text → ℕ × Text
read_hex (x ∷ y ∷ high ∷ low ∷ cs) = (16 * unhex high + unhex low, cs)
read_hex cs = (0, cs)

unfoldable read_escape : Text → ℕ × Text
unfolding unescape read_hex
read_escape [] = (0, [])
read_escape (x ∷ cs) = if x == b'u' then read_hex cs else (unescape x, cs)

unfoldable read_char : Text → ℕ × Text
unfolding read_escape
read_char [] = (0, [])
read_char (c ∷ cs) = if c == 92 then read_escape cs else (c, cs)

read_char-escape : (c : ℕ) (cs : Text) → read_char (escape c ++ cs) ≡ (c, cs)
unfolding read_char escape
read_char-escape c cs = ground arith

-- An escaped character is no quotation mark.
escape-unquoted : (c : ℕ) (cs ds : Text) → 34 ∷ ds ≢ escape c ++ cs
unfolding escape
escape-unquoted c cs ds = ground arith

-- An escaped character tells which character it is, and where it ends.
escape-injective : (c d : ℕ) {xs ys : Text} → escape c ++ xs ≡ escape d ++ ys → (c ≡ d) × (xs ≡ ys)
escape-injective c d {xs} {ys} h =
    let both : (c, xs) ≡ (d, ys) =
      sym (read_char-escape c xs) ∙ (ap read_char h ∙ read_char-escape d ys) in
    (cc both, cc both)

escapes-cons : (c : ℕ) (a rest : Text) → escapes (c ∷ a) ++ rest ≡ escape c ++ (escapes a ++ rest)
unfolding escapes
escapes-cons c a rest = append_assoc (escape c) (escapes a) rest

escapes-injective :
    (a b : Text) {xs ys : Text} → escapes a ++ 34 ∷ xs ≡ escapes b ++ 34 ∷ ys → (a ≡ b) × (xs ≡ ys)
unfolding escapes
escapes-injective [] [] h = (refl, cc h)
escapes-injective [] (d ∷ b) {xs} {ys} h =
    absurd (escape-unquoted d (escapes b ++ 34 ∷ ys) xs (h ∙ escapes-cons d b (34 ∷ ys)))
escapes-injective (c ∷ a) [] {xs} {ys} h =
    absurd (escape-unquoted c (escapes a ++ 34 ∷ xs) ys (sym h ∙ escapes-cons c a (34 ∷ xs)))
escapes-injective (c ∷ a) (d ∷ b) {xs} {ys} h =
    let (same, rest) =
      escape-injective c d (sym (escapes-cons c a (34 ∷ xs)) ∙ (h ∙ escapes-cons d b (34 ∷ ys))) in
    let (others, end) = escapes-injective a b rest in (cc (same, others), end)

-- So do the quoted strings.
pub quote-injective :
    (a b : Text) {xs ys : Text} → quote a ++ xs ≡ quote b ++ ys → (a ≡ b) × (xs ≡ ys)
quote-injective a b {xs} {ys} h =
    let tails : escapes a ++ 34 ∷ xs ≡ escapes b ++ 34 ∷ ys =
      sym (append_assoc (escapes a) (34 ∷ []) xs)
      ∙ (cc h ∙ append_assoc (escapes b) (34 ∷ []) ys) in
    escapes-injective a b tails
