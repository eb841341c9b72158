-- ===== src/Idempotency/Scopes.antt =====
-- Which operations share a receipt.
use text.Mathlib.TextEquality.{Char-path}
use mathlib.Core.List.{append_assoc, tail}
use apag_be.Prelude.{String, ◌≡◌, refl, sym, ◌∙◌, ap, [], ◌∷◌, ◌++◌}
use apag_be.Idempotency.Values.{Clock}
use apag_be.Idempotency.Canonical.{Text, codes, quote, join, canonical}
use apag_be.Idempotency.Quoting.{quote-injective}
use apag_be.Idempotency.Operation.{scope_of}

codes-injective : (s t : String) → codes s ≡ codes t → s ≡ t
codes-injective String.[] String.[] h = refl
codes-injective String.[] (String.◌∷◌ d t) h = cc
codes-injective (String.◌∷◌ c s) String.[] h = cc
codes-injective (String.◌∷◌ c s) (String.◌∷◌ d t) h =
    cc (Char-path c d (cc h), codes-injective s t (cc h))

abbrev three : Text → Text → Text → Text
three a b c = quote a ++ (b',' ∷ (quote b ++ (b',' ∷ quote c)))

three-injective :
    (a b c a' b' c' : Text)
    → three a b c ++ b']' ∷ [] ≡ three a' b' c' ++ b']' ∷ []
    → (a ≡ a') × (b ≡ b') × (c ≡ c')
three-injective a b c a' b' c' h =
    let (first, rest) = quote-injective a a' (
      sym (append_assoc (quote a) (b',' ∷ (quote b ++ (b',' ∷ quote c))) (b']' ∷ []))
      ∙ (h ∙ append_assoc (quote a') (b',' ∷ (quote b' ++ (b',' ∷ quote c'))) (b']' ∷ []))) in
    let (second, end) = quote-injective b b' (
      sym (append_assoc (quote b) (b',' ∷ quote c) (b']' ∷ []))
      ∙ (cc rest ∙ append_assoc (quote b') (b',' ∷ quote c') (b']' ∷ []))) in
    let (third, _) = quote-injective c c' {xs = b']' ∷ []} {ys = b']' ∷ []} (cc end) in
    (first, second, third)

-- Two operations have one scope, before it is hashed, only if actor, action and key are the same.
pub scope-injective :
    (clock : Clock) (actor action key actor' action' key' : String)
    → canonical clock (scope_of actor action key) ≡ canonical clock (scope_of actor' action' key')
    → (actor ≡ actor') × (action ≡ action') × (key ≡ key')
unfolding canonical join
scope-injective clock actor action key actor' action' key' h =
    let (first, second, third) =
      three-injective (codes actor) (codes action) (codes key) (codes actor') (codes action')
        (codes key') (ap tail h) in
    (
      codes-injective actor actor' first,
      codes-injective action action' second,
      codes-injective key key' third,
    )
