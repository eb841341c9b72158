-- ===== src/Auth/Revocations.antt =====
-- Tokens that were issued before their user's tokens were revoked.
use apag_be.Prelude.{
  ℕ, ◌+◌, ◌*◌, ◌≤◌, ◌<◌, ◌≡◌, refl, sym, ◌∙◌, ap, subst, inl, inr, Bool, true, not, Option, none,
  some, List, [], ◌∷◌, arith, ◌==◌, ==_iff, leb, Bool-cases, where_rows, if◌then◌else◌,
}
use apag_be.Database.Rows.{find_by}
use apag_be.Auth.TokenStore.{
  UserRevocation, TokenStore, of_user, prune, set_user_revocation, revoke_token,
  revoke_user_tokens_issued_before, max_of, issued_before, next_stamp, remember, expiry,
}

find_by-where_rows {ℓ} :
    {A : Type ℓ} (p q : A → Bool) (xs : List A) {x : A}
    → find_by p xs ≡ some x
    → q x ≡ true
    → find_by p (where_rows q xs) ≡ some x
unfolding find_by
find_by-where_rows p q [] h k = cc
find_by-where_rows p q (y ∷ xs) {x} h k = elim (Bool-cases (p y)) [
  | inl e ↦
      let is : y ≡ x = ground arith in
      let kept : q y ≡ true = subst (λ z. q z ≡ true) (sym is) k in rw kept (rw e (ap some is))
  | inr e ↦
      let later : find_by p xs ≡ some x = ground arith in
      let rest = find_by-where_rows p q xs {x = x} later k in
      elim (Bool-cases (q y)) [ inl t ↦ rw t (rw e rest) | inr t ↦ rw t rest ]
]

pub find-set :
    (user_id : ℕ) (e : UserRevocation) (xs : List UserRevocation)
    → find_by (of_user user_id) (set_user_revocation e xs)
      ≡ (if e.user_id == user_id then some e else find_by (of_user user_id) xs)
unfolding find_by set_user_revocation
find-set user_id e [] = ground arith
find-set user_id e (x ∷ xs) = ground (arith, find-set user_id e xs)

-- The user's tokens are revoked with at least this stamp, until this time.
pub record Held (user_id stamp until : ℕ) (s : TokenStore) : Type 0 where
  pub entry : UserRevocation
  pub found : find_by (of_user user_id) s.user_revocations ≡ some entry
  pub at_least : stamp ≤ entry.stamp
  pub lasts : until ≤ entry.expires_at

pub prune-Held :
    (user_id stamp until now : ℕ) (s : TokenStore)
    → now < until
    → Held user_id stamp until s
    → Held user_id stamp until (prune now s)
unfolding prune
prune-Held user_id stamp until now s early h = record {
  entry = h.entry;
  found =
      find_by-where_rows (of_user user_id) (λ (r : UserRevocation). not (leb r.expires_at now))
        s.user_revocations {x = h.entry} h.found (let lasts = h.lasts in ground arith);
  at_least = h.at_least;
  lasts = h.lasts;
}

remember-user_revocations :
    (lifetime now : ℕ) (jti expires_at : Option ℕ) (s : TokenStore)
    → (remember lifetime now jti expires_at s).user_revocations ≡ s.user_revocations
remember-user_revocations lifetime now none expires_at s = refl
remember-user_revocations lifetime now (some jti) expires_at s =
    elim (Bool-cases (leb (expiry lifetime now expires_at) now)) [
      | inl e ↦ rw e refl
      | inr e ↦ rw e refl
    ]

pub revoke_token-Held :
    (lifetime user_id stamp until now : ℕ) (jti expires_at : Option ℕ) (s : TokenStore)
    → now < until
    → Held user_id stamp until s
    → Held user_id stamp until (revoke_token lifetime now jti expires_at s)
unfolding revoke_token
revoke_token-Held lifetime user_id stamp until now jti expires_at s early h =
    let kept = prune-Held user_id stamp until now s early h in
    record {
      entry = kept.entry;
      found = rw (remember-user_revocations lifetime now jti expires_at (prune now s)) (kept.found);
      at_least = kept.at_least;
      lasts = kept.lasts;
    }

-- A revocation of any user's tokens, at a time from which it lasts at least as long.
pub revoke_user-Held :
    (lifetime user_id stamp until now other : ℕ) (before : Option ℕ) (s : TokenStore)
    → now < until
    → until ≤ now + lifetime * 1000
    → Held user_id stamp until s
    → Held user_id stamp until (revoke_user_tokens_issued_before lifetime now other before s)
unfolding revoke_user_tokens_issued_before
revoke_user-Held lifetime user_id stamp until now other before s early long h =
    let kept = prune-Held user_id stamp until now s early h in
    let revocations = (prune now s).user_revocations in
    let previous = find_by (of_user other) revocations in
    let e : UserRevocation = record {
      user_id = other;
      stamp = max_of (issued_before now before) (next_stamp previous);
      expires_at = now + lifetime * 1000;
    } in
    let at = find-set user_id e revocations in
    elim (Bool-cases (other == user_id)) [
      | inl t ↦ record {
        entry = e;
        found = at ∙ rw t refl;
        at_least =
            later_stamp (issued_before now before)
              (subst (λ u. find_by (of_user u) revocations ≡ some kept.entry)
                (sym (==_iff other user_id t)) kept.found)
              kept.at_least;
        lasts = long;
      }
      | inr t ↦ record {
        entry = kept.entry;
        found = at ∙ rw t kept.found;
        at_least = kept.at_least;
        lasts = kept.lasts;
      }
    ]
  where
    later_stamp :
        (given : ℕ) {o : Option UserRevocation} {entry : UserRevocation}
        → o ≡ some entry
        → stamp ≤ entry.stamp
        → stamp ≤ max_of given (next_stamp o)
    later_stamp given {o} {entry} is le = ground arith
