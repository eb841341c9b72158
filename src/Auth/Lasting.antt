-- ===== src/Auth/Lasting.antt =====
-- A revocation of a user's tokens lasts as long as they could.
use apag_be.Prelude.{
  ℕ, ◌+◌, ◌*◌, ◌≤◌, ◌<◌, ◌≡◌, refl, ◌∙◌, Bool, true, false, ◌||◌, Option, none, some, arith,
  ==_refl,
}
use apag_be.Database.Rows.{find_by}
use apag_be.Auth.TokenStore.{
  JwtPayload, UserRevocation, TokenStore, of_user, prune, revoke_token,
  revoke_user_tokens_issued_before, get_revocation_stamp, is_token_revoked, issued_by, max_of,
  next_stamp, stamp_of, outdated, is_listed,
}
use apag_be.Auth.Revocations.{Held, prune-Held, revoke_token-Held, revoke_user-Held, find-set}

-- What has been done with the store up to a time: questions, which prune it, and revocations.
pub data Uses (lifetime start : ℕ) (first : TokenStore) : ℕ → TokenStore → Type 0 where
  begins : Uses lifetime start first start first
  asks :
      (t now : ℕ) (s : TokenStore)
      → Uses lifetime start first t s
      → t ≤ now
      → Uses lifetime start first now (prune now s)
  revokes_token :
      (t now : ℕ) (s : TokenStore) (jti expires_at : Option ℕ)
      → Uses lifetime start first t s
      → t ≤ now
      → Uses lifetime start first now (revoke_token lifetime now jti expires_at s)
  revokes_user :
      (t now : ℕ) (s : TokenStore) (user_id : ℕ) (before : Option ℕ)
      → Uses lifetime start first t s
      → t ≤ now
      → Uses lifetime start first now
          (revoke_user_tokens_issued_before lifetime now user_id before s)

-- A token of the user from before a time: it carries no stamp and was issued by then, or it carries a
-- stamp that is a time before it (whether or not the revocation that set it is still kept), or one not
-- later than the stamp that the user's tokens got at that time.
pub data IssuedBefore (now : ℕ) (s : TokenStore) (payload : JwtPayload) : Type 0 where
  unstamped :
      payload.revocation_stamp ≡ none
      → issued_by payload.iat now ≡ true
      → IssuedBefore now s payload
  stamped_earlier :
      (given : ℕ) → payload.revocation_stamp ≡ some given → given < now → IssuedBefore now s payload
  stamped :
      (given latest : ℕ)
      → payload.revocation_stamp ≡ some given
      → given ≤ latest
      → (get_revocation_stamp now payload.sub s).0 ≡ some latest
      → IssuedBefore now s payload

Uses-Held :
    (lifetime start : ℕ) (first : TokenStore) (user_id stamp t : ℕ) (s : TokenStore)
    → Uses lifetime start first t s
    → t < start + lifetime * 1000
    → Held user_id stamp (start + lifetime * 1000) first
    → (start ≤ t) × Held user_id stamp (start + lifetime * 1000) s
Uses-Held lifetime start first user_id stamp t s begins early h = (omega arith, h)
Uses-Held lifetime start first user_id stamp _ _ (asks t now s before later) early h =
    let (from, held) = Uses-Held lifetime start first user_id stamp t s before (omega arith) h in
    (omega arith, prune-Held user_id stamp (start + lifetime * 1000) now s early held)
Uses-Held lifetime start first user_id stamp _ _ (revokes_token t now s jti expires_at before later)
      early h =
    let (from, held) = Uses-Held lifetime start first user_id stamp t s before (omega arith) h in
    (
      omega arith,
      revoke_token-Held lifetime user_id stamp (start + lifetime * 1000) now jti expires_at s early
          held,
    )
Uses-Held lifetime start first user_id stamp _ _ (revokes_user t now s other issued before later)
      early h =
    let (from, held) = Uses-Held lifetime start first user_id stamp t s before (omega arith) h in
    (
      omega arith,
      revoke_user-Held lifetime user_id stamp (start + lifetime * 1000) now other issued s early
          (omega arith) held,
    )

-- The stamp that a revocation sets.
abbrev stamp_set : ℕ → ℕ → TokenStore → ℕ
stamp_set now user_id s =
    max_of now (next_stamp (find_by (of_user user_id) (prune now s).user_revocations))

revoked-Held :
    (lifetime now user_id : ℕ) (s : TokenStore)
    → Held user_id
        (stamp_set now user_id s)
        (now + lifetime * 1000)
        (revoke_user_tokens_issued_before lifetime now user_id none s)
unfolding revoke_user_tokens_issued_before
revoked-Held lifetime now user_id s = record {
  entry = record {
    user_id = user_id;
    stamp = stamp_set now user_id s;
    expires_at = now + lifetime * 1000;
  };
  found = find-set user_id _ (prune now s).user_revocations ∙ rw (==_refl user_id) refl;
  at_least = omega arith;
  lasts = omega arith;
}

-- Such a token is outdated by every stamp from the one that the revocation sets.
IssuedBefore-outdated :
    (now : ℕ) (s : TokenStore) (payload : JwtPayload) (stamp : ℕ)
    → IssuedBefore now s payload
    → stamp_set now payload.sub s ≤ stamp
    → outdated payload.revocation_stamp payload.iat stamp ≡ true
unfolding get_revocation_stamp
IssuedBefore-outdated now s payload stamp (unstamped without by_now) le =
    rw without (by_then payload.iat by_now)
  where
    by_then : (iat : Option ℕ) → issued_by iat now ≡ true → issued_by iat stamp ≡ true
    by_then none h = refl
    by_then (some t) h = ground arith
IssuedBefore-outdated now s payload stamp (stamped_earlier given carried past) le =
    rw carried
      (apart (next_stamp (find_by (of_user payload.sub) (prune now s).user_revocations)) le)
  where
    apart : (n : ℕ) → max_of now n ≤ stamp → outdated (some given) payload.iat stamp ≡ true
    apart n h = ground arith
IssuedBefore-outdated now s payload stamp (stamped given latest carried le_latest at) le =
    rw carried (apart (find_by (of_user payload.sub) (prune now s).user_revocations) at le)
  where
    apart :
        (o : Option UserRevocation)
        → stamp_of o ≡ some latest
        → max_of now (next_stamp o) ≤ stamp
        → outdated (some given) payload.iat stamp ≡ true
    apart none at le = cc at
    apart (some r) at le = ground arith

-- When a user's tokens are revoked, these tokens of theirs are refused from then on until the longest
-- lifetime of a token has passed, whatever is revoked or asked in between, for whichever users: those
-- that carry no stamp and were issued by then, those whose stamp is a time before then, even where the
-- revocation that set it has been forgotten, and those whose stamp is at most the user's at that time.
pub revocation-lasts :
    (lifetime now later : ℕ) (s t : TokenStore) (payload : JwtPayload)
    → IssuedBefore now s payload
    → Uses lifetime now (revoke_user_tokens_issued_before lifetime now payload.sub none s) later t
    → later < now + lifetime * 1000
    → (is_token_revoked later payload t).0 ≡ true
unfolding is_token_revoked
revocation-lasts lifetime now later s t payload issued uses early =
    let user_id = payload.sub in
    let stamp = stamp_set now user_id s in
    let (_, held) =
      Uses-Held lifetime now (revoke_user_tokens_issued_before lifetime now user_id none s) user_id
        stamp later t uses early (revoked-Held lifetime now user_id s) in
    let kept = prune-Held user_id stamp (now + lifetime * 1000) later t early held in
    let refused = IssuedBefore-outdated now s payload kept.entry.stamp issued kept.at_least in
    rw (kept.found) (rw refused (or_true (is_listed payload.jti (prune later t).revoked_tokens)))
  where
    or_true : (b : Bool) → b || true ≡ true
    or_true true = refl
    or_true false = refl
