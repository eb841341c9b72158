-- ===== src/Auth/TokenStore.antt =====
-- modules/auth/jwt/auth-token-store.ts: which tokens are revoked. A time is its milliseconds since 1970;
-- the times that tokens carry are in seconds.
use apag_be.Prelude.{
  ℕ, ◌+◌, ◌*◌, ◌/◌, Bool, true, false, not, ◌||◌, Option, none, some, List, [], ◌∷◌, ◌==◌, leb, any,
  where_rows, if◌then◌else◌,
}
use apag_be.Database.Rows.{find_by}

pub data LifetimeUnit : Type 0 where
  milliseconds seconds minutes hours days weeks years : LifetimeUnit

-- The amount and the unit that a configured lifetime consists of, rounded up to seconds.
unfoldable pub token_lifetime_seconds : ℕ → LifetimeUnit → ℕ
token_lifetime_seconds n milliseconds = (n + 999) / 1000
token_lifetime_seconds n seconds = n
token_lifetime_seconds n minutes = n * 60
token_lifetime_seconds n hours = n * 3600
token_lifetime_seconds n days = n * 86400
token_lifetime_seconds n weeks = n * 604800
token_lifetime_seconds n years = n * 31557600

-- `sub`, `jti`, `iat` and `revocationStamp` of a token.
pub record JwtPayload : Type 0 where
  pub sub : ℕ
  pub jti : Option ℕ
  pub iat : Option ℕ
  pub revocation_stamp : Option ℕ

pub record RevokedToken : Type 0 where
  pub jti : ℕ
  pub expires_at : ℕ

pub record UserRevocation : Type 0 where
  pub user_id : ℕ
  pub stamp : ℕ
  pub expires_at : ℕ

-- The two maps, by `jti` and by user.
pub record TokenStore : Type 0 where
  pub revoked_tokens : List RevokedToken
  pub user_revocations : List UserRevocation

abbrev pub max_of : ℕ → ℕ → ℕ
max_of a b = if leb a b then b else a

unfoldable pub maximum_lifetime : ℕ → ℕ → ℕ
maximum_lifetime access refresh = max_of access refresh + 2

abbrev pub of_user : ℕ → UserRevocation → Bool
of_user user_id r = r.user_id == user_id

unfoldable pub prune : ℕ → TokenStore → TokenStore
prune now s = record {
  revoked_tokens = where_rows (λ (r : RevokedToken). not (leb r.expires_at now)) s.revoked_tokens;
  user_revocations =
      where_rows (λ (r : UserRevocation). not (leb r.expires_at now)) s.user_revocations;
}

-- `this.userRevocations.set(…)`
unfoldable pub set_user_revocation : UserRevocation → List UserRevocation → List UserRevocation
set_user_revocation e [] = e ∷ []
set_user_revocation e (x ∷ xs) =
    let rest = set_user_revocation e xs in if x.user_id == e.user_id then e ∷ xs else x ∷ rest

unfoldable pub set_revoked_token : RevokedToken → List RevokedToken → List RevokedToken
set_revoked_token e [] = e ∷ []
set_revoked_token e (x ∷ xs) =
    let rest = set_revoked_token e xs in if x.jti == e.jti then e ∷ xs else x ∷ rest

abbrev pub expiry : ℕ → ℕ → Option ℕ → ℕ
expiry lifetime now none = now + lifetime * 1000
expiry lifetime now (some t) = t * 1000

abbrev pub remember : ℕ → ℕ → Option ℕ → Option ℕ → TokenStore → TokenStore
remember lifetime now none expires_at_seconds s = s
remember lifetime now (some jti) expires_at_seconds s =
    let expires_at = expiry lifetime now expires_at_seconds in
    if leb expires_at now then s else record s {
      revoked_tokens =
          set_revoked_token (record { jti = jti; expires_at = expires_at }) s.revoked_tokens;
    }

unfoldable pub revoke_token : ℕ → ℕ → Option ℕ → Option ℕ → TokenStore → TokenStore
unfolding prune set_revoked_token
revoke_token lifetime now jti expires_at_seconds s =
    remember lifetime now jti expires_at_seconds (prune now s)

abbrev pub issued_before : ℕ → Option ℕ → ℕ
issued_before now none = now
issued_before now (some t) = t * 1000

-- `(previous?.stamp ?? 0) + 1`
abbrev pub next_stamp : Option UserRevocation → ℕ
next_stamp none = 1
next_stamp (some r) = r.stamp + 1

unfoldable pub revoke_user_tokens_issued_before : ℕ → ℕ → ℕ → Option ℕ → TokenStore → TokenStore
unfolding prune set_user_revocation
revoke_user_tokens_issued_before lifetime now user_id issued_before_seconds s =
    let kept = prune now s in
    let previous = find_by (of_user user_id) kept.user_revocations in
    record kept {
      user_revocations =
          set_user_revocation
            (record {
              user_id = user_id;
              stamp = max_of (issued_before now issued_before_seconds) (next_stamp previous);
              expires_at = now + lifetime * 1000;
            })
            kept.user_revocations;
    }

abbrev pub stamp_of : Option UserRevocation → Option ℕ
stamp_of none = none
stamp_of (some r) = some r.stamp

-- With the store that the call leaves.
unfoldable pub get_revocation_stamp : ℕ → ℕ → TokenStore → Option ℕ × TokenStore
unfolding prune
get_revocation_stamp now user_id s =
    let kept = prune now s in (stamp_of (find_by (of_user user_id) kept.user_revocations), kept)

-- `!payload.iat || payload.iat * 1000 <= entry.stamp`
abbrev pub issued_by : Option ℕ → ℕ → Bool
issued_by none stamp = true
issued_by (some t) stamp = t == 0 || leb (t * 1000) stamp

abbrev pub outdated : Option ℕ → Option ℕ → ℕ → Bool
outdated (some given) iat stamp = not (given == stamp)
outdated none iat stamp = issued_by iat stamp

abbrev pub revoked_by : JwtPayload → Option UserRevocation → Bool
revoked_by payload none = false
revoked_by payload (some entry) = outdated payload.revocation_stamp payload.iat entry.stamp

abbrev pub is_listed : Option ℕ → List RevokedToken → Bool
is_listed none tokens = false
is_listed (some jti) tokens = any (λ (r : RevokedToken). r.jti == jti) tokens

unfoldable pub is_token_revoked : ℕ → JwtPayload → TokenStore → Bool × TokenStore
unfolding prune
is_token_revoked now payload s =
    let kept = prune now s in
    (
      is_listed payload.jti kept.revoked_tokens
          || revoked_by payload (find_by (of_user payload.sub) kept.user_revocations),
      kept,
    )
