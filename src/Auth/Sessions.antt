-- ===== src/Auth/Sessions.antt =====
-- modules/auth/auth.service.ts, with the writes of modules/users/users.service.ts: sessions and passwords.
-- Hashing and signing are parameters. A command reads and decides, and then writes; others may write in
-- between. What revoking a token does to the store of tokens is in Auth/TokenStore.
use apag_be.Prelude.{
  ℕ, ◌*◌, String, Bool, not, ◌&&◌, ◌||◌, Option, none, some, List, ◌==◌, leb, opt_eq, is_some,
  count_where, update_where, if◌then◌else◌,
}
use text.Mathlib.Text.{◌==◌ as str_eq}
use apag_be.Http.{
  Result, ok, err, Error, unauthorized, bad_request, not_found, account_missing, wrong_password,
  account_disabled, current_password_wrong, same_password, refresh_invalid, refresh_revoked,
  refresh_expired, refresh_used, reset_invalid, user_not_found, require, ◌>>=◌, ◌>>◌,
}
use apag_be.Database.Rows.{find_by}
use apag_be.Database.Write.{or_not_found}
use apag_be.Auth.TokenStore.{
  JwtPayload, TokenStore, prune, revoke_token, revoke_user_tokens_issued_before, is_token_revoked,
}

-- The columns of `users` that sessions are about. A hash, like a token, is a number.
pub record Account : Type 0 where
  pub id : ℕ
  pub username : String
  pub password_hash : ℕ
  pub is_active : Bool
  pub deleted_at : Option ℕ
  pub refresh_token_hash : Option ℕ
  pub refresh_token_expires_at : Option ℕ

pub record PasswordResetToken : Type 0 where
  pub id : ℕ
  pub user_id : ℕ
  pub token_hash : ℕ
  pub expires_at : ℕ
  pub used_at : Option ℕ

pub record Sessions : Type 0 where
  pub accounts : List Account
  pub reset_tokens : List PasswordResetToken
  pub tokens : TokenStore

-- bcrypt, SHA-256 of a token, and the verification of a refresh token's signature and expiry.
pub record Crypto : Type 0 where
  pub compare_password : String → ℕ → Bool
  pub hash_password : String → ℕ
  pub compare_token : ℕ → ℕ → Bool
  pub is_bcrypt : ℕ → Bool  -- `startsWith('$2')`
  pub dummy_password_hash : ℕ
  pub sha256 : ℕ → ℕ
  pub verify_refresh_token : ℕ → Option JwtPayload

-- What signing gives for a session: the tokens, and the expiry in the payload of the second.
pub record Signed : Type 0 where
  pub access_token : ℕ
  pub refresh_token : ℕ
  pub exp : Option ℕ

pub record AuthTokens : Type 0 where
  pub access_token : ℕ
  pub refresh_token : ℕ

-- An answer with what a command leaves, as one that is refused may have written.
pub record Outcome (A : Type 0) : Type 0 where
  pub answer : Result A
  pub left : Sessions

abbrev pub account_id : ℕ → Account → Bool
account_id id a = a.id == id

abbrev pub with_refresh_token : Option ℕ → Option ℕ → Account → Account
with_refresh_token hash expires_at a = record a {
  refresh_token_hash = hash;
  refresh_token_expires_at = expires_at;
}

unfoldable pub update_refresh_token : ℕ → ℕ → ℕ → List Account → List Account
update_refresh_token id hash expires_at =
    update_where (account_id id) (with_refresh_token (some hash) (some expires_at))

unfoldable pub clear_refresh_token : ℕ → List Account → List Account
clear_refresh_token id = update_where (account_id id) (with_refresh_token none none)

-- `where: { id, refreshTokenHash: previousHash, isActive: true, deletedAt: null }`
abbrev pub rotatable : ℕ → ℕ → Account → Bool
rotatable id previous_hash a =
    a.id == id
    && opt_eq a.refresh_token_hash (some previous_hash)
    && a.is_active
    && not (is_some a.deleted_at)

unfoldable pub rotate_refresh_token : ℕ → ℕ → ℕ → ℕ → List Account → Bool × List Account
rotate_refresh_token id previous_hash next_hash expires_at accounts = (
  count_where (rotatable id previous_hash) accounts == 1,
  update_where (rotatable id previous_hash) (with_refresh_token (some next_hash) (some expires_at))
      accounts,
)

abbrev tokens_of : Signed → AuthTokens
tokens_of signed = record {
  access_token = signed.access_token;
  refresh_token = signed.refresh_token;
}

abbrev pub stored : Crypto → ℕ → Signed → Option ℕ → ℕ → Sessions → Outcome AuthTokens
stored crypto id signed none exp s = record {
  answer = ok (tokens_of signed);
  left = record s {
    accounts = update_refresh_token id (crypto.sha256 signed.refresh_token) (exp * 1000) s.accounts;
  };
}
stored crypto id signed (some previous) exp s =
    let (updated, accounts) =
      rotate_refresh_token id previous (crypto.sha256 signed.refresh_token) (exp * 1000)
        s.accounts in
    record {
      answer = if updated then ok (tokens_of signed) else err (unauthorized refresh_used);
      left = record s { accounts = accounts };
    }

abbrev pub with_expiry : Crypto → ℕ → Signed → Option ℕ → Option ℕ → Sessions → Outcome AuthTokens
with_expiry crypto id signed previous none s = record {
  answer = err (unauthorized refresh_invalid);
  left = s;
}
with_expiry crypto id signed previous (some exp) s = stored crypto id signed previous exp s

-- `createSession`: the stamp is read, which prunes the store of tokens, and signed into both tokens.
unfoldable pub create_session : Crypto → ℕ → Signed → ℕ → Option ℕ → Sessions → Outcome AuthTokens
unfolding update_refresh_token rotate_refresh_token prune
create_session crypto now signed id previous s =
    with_expiry crypto id signed previous signed.exp (record s { tokens = prune now s.tokens })

abbrev hash_to_compare : Crypto → Option Account → ℕ
hash_to_compare crypto none = crypto.dummy_password_hash
hash_to_compare crypto (some a) = a.password_hash

abbrev found_account : Option Account → Result Account
found_account none = err (unauthorized account_missing)
found_account (some a) = ok a

unfoldable pub login_check : Crypto → String → String → Sessions → Result Account
login_check crypto username password s = do
  let row = find_by (λ a. str_eq a.username username) s.accounts
  let valid = crypto.compare_password password (hash_to_compare crypto row)
  user ← found_account row
  require valid (unauthorized wrong_password)
  require user.is_active (unauthorized account_disabled)
  ok user

-- What a refresh has decided from its reads.
pub data Refresh : Type 0 where
  refuses : Error → Refresh
  expires : ℕ → Refresh  -- the hash of the user is cleared, and the request refused
  rotates : ℕ → ℕ → Refresh  -- the user, and the hash that was read

abbrev hash_valid : Crypto → ℕ → ℕ → Bool
hash_valid crypto token hash =
    crypto.sha256 token == hash || crypto.is_bcrypt hash && crypto.compare_token token hash

abbrev decide_stored : Crypto → ℕ → ℕ → ℕ → Option ℕ → Option ℕ → Refresh
decide_stored crypto now token id (some hash) (some expires_at) =
    if leb expires_at now
    then expires id
    else if hash_valid crypto token hash
    then rotates id hash
    else refuses (unauthorized refresh_invalid)
decide_stored crypto now token id _ _ = refuses (unauthorized refresh_revoked)

abbrev decide_account : Crypto → ℕ → ℕ → Option Account → Refresh
decide_account crypto now token none = refuses (not_found user_not_found)
decide_account crypto now token (some a) =
    if a.is_active
    then decide_stored crypto now token a.id a.refresh_token_hash a.refresh_token_expires_at
    else refuses (unauthorized refresh_invalid)

abbrev decide_payload : Crypto → ℕ → ℕ → Option JwtPayload → Sessions → Refresh
decide_payload crypto now token none s = refuses (unauthorized refresh_invalid)
decide_payload crypto now token (some payload) s =
    if (is_token_revoked now payload s.tokens).0
    then refuses (unauthorized refresh_revoked)
    else decide_account crypto now token (find_by (account_id payload.sub) s.accounts)

unfoldable pub refresh_check : Crypto → ℕ → ℕ → Sessions → Refresh
unfolding is_token_revoked
refresh_check crypto now token s =
    decide_payload crypto now token (crypto.verify_refresh_token token) s

unfoldable pub refresh_write : Crypto → ℕ → Signed → Refresh → Sessions → Outcome AuthTokens
unfolding create_session clear_refresh_token
refresh_write crypto now signed (refuses reason) s = record { answer = err reason; left = s }
refresh_write crypto now signed (expires id) s = record {
  answer = err (unauthorized refresh_expired);
  left = record s { accounts = clear_refresh_token id s.accounts };
}
refresh_write crypto now signed (rotates id hash) s =
    create_session crypto now signed id (some hash) s

-- `updatePasswordHash`
unfoldable pub update_password_hash : ℕ → ℕ → List Account → List Account
update_password_hash id hash = update_where (account_id id) (λ a. record a { password_hash = hash })

unfoldable pub change_password_check : Crypto → ℕ → String → String → Sessions → Result Account
change_password_check crypto id current_password new_password s = do
  user ← or_not_found user_not_found (find_by (account_id id) s.accounts)
  require (crypto.compare_password current_password user.password_hash)
      (unauthorized current_password_wrong)
  require (not (crypto.compare_password new_password user.password_hash))
      (bad_request same_password)
  ok user

-- The session that asks is ended as well: its access token `jti` is revoked until it expires.
unfoldable pub change_password_write :
    Crypto → ℕ → ℕ → ℕ → String → Option ℕ → Option ℕ → Sessions → Sessions
unfolding update_password_hash clear_refresh_token
change_password_write crypto lifetime now id new_password jti expires_at s = record s {
  accounts =
      clear_refresh_token id
        (update_password_hash id (crypto.hash_password new_password) s.accounts);
  tokens =
      revoke_token lifetime now jti expires_at
        (revoke_user_tokens_issued_before lifetime now id none s.tokens);
}

-- `logout`, where the refresh token that may come along is one of the user's.
unfoldable pub logout_write : ℕ → ℕ → ℕ → Option ℕ → Option ℕ → Sessions → Sessions
unfolding clear_refresh_token
logout_write lifetime now id jti expires_at s = record s {
  accounts = clear_refresh_token id s.accounts;
  tokens = revoke_token lifetime now jti expires_at s.tokens;
}

-- `hashPasswordResetToken(dto.token)` has been taken.
abbrev usable_reset : ℕ → PasswordResetToken → Bool
usable_reset now r = not (is_some r.used_at) && not (leb r.expires_at now)

abbrev or_reset_invalid {ℓ} : {A : Type ℓ} → Option A → Result A
or_reset_invalid none = err (bad_request reset_invalid)
or_reset_invalid (some a) = ok a

unfoldable pub reset_password_check : Crypto → ℕ → ℕ → String → Sessions → Result PasswordResetToken
reset_password_check crypto now token_hash new_password s = do
  reset ← or_reset_invalid (find_by (λ r. r.token_hash == token_hash) s.reset_tokens)
  require (usable_reset now reset) (bad_request reset_invalid)
  user ← or_reset_invalid (find_by (account_id reset.user_id) s.accounts)
  require (not (is_some user.deleted_at)) (bad_request reset_invalid)
  require (not (crypto.compare_password new_password user.password_hash))
      (bad_request same_password)
  ok reset

abbrev used : ℕ → PasswordResetToken → PasswordResetToken
used now r = record r { used_at = some now }

-- `usedAt: null` of the user's other tokens, and the token itself.
abbrev spent_with : PasswordResetToken → PasswordResetToken → Bool
spent_with reset r = r.id == reset.id || r.user_id == reset.user_id && not (is_some r.used_at)

unfoldable pub reset_password_write :
    Crypto → ℕ → ℕ → PasswordResetToken → String → Sessions → Sessions
unfolding update_password_hash clear_refresh_token
reset_password_write crypto lifetime now reset new_password s = record {
  accounts =
      clear_refresh_token reset.user_id
        (update_password_hash reset.user_id (crypto.hash_password new_password) s.accounts);
  reset_tokens = update_where (spent_with reset) (used now) s.reset_tokens;
  tokens = revoke_user_tokens_issued_before lifetime now reset.user_id none s.tokens;
}
