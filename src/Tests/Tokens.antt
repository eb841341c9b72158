-- ===== src/Tests/Tokens.antt =====
-- Tokens and their revocation, on a concrete store.
use apag_be.Prelude.{ℕ, ◌≢◌, ◌≡◌, refl, true, false, none, some, [], ◌∷◌, arith}
use apag_be.Auth.TokenStore.{
  JwtPayload, TokenStore, prune, revoke_token, revoke_user_tokens_issued_before,
  get_revocation_stamp, is_token_revoked,
}
use apag_be.Http.{ok, err, bad_request, reset_invalid}
use apag_be.Auth.Sessions.{
  Account, PasswordResetToken, Sessions, Crypto, Signed, AuthTokens, rotate_refresh_token,
  create_session, rotates, refresh_check, refresh_write, reset_password_check, reset_password_write,
}
use apag_be.Auth.Rotation.{idle, creates, refresh-once}
use apag_be.Auth.Lasting.{begins, asks, revokes_token, stamped, revocation-lasts}
use apag_be.Database.Rows.{find_by}

-- User 1 has had their tokens revoked before.
abbrev store : TokenStore
store = record {
  revoked_tokens = [];
  user_revocations = record { user_id = 1; stamp = 4000; expires_at = 900_000 } ∷ [];
}

-- A token from after that.
abbrev payload : JwtPayload
payload = record { sub = 1; jti = some 77; iat = some 4; revocation_stamp = some 4000 }

still_good : (is_token_revoked 5000 payload store).0 ≡ false
unfolding is_token_revoked prune find_by
still_good = refl

payload_stamp : (get_revocation_stamp 5000 1 store).0 ≡ some 4000
unfolding get_revocation_stamp prune find_by
payload_stamp = refl

-- The tokens of user 1 are revoked, then one of another user, then the token is presented.
revocation-lasts_example :
    (is_token_revoked 7000 payload (
      prune 7000 (
        revoke_token 900 6000
          (some 5)
          none
          (revoke_user_tokens_issued_before 900 5000 1 none store)))).0
    ≡ true
revocation-lasts_example =
    revocation-lasts 900 5000 7000 store
      (prune 7000 (
        revoke_token 900 6000 (some 5) none
          (revoke_user_tokens_issued_before 900 5000 1 none store)))
      payload (stamped 4000 4000 refl (omega arith) payload_stamp)
      (asks 6000 7000 _ (revokes_token 5000 6000 _ (some 5) none begins (omega arith))
        (omega arith))
      (omega arith)

-- SHA-256 and bcrypt stand for themselves: a token is its hash, and any password has the hash 7.
abbrev crypto : Crypto
crypto = record {
  compare_password = λ password hash. false;
  hash_password = λ password. 7;
  compare_token = λ token hash. false;
  is_bcrypt = λ hash. false;
  dummy_password_hash = 0;
  sha256 = λ token. token;
  verify_refresh_token = λ token. some payload;
}

-- User 1 holds the refresh token 50.
abbrev user : Account
user = record {
  id = 1;
  username = "sv01";
  password_hash = 6;
  is_active = true;
  deleted_at = none;
  refresh_token_hash = some 50;
  refresh_token_expires_at = some 800_000;
}

abbrev sessions : Sessions
sessions = record { accounts = user ∷ []; reset_tokens = reset ∷ []; tokens = store }
  where
    reset : PasswordResetToken
    reset = record { id = 1; user_id = 1; token_hash = 90; expires_at = 9000; used_at = none }

abbrev signing : ℕ → Signed
signing refresh_token = record { access_token = 1; refresh_token = refresh_token; exp = some 900 }

abbrev returned : ℕ → AuthTokens
returned refresh_token = record { access_token = 1; refresh_token = refresh_token }

refresh_decided : refresh_check crypto 5000 50 sessions ≡ rotates 1 50
unfolding refresh_check is_token_revoked prune find_by
refresh_decided = refl

first_refresh :
    (refresh_write crypto 5000 (signing 60) (rotates 1 50) sessions).answer ≡ ok (returned 60)
unfolding refresh_write create_session rotate_refresh_token
first_refresh = refl

-- In between the user logs in anew.
refresh-once_example :
    (refresh_write crypto 7000
      (signing 80)
      (rotates 1 50)
      (create_session crypto 6000
        (signing 70)
        1
        none
        (refresh_write crypto 5000 (signing 60) (rotates 1 50) sessions).left).left).answer
    ≢ ok (returned 80)
refresh-once_example =
    refresh-once crypto 1 50 5000 7000 (signing 60) (signing 80) (returned 60) (returned 80)
      sessions
      (create_session crypto 6000 (signing 70) 1 none
        (refresh_write crypto 5000 (signing 60) (rotates 1 50) sessions).left).left
      (λ e. omega arith) first_refresh
      (creates (refresh_write crypto 5000 (signing 60) (rotates 1 50) sessions).left 6000 1
        (signing 70) none idle (λ e. omega arith))

-- Two requests with one password reset token that are checked before either writes both go on to write.
reset_twice_by_race :
    (reset : PasswordResetToken) × (reset_password_check crypto 5000 90 "first" sessions ≡ ok reset)
    × (reset_password_check crypto 5000 90 "second" sessions ≡ ok reset)
    × (reset_password_check crypto 5000 90 "second"
          (reset_password_write crypto 900 5000 reset "first" sessions)
        ≡ err (bad_request reset_invalid))
unfolding reset_password_check reset_password_write find_by
reset_twice_by_race = (_, refl, refl, refl)
