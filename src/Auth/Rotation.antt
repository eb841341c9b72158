-- ===== src/Auth/Rotation.antt =====
-- A refresh token is good for one refresh.
use apag_be.Prelude.{
  ℕ, ◌≡◌, refl, ap, ◌≢◌, inl, inr, String, Bool, true, false, ◌==◌, ==_iff, Option, none, some,
  List, [], ◌∷◌, arith, Bool-cases, All, All-update_where, count_where, update_where, if◌then◌else◌,
}
use apag_be.Http.{ok, err, unauthorized, refresh_used}
use apag_be.Auth.TokenStore.{prune}
use apag_be.Auth.Sessions.{
  Account, Sessions, Crypto, Signed, AuthTokens, account_id, with_refresh_token,
  update_refresh_token, clear_refresh_token, rotatable, rotate_refresh_token, with_expiry,
  create_session, Refresh, refuses, expires, rotates, refresh_write, update_password_hash,
  change_password_write, logout_write, reset_password_write, PasswordResetToken,
}

-- No account of the user would be found with this hash.
abbrev pub Spent : ℕ → ℕ → Sessions → Type 0
Spent id hash s = All (λ a. rotatable id hash a ≡ false) s.accounts

module _ (id hash : ℕ) where
  -- A row whose hash is another, or none, is not found by this one.
  other_hash :
      (a : Account) (now : Option ℕ) (expires_at : Option ℕ)
      → now ≢ some hash
      → rotatable id hash (with_refresh_token now expires_at a) ≡ false
  other_hash a none expires_at differ = elim (Bool-cases (a.id == id)) [
    | inl e ↦ rw e refl
    | inr e ↦ rw e refl
  ]
  other_hash a (some h) expires_at differ =
      let apart : (h == hash) ≡ false = elim (Bool-cases (h == hash)) [
        | inl e ↦ absurd (differ (ap some (==_iff h hash e)))
        | inr e ↦ e
      ] in
      elim (Bool-cases (a.id == id)) [ inl e ↦ rw e (rw apart refl) | inr e ↦ rw e refl ]

  -- A write of other hashes.
  rehashed :
      (p : Account → Bool) (now expires_at : Option ℕ) (accounts : List Account)
      → now ≢ some hash
      → All (λ a. rotatable id hash a ≡ false) accounts
      → All
          (λ a. rotatable id hash a ≡ false)
          (update_where p (with_refresh_token now expires_at) accounts)
  rehashed p now expires_at accounts differ spent =
      All-update_where p (with_refresh_token now expires_at) (λ a. rotatable id hash a ≡ false)
        (λ a. rotatable id hash a ≡ false) accounts
        (λ a k. elim (Bool-cases (p a)) [
          | inl e ↦ rw e (other_hash a now expires_at differ)
          | inr e ↦ rw e k
        ])
        spent

  -- The write that takes the hash away from every account that it is found with.
  rotated :
      (next : ℕ) (expires_at : Option ℕ) (accounts : List Account)
      → next ≢ hash
      → All
          (λ a. rotatable id hash a ≡ false)
          (update_where (rotatable id hash) (with_refresh_token (some next) expires_at) accounts)
  rotated next expires_at [] differ = tt
  rotated next expires_at (a ∷ accounts) differ =
      (go (rotatable id hash a) refl, rotated next expires_at accounts differ)
    where
      go :
          (t : Bool)
          → rotatable id hash a ≡ t
          → rotatable id hash (if t then with_refresh_token (some next) expires_at a else a) ≡ false
      go true e = other_hash a (some next) expires_at (λ k. differ (cc k))
      go false e = e

  none-counted :
      (accounts : List Account)
      → All (λ a. rotatable id hash a ≡ false) accounts
      → count_where (rotatable id hash) accounts ≡ 0
  none-counted [] spent = refl
  none-counted (a ∷ accounts) spent = rw (spent.0) (omega (arith, none-counted accounts spent.1))

  -- What a session that is created leaves, if the new hash is another.
  created-Spent :
      (crypto : Crypto) (now user : ℕ) (signed : Signed) (previous : Option ℕ) (s : Sessions)
      → crypto.sha256 signed.refresh_token ≢ hash
      → Spent id hash s
      → Spent id hash (create_session crypto now signed user previous s).left
  unfolding create_session update_refresh_token rotate_refresh_token
  created-Spent crypto now user signed previous s fresh spent = go signed.exp previous
    where
      differ : ◌≢◌ {A = Option ℕ} (some (crypto.sha256 signed.refresh_token)) (some hash)
      differ k = fresh (cc k)

      go :
          (exp previous : Option ℕ)
          → Spent id hash
              (with_expiry crypto user signed previous exp
                (record s { tokens = prune now s.tokens })).left
      go none previous = spent
      go (some t) none =
          rehashed (account_id user) (some (crypto.sha256 signed.refresh_token)) _ s.accounts differ
            spent
      go (some t) (some h) =
          rehashed (rotatable user h) (some (crypto.sha256 signed.refresh_token)) _ s.accounts
            differ spent

  cleared-Spent :
      (user : ℕ) (accounts : List Account)
      → All (λ a. rotatable id hash a ≡ false) accounts
      → All (λ a. rotatable id hash a ≡ false) (clear_refresh_token user accounts)
  unfolding clear_refresh_token
  cleared-Spent user accounts spent =
      rehashed (account_id user) none none accounts (λ k. cc k) spent

  password-Spent :
      (user password_hash : ℕ) (accounts : List Account)
      → All (λ a. rotatable id hash a ≡ false) accounts
      → All (λ a. rotatable id hash a ≡ false) (update_password_hash user password_hash accounts)
  unfolding update_password_hash
  password-Spent user password_hash accounts spent =
      All-update_where (account_id user) (λ a. record a { password_hash = password_hash })
        (λ a. rotatable id hash a ≡ false) (λ a. rotatable id hash a ≡ false) accounts
        (λ a k. elim (Bool-cases (account_id user a)) [ inl e ↦ rw e k | inr e ↦ rw e k ]) spent

-- A rotation that succeeds has used the hash up.
success-Spent :
    (crypto : Crypto) (id hash now : ℕ) (signed : Signed) (tokens : AuthTokens) (s : Sessions)
    → crypto.sha256 signed.refresh_token ≢ hash
    → (create_session crypto now signed id (some hash) s).answer ≡ ok tokens
    → Spent id hash (create_session crypto now signed id (some hash) s).left
unfolding create_session rotate_refresh_token
success-Spent crypto id hash now signed tokens s fresh = go signed.exp
  where
    go :
        (exp : Option ℕ)
        → let o =
            with_expiry crypto id signed
              (some hash)
              exp
              (record s { tokens = prune now s.tokens }) in
          o.answer ≡ ok tokens → Spent id hash o.left
    go none done = cc done
    go (some t) done = rotated id hash (crypto.sha256 signed.refresh_token) _ s.accounts fresh

-- A rotation of a hash that is used up fails.
Spent-fails :
    (crypto : Crypto) (id hash now : ℕ) (signed : Signed) (tokens : AuthTokens) (s : Sessions)
    → Spent id hash s
    → (create_session crypto now signed id (some hash) s).answer ≢ ok tokens
unfolding create_session rotate_refresh_token
Spent-fails crypto id hash now signed tokens s spent = go signed.exp
  where
    none_left : count_where (rotatable id hash) s.accounts ≡ 0
    none_left = none-counted id hash s.accounts spent

    go :
        (exp : Option ℕ)
        → (with_expiry crypto id signed
            (some hash)
            exp
            (record s { tokens = prune now s.tokens })).answer
          ≢ ok tokens
    go none h = cc h
    go (some t) h =
        let refused : err (unauthorized refresh_used) ≡ ok tokens = rw none_left at h in cc refused

-- Any commands of any users, each new refresh token having another hash than the given one.
pub data SessionRun (crypto : Crypto) (hash : ℕ) : Sessions → Sessions → Type 0 where
  idle : {s : Sessions} → SessionRun crypto hash s s
  creates :
      {s : Sessions} (t : Sessions) (now user : ℕ) (signed : Signed) (previous : Option ℕ)
      → SessionRun crypto hash s t
      → crypto.sha256 signed.refresh_token ≢ hash
      → SessionRun crypto hash s (create_session crypto now signed user previous t).left
  refreshes :
      {s : Sessions} (t : Sessions) (now : ℕ) (signed : Signed) (decided : Refresh)
      → SessionRun crypto hash s t
      → crypto.sha256 signed.refresh_token ≢ hash
      → SessionRun crypto hash s (refresh_write crypto now signed decided t).left
  changes_password :
      {s : Sessions} (t : Sessions) (lifetime now user : ℕ) (password : String)
      (jti expires_at : Option ℕ)
      → SessionRun crypto hash s t
      → SessionRun crypto hash s
          (change_password_write crypto lifetime now user password jti expires_at t)
  resets_password :
      {s : Sessions} (t : Sessions) (lifetime now : ℕ) (reset : PasswordResetToken)
      (password : String)
      → SessionRun crypto hash s t
      → SessionRun crypto hash s (reset_password_write crypto lifetime now reset password t)
  logs_out :
      {s : Sessions} (t : Sessions) (lifetime now user : ℕ) (jti expires_at : Option ℕ)
      → SessionRun crypto hash s t
      → SessionRun crypto hash s (logout_write lifetime now user jti expires_at t)

refreshed-Spent :
    (crypto : Crypto) (id hash now : ℕ) (signed : Signed) (decided : Refresh) (s : Sessions)
    → crypto.sha256 signed.refresh_token ≢ hash
    → Spent id hash s
    → Spent id hash (refresh_write crypto now signed decided s).left
unfolding refresh_write
refreshed-Spent crypto id hash now signed (refuses reason) s fresh spent = spent
refreshed-Spent crypto id hash now signed (expires user) s fresh spent =
    cleared-Spent id hash user s.accounts spent
refreshed-Spent crypto id hash now signed (rotates user h) s fresh spent =
    created-Spent id hash crypto now user signed (some h) s fresh spent

SessionRun-Spent :
    (crypto : Crypto) (id hash : ℕ) (s t : Sessions)
    → SessionRun crypto hash s t
    → Spent id hash s
    → Spent id hash t
unfolding change_password_write reset_password_write logout_write
SessionRun-Spent crypto id hash s _ idle spent = spent
SessionRun-Spent crypto id hash s _ (creates t now user signed previous before fresh) spent =
    created-Spent id hash crypto now user signed previous t fresh
      (SessionRun-Spent crypto id hash s t before spent)
SessionRun-Spent crypto id hash s _ (refreshes t now signed decided before fresh) spent =
    refreshed-Spent crypto id hash now signed decided t fresh
      (SessionRun-Spent crypto id hash s t before spent)
SessionRun-Spent crypto id hash s _
      (changes_password t lifetime now user password jti expires_at before) spent =
    cleared-Spent id hash user
      (update_password_hash user (crypto.hash_password password) t.accounts)
      (password-Spent id hash user (crypto.hash_password password) t.accounts
        (SessionRun-Spent crypto id hash s t before spent))
SessionRun-Spent crypto id hash s _ (resets_password t lifetime now reset password before) spent =
    cleared-Spent id hash reset.user_id
      (update_password_hash reset.user_id (crypto.hash_password password) t.accounts)
      (password-Spent id hash reset.user_id (crypto.hash_password password) t.accounts
        (SessionRun-Spent crypto id hash s t before spent))
SessionRun-Spent crypto id hash s _ (logs_out t lifetime now user jti expires_at before) spent =
    cleared-Spent id hash user t.accounts (SessionRun-Spent crypto id hash s t before spent)

-- A refresh that has found a user's refresh token and succeeds makes every other refresh fail that has
-- found the same one: whether it found it before or after, whatever the sessions of any users have
-- done in between, and whatever it has signed, it returns no tokens. The refresh tokens that are
-- signed from the first success on have other hashes.
pub refresh-once :
    (crypto : Crypto) (id hash now later : ℕ) (signed again : Signed) (tokens tokens' : AuthTokens)
    (s t : Sessions)
    → crypto.sha256 signed.refresh_token ≢ hash
    → (refresh_write crypto now signed (rotates id hash) s).answer ≡ ok tokens
    → SessionRun crypto hash (refresh_write crypto now signed (rotates id hash) s).left t
    → (refresh_write crypto later again (rotates id hash) t).answer ≢ ok tokens'
unfolding refresh_write
refresh-once crypto id hash now later signed again tokens tokens' s t fresh done run =
    Spent-fails crypto id hash later again tokens' t (
      SessionRun-Spent crypto id hash _ t run
        (success-Spent crypto id hash now signed tokens s fresh done))
