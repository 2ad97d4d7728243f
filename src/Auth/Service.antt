-- ===== src/Auth/Service.antt =====
-- service.go: login, token refresh, logout, and the first administrator. Cryptography, addresses and
-- random values come from packages outside the repository: `Crypto` has what the service calls.
use opendeploy.Common.{
  ℕ, ◌+◌, Bool, true, not, Option, none, some, ◌++◌, String, if◌then◌else◌, ltb, length,
}
use opendeploy.Common.Text.{Text, codes}
use opendeploy.Apperrors.Defs.{
  GoError, plain, wrapped, app, internal, refused, invalid_credentials, token_invalid,
  token_expired,
}
use opendeploy.Auth.Roles.{admin}
use opendeploy.Auth.Store.{
  User, Session, Db, pure, raise, ◌>>=◌, ◌>>◌, ignore, map_error, guard, find_by_id,
  find_by_username, create_user_row, update_user_row, count_users, create_session,
  find_by_token_hash, delete_by_id, delete_by_user_id, delete_expired,
}

pub record Crypto : Type 0 where
  -- bcrypt.GenerateFromPassword with a salt; `none` is its error
  pub hash_password : ℕ → Text → Option String
  -- bcrypt.CompareHashAndPassword
  pub matches : String → Text → Bool
  pub sha256_hex : String → String
  -- JWTManager.Generate at a time, for a user and a time to live
  pub sign : ℕ → User → ℕ → Option String
  -- mail.ParseAddress accepts
  pub is_address : Text → Bool
  -- strings.ToLower
  pub to_lower : Text → Text

-- what one call reads from the outside: the clock, new ids, and random bytes
pub record Inputs : Type 0 where
  pub now : ℕ
  pub fresh_id : String
  pub salt : ℕ
  -- generateSecureToken; `none` is its error
  pub token : Option String

pub record Config : Type 0 where
  pub access_ttl : ℕ
  pub refresh_ttl : ℕ

pub record TokenPair : Type 0 where
  pub access_token : String
  pub refresh_token : String
  pub pair_expires_at : ℕ

abbrev pub minimum_password_length : ℕ
minimum_password_length = 12

-- the value of a call that may fail, under an error of the service
unfoldable pub need : {A : Type 0} → GoError → Option A → Db A
unfolding pure raise
need e none = raise e
need e (some a) = pure a

module _ (crypto : Crypto) where
  open crypto use {hash_password, matches, sha256_hex, sign}

  unfoldable pub hash_or : GoError → ℕ → Text → Db String
  hash_or e salt password = need e (hash_password salt password)

  -- SeedAdminIfEmpty
  unfoldable pub seed_admin_if_empty : Inputs → Text → Text → Db (Unit {0})
  seed_admin_if_empty i username password = do
    count ← map_error (wrapped "auth: seed admin: count users") count_users
    if ltb 0 count then pure tt else do
      guard (not (ltb (length password) minimum_password_length))
          (plain "auth: seed admin: initial password must contain at least 12 characters")
      hash ← hash_or (wrapped "auth: seed admin: hash password" (plain "bcrypt")) i.salt password
      map_error (wrapped "auth: seed admin: create") (
          create_user_row (record {
            id = i.fresh_id;
            username = username;
            email = username ++ codes "@localhost";
            password = hash;
            role = admin;
            is_active = true;
            created_at = i.now;
            updated_at = i.now;
            last_login = none;
          }))

  abbrev pub bad_credentials : GoError
  bad_credentials = app 401 invalid_credentials "invalid username or password"

  abbrev pub new_session : Config → Inputs → String → String → String → String → Session
  new_session config i user raw ip agent = record {
    session_id = i.fresh_id;
    user_id = user;
    token_hash = sha256_hex raw;
    ip_address = ip;
    user_agent = agent;
    expires_at = i.now + config.refresh_ttl;
    started_at = i.now;
  }

  -- the token pair of Login and Refresh, with its new session on file; `label` names the caller in the
  -- error of the last step
  unfoldable pub issue : Config → Inputs → String → User → String → String → Db TokenPair
  issue config i label user ip agent = do
    access ←
        need (internal "generate access token" (plain "jwt")) (sign i.now user config.access_ttl)
    raw ← need (internal "generate refresh token" (plain "rand")) i.token
    map_error (internal label) (create_session (new_session config i user.id raw ip agent))
    pure (record {
      access_token = access;
      refresh_token = raw;
      pair_expires_at = i.now + config.access_ttl;
    })

  -- Login
  unfoldable pub login : Config → Inputs → Text → Text → String → String → Db TokenPair
  login config i username password ip agent = do
    user ← map_error (λ e. bad_credentials) (find_by_username username)
    guard (matches user.password password) bad_credentials
    guard user.is_active (refused "user account is blocked")
    pair ← issue config i "create session" user ip agent
    ignore (update_user_row (record user { last_login = some i.now; updated_at = i.now }))
    pure pair

  -- Session.IsExpired
  unfoldable pub is_expired : ℕ → Session → Bool
  is_expired now s = ltb s.expires_at now

  -- Refresh
  unfoldable pub refresh : Config → Inputs → String → String → String → Db TokenPair
  refresh config i raw ip agent = do
    session ←
        map_error (λ e. app 401 token_invalid "invalid or expired refresh token")
          (find_by_token_hash (sha256_hex raw))
    if is_expired i.now session
        then ignore (delete_by_id session.session_id)
          >> raise (app 401 token_expired "refresh token expired")
        else do
          user ← map_error (internal "find user for refresh") (find_by_id session.user_id)
          ignore (delete_by_id session.session_id)
          issue config i "create refreshed session" user ip agent

  -- Logout
  unfoldable pub logout : String → Db (Unit {0})
  logout user = map_error (internal "logout: delete sessions") (delete_by_user_id user)

  -- PurgeExpiredSessions
  unfoldable pub purge_expired_sessions : ℕ → Db (Unit {0})
  purge_expired_sessions now = delete_expired now
