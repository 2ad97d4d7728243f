-- ===== src/Auth/Examples.antt =====
-- The theorems about authentication at concrete users, and tests.
use opendeploy.Common.{◌≡◌, refl, true, false, none, some, [], ◌∷◌, ok}
use opendeploy.Common.Text.{codes}
use opendeploy.Auth.Roles.{admin}
use opendeploy.Auth.Store.{
  User, Session, World, pure, ◌>>=◌, ◌>>◌, ignore, map_error, query, found, find_by_id,
  find_by_token_hash, create_session, create_session_row, delete_by_id, delete_sessions,
}
use opendeploy.Auth.Service.{Crypto, Config, Inputs, need, issue, login, refresh, is_expired}
use opendeploy.Auth.Hoare.{Post}
use opendeploy.Auth.Rows.{InCharge}
use opendeploy.Auth.Lockout.{set_active, serve, serve-InCharge}
use opendeploy.Auth.Tokens.{Sessions, Opened, login_ensures}
use opendeploy.Auth.Rotation.{Rotated, NotAdded, refresh_rotates}

abbrev crypto : Crypto
crypto = record {
  hash_password = λ salt p. some "hash";
  matches = λ h p. true;
  sha256_hex = λ s. s;
  sign = λ now u ttl. some "jwt";
  is_address = λ a. true;
  to_lower = λ a. a;
}

abbrev inputs : Inputs
inputs = record { now = 100; fresh_id = "n1"; salt = 7; token = some "tok2" }

abbrev config : Config
config = record { access_ttl = 15; refresh_ttl = 1000 }

abbrev root : User
root = record {
  id = "u1";
  username = codes "root";
  email = codes "root@localhost";
  password = "hash";
  role = admin;
  is_active = true;
  created_at = 1;
  updated_at = 1;
  last_login = none;
}

abbrev blocked : User
blocked = record root { id = "u2"; username = codes "eve"; email = codes "e@x"; is_active = false }

abbrev live : Session
live = record {
  session_id = "s1";
  user_id = "u2";
  token_hash = "tok1";
  ip_address = "::1";
  user_agent = "curl";
  expires_at = 500;
  started_at = 1;
}

abbrev world : World
world = record { users = root ∷ blocked ∷ []; sessions = live ∷ []; faults = [] }

serve-InCharge_example :
    InCharge "u1" (
      serve crypto inputs "u1"
        (set_active "u1" false)
        (record world { faults = false ∷ true ∷ [] }))
serve-InCharge_example =
    serve-InCharge crypto inputs "u1" (set_active "u1" false)
      (record world { faults = false ∷ true ∷ [] }) (refl, refl)

login_ensures_example :
    Post
      (Opened crypto config inputs world (codes "root") (codes "secret") "::1" "curl")
      (Sessions world.sessions)
      (login crypto config inputs (codes "root") (codes "secret") "::1" "curl" world)
login_ensures_example =
    login_ensures crypto config inputs world (codes "root") (codes "secret") "::1" "curl"

refresh_rotates_example :
    Post
      (Rotated crypto config inputs world "tok1" "::1" "curl")
      (NotAdded world.users world.sessions)
      (refresh crypto config inputs "tok1" "::1" "curl" world)
refresh_rotates_example = refresh_rotates crypto config inputs world "tok1" "::1" "curl" refl

-- A refresh does not look whether the user is active: a blocked user whose session is still on file
-- gets a new token pair.
refresh_of_blocked :
    (refresh crypto config inputs "tok1" "::1" "curl" world).0
    ≡ ok (record { access_token = "jwt"; refresh_token = "tok2"; pair_expires_at = 115 })
unfolding refresh issue need map_error query found find_by_token_hash find_by_id is_expired
    create_session create_session_row delete_by_id delete_sessions ignore pure ◌>>=◌ ◌>>◌
refresh_of_blocked = refl
