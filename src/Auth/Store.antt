-- ===== src/Auth/Store.antt =====
-- domain.go and sqlite_repository.go: users, sessions and their tables. A query may fail: `faults`
-- tells, call by call, whether the database reports an error before it does anything. The tables'
-- constraints (unique columns, the check on roles, sessions deleted with their user) are those of
-- internal/platform/database/migrations/001_init.up.sql.
use opendeploy.Common.{
  ℕ, Bool, true, false, not, ◌&&◌, ◌||◌, Option, none, some, List, [], ◌∷◌, ◌++◌, String, str_eq,
  any, keep, Result, ok, err, if◌then◌else◌, ltb, length,
}
use opendeploy.Common.Text.{Text, text_eq}
use opendeploy.Apperrors.Defs.{
  GoError, plain, wrapped, app, missing, exists_already, session_not_found,
}
use opendeploy.Auth.Roles.{Role, is_valid}

pub record User : Type 0 where
  pub id : String
  pub username : Text
  pub email : Text
  -- the bcrypt hash
  pub password : String
  pub role : Role
  pub is_active : Bool
  pub created_at : ℕ
  pub updated_at : ℕ
  pub last_login : Option ℕ

pub record Session : Type 0 where
  pub session_id : String
  pub user_id : String
  pub token_hash : String
  pub ip_address : String
  pub user_agent : String
  pub expires_at : ℕ
  pub started_at : ℕ

pub record World : Type 0 where
  pub users : List User
  pub sessions : List Session
  pub faults : List Bool

-- An action may fail, and keeps what it has written when it does.
abbrev pub Db : Type 0 → Type 0
Db A = World → Result GoError A × World

unfoldable pub pure : {A : Type 0} → A → Db A
pure a w = (ok a, w)

unfoldable pub raise : {A : Type 0} → GoError → Db A
raise e w = (err e, w)

abbrev pub continue : {A B : Type 0} → Result GoError A → (A → Db B) → Db B
continue (ok a) f w = f a w
continue (err e) f w = (err e, w)

infixl 5 ◌>>=◌ ◌>>◌
unfoldable pub ◌>>=◌ : {A B : Type 0} → Db A → (A → Db B) → Db B
◌>>=◌ m f w = let (r, v) = m w in continue r f v

unfoldable pub ◌>>◌ : {A B : Type 0} → Db A → Db B → Db B
unfolding ◌>>=◌
m >> k = m >>= λ _. k

-- `_ = m`: the error is dropped
unfoldable pub ignore : {A : Type 0} → Db A → Db (Unit {0})
ignore m w = (ok tt, (m w).1)

-- the error is replaced, as by `if err != nil { return f(err) }`
unfoldable pub map_error : {A : Type 0} → (GoError → GoError) → Db A → Db A
map_error f m w = elim (m w).0 [ ok a ↦ (ok a, (m w).1) | err e ↦ (err (f e), (m w).1) ]

unfoldable pub guard : Bool → GoError → Db (Unit {0})
unfolding pure raise
guard true e = pure tt
guard false e = raise e

abbrev pub fails : List Bool → Bool
fails [] = false
fails (b ∷ bs) = b

abbrev pub later : List Bool → List Bool
later [] = []
later (b ∷ bs) = bs

-- one call of the database; `wrap` is what the repository makes of a driver error
unfoldable pub query : {A : Type 0} → (GoError → GoError) → Db A → Db A
query wrap f w =
    let v = record w { faults = later w.faults } in
    if fails w.faults then (err (wrap (plain "database")), v) else f v

module _ {A : Type 0} (test : A → Bool) where
  abbrev pub first : List A → Option A
  first [] = none
  first (x ∷ xs) = if test x then some x else first xs

abbrev pub has_id : String → User → Bool
has_id id u = str_eq u.id id

abbrev pub find_user : String → List User → Option User
find_user id users = first (has_id id) users

unfoldable pub found : {A : Type 0} → GoError → Option A → Db A
unfolding pure raise
found e none = raise e
found e (some a) = pure a

-- FindByID, FindByUsername
unfoldable pub find_by_id : String → Db User
find_by_id id =
    query (wrapped "user repository: scan")
      (λ w. found (missing "user not found") (find_user id w.users) w)

unfoldable pub find_by_username : Text → Db User
find_by_username name =
    query (wrapped "user repository: scan")
      (λ w. found (missing "user not found") (first (λ u. text_eq u.username name) w.users) w)

-- another row holds the same value in a unique column
abbrev pub clashes : User → User → Bool
clashes u v = text_eq u.username v.username || text_eq u.email v.email

-- Create
unfoldable pub create_row : User → World → Result GoError (Unit {0}) × World
create_row u w =
    if not (is_valid u.role)
    then (err (wrapped "user repository: create" (plain "CHECK constraint failed")), w)
    else if any (λ v. str_eq v.id u.id || clashes u v) w.users
    then (err (exists_already "user already exists"), w)
    else (ok tt, record w { users = w.users ++ u ∷ [] })

unfoldable pub create_user_row : User → Db (Unit {0})
create_user_row u = query (wrapped "user repository: create") (create_row u)

abbrev pub put_user : User → List User → List User
put_user u [] = []
put_user u (v ∷ vs) = (if has_id u.id v then u else v) ∷ put_user u vs

-- Update: a clash of unique columns is a driver error here, not "already exists".
unfoldable pub update_row : User → World → Result GoError (Unit {0}) × World
update_row u w = elim (find_user u.id w.users) [
  | none ↦ (err (missing "user not found"), w)
  | some old ↦
      if not (is_valid u.role)
      then (err (wrapped "user repository: update" (plain "CHECK constraint failed")), w)
      else if any (λ v. not (has_id u.id v) && clashes u v) w.users
      then (err (wrapped "user repository: update" (plain "UNIQUE constraint failed")), w)
      else (ok tt, record w { users = put_user u w.users })
]

unfoldable pub update_user_row : User → Db (Unit {0})
update_user_row u = query (wrapped "user repository: update") (update_row u)

-- Delete, with the sessions that refer to the user
unfoldable pub delete_user_row : String → Db (Unit {0})
delete_user_row id =
    query (λ e. e)
      λ w. (
        ok tt,
        record w {
          users = keep (λ u. not (has_id id u)) w.users;
          sessions = keep (λ s. not (str_eq s.user_id id)) w.sessions;
        },
      )

-- Count
unfoldable pub count_users : Db ℕ
count_users = query (λ e. e) (λ w. (ok (length w.users), w))

-- SessionRepository.Create
unfoldable pub create_session_row : Session → World → Result GoError (Unit {0}) × World
create_session_row s w =
    if any (λ u. str_eq u.id s.user_id) w.users
      && not (
          any (λ t. str_eq t.session_id s.session_id || str_eq t.token_hash s.token_hash)
            w.sessions)
    then (ok tt, record w { sessions = s ∷ w.sessions })
    else (err (wrapped "session repository: create" (plain "constraint failed")), w)

unfoldable pub create_session : Session → Db (Unit {0})
create_session s = query (wrapped "session repository: create") (create_session_row s)

-- FindByTokenHash
unfoldable pub find_by_token_hash : String → Db Session
find_by_token_hash hash = query (wrapped "session repository: find by hash") (λ w.
    found (app 401 session_not_found "session not found")
      (first (λ s. str_eq s.token_hash hash) w.sessions) w)

unfoldable pub delete_sessions : (Session → Bool) → Db (Unit {0})
delete_sessions doomed =
    query (λ e. e) (λ w. (ok tt, record w { sessions = keep (λ s. not (doomed s)) w.sessions }))

-- DeleteByID, DeleteByUserID, DeleteExpired
unfoldable pub delete_by_id : String → Db (Unit {0})
delete_by_id id = delete_sessions (λ s. str_eq s.session_id id)

unfoldable pub delete_by_user_id : String → Db (Unit {0})
delete_by_user_id id = delete_sessions (λ s. str_eq s.user_id id)

unfoldable pub delete_expired : ℕ → Db (Unit {0})
delete_expired now = delete_sessions (λ s. ltb s.expires_at now)
