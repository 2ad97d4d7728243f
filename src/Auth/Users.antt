-- ===== src/Auth/Users.antt =====
-- service.go and password.go: the administration of users.
use opendeploy.Common.{
  ℕ, ◌%◌, Bool, true, false, not, ◌&&◌, ◌||◌, Option, none, some, List, String, str_eq, Result, ok,
  err, if◌then◌else◌, ltb, length, get_elem?, map,
}
use opendeploy.Common.Text.{Text, codes, trim_space}
use opendeploy.Apperrors.Defs.{GoError, plain, wrapped, internal, invalid}
use opendeploy.Auth.Roles.{Role, admin, is_valid}
use opendeploy.Auth.Store.{
  User, Db, pure, ◌>>=◌, ◌>>◌, ignore, map_error, guard, find_by_id, create_user_row,
  update_user_row, delete_user_row, delete_by_user_id,
}
use opendeploy.Auth.Service.{Crypto, Inputs, hash_or, minimum_password_length}

pub record UserInput : Type 0 where
  pub input_username : Text
  pub input_email : Text
  pub input_password : Text
  pub input_role : Role

abbrev pub is_admin : Role → Bool
is_admin admin = true
is_admin role = false

abbrev short_password : GoError
short_password = invalid "password must contain at least 12 characters"

module _ (crypto : Crypto) where
  open crypto use {is_address, to_lower}

  -- validateUserInput
  unfoldable pub validate_user_input : Text → Text → Role → Db (Unit {0})
  validate_user_input username email role = do
    guard (not (ltb (length username) 3 || ltb 64 (length username)))
        (invalid "username must contain 3 to 64 characters")
    guard (is_address email) (invalid "email is invalid")
    guard (is_valid role) (invalid "role must be admin, operator, or viewer")

  abbrev pub clean_email : Text → Text
  clean_email email = trim_space (to_lower email)

  -- CreateUser
  unfoldable pub create_user : Inputs → UserInput → Db User
  create_user i input = do
    let username = trim_space input.input_username
    let email = clean_email input.input_email
    validate_user_input username email input.input_role
    guard (not (ltb (length input.input_password) minimum_password_length)) short_password
    hash ← hash_or crypto (internal "hash password" (plain "bcrypt")) i.salt input.input_password
    let user : User = record {
      id = i.fresh_id;
      username = username;
      email = email;
      password = hash;
      role = input.input_role;
      is_active = true;
      created_at = i.now;
      updated_at = i.now;
      last_login = none;
    }
    create_user_row user
    pure user

  -- UpdateUser
  unfoldable pub update_user : Inputs → String → String → UserInput → Db User
  update_user i actor id input = do
    user ← find_by_id id
    let username = trim_space input.input_username
    let email = clean_email input.input_email
    validate_user_input username email input.input_role
    guard (not (str_eq actor id && not (is_admin input.input_role)))
        (invalid "an administrator cannot remove their own admin role")
    let changed : User = record user {
      username = username;
      email = email;
      role = input.input_role;
      updated_at = i.now;
    }
    update_user_row changed
    pure changed

  -- SetPassword
  unfoldable pub set_password : Inputs → String → Text → Db (Unit {0})
  set_password i id password = do
    guard (not (ltb (length password) minimum_password_length)) short_password
    user ← find_by_id id
    hash ← hash_or crypto (internal "hash password" (plain "bcrypt")) i.salt password
    update_user_row (record user { password = hash; updated_at = i.now })
    ignore (delete_by_user_id id)

-- SetUserActive
unfoldable pub set_user_active : Inputs → String → String → Bool → Db User
set_user_active i actor id active = do
  guard (not (str_eq actor id && not active))
      (invalid "an administrator cannot block their own account")
  user ← find_by_id id
  let changed : User = record user { is_active = active; updated_at = i.now }
  update_user_row changed
  if active then pure tt else ignore (delete_by_user_id id)
  pure changed

-- DeleteUser
unfoldable pub delete_user : String → String → Db (Unit {0})
delete_user actor id = do
  guard (not (str_eq actor id)) (invalid "an administrator cannot delete their own account")
  found ← find_by_id id
  map_error (internal "delete user") (delete_user_row id)

-- the alphabet of generated passwords
abbrev pub password_alphabet : Text
password_alphabet = codes "ABCDEFGHIJKLMNOPQRSTUVWXYZabcdefghijklmnopqrstuvwxyz0123456789-_"

-- the character that a random byte selects, `passwordAlphabet[value&63]`
unfoldable pub password_char : ℕ → ℕ
password_char value = elim (get_elem? password_alphabet (value % 64)) [ some c ↦ c | none ↦ 0 ]

-- GeneratePassword from the random bytes it read; `none` is the reader's error
unfoldable pub generate_password : ℕ → (ℕ → Option (List ℕ)) → Result GoError Text
generate_password length read =
    if ltb length minimum_password_length
    then err (plain "password length must be at least 12 characters")
    else elim (read length) [
      | none ↦ err (wrapped "generate password entropy" (plain "rand"))
      | some random ↦ ok (map password_char random)
    ]
