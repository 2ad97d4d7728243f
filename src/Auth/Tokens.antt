-- ===== src/Auth/Tokens.antt =====
-- What login and token refresh do to the sessions on file.
use opendeploy.Common.{
  sym, ap, ◌≡◌, refl, Bool, true, false, Option, none, some, List, ◌∷◌, String, Result, ok, err,
  if◌then◌else◌,
}
use opendeploy.Common.Text.{Text, text_eq}
use opendeploy.Apperrors.Defs.{GoError, plain, wrapped, missing}
use opendeploy.Auth.Store.{
  User, Session, World, pure, raise, ◌>>=◌, ◌>>◌, ignore, first, found, find_user, find_by_username,
  put_user, update_row, update_user_row, create_session_row, create_session,
}
use opendeploy.Auth.Hoare.{
  Post, Ensures, Ensures-query, Ensures-pure, Ensures-weaken, Ensures-need, Ensures-guarded,
  Ensures-known, Ensures-bind, Ensures-then, Ensures-ignore, Ensures-map_error,
}
use opendeploy.Auth.Service.{Crypto, Config, Inputs, TokenPair, new_session, issue, login}

module _ (us : List User) (ss : List Session) where
  -- the tables as they were at the start
  abbrev Start : World → Type 0
  Start w = (w.users ≡ us) × (w.sessions ≡ ss)

  abbrev SameSessions : World → Type 0
  SameSessions w = w.sessions ≡ ss

  found_in :
      {A : Type 0} (e : GoError) (o o' : Option A) (w : World)
      → o ≡ o'
      → Start w
      → Post (λ a v. Start v × (o' ≡ some a)) SameSessions (found e o w)
  unfolding found pure raise
  found_in e none o' w p h = h.1
  found_in e (some a) o' w p h = (h, sym p)

  username_ensures :
      (name : Text)
      → Ensures Start
          (find_by_username name)
          (λ u w. Start w × (first (λ u. text_eq u.username name) us ≡ some u))
          SameSessions
  unfolding find_by_username
  username_ensures name =
      Ensures-query _ _ (λ w bs h. h) (λ w h. h.1)
        (record {
          at = λ w h. found_in _ _ _ w (ap (λ vs. first (λ u. text_eq u.username name) vs) h.0) h;
        })

-- the sessions on file are `xs`
abbrev pub Sessions : List Session → World → Type 0
Sessions xs w = w.sessions ≡ xs

-- a new session is put before the others, or nothing changes
created :
    (xs : List Session) (s : Session)
    → Ensures (Sessions xs) (create_session s) (λ _ w. Sessions (s ∷ xs) w) (Sessions xs)
unfolding create_session create_session_row
created xs s = Ensures-query _ _ (λ w bs h. h) (λ w h. h) (record { at = λ w h. go w _ h })
  where
    go :
        (w : World) (b : Bool)
        → Sessions xs w
        → Post
            (λ _ v. Sessions (s ∷ xs) v)
            (Sessions xs)
            (if b
              then (ok tt, record w { sessions = s ∷ w.sessions })
              else (err (wrapped "session repository: create" (plain "constraint failed")), w))
    go w true h = ap (λ l. s ∷ l) h
    go w false h = h

-- a write of a user's row leaves the sessions
updated :
    (xs : List Session) (u : User)
    → Ensures (Sessions xs) (update_user_row u) (λ _ w. Sessions xs w) (Sessions xs)
unfolding update_user_row update_row
updated xs u =
    Ensures-query _ _ (λ w bs h. h) (λ w h. h)
      (record { at = λ w h. go w (find_user u.id w.users) _ _ h })
  where
    go :
        (w : World) (o : Option User) (b c : Bool)
        → Sessions xs w
        → Post
            (λ _ v. Sessions xs v)
            (Sessions xs)
            (elim o as (λ x. Result GoError (Unit {0}) × World) [
              | none ↦ (err (missing "user not found"), w)
              | some old ↦
                  if b
                  then (
                    err (wrapped "user repository: update" (plain "CHECK constraint failed")),
                    w,
                  )
                  else if c
                  then (
                    err (wrapped "user repository: update" (plain "UNIQUE constraint failed")),
                    w,
                  )
                  else (ok tt, record w { users = put_user u w.users })
            ])
    go w none b c h = h
    go w (some old) true c h = h
    go w (some old) false true h = h
    go w (some old) false false h = h

module _ (crypto : Crypto) (config : Config) (i : Inputs) where
  -- A token pair comes with exactly one new session, which holds the hash of its refresh token.
  pub issued :
      (xs : List Session) (label : String) (user : User) (ip agent : String)
      → Ensures
          (Sessions xs)
          (issue crypto config i label user ip agent)
          (λ pair w.
            Sessions (new_session crypto config i user.id pair.refresh_token ip agent ∷ xs) w)
          (Sessions xs)
  unfolding issue
  issued xs label user ip agent = Ensures-bind _ _ (Ensures-need (λ w h. h) _ _) λ access.
      Ensures-bind _ _ (Ensures-need (λ w h. h.0) _ _) λ raw.
        Ensures-then _ _
          (Ensures-map_error _ _ (Ensures-weaken (created xs _) (λ w h. h.0.0) (λ u w h. h)))
          (Ensures-pure _ _ _ (λ w h. h))

  -- the user who may log in, of those on file
  abbrev pub LoggedIn : List User → Text → Text → User → Type 0
  LoggedIn us name password user =
      (first (λ u. text_eq u.username name) us ≡ some user)
      × (crypto.matches user.password password ≡ true)
      × (user.is_active ≡ true)

  -- one session for that user, with the hash of the returned refresh token, was put on file
  abbrev pub Opened : World → Text → Text → String → String → TokenPair → World → Type 0
  Opened w name password ip agent pair v =
      (user : User) × LoggedIn w.users name password user
      × (v.sessions ≡ new_session crypto config i user.id pair.refresh_token ip agent ∷ w.sessions)

  -- A login that returns tokens was made with the password of an active user of that name, and has put
  -- one session for that user, with the hash of the returned refresh token, on file; a login that
  -- fails, at whatever point, leaves the sessions as they were.
  pub login_ensures :
      (w : World) (name password : Text) (ip agent : String)
      → Post
          (Opened w name password ip agent)
          (Sessions w.sessions)
          (login crypto config i name password ip agent w)
  unfolding login
  login_ensures w name password ip agent = whole.at w (refl, refl)
    where
      finish :
          (user : User)
          → LoggedIn w.users name password user
          → Ensures
              (Sessions w.sessions)
              (issue crypto config i "create session" user ip agent >>= λ pair.
                ignore
                  (update_user_row (record user { last_login = some i.now; updated_at = i.now }))
                >> pure pair)
              (Opened w name password ip agent)
              (Sessions w.sessions)
      finish user facts = Ensures-bind _ _ (issued w.sessions _ user ip agent) λ pair.
          Ensures-then _ _ (Ensures-ignore _ (updated _ _) _)
            (Ensures-pure _ _ _ (λ v h. (user, facts, h)))

      whole :
          Ensures
            (Start w.users w.sessions)
            (login crypto config i name password ip agent)
            (Opened w name password ip agent)
            (Sessions w.sessions)
      whole =
          Ensures-bind _ _ (Ensures-map_error _ _ (username_ensures w.users w.sessions name))
            λ user.
              Ensures-known (λ v h. h.1)
                λ known.
                  Ensures-guarded (λ v h. h.0.1) _ _ _
                    λ right.
                      Ensures-guarded (λ v h. h.0.1) _ _ _
                        λ active.
                          Ensures-weaken (finish user (known, right, active)) (λ v h. h.0.1)
                            (λ a v h. h)
