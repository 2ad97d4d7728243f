-- ===== src/Auth/Rotation.antt =====
-- Refresh replaces the session of the token that it was given; and it does not look whether the user
-- is still active.
use opendeploy.Common.{
  sym, ap, ◌≡◌, refl, ◌⊎◌, inl, inr, Bool, true, false, not, Option, none, some, List, [], ◌∷◌,
  String, str_eq, keep, if◌then◌else◌,
}
use opendeploy.Apperrors.Defs.{GoError, app, internal, token_expired}
use opendeploy.Auth.Store.{
  User, Session, World, pure, raise, ◌>>=◌, ◌>>◌, ignore, map_error, first, found, find_user,
  find_by_id, find_by_token_hash, delete_sessions, delete_by_id,
}
use opendeploy.Auth.Hoare.{
  Post, Ensures, Ensures-clean, Ensures-fail, Ensures-raise, Ensures-weaken, Ensures-bind,
  Ensures-known, Ensures-then, Ensures-ignore, Ensures-map_error,
}
use opendeploy.Auth.Service.{
  Crypto, Config, Inputs, TokenPair, new_session, issue, refresh, is_expired,
}
use opendeploy.Auth.Tokens.{issued}

-- the sessions without those of an id
abbrev pub without : String → List Session → List Session
without id ss = keep (λ s. not (str_eq s.session_id id)) ss

module _ (us : List User) (ss : List Session) where
  -- the tables are as they were, and no call fails
  abbrev Clean : World → Type 0
  Clean w = (w.faults ≡ []) × (w.users ≡ us) × (w.sessions ≡ ss)

  -- no session was added
  abbrev pub NotAdded : World → Type 0
  NotAdded w = (w.sessions ≡ ss) ⊎ ((id : String) × (w.sessions ≡ without id ss))

  found_in :
      {A : Type 0} (e : GoError) (o o' : Option A) (w : World)
      → o ≡ o'
      → Clean w
      → Post (λ a v. Clean v × (o' ≡ some a)) NotAdded (found e o w)
  unfolding found pure raise
  found_in e none o' w p h = inl h.2
  found_in e (some a) o' w p h = (h, sym p)

  token_ensures :
      (hash : String)
      → Ensures Clean
          (find_by_token_hash hash)
          (λ s w. Clean w × (first (λ s. str_eq s.token_hash hash) ss ≡ some s))
          NotAdded
  unfolding find_by_token_hash
  token_ensures hash =
      Ensures-clean _ _ (λ w h. h.0)
        (record {
          at = λ w h. found_in _ _ _ w (ap (λ xs. first (λ s. str_eq s.token_hash hash) xs) h.2) h;
        })

  owner_ensures :
      (id : String)
      → Ensures Clean (find_by_id id) (λ u w. Clean w × (find_user id us ≡ some u)) NotAdded
  unfolding find_by_id
  owner_ensures id =
      Ensures-clean _ _ (λ w h. h.0)
        (record { at = λ w h. found_in _ _ _ w (ap (λ xs. find_user id xs) h.1) h })

  deleted :
      (id : String) (E : World → Type 0)
      → Ensures Clean (ignore (delete_by_id id)) (λ u w. w.sessions ≡ without id ss) E
  unfolding delete_by_id delete_sessions
  deleted id E =
      Ensures-ignore _
        (Ensures-clean _ _ (λ w h. h.0) (record { at = λ w h. ap (λ xs. without id xs) h.2 })) E

module _ (crypto : Crypto) (config : Config) (i : Inputs) (w : World) (raw ip agent : String) where
  -- the session that the token names, live, and its user
  abbrev pub Named : Session → User → Type 0
  Named session user =
      (first (λ s. str_eq s.token_hash (crypto.sha256_hex raw)) w.sessions ≡ some session)
      × (is_expired crypto i.now session ≡ false)
      × (find_user session.user_id w.users ≡ some user)

  abbrev pub Rotated : TokenPair → World → Type 0
  Rotated pair v =
      (session : Session) × (user : User) × Named session user
      × (v.sessions
          ≡ new_session crypto config i user.id pair.refresh_token ip agent
            ∷ without session.session_id w.sessions)

  -- Where no call of the database fails, a refresh that returns tokens was made with the token of a live
  -- session, has taken that session off the file, and has put one new session of the same user on it; a
  -- refresh that fails adds no session.
  pub refresh_rotates :
      w.faults ≡ []
      → Post Rotated (NotAdded w.users w.sessions) (refresh crypto config i raw ip agent w)
  unfolding refresh
  refresh_rotates clean = whole.at w (clean, refl, refl)
    where
      Failed : World → Type 0
      Failed = NotAdded w.users w.sessions

      replace :
          (session : Session) (user : User)
          → Named session user
          → Ensures
              (Clean w.users w.sessions)
              (ignore (delete_by_id session.session_id)
                >> issue crypto config i "create refreshed session" user ip agent)
              Rotated
              Failed
      replace session user named =
          Ensures-then _ _ (deleted w.users w.sessions session.session_id _) (
            Ensures-fail
              (Ensures-weaken
                (issued crypto config i (without session.session_id w.sessions) _ user ip agent)
                (λ v h. h) (λ pair v h. (session, user, named, h)))
              (λ v h. inr (session.session_id, h)))

      proceed :
          (session : Session) (expired : Bool)
          → is_expired crypto i.now session ≡ expired
          → first (λ s. str_eq s.token_hash (crypto.sha256_hex raw)) w.sessions ≡ some session
          → Ensures
              (Clean w.users w.sessions)
              (if expired
                then ignore (delete_by_id session.session_id)
                  >> raise (app 401 token_expired "refresh token expired")
                else map_error (internal "find user for refresh") (find_by_id session.user_id)
                  >>= λ user.
                      ignore (delete_by_id session.session_id)
                      >> issue crypto config i "create refreshed session" user ip agent)
              Rotated
              Failed
      proceed session true e named =
          Ensures-then _ _ (deleted w.users w.sessions session.session_id _)
            (Ensures-raise (λ v h. inr (session.session_id, h)) _)
      proceed session false e named =
          Ensures-bind _ _
            (Ensures-map_error _ _ (owner_ensures w.users w.sessions session.user_id))
            λ user.
              Ensures-known (λ v h. h.1)
                λ owner.
                  Ensures-weaken (replace session user (named, e, owner)) (λ v h. h.0) (λ a v h. h)

      whole :
          Ensures (Clean w.users w.sessions) (refresh crypto config i raw ip agent) Rotated Failed
      whole =
          Ensures-bind _ _ (Ensures-map_error _ _ (token_ensures w.users w.sessions _)) λ session.
            Ensures-known (λ v h. h.1)
              λ named. Ensures-weaken (proceed session _ refl named) (λ v h. h.0) (λ a v h. h)
