-- ===== src/Auth/Rows.antt =====
-- What the repository's calls do to the row of one administrator.
use mathlib.Core.Path.{subst}
use opendeploy.Common.{
  sym, ◌∙◌, ◌≡◌, refl, Bool, true, false, not, ◌&&◌, ◌||◌, Option, none, some, List, [], ◌∷◌, ◌++◌,
  String, str_eq, str_eq_iff, arith, any, keep, Result, ok, err, if◌then◌else◌,
}
use opendeploy.Apperrors.Defs.{GoError, exists_already, plain, wrapped, missing}
use opendeploy.Auth.Roles.{admin, is_valid}
use opendeploy.Auth.Store.{
  User, World, pure, raise, has_id, clashes, find_user, found, find_by_id, create_row,
  create_user_row, put_user, update_row, update_user_row, delete_user_row, delete_sessions,
  delete_by_user_id,
}
use opendeploy.Auth.Hoare.{Post, Ensures, Ensures-query}

-- the user on file under the id is an active administrator
abbrev pub IsAdminRow : Option User → Type 0
IsAdminRow none = ⊥
IsAdminRow (some u) = (u.role ≡ admin) × (u.is_active ≡ true)

abbrev pub InCharge : String → World → Type 0
InCharge actor w = IsAdminRow (find_user actor w.users)

pub find-has_id : (k : String) (us : List User) {u : User} → find_user k us ≡ some u → u.id ≡ k
find-has_id k [] h = cc
find-has_id k (v ∷ us) {u} h = ground (arith, find-has_id k us {u = u}, str_eq_iff v.id k)

-- a row is written only where there was one
abbrev written : User → Option User → Option User
written u none = none
written u (some old) = some u

find-put_user :
    (k : String) (u : User) (us : List User)
    → find_user k (put_user u us)
      ≡ (if str_eq u.id k then written u (find_user k us) else find_user k us)
find-put_user k u [] = ground arith
find-put_user k u (v ∷ us) =
    ground (arith, find-put_user k u us, str_eq_iff v.id k, str_eq_iff v.id u.id, str_eq_iff u.id k)

find-keep :
    (k id : String) (us : List User)
    → find_user k (keep (λ u. not (has_id id u)) us)
      ≡ (if str_eq id k then none else find_user k us)
find-keep k id [] = ground arith
find-keep k id (v ∷ us) =
    ground (arith, find-keep k id us, str_eq_iff v.id k, str_eq_iff v.id id, str_eq_iff id k)

find-append :
    (k : String) (us vs : List User) {u : User}
    → find_user k us ≡ some u
    → find_user k (us ++ vs) ≡ some u
find-append k [] vs h = cc
find-append k (v ∷ us) vs {u} h = ground (arith, find-append k us vs {u = u})

module _ (actor : String) where
  abbrev pub Seen : String → User → World → Type 0
  Seen id u w = InCharge actor w × (find_user id w.users ≡ some u)

  pub find_by_id_ensures :
      (id : String) → Ensures (InCharge actor) (find_by_id id) (Seen id) (InCharge actor)
  unfolding find_by_id
  find_by_id_ensures id =
      Ensures-query _ _ (λ w bs h. h) (λ w h. h)
        (record { at = λ w h. go w (find_user id w.users) refl h })
    where
      go :
          (w : World) (o : Option User)
          → find_user id w.users ≡ o
          → InCharge actor w
          → Post (Seen id) (InCharge actor) (found (missing "user not found") o w)
      go w none e h = unfold found raise in h
      go w (some u) e h = unfold found pure in (h, e)

  -- the row may be written, if it is not the actor's or leaves the actor in charge
  abbrev pub Allowed : User → World → Type 0
  Allowed u w = InCharge actor w × (u.id ≡ actor → IsAdminRow (some u))

  put_user-InCharge :
      (u : User) (w : World) {old : User}
      → find_user u.id w.users ≡ some old
      → Allowed u w
      → IsAdminRow (find_user actor (put_user u w.users))
  put_user-InCharge u w {old} e h = rw find-put_user (go (str_eq u.id actor) refl)
    where
      go :
          (b : Bool)
          → str_eq u.id actor ≡ b
          → IsAdminRow (if b then written u (find_user actor w.users) else find_user actor w.users)
      go true p =
          let same : u.id ≡ actor = (str_eq_iff u.id actor).0 p in
          subst (λ o. IsAdminRow (written u o))
            (sym (subst (λ k. find_user k w.users ≡ some old) same e)) (h.1 same)
      go false p = h.0

  update_row_ensures :
      (u : User) (w : World)
      → Allowed u w
      → Post (λ _ v. InCharge actor v) (InCharge actor) (update_row u w)
  unfolding update_row
  update_row_ensures u w h = go (find_user u.id w.users) refl
    where
      chosen :
          (b : Bool) (e : GoError) (r : Result GoError (Unit {0}) × World)
          → Post (λ _ v. InCharge actor v) (InCharge actor) r
          → Post (λ _ v. InCharge actor v) (InCharge actor) (if b then (err e, w) else r)
      chosen true e r k = h.0
      chosen false e r k = k

      go :
          (o : Option User)
          → find_user u.id w.users ≡ o
          → Post
              (λ _ v. InCharge actor v)
              (InCharge actor)
              (elim o as (λ x. Result GoError (Unit {0}) × World) [
                | none ↦ (err (missing "user not found"), w)
                | some old ↦
                    if not (is_valid u.role)
                    then (
                      err (wrapped "user repository: update" (plain "CHECK constraint failed")),
                      w,
                    )
                    else if any (λ v. not (has_id u.id v) && clashes u v) w.users
                    then (
                      err (wrapped "user repository: update" (plain "UNIQUE constraint failed")),
                      w,
                    )
                    else (ok tt, record w { users = put_user u w.users })
              ])
      go none e = h.0
      go (some old) e = chosen (not (is_valid u.role)) _ _ (
          chosen (any (λ v. not (has_id u.id v) && clashes u v) w.users) _ _
            (put_user-InCharge u w e h))

  pub update_user_row_ensures :
      (u : User)
      → Ensures (Allowed u) (update_user_row u) (λ _ w. InCharge actor w) (InCharge actor)
  unfolding update_user_row
  update_user_row_ensures u =
      Ensures-query _ _ (λ w bs h. h) (λ w h. h.0) (record { at = λ w h. update_row_ensures u w h })

  pub create_user_row_ensures :
      (u : User)
      → Ensures (InCharge actor) (create_user_row u) (λ _ w. InCharge actor w) (InCharge actor)
  unfolding create_user_row create_row
  create_user_row_ensures u =
      Ensures-query _ _ (λ w bs h. h) (λ w h. h)
        (record {
          at = λ w h.
              go w (not (is_valid u.role)) (any (λ v. str_eq v.id u.id || clashes u v) w.users) h;
        })
    where
      appended :
          (us : List User) (o : Option User)
          → find_user actor us ≡ o
          → IsAdminRow o
          → IsAdminRow (find_user actor (us ++ u ∷ []))
      appended us none e h = absurd h
      appended us (some a) e h = subst IsAdminRow (sym (find-append actor us (u ∷ []) e)) h

      go :
          (w : World) (b c : Bool)
          → InCharge actor w
          → Post
              (λ _ v. InCharge actor v)
              (InCharge actor)
              (if b
                then (err (wrapped "user repository: create" (plain "CHECK constraint failed")), w)
                else if c
                then (err (exists_already "user already exists"), w)
                else (ok tt, record w { users = w.users ++ u ∷ [] }))
      go w true c h = h
      go w false true h = h
      go w false false h = appended w.users (find_user actor w.users) refl h

  pub delete_by_user_id_ensures :
      (id : String)
      → Ensures (InCharge actor) (delete_by_user_id id) (λ _ w. InCharge actor w) (InCharge actor)
  unfolding delete_by_user_id delete_sessions
  delete_by_user_id_ensures id =
      Ensures-query _ _ (λ w bs h. h) (λ w h. h) (record { at = λ w h. h })

  -- the row that was read is the actor's own, if it has the actor's id
  pub own_row :
      (id : String) (user : User) (w : World)
      → Seen id user w
      → user.id ≡ actor
      → IsAdminRow (some user)
  own_row id user w h e =
      let same : id ≡ actor = sym (find-has_id id w.users h.1) ∙ e in
      subst IsAdminRow (subst (λ k. find_user k w.users ≡ some user) same h.1) h.0

  pub delete_user_row_ensures :
      (id : String)
      → str_eq actor id ≡ false
      → Ensures (InCharge actor) (delete_user_row id) (λ _ w. InCharge actor w) (InCharge actor)
  unfolding delete_user_row
  delete_user_row_ensures id g =
      Ensures-query _ _ (λ w bs h. h) (λ w h. h)
        (record {
          at = λ w h.
              rw (find-keep actor id w.users)
                (kept (find_user actor w.users) (str_eq id actor) other_id h);
        })
    where
      other_id : str_eq id actor ≡ false
      other_id = ground (arith, str_eq_iff actor id, str_eq_iff id actor)

      kept :
          (o : Option User) (b : Bool)
          → b ≡ false
          → IsAdminRow o
          → IsAdminRow (if b then none else o)
      kept o true e h = cc
      kept o false e h = h
