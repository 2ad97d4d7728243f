-- ===== src/Auth/Lockout.antt =====
-- No administrator can lock themselves out: whatever the actor of a request changes, the actor is
-- still an active administrator afterwards.
use opendeploy.Common.{
  sym, ◌∙◌, ◌≡◌, refl, Bool, true, false, not, ◌&&◌, String, str_eq, str_eq_iff, arith, Result, ok,
  err, if◌then◌else◌,
}
use opendeploy.Common.Text.{Text}
use opendeploy.Apperrors.Defs.{GoError}
use opendeploy.Auth.Roles.{Role, admin, operator, viewer, other}
use opendeploy.Auth.Store.{World, pure, ignore, delete_by_user_id}
use opendeploy.Auth.Hoare.{
  Post, Ensures, Ensures-pure, Ensures-weaken, Ensures-need, Ensures-guard, Ensures-guard_kept,
  Ensures-guarded, Ensures-bind, Ensures-then, Ensures-ignore, Ensures-map_error,
}
use opendeploy.Auth.Service.{Crypto, Inputs, hash_or}
use opendeploy.Auth.Users.{
  UserInput, is_admin, validate_user_input, create_user, update_user, set_password, set_user_active,
  delete_user,
}
use opendeploy.Auth.Rows.{
  InCharge, Seen, find-has_id, own_row, find_by_id_ensures, update_user_row_ensures,
  create_user_row_ensures, delete_by_user_id_ensures, delete_user_row_ensures,
}

module _ (actor : String) where
  role_kept :
      (id : String) (role : Role)
      → id ≡ actor
      → not (str_eq actor id && not (is_admin role)) ≡ true
      → role ≡ admin
  role_kept id admin e h = refl
  role_kept id operator e h = ground (arith, str_eq_iff actor id)
  role_kept id viewer e h = ground (arith, str_eq_iff actor id)
  role_kept id (other name) e h = ground (arith, str_eq_iff actor id)

  module _ (crypto : Crypto) where
    validate_ensures :
        (P : World → Type 0) (drop : (w : World) → P w → InCharge actor w) (username email : Text)
        (role : Role)
        → Ensures P (validate_user_input crypto username email role) (λ _ w. P w) (InCharge actor)
    unfolding validate_user_input
    validate_ensures P drop username email role =
        Ensures-then _ _ (Ensures-guard_kept drop _ _)
          (Ensures-then _ _ (Ensures-guard_kept drop _ _) (Ensures-guard_kept drop _ _))

    -- UpdateUser, by the actor, of any user: the actor stays in charge, also when it fails half way.
    update_user_ensures :
        (i : Inputs) (id : String) (input : UserInput)
        → Ensures
            (InCharge actor)
            (update_user crypto i actor id input)
            (λ _ w. InCharge actor w)
            (InCharge actor)
    unfolding update_user
    update_user_ensures i id input = Ensures-bind _ _ (find_by_id_ensures actor id) λ user.
        Ensures-then _ _ (validate_ensures (Seen actor id user) (λ w h. h.0) _ _ _) (
          Ensures-then _ _ (Ensures-guard (λ w h. h.0) _ _) (
            Ensures-then _ _
              (Ensures-weaken (update_user_row_ensures actor _)
                (λ w h. (
                  h.0.0,
                  λ e. (
                    role_kept id input.input_role (sym (find-has_id id w.users h.0.1) ∙ e) h.1,
                    (own_row actor id user w h.0 e).1,
                  ),
                ))
                (λ u w h. h))
              (Ensures-pure _ _ _ (λ w h. h))))

    set_password_ensures :
        (i : Inputs) (id : String) (password : Text)
        → Ensures
            (InCharge actor)
            (set_password crypto i id password)
            (λ _ w. InCharge actor w)
            (InCharge actor)
    unfolding set_password hash_or
    set_password_ensures i id password = Ensures-then _ _ (Ensures-guard_kept (λ w h. h) _ _) (
        Ensures-bind _ _ (find_by_id_ensures actor id) λ user.
          Ensures-bind _ _ (Ensures-need (λ w h. h.0) _ _) λ hash.
            Ensures-then _ _
              (Ensures-weaken (update_user_row_ensures actor _)
                (λ w h. (h.0.0, λ e. own_row actor id user w h.0 e)) (λ u w h. h))
              (Ensures-ignore _ (delete_by_user_id_ensures actor id) _))

    create_user_ensures :
        (i : Inputs) (input : UserInput)
        → Ensures
            (InCharge actor)
            (create_user crypto i input)
            (λ _ w. InCharge actor w)
            (InCharge actor)
    unfolding create_user hash_or
    create_user_ensures i input =
        Ensures-then _ _ (validate_ensures (InCharge actor) (λ w h. h) _ _ _) (
          Ensures-then _ _ (Ensures-guard_kept (λ w h. h) _ _) (
            Ensures-bind _ _ (Ensures-need (λ w h. h) _ _) λ hash.
              Ensures-then _ _
                (Ensures-weaken (create_user_row_ensures actor _) (λ w h. h.0) (λ u w h. h))
                (Ensures-pure _ _ _ (λ w h. h))))

  set_user_active_ensures :
      (i : Inputs) (id : String) (active : Bool)
      → Ensures
          (InCharge actor)
          (set_user_active i actor id active)
          (λ _ w. InCharge actor w)
          (InCharge actor)
  unfolding set_user_active
  set_user_active_ensures i id active =
      Ensures-guarded (λ w h. h) _ _ _
        λ g. Ensures-bind _ _ (find_by_id_ensures actor id) λ user.
          Ensures-then _ _
            (Ensures-weaken (update_user_row_ensures actor _)
              (λ w h. (
                h.0,
                λ e. (
                  (own_row actor id user w h e).0,
                  still_active id active (sym (find-has_id id w.users h.1) ∙ e) g,
                ),
              ))
              (λ u w h. h))
            (Ensures-then _ _ (revoked active) (Ensures-pure _ _ _ (λ w h. h)))
    where
      still_active :
          (id : String) (active : Bool)
          → id ≡ actor
          → not (str_eq actor id && not active) ≡ true
          → active ≡ true
      still_active id active e h = ground (arith, str_eq_iff actor id)

      revoked :
          (active : Bool)
          → Ensures
              (InCharge actor)
              (if active then pure tt else ignore (delete_by_user_id id))
              (λ _ w. InCharge actor w)
              (InCharge actor)
      revoked true = Ensures-pure _ _ _ (λ w h. h)
      revoked false = Ensures-ignore _ (delete_by_user_id_ensures actor id) _

  delete_user_ensures :
      (id : String)
      → Ensures (InCharge actor) (delete_user actor id) (λ _ w. InCharge actor w) (InCharge actor)
  unfolding delete_user
  delete_user_ensures id =
      Ensures-guarded (λ w h. h) _ _ _
        λ g. Ensures-bind _ _ (find_by_id_ensures actor id) λ user. Ensures-map_error _ _ (
          Ensures-weaken (delete_user_row_ensures actor id (ground arith)) (λ w h. h.0)
            (λ u w h. h))

-- The requests that an administrator may make on users.
pub data Request : Type 0 where
  create : UserInput → Request
  update : String → UserInput → Request
  set_password_of : String → Text → Request
  set_active : String → Bool → Request
  delete : String → Request

-- the world after a request of the actor, whatever it returned
unfoldable pub serve : Crypto → Inputs → String → Request → World → World
serve crypto i actor (create input) w = (create_user crypto i input w).1
serve crypto i actor (update id input) w = (update_user crypto i actor id input w).1
serve crypto i actor (set_password_of id password) w = (set_password crypto i id password w).1
serve crypto i actor (set_active id active) w = (set_user_active i actor id active w).1
serve crypto i actor (delete id) w = (delete_user actor id w).1

after :
    {A : Type 0} (actor : String) (r : Result GoError A × World)
    → Post (λ _ v. InCharge actor v) (InCharge actor) r
    → InCharge actor r.1
after actor (ok a, v) h = h
after actor (err e, v) h = h

-- An active administrator who creates, changes, blocks or deletes users, or sets their passwords, is
-- still an active administrator after each request, whether it succeeds, is refused, or fails at any
-- call of the database.
pub serve-InCharge :
    (crypto : Crypto) (i : Inputs) (actor : String) (r : Request) (w : World)
    → InCharge actor w
    → InCharge actor (serve crypto i actor r w)
unfolding serve
serve-InCharge crypto i actor (create input) w h =
    after actor _ ((create_user_ensures actor crypto i input).at w h)
serve-InCharge crypto i actor (update id input) w h =
    after actor _ ((update_user_ensures actor crypto i id input).at w h)
serve-InCharge crypto i actor (set_password_of id password) w h =
    after actor _ ((set_password_ensures actor crypto i id password).at w h)
serve-InCharge crypto i actor (set_active id active) w h =
    after actor _ ((set_user_active_ensures actor i id active).at w h)
serve-InCharge crypto i actor (delete id) w h =
    after actor _ ((delete_user_ensures actor id).at w h)
