-- ===== src/Site/Undoing.antt =====
-- Enabling and disabling of sites that fails: what setState of lifecycle_service.go leaves behind.
use mathlib.Core.Path.{subst}
use opendeploy.Common.{
  ℕ, Bool, true, false, some, List, [], ◌∷◌, String, Result, ok, err, if◌then◌else◌, ◌≡◌, refl, ◌∙◌,
  sym, ap, arith, str_eq, str_eq_iff, str_eq_refl,
}
use opendeploy.Common.Text.{Text}
use opendeploy.Common.Action.{continue, pure, ◌>>=◌, ◌>>◌, or_undo, undone, ignore, Post}
use opendeploy.Nginx.Sites.{SiteAction, enable, disable}
use opendeploy.Site.Records.{
  Site, World, M, Env, ServiceError, State, active, disabled, database, backup_failed, back_up,
}
use opendeploy.Site.Effects.{
  later, fails, failing, attempt, call, found, find_site, find_by_id, replace, updated, change_site,
  update_row, backup_critical,
}
use opendeploy.Site.Requests.{Keeps-manage_app, Keeps-apply_site_config, Keeps-apply_state}
use opendeploy.Site.Lifecycle.{
  rollback, revert_action, apply_state, set_found, set_state, enable_site, disable_site,
}
use opendeploy.Site.Calm.{Calm, Faultless, Next, Calm-Next, Calm-same, Ends, Ends-apply_state}

find_other :
    (j : String) (x : Site) (rows : List Site)
    → str_eq x.id j ≡ false
    → find_site j (replace x rows) ≡ find_site j rows
find_other j x [] e = refl
find_other j x (r ∷ rows) e =
    ground
      (arith, find_other j x rows e, str_eq_iff r.id x.id, str_eq_iff x.id j, str_eq_iff r.id j)

find-replace :
    (x r : Site) (rows : List Site)
    → find_site x.id rows ≡ some r
    → find_site x.id (replace x rows) ≡ some (record x { domains = r.domains })
find-replace x r [] e = ground arith
find-replace x r (q ∷ rows) e = ground (arith, find-replace x r rows, str_eq_refl x.id)

find_back :
    (s : Site) (state : State) (rows : List Site) (j : String)
    → find_site s.id rows ≡ some s
    → find_site j (replace s (replace (record s { state = state }) rows)) ≡ find_site j rows
find_back s state rows j e = go (str_eq s.id j) refl
  where
    go :
        (b : Bool)
        → str_eq s.id j ≡ b
        → find_site j (replace s (replace (record s { state = state }) rows)) ≡ find_site j rows
    go true h =
        subst
          (λ k.
            find_site k (replace s (replace (record s { state = state }) rows)) ≡ find_site k rows)
          ((str_eq_iff s.id j).0 h)
          (find-replace s (record s { state = state }) (replace (record s { state = state }) rows)
              (find-replace (record s { state = state }) s rows e)
            ∙ sym e)
    go false h =
        find_other j s (replace (record s { state = state }) rows) h
        ∙ find_other j (record s { state = state }) rows h

stored :
    (s r : Site) (w : World)
    → w.faults ≡ []
    → find_site s.id w.rows ≡ some r
    → (update_row s w).1.rows ≡ replace s w.rows
unfolding update_row attempt
stored s r w f e =
    subst
      (λ fs.
        (failing (fails fs) database (change_site s) (record w { faults = later fs })).1.rows
        ≡ replace s w.rows)
      (sym f) (ap (λ o. (updated s o (record w { faults = [] })).1.rows) e)

rolled_back :
    (env : Env) (clean : Text → Text) (s r : Site) (w : World)
    → w.faults ≡ []
    → find_site s.id w.rows ≡ some r
    → (rollback env s w).1.rows ≡ replace s w.rows
unfolding rollback ◌>>◌ ◌>>=◌ ignore
rolled_back env clean s r w f e =
    let P : List Site → Type 0 = λ rows. rows ≡ replace s w.rows in
    (Keeps-manage_app P env clean (revert_action env s.state) s).at _ (
      (Keeps-apply_site_config P env clean s.module_id (revert_action env s.state) s).at _
        (stored s r w f e))

Restored : List Site → Result ServiceError (Unit {0}) × World → Type 0
Restored rows (ok a, t) = Unit {0}
Restored rows (err e, t) = (j : String) → find_site j t.rows ≡ find_site j rows

module _ (env : Env) (clean : Text → Text) (s : Site) (state : State) (action : SiteAction) where
  restored :
      (rows : List Site)
      → find_site s.id rows ≡ some s
      → (r : Result ServiceError (Unit {0}) × World) → Post (λ u w. Unit {0}) (λ w. w.faults ≡ []) r
      → r.1.rows ≡ replace (record s { state = state }) rows
      → Restored rows (undone (rollback env s) r)
  unfolding Restored
  restored rows e (ok a, t) p k = tt
  restored rows e (err x, t) p k = λ j.
      ap (find_site j) (
        rolled_back env clean s (record s { state = state }) t p
          (ap (find_site s.id) k ∙ find-replace (record s { state = state }) s rows e)
        ∙ ap (replace s) k)
      ∙ find_back s state rows j e

  set_row :
      (w : World)
      → Calm env s w
      → find_site s.id w.rows ≡ some s
      → Restored w.rows (set_found env state action s w)
  unfolding Restored set_found ◌>>◌ ◌>>=◌ update_row attempt or_undo Ends Next Faultless
  set_row w c e = go (fails w.faults) (later w.faults) (Calm-Next env s w c)
    where
      changed : Site
      changed = record s { state = state }

      rest : Result ServiceError (Unit {0}) × World → Result ServiceError (Unit {0}) × World
      rest r = continue r.0 (λ u. or_undo (apply_state env action changed) (rollback env s)) r.1

      wrote :
          (fs : List ℕ)
          → Next env s w false fs
          → Restored w.rows (rest (updated changed (some s) (record w { faults = fs })))
      wrote fs n =
          let v = record w { rows = replace changed w.rows; faults = fs } in
          restored w.rows e (apply_state env action changed v)
            ((Ends-apply_state env s action state).at v
              (Calm-same env s (record w { faults = fs }) v refl refl n))
            ((Keeps-apply_state (λ x. x ≡ replace changed w.rows) env clean action changed).at v
              refl)

      go :
          (b : Bool) (fs : List ℕ)
          → Next env s w b fs
          → Restored w.rows
              (rest (failing b database (change_site changed) (record w { faults = fs })))
      go true fs n = λ j. refl
      go false fs n =
          subst (λ o. Restored w.rows (rest (updated changed o (record w { faults = fs })))) (sym e)
            (wrote fs n)

  set_by_id :
      (w : World)
      → Calm env s w
      → find_site s.id w.rows ≡ some s
      → Restored w.rows (set_state env s.id state action w)
  unfolding Restored set_state find_by_id ◌>>=◌ attempt found pure Next
  set_by_id w c e = go (fails w.faults) (later w.faults) (Calm-Next env s w c)
    where
      go :
          (b : Bool) (fs : List ℕ)
          → Next env s w b fs
          → Restored w.rows (
              continue
                (failing b database
                  (λ w. found (find_site s.id w.rows) w)
                  (record w { faults = fs })).0
                (set_found env state action)
                (failing b database
                  (λ w. found (find_site s.id w.rows) w)
                  (record w { faults = fs })).1)
      go true fs n = λ j. refl
      go false fs n =
          subst
            (λ o. Restored w.rows (
              continue (found o (record w { faults = fs })).0 (set_found env state action)
                (found o (record w { faults = fs })).1))
            (sym e) (set_row (record w { faults = fs }) n e)

  -- Service.Enable and Service.Disable
  switched :
      (w : World)
      → Calm env s w
      → find_site s.id w.rows ≡ some s
      → Restored w.rows ((backup_critical env >> set_state env s.id state action) w)
  unfolding Restored backup_critical ◌>>=◌ ◌>>◌ call attempt pure Next
  switched w c e = go env.has_backup
    where
      after : Result ServiceError (Unit {0}) × World → Result ServiceError (Unit {0}) × World
      after r = continue r.0 (λ u. set_state env s.id state action) r.1

      backed_up :
          (b : Bool) (fs : List ℕ)
          → Next env s w b fs
          → Restored w.rows (
              after (
                failing b backup_failed
                  (λ w. (ok tt, record w { calls = back_up ∷ w.calls }))
                  (record w { faults = fs })))
      backed_up true fs n = λ j. refl
      backed_up false fs n =
          set_by_id (record w { faults = fs; calls = back_up ∷ w.calls })
            (Calm-same env s (record w { faults = fs }) _ refl refl n) e

      go :
          (b : Bool)
          → Restored w.rows (after ((if b then call back_up backup_failed else pure tt) w))
      go true = backed_up (fails w.faults) (later w.faults) (Calm-Next env s w c)
      go false = set_by_id w c e

abbrev pub switch : Env → Bool → String → M (Unit {0})
switch env true id = enable_site env id
switch env false id = disable_site env id

failed :
    {e : ServiceError} (rows : List Site) (r : Result ServiceError (Unit {0}) × World)
    → Restored rows r
    → r.0 ≡ err e
    → (j : String) → find_site j r.1.rows ≡ find_site j rows
unfolding Restored
failed rows (ok a, t) k h = ground arith
failed rows (err x, t) k h = k

-- If enabling or disabling a stored site fails, while no call fails (a module may be missing and the
-- site may not answer) or exactly one does (the modules are there and the site answers), the rows are
-- as they were: every id finds the same site.
pub switch_undone :
    (env : Env) (s : Site) (on : Bool) (w : World) (e : ServiceError)
    → Calm env s w
    → find_site s.id w.rows ≡ some s
    → (switch env on s.id w).0 ≡ err e
    → (j : String) → find_site j (switch env on s.id w).1.rows ≡ find_site j w.rows
unfolding enable_site disable_site Restored
switch_undone env s true w e c f h =
    failed w.rows (switch env true s.id w) (switched env (λ t. t) s active enable w c f) h
switch_undone env s false w e c f h =
    failed w.rows (switch env false s.id w) (switched env (λ t. t) s disabled disable w c f) h
