-- ===== src/Site/Lifecycle.antt =====
-- lifecycle_service.go and reconcile.go: Delete, Enable, Disable and ReconcileActive.
use opendeploy.Common.{Bool, true, false, List, [], ◌∷◌, String, Result, ok, err}
use opendeploy.Common.Action.{pure, ◌>>=◌, ◌>>◌, or_undo, ignore}
use opendeploy.Nginx.Sites.{SiteAction, upsert, enable, disable, delete}
use opendeploy.Site.Records.{
  State, active, disabled, failed, Site, World, M, Env, ServiceError, database,
}
use opendeploy.Site.Effects.{
  attempt, find_by_id, update_row, delete_row, apply_site_config, manage_app, backup_critical,
  verify_site_health,
}

module _ (env : Env) where
  -- what Delete does once the site is found; failures to remove the configuration are logged only
  unfoldable pub delete_found : String → Site → M (Unit {0})
  delete_found id s = do
    ignore (manage_app env delete s)
    ignore (apply_site_config env s.module_id delete s)
    or_undo (delete_row id)
        (ignore (apply_site_config env s.module_id upsert s) >> ignore (manage_app env upsert s))

  -- Service.Delete
  unfoldable pub delete_site : String → M (Unit {0})
  delete_site id = do backup_critical env; s ← find_by_id id; delete_found id s

  abbrev pub revert_action : State → SiteAction
  revert_action active = enable
  revert_action disabled = disable
  revert_action failed = disable

  -- the function `rollback` of setState, for the site as it was
  unfoldable pub rollback : Site → M (Unit {0})
  rollback s = do
    ignore (update_row s)
    ignore (apply_site_config env s.module_id (revert_action s.state) s)
    ignore (manage_app env (revert_action s.state) s)

  abbrev pub check_enabled : SiteAction → Site → M (Unit {0})
  check_enabled enable s = verify_site_health s
  check_enabled upsert s = pure tt
  check_enabled disable s = pure tt
  check_enabled delete s = pure tt

  unfoldable pub apply_state : SiteAction → Site → M (Unit {0})
  apply_state action s = do
    manage_app env action s
    apply_site_config env s.module_id action s
    check_enabled action s

  unfoldable pub set_found : State → SiteAction → Site → M (Unit {0})
  set_found state action s = do
    let changed = record s { state = state }
    update_row changed
    or_undo (apply_state action changed) (rollback s)

  unfoldable pub set_state : String → State → SiteAction → M (Unit {0})
  set_state id state action = do s ← find_by_id id; set_found state action s

  -- Service.Enable, Service.Disable
  unfoldable pub enable_site : String → M (Unit {0})
  enable_site id = backup_critical env >> set_state id active enable

  unfoldable pub disable_site : String → M (Unit {0})
  disable_site id = backup_critical env >> set_state id disabled disable

  -- one round of the loop of ReconcileActive
  unfoldable pub repair : Site → M (Unit {0})
  repair s = manage_app env upsert s >> apply_site_config env s.module_id upsert s

  abbrev pub add_error : Result ServiceError (Unit {0}) → List ServiceError → List ServiceError
  add_error (ok a) es = es
  add_error (err e) es = e ∷ es

  abbrev pub is_active : Site → Bool
  is_active s = elim s.state [ active ↦ true | disabled ↦ false | failed ↦ false ]

  abbrev pub repair_active : Bool → Site → M (Unit {0})
  repair_active true s = repair s
  repair_active false s = pure tt

  -- the errors, in order, and the state after them
  unfoldable pub repair_all : List Site → World → List ServiceError × World
  repair_all [] w = ([], w)
  repair_all (s ∷ ss) w =
      let (r, v) = repair_active (is_active s) s w in
      let (es, u) = repair_all ss v in (add_error r es, u)

  abbrev pub repair_rows : M (List ServiceError)
  repair_rows w = let (es, v) = repair_all w.rows w in (ok es, v)

  -- ReconcileActive; the joined errors are a list, which is empty for nil
  unfoldable pub reconcile_active : M (List ServiceError)
  reconcile_active = attempt database repair_rows
