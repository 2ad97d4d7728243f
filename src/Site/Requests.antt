-- ===== src/Site/Requests.antt =====
-- What Create and the calls of the other operations keep true of the stored rows.
use opendeploy.Common.{Option, none, some, List, String, Result, ok, err}
use opendeploy.Common.Text.{Text}
use opendeploy.Common.Action.{◌>>◌, ignore}
use opendeploy.Nginx.Sites.{SiteAction, upsert, enable, disable, delete}
use opendeploy.Site.Validation.{SiteError}
use opendeploy.Site.Records.{
  Site, Env, WebAccount, no_provider, unknown_user, bad_ids, known, no_web_user, bad_web_user,
  chown_failed, root_failed, chown, back_up, backup_failed, refused, no_module, no_app_module,
  no_certbot, certify, apply_web, apply_app, no_default_php, module_required, invalid,
  CreateRequest,
}
use opendeploy.Site.Effects.{
  apply_site_config, apply_app_config, manage_app, manages_app_server, obtain_certificate,
  backup_critical,
}
use opendeploy.Site.Lifecycle.{check_enabled, apply_state}
use opendeploy.Site.Create.{
  lift, default_php, apply_default_php, validated, drop_root, make_root, own, own_root,
  first_certificate, prepare_app, prepare, undo_app, undo_web, uses_certbot,
}
use opendeploy.Site.Keeps.{
  Keeps, Keeps-pure, Keeps-raise, Keeps-guard, Keeps-bind, Keeps-then, Keeps-ignore, Keeps-or_undo,
  Keeps-if, Keeps-call, Keeps-verify_site_health,
}

module _ (P : List Site → Type 0) (env : Env) (clean : Text → Text) where
  pub Keeps-apply_site_config :
      (m : String) (a : SiteAction) (s : Site) → Keeps P (apply_site_config env m a s)
  unfolding apply_site_config
  Keeps-apply_site_config m a s =
      Keeps-then P _ _ (Keeps-guard P (env.is_web_server m) no_module)
        (Keeps-call P (apply_web m a s) refused)

  pub Keeps-apply_app_config :
      (t : String) (a : SiteAction) (s : Site) → Keeps P (apply_app_config env t a s)
  unfolding apply_app_config
  Keeps-apply_app_config t a s =
      Keeps-then P _ _ (Keeps-guard P (env.is_app_server t) no_app_module)
        (Keeps-call P (apply_app t a s) refused)

  pub Keeps-manage_app : (a : SiteAction) (s : Site) → Keeps P (manage_app env a s)
  unfolding manage_app
  Keeps-manage_app a s =
      Keeps-if P (manages_app_server s.app.app_type) _ _ (Keeps-apply_app_config s.app.app_type a s)
        (Keeps-pure P tt)

  pub Keeps-backup_critical : Keeps P (backup_critical env)
  unfolding backup_critical
  Keeps-backup_critical =
      Keeps-if P env.has_backup _ _ (Keeps-call P back_up backup_failed) (Keeps-pure P tt)

  pub Keeps-obtain_certificate : (d : Text) → Keeps P (obtain_certificate env d)
  unfolding obtain_certificate
  Keeps-obtain_certificate d =
      Keeps-then P _ _ (Keeps-guard P env.has_certbot no_certbot) (Keeps-call P (certify d) refused)

  pub ignored_web :
      (m : String) (a : SiteAction) (s : Site) → Keeps P (ignore (apply_site_config env m a s))
  ignored_web m a s = Keeps-ignore P _ (Keeps-apply_site_config m a s)

  pub ignored_app : (a : SiteAction) (s : Site) → Keeps P (ignore (manage_app env a s))
  ignored_app a s = Keeps-ignore P _ (Keeps-manage_app a s)

  Keeps-check_enabled : (a : SiteAction) (s : Site) → Keeps P (check_enabled env a s)
  Keeps-check_enabled upsert s = Keeps-pure P tt
  Keeps-check_enabled enable s = Keeps-verify_site_health P s
  Keeps-check_enabled disable s = Keeps-pure P tt
  Keeps-check_enabled delete s = Keeps-pure P tt

  pub Keeps-apply_state : (a : SiteAction) (s : Site) → Keeps P (apply_state env a s)
  unfolding apply_state
  Keeps-apply_state a s =
      Keeps-then P _ _ (Keeps-manage_app a s)
        (Keeps-then P _ _ (Keeps-apply_site_config s.module_id a s) (Keeps-check_enabled a s))

  pub Keeps-lift : {A : Type 0} (r : Result SiteError A) → Keeps P (lift r)
  unfolding lift
  Keeps-lift (ok a) = Keeps-pure P a
  Keeps-lift (err e) = Keeps-raise P (invalid e)

  Keeps-default_php :
      (o : Option (Option Text)) (v : Option Text) → Keeps P (default_php env clean o v)
  Keeps-default_php none v = Keeps-pure P v
  Keeps-default_php (some none) v = Keeps-raise P no_default_php
  Keeps-default_php (some (some d)) v = Keeps-pure P _

  pub Keeps-apply_default_php : (req : CreateRequest) → Keeps P (apply_default_php env clean req)
  unfolding apply_default_php
  Keeps-apply_default_php req =
      Keeps-if P _ _ _ (Keeps-default_php env.settings req.app_version)
        (Keeps-pure P req.app_version)

  pub Keeps-validated :
      (id : String) (req : CreateRequest) (v : Option Text) → Keeps P (validated env clean id req v)
  unfolding validated
  Keeps-validated id req v = Keeps-then P _ _ (Keeps-lift _) (
      Keeps-bind P _ _ (Keeps-lift _) λ root. Keeps-bind P _ _ (Keeps-lift _) λ version.
        Keeps-then P _ _ (Keeps-guard P _ module_required) (
          Keeps-bind P _ _ (Keeps-lift _)
            λ paths. Keeps-bind P _ _ (Keeps-lift _) λ host. Keeps-pure P _))

  Keeps-drop_root : (s : Site) → Keeps P (drop_root env clean s)
  unfolding drop_root
  Keeps-drop_root s = Keeps-ignore P _ (Keeps-call P _ root_failed)

  Keeps-make_root : (s : Site) → Keeps P (make_root env clean s)
  unfolding make_root
  Keeps-make_root s =
      Keeps-if P env.is_remote _ _ (Keeps-call P _ root_failed) (Keeps-call P _ root_failed)

  Keeps-own : (a : WebAccount) (s : Site) → Keeps P (own env clean a s)
  Keeps-own no_provider s = Keeps-pure P tt
  Keeps-own unknown_user s = Keeps-or_undo P _ _ (Keeps-raise P no_web_user) (Keeps-drop_root s)
  Keeps-own bad_ids s = Keeps-or_undo P _ _ (Keeps-raise P bad_web_user) (Keeps-drop_root s)
  Keeps-own known s =
      Keeps-or_undo P _ _ (Keeps-call P (chown s.root_path) chown_failed) (Keeps-drop_root s)

  Keeps-own_root : (s : Site) → Keeps P (own_root env clean s)
  unfolding own_root
  Keeps-own_root s = Keeps-if P env.is_remote _ _ (Keeps-pure P tt) (Keeps-own env.web_account s)

  Keeps-first_certificate :
      (req : CreateRequest) (s : Site) → Keeps P (first_certificate env clean req s)
  unfolding first_certificate
  Keeps-first_certificate req s =
      Keeps-if P (uses_certbot s.ssl) _ _
        (Keeps-then P _ _ (Keeps-apply_site_config s.module_id upsert _) (
          Keeps-or_undo P _ _ (Keeps-obtain_certificate req.domain)
            (ignored_web s.module_id delete s)))
        (Keeps-pure P tt)

  pub Keeps-prepare_app : (req : CreateRequest) (s : Site) → Keeps P (prepare_app env clean req s)
  unfolding prepare_app
  Keeps-prepare_app req s = Keeps-then P _ _ (Keeps-make_root s) (
      Keeps-then P _ _ (Keeps-own_root s) (
        Keeps-then P _ _ (Keeps-first_certificate req s)
          (Keeps-or_undo P _ _ (Keeps-manage_app upsert s) (Keeps-drop_root s))))

  pub Keeps-undo_web : (s : Site) → Keeps P (undo_app env clean s >> drop_root env clean s)
  Keeps-undo_web s = Keeps-then P _ _ (ignored_app delete s) (Keeps-drop_root s)

  pub Keeps-undo_prepare :
      (s : Site) → Keeps P (undo_web env clean s >> undo_app env clean s >> drop_root env clean s)
  Keeps-undo_prepare s =
      Keeps-then P _ _ (Keeps-then P _ _ (ignored_web s.module_id delete s) (ignored_app delete s))
        (Keeps-drop_root s)

  pub before_row : (req : CreateRequest) (s : Site) → Keeps P (prepare env clean req s)
  unfolding prepare
  before_row req s = Keeps-then P _ _ (Keeps-prepare_app req s) (
      Keeps-then P _ _
        (Keeps-or_undo P _ _ (Keeps-apply_site_config s.module_id upsert s) (Keeps-undo_web s))
        (Keeps-or_undo P _ _ (Keeps-verify_site_health P s) (Keeps-undo_prepare s)))

  pub Keeps-undo_create : (s : Site) → Keeps P (undo_web env clean s >> undo_app env clean s)
  Keeps-undo_create s = Keeps-then P _ _ (ignored_web s.module_id delete s) (ignored_app delete s)
