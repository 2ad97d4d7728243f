-- ===== src/Site/Updates.antt =====
-- What Update of service.go keeps true of the stored rows before it writes one.
use opendeploy.Common.{Option, none, some, List}
use opendeploy.Common.Text.{Text, text_eq}
use opendeploy.Nginx.Sites.{upsert, delete}
use opendeploy.Site.Validation.{normalize_certificate_path}
use opendeploy.Site.Records.{
  Site, Env, ServiceError, root_failed, bad_cert_path, bad_key_path, UpdateRequest, Ssl, App,
}
use opendeploy.Site.Update.{
  is_php, version_of, path_or, switch_over, undo_update, change_version, change_app, change_path,
  change_ssl, change_root, change, needs_certbot, next_certificate, app_configuration_changed,
  drop_previous_app,
}
use opendeploy.Site.Keeps.{
  Keeps, Keeps-pure, Keeps-raise, Keeps-bind, Keeps-then, Keeps-ignore, Keeps-or_undo, Keeps-if,
  Keeps-call, Keeps-verify_site_health,
}
use opendeploy.Site.Requests.{
  Keeps-lift, Keeps-apply_site_config, Keeps-apply_app_config, Keeps-manage_app,
  Keeps-obtain_certificate, ignored_web, ignored_app,
}

module _ (P : List Site → Type 0) (env : Env) (clean : Text → Text) where
  Keeps-change_version : (req : UpdateRequest) (a : App) → Keeps P (change_version req a)
  unfolding change_version
  Keeps-change_version req a = go req.app_version
    where
      go : (o : Option Text) → Keeps P (version_of (is_php req.app_type) o a)
      go none = Keeps-pure P a
      go (some v) =
          Keeps-if P (is_php req.app_type) _ _
            (Keeps-bind P _ _ (Keeps-lift P env clean _) λ w. Keeps-pure P _) (Keeps-pure P _)

  Keeps-change_path :
      (e : ServiceError) (o old : Option Text) → Keeps P (change_path env clean e o old)
  Keeps-change_path e none old = Keeps-pure P old
  Keeps-change_path e (some p) old = Keeps-normal e (normalize_certificate_path clean p)
    where
      Keeps-normal : (e : ServiceError) (o : Option Text) → Keeps P (path_or e o)
      Keeps-normal e none = Keeps-raise P e
      Keeps-normal e (some c) = Keeps-pure P (some c)

  Keeps-change_ssl : (req : UpdateRequest) (o : Option Ssl) → Keeps P (change_ssl env clean req o)
  unfolding change_ssl
  Keeps-change_ssl req none = Keeps-pure P none
  Keeps-change_ssl req (some s) =
      Keeps-bind P _ _ (Keeps-change_path bad_cert_path req.ssl_cert s.cert_path) λ c.
        Keeps-bind P _ _ (Keeps-change_path bad_key_path req.ssl_key s.key_path) λ k. Keeps-pure P _

  Keeps-change_root : (o : Option Text) (old : Text) → Keeps P (change_root env clean o old)
  unfolding change_root
  Keeps-change_root none old = Keeps-pure P old
  Keeps-change_root (some raw) old = Keeps-bind P _ _ (Keeps-lift P env clean _) λ root.
      Keeps-then P _ _
        (Keeps-if P (text_eq root old) _ _ (Keeps-pure P tt) (Keeps-call P _ root_failed))
        (Keeps-pure P root)

  pub Keeps-change : (req : UpdateRequest) (s : Site) → Keeps P (change env clean req s)
  unfolding change change_app
  Keeps-change req s = Keeps-bind P _ _ (Keeps-change_root req.root_path s.root_path) λ root.
      Keeps-bind P _ _ (Keeps-bind P _ _ (Keeps-change_version req _) λ b. Keeps-pure P _) λ app.
        Keeps-bind P _ _ (Keeps-lift P env clean _)
          λ host. Keeps-bind P _ _ (Keeps-change_ssl req _) λ ssl. Keeps-pure P _

  Keeps-next_certificate : (old s : Site) → Keeps P (next_certificate env clean old s)
  unfolding next_certificate
  Keeps-next_certificate old s =
      Keeps-if P (needs_certbot old.ssl s.ssl) _ _
        (Keeps-then P _ _ (Keeps-apply_site_config P env clean s.module_id upsert _) (
          Keeps-or_undo P _ _ (Keeps-obtain_certificate P env clean _)
            (ignored_web P env clean old.module_id upsert old)))
        (Keeps-pure P tt)

  Keeps-drop_previous_app : (old s : Site) → Keeps P (drop_previous_app env clean old s)
  unfolding drop_previous_app
  Keeps-drop_previous_app old s =
      Keeps-if P _ _ _
        (Keeps-or_undo P _ _ (Keeps-apply_app_config P env clean old.app.app_type delete old) (
          Keeps-then P _ _ (ignored_web P env clean old.module_id upsert old) (
            Keeps-then P _ _
              (Keeps-ignore P _ (Keeps-apply_app_config P env clean old.app.app_type upsert old))
              (ignored_app P env clean delete s))))
        (Keeps-pure P tt)

  pub before_update : (old s : Site) → Keeps P (switch_over env clean old s)
  unfolding switch_over
  before_update old s =
      let web = ignored_web P env clean old.module_id upsert old in
      let app = ignored_app P env clean upsert old in
      Keeps-then P _ _ (Keeps-next_certificate old s) (
        Keeps-then P _ _ (Keeps-manage_app P env clean upsert s) (
          Keeps-then P _ _
            (Keeps-or_undo P _ _ (Keeps-apply_site_config P env clean s.module_id upsert s) app)
            (Keeps-then P _ _
              (Keeps-or_undo P _ _ (Keeps-verify_site_health P s) (Keeps-then P _ _ web app))
              (Keeps-drop_previous_app old s))))

  pub Keeps-undo_update : (old s : Site) → Keeps P (undo_update env clean old s)
  unfolding undo_update
  Keeps-undo_update old s = Keeps-then P _ _ (ignored_web P env clean old.module_id upsert old) (
      Keeps-then P _ _ (ignored_app P env clean upsert old) (
        Keeps-if P (app_configuration_changed old s) _ _ (ignored_app P env clean delete s)
          (Keeps-pure P tt)))
