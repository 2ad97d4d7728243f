-- ===== src/Site/Create.antt =====
-- Service.Create of service.go.
use opendeploy.Common.{
  ◌+◌, Bool, true, false, not, ◌&&◌, Option, none, some, [], ◌∷◌, String, Result, ok, err,
  if◌then◌else◌, leb, str_eq, map,
}
use opendeploy.Common.Text.{Text, codes, has_prefix, trim_space}
use opendeploy.Common.Action.{pure, raise, ◌>>=◌, ◌>>◌, guard, or_undo, ignore}
use opendeploy.Nginx.Sites.{upsert, delete}
use opendeploy.Site.Validation.{
  pos, SiteError, is_empty, validate_domain, normalize_root_path, validate_php_version,
  validate_ssl, validate_proxy,
}
use opendeploy.Site.Records.{
  active, primary, Ssl, Site, CreateRequest, M, Env, WebAccount, no_provider, unknown_user, bad_ids,
  known, invalid, no_default_php, module_required, root_failed, no_web_user, bad_web_user,
  chown_failed, create_directory, prepare_root, chown, delete_file,
}
use opendeploy.Site.Effects.{
  call, create_row, apply_site_config, manage_app, obtain_certificate, backup_critical,
  verify_site_health,
}

-- a validation of the request
unfoldable pub lift : {A : Type 0} → Result SiteError A → M A
lift (ok a) = pure a
lift (err e) = raise (invalid e)

abbrev pub is_blank : Option Text → Bool
is_blank none = true
is_blank (some v) = is_empty (trim_space v)

-- strings.ToLower of a domain that is ASCII
abbrev pub to_lower : Text → Text
to_lower = map (λ c. if leb b'A' c && leb c b'Z' then c + 32 else c)

-- the version that is written back; an error counts for PHP only
abbrev pub php_version : String → Option Text → Result SiteError (Option Text)
php_version t v = elim (validate_php_version v) [
  | ok value ↦ ok value
  | err e ↦ if str_eq t "php" then err e else ok v
]

abbrev pub or_default {ℓ} : {A : Type ℓ} → A → Option A → A
or_default d none = d
or_default d (some a) = a

abbrev pub starts_with : String → Option Text → Bool
starts_with p none = false
starts_with p (some c) = has_prefix c (codes p)

-- the provider of a new certificate, by the path that validateSSL has cleaned in the request
abbrev pub ssl_provider : Option String → Option Text → String
ssl_provider asked cert =
    let chosen = or_default "" asked in
    if not (str_eq chosen "")
    then chosen
    else (if starts_with "/etc/letsencrypt" cert then "certbot" else "custom")

abbrev pub new_ssl : CreateRequest → Option Text × Option Text → Option Ssl
new_ssl req paths =
    if req.ssl_enabled
    then some (record {
      provider = ssl_provider req.ssl_provider paths.0;
      cert_path = paths.0;
      key_path = paths.1;
      force_https = false;
      auto_renew = true;
    })
    else none

-- the site that is created, for the validated values and a fresh id
abbrev pub new_site :
    String → CreateRequest → Option Text → Text → Option Text × Option Text → Option Text → Site
new_site id req version root paths host = record {
  id = id;
  name = req.name;
  module_id = req.module_id;
  root_path = root;
  state = active;
  domains = record { domain = to_lower (trim_space req.domain); domain_type = primary } ∷ [];
  app = record { app_type = req.app_type; app_version = version; proxy_target = req.proxy_target };
  ssl = new_ssl req paths;
  proxy_enabled = req.proxy_enabled;
  proxy_host = if req.proxy_enabled then or_default (codes "127.0.0.1") host else [];
  proxy_port = if req.proxy_enabled then or_default (pos 0) req.proxy_port else pos 0;
}

abbrev pub uses_certbot : Option Ssl → Bool
uses_certbot none = false
uses_certbot (some s) = str_eq s.provider "certbot"

module _ (env : Env) (clean : Text → Text) where
  abbrev pub default_php : Option (Option Text) → Option Text → M (Option Text)
  default_php none v = pure v
  default_php (some none) v = raise no_default_php
  default_php (some (some d)) v = pure (if is_empty (trim_space d) then v else some (trim_space d))

  -- applyDefaultPHP: the version of the request afterwards
  unfoldable pub apply_default_php : CreateRequest → M (Option Text)
  apply_default_php req =
      if str_eq req.app_type "php" && is_blank req.app_version
      then default_php env.settings req.app_version
      else pure req.app_version

  -- the site of a request that is valid
  unfoldable pub validated : String → CreateRequest → Option Text → M Site
  validated id req version = do
    lift (validate_domain req.domain)
    root ← lift (normalize_root_path clean req.root_path)
    version ← lift (php_version req.app_type version)
    guard (not (str_eq req.module_id "")) module_required
    paths ← lift (validate_ssl clean req.ssl_enabled req.ssl_cert req.ssl_key)
    host ← lift (validate_proxy req.proxy_enabled req.proxy_host req.proxy_port)
    pure (new_site id req version root paths host)

  -- `_ = s.agent.FileDelete(ctx, site.RootPath)`
  unfoldable pub drop_root : Site → M (Unit {0})
  drop_root s = ignore (call (delete_file s.root_path) root_failed)

  unfoldable pub make_root : Site → M (Unit {0})
  make_root s =
      if env.is_remote
      then call (prepare_root s.root_path) root_failed
      else call (create_directory s.root_path) root_failed

  abbrev pub own : WebAccount → Site → M (Unit {0})
  own no_provider s = pure tt
  own unknown_user s = or_undo (raise no_web_user) (drop_root s)
  own bad_ids s = or_undo (raise bad_web_user) (drop_root s)
  own known s = or_undo (call (chown s.root_path) chown_failed) (drop_root s)

  unfoldable pub own_root : Site → M (Unit {0})
  own_root s = if env.is_remote then pure tt else own env.web_account s

  unfoldable pub first_certificate : CreateRequest → Site → M (Unit {0})
  first_certificate req s =
      if uses_certbot s.ssl
      then apply_site_config env s.module_id upsert (record s { ssl = none })
        >> or_undo (obtain_certificate env req.domain)
            (ignore (apply_site_config env s.module_id delete s))
      else pure tt

  abbrev pub undo_app : Site → M (Unit {0})
  undo_app s = ignore (manage_app env delete s)

  abbrev pub undo_web : Site → M (Unit {0})
  undo_web s = ignore (apply_site_config env s.module_id delete s)

  unfoldable pub prepare_app : CreateRequest → Site → M (Unit {0})
  prepare_app req s = do
    make_root s
    own_root s
    first_certificate req s
    or_undo (manage_app env upsert s) (drop_root s)

  -- what Create does between the backup and the row
  unfoldable pub prepare : CreateRequest → Site → M (Unit {0})
  prepare req s = do
    prepare_app req s
    or_undo (apply_site_config env s.module_id upsert s) (undo_app s >> drop_root s)
    or_undo (verify_site_health s) (undo_web s >> undo_app s >> drop_root s)

  unfoldable pub provision : CreateRequest → Site → M Site
  provision req s = do prepare req s; or_undo (create_row s) (undo_web s >> undo_app s); pure s

  -- Service.Create
  unfoldable pub create : String → CreateRequest → M Site
  create id req = do
    version ← apply_default_php req
    s ← validated id req version
    backup_critical env
    provision req s
