-- ===== src/Site/Update.antt =====
-- Service.Update of service.go. The copy `previous := *site` shares the pointer to the certificate with
-- the site, so that `previous.SSL` is read through it, after what Update has written there.
use opendeploy.Common.{
  Bool, true, false, not, ◌&&◌, ◌||◌, [], Option, none, some, String, if◌then◌else◌, str_eq,
}
use opendeploy.Common.Text.{Text, text_eq}
use opendeploy.Common.Action.{pure, raise, ◌>>=◌, ◌>>◌, or_undo, ignore}
use opendeploy.Nginx.Sites.{upsert, delete}
use opendeploy.Site.Validation.{
  normalize_root_path, normalize_certificate_path, validate_php_version, validate_proxy,
}
use opendeploy.Site.Records.{
  App, Ssl, Site, UpdateRequest, M, Env, ServiceError, root_failed, bad_cert_path, bad_key_path,
  create_directory,
}
use opendeploy.Site.Effects.{
  call, find_by_id, update_row, apply_site_config, apply_app_config, manage_app, manages_app_server,
  first_primary, obtain_certificate, backup_critical, verify_site_health,
}
use opendeploy.Site.Create.{lift, or_default, starts_with, uses_certbot}

-- appConfigurationChanged
abbrev pub app_configuration_changed : Site → Site → Bool
app_configuration_changed previous current =
    not (str_eq previous.app.app_type current.app.app_type)
    || not
        (text_eq (or_default [] previous.app.app_version) (or_default [] current.app.app_version))

abbrev pub keep_if {ℓ} : {A : Type ℓ} → Bool → Option A → Option A
keep_if true o = o
keep_if false o = none

-- the application after `if req.AppType != nil`
abbrev pub change_type : Option String → App → App
change_type none a = a
change_type (some t) a = record {
  app_type = t;
  app_version = keep_if (str_eq t "php") a.app_version;
  proxy_target = keep_if (str_eq t "proxy") a.proxy_target;
}

abbrev pub is_php : Option String → Bool
is_php none = false
is_php (some t) = str_eq t "php"

abbrev pub version_of : Bool → Option Text → App → M App
version_of php none a = pure a
version_of php (some v) a =
    if php
    then lift (validate_php_version (some v)) >>= (λ w. pure (record a { app_version = w }))
    else pure (record a { app_version = some v })

-- the version of the request, checked if the request asks for PHP
unfoldable pub change_version : UpdateRequest → App → M App
change_version req a = version_of (is_php req.app_type) req.app_version a

abbrev pub or_else {ℓ} : {A : Type ℓ} → Option A → Option A → Option A
or_else none o = o
or_else (some a) o = some a

unfoldable pub change_app : UpdateRequest → App → M App
change_app req a = do
  b ← change_version req (change_type req.app_type a)
  pure (record b { proxy_target = or_else req.proxy_target b.proxy_target })

-- the certificate after `if req.SSLEnabled != nil`
abbrev pub enable_ssl : Option Bool → Option Ssl → Option Ssl
enable_ssl none o = o
enable_ssl (some false) o = none
enable_ssl (some true) (some s) = some s
enable_ssl (some true) none = some (record {
  provider = "custom";
  cert_path = none;
  key_path = none;
  force_https = false;
  auto_renew = true;
})

abbrev pub change_provider : UpdateRequest → Ssl → String
change_provider req s = elim req.ssl_provider [
  | some p ↦ p
  | none ↦
      if starts_with "/etc/letsencrypt" req.ssl_cert && str_eq s.provider "custom"
      then "certbot"
      else s.provider
]

-- The SSL objects that Update may point at: the one that was read with the row, and a new one.
pub data Object : Type 0 where
  loaded allocated : Object

-- the pointer of a site that was just read
abbrev pub pointer : Option Ssl → Option Object
pointer none = none
pointer (some s) = some loaded

-- `site.SSL` after `if req.SSLEnabled != nil`
abbrev pub repoint : Option Bool → Option Object → Option Object
repoint none p = p
repoint (some false) p = none
repoint (some true) none = some allocated
repoint (some true) (some p) = some p

abbrev pub same_object : Object → Object → Bool
same_object loaded loaded = true
same_object allocated allocated = true
same_object p q = false

-- the objects, before and after the writes through `site.SSL`
abbrev pub read_objects : Option Ssl → Object → Option Ssl
read_objects old loaded = old
read_objects old allocated = none

abbrev pub write_object : Option Object → Option Ssl → (Object → Option Ssl) → Object → Option Ssl
write_object none value objects q = objects q
write_object (some p) value objects q = if same_object p q then value else objects q

abbrev pub deref : (Object → Option Ssl) → Option Object → Option Ssl
deref objects none = none
deref objects (some p) = objects p

-- what `previous.SSL` reads once Update has written `new` through `site.SSL`
abbrev pub previous_ssl : Option Bool → Option Ssl → Option Ssl → Option Ssl
previous_ssl enabled old new =
    deref (write_object (repoint enabled (pointer old)) new (read_objects old)) (pointer old)

abbrev pub needs_certbot : Option Ssl → Option Ssl → Bool
needs_certbot previous current = uses_certbot current && not (uses_certbot previous)

abbrev pub path_or : ServiceError → Option Text → M (Option Text)
path_or e none = raise e
path_or e (some c) = pure (some c)

module _ (env : Env) (clean : Text → Text) where
  abbrev pub change_path : ServiceError → Option Text → Option Text → M (Option Text)
  change_path e none old = pure old
  change_path e (some p) old = path_or e (normalize_certificate_path clean p)

  unfoldable pub change_ssl : UpdateRequest → Option Ssl → M (Option Ssl)
  change_ssl req none = pure none
  change_ssl req (some s) = do
    cert ← change_path bad_cert_path req.ssl_cert s.cert_path
    key ← change_path bad_key_path req.ssl_key s.key_path
    pure (
        some (record {
          provider = change_provider req s;
          cert_path = cert;
          key_path = key;
          force_https = or_default s.force_https req.force_https;
          auto_renew = s.auto_renew;
        }))

  unfoldable pub change_root : Option Text → Text → M Text
  change_root none old = pure old
  change_root (some raw) old = do
    root ← lift (normalize_root_path clean raw)
    if text_eq root old then pure tt else call (create_directory root) root_failed
    pure root

  -- the site with the changes of the request
  unfoldable pub change : UpdateRequest → Site → M Site
  change req s = do
    root ← change_root req.root_path s.root_path
    app ← change_app req s.app
    let proxied = or_default s.proxy_enabled req.proxy_enabled
    let port = or_default s.proxy_port req.proxy_port
    host ← lift (validate_proxy proxied (some (or_default s.proxy_host req.proxy_host)) (some port))
    ssl ← change_ssl req (enable_ssl req.ssl_enabled s.ssl)
    pure (record s {
      name = or_default s.name req.name;
      root_path = root;
      app = app;
      ssl = ssl;
      proxy_enabled = proxied;
      proxy_host = or_default [] host;
      proxy_port = port;
    })

  abbrev pub web_back : Site → M (Unit {0})
  web_back previous = ignore (apply_site_config env previous.module_id upsert previous)

  abbrev pub app_back : Site → M (Unit {0})
  app_back previous = ignore (manage_app env upsert previous)

  unfoldable pub next_certificate : Site → Site → M (Unit {0})
  next_certificate previous s =
      if needs_certbot previous.ssl s.ssl
      then apply_site_config env s.module_id upsert (record s { ssl = none })
        >> or_undo (obtain_certificate env (first_primary s.domains [])) (web_back previous)
      else pure tt

  unfoldable pub drop_previous_app : Site → Site → M (Unit {0})
  drop_previous_app previous s =
      if app_configuration_changed previous s && manages_app_server previous.app.app_type
      then or_undo (apply_app_config env previous.app.app_type delete previous) (
          web_back previous
          >> (ignore (apply_app_config env previous.app.app_type upsert previous)
              >> ignore (manage_app env delete s)))
      else pure tt

  -- what Update does with the changed site before it is stored
  unfoldable pub switch_over : Site → Site → M (Unit {0})
  switch_over previous s = do
    next_certificate previous s
    manage_app env upsert s
    or_undo (apply_site_config env s.module_id upsert s) (app_back previous)
    or_undo (verify_site_health s) (web_back previous >> app_back previous)
    drop_previous_app previous s

  unfoldable pub undo_update : Site → Site → M (Unit {0})
  undo_update previous s = do
    web_back previous
    app_back previous
    if app_configuration_changed previous s then ignore (manage_app env delete s) else pure tt

  unfoldable pub reprovision : Site → Site → M Site
  reprovision previous s = do
    switch_over previous s
    or_undo (update_row s) (undo_update previous s)
    pure s

  -- Service.Update
  unfoldable pub update : String → UpdateRequest → M Site
  update id req = do
    backup_critical env
    old ← find_by_id id
    s ← change req old
    reprovision (record old { ssl = previous_ssl req.ssl_enabled old.ssl s.ssl }) s
