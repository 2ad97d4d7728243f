-- ===== src/Site/ServiceExamples.antt =====
-- The theorems about the site service at concrete requests, and tests.
use opendeploy.Common.{
  ◌≡◌, refl, true, false, Bool, Option, some, none, [], ◌∷◌, List, String, ok, err,
}
use opendeploy.Common.Text.{Text, codes, text_eq, has_prefix, contains_byte, trim_space, split}
use opendeploy.Common.Action.{◌>>=◌, ◌>>◌, pure, raise, guard, or_undo, ignore}
use opendeploy.Nginx.Sites.{upsert, delete}
use opendeploy.Site.Validation.{
  pos, validate_domain, check_labels, check_label, trim_dot, normalize_root_path,
  is_safe_linux_path, validate_php_version, validate_ssl, validate_proxy,
}
use opendeploy.Site.Records.{
  State, active, disabled, primary, Site, Ssl, CreateRequest, UpdateRequest, Env, known, World,
  unhealthy, conflict, apply_web, create_directory, chown, delete_file,
}
use opendeploy.Site.Effects.{
  attempt, call, found, find_site, find_by_id, create_row, update_row, apply_site_config,
  manage_app, backup_critical, verify_site_health,
}
use opendeploy.Site.Lifecycle.{set_state, set_found, apply_state, rollback, enable_site}
use opendeploy.Site.Create.{
  lift, apply_default_php, validated, drop_root, make_root, own_root, first_certificate,
  prepare_app, prepare, provision, create,
}
use opendeploy.Site.Update.{
  change_version, change_app, change_ssl, change_root, change, next_certificate, drop_previous_app,
  switch_over, undo_update, reprovision, update,
}
use opendeploy.Site.Domains.{Distinct, create_site, remove_site, serve_all, serve_all-Distinct}
use opendeploy.Site.Calm.{no_fault}
use opendeploy.Site.Undoing.{switch, switch_undone}
use opendeploy.Site.Creation.{Created, create-Created}

abbrev same_path : Text → Text
same_path s = s

abbrev env : Env
env = record {
  has_backup = false;
  settings = none;
  is_remote = false;
  web_account = known;
  is_web_server = λ m. true;
  is_app_server = λ t. true;
  has_certbot = true;
}

abbrev root : Text
root = codes "/srv/a"

abbrev site : State → Option Ssl → Site
site state ssl = record {
  id = "s1";
  name = "shop";
  module_id = "nginx";
  root_path = root;
  state = state;
  domains = record { domain = codes "a.b"; domain_type = primary } ∷ [];
  app = record { app_type = "static"; app_version = none; proxy_target = none };
  ssl = ssl;
  proxy_enabled = false;
  proxy_host = [];
  proxy_port = pos 0;
}

abbrev world : List Site → List Bool → World
world rows probes = record { rows = rows; calls = []; faults = []; probes = probes }

abbrev request : CreateRequest
request = record {
  name = "shop";
  domain = codes "A.b";
  module_id = "nginx";
  root_path = root;
  app_type = "static";
  app_version = none;
  proxy_target = none;
  ssl_enabled = false;
  ssl_provider = none;
  ssl_cert = none;
  ssl_key = none;
  proxy_enabled = false;
  proxy_host = none;
  proxy_port = none;
}

create-Created_example :
    Created same_path request [] (create env same_path "s1" request (world [] (true ∷ [])))
create-Created_example = create-Created env same_path "s1" request (world [] (true ∷ []))

created_site : (create env same_path "s1" request (world [] (true ∷ []))).0 ≡ ok (site active none)
unfolding create lift apply_default_php validated drop_root make_root own_root first_certificate
    prepare_app prepare provision validate_domain check_labels check_label trim_dot trim_space split
    normalize_root_path is_safe_linux_path contains_byte has_prefix text_eq validate_php_version
    validate_ssl validate_proxy attempt call create_row apply_site_config manage_app backup_critical
    verify_site_health pure raise guard or_undo ignore ◌>>=◌ ◌>>◌
created_site = refl

-- a site that is created where a root directory is loses the directory when the check fails
lost_root :
    (create env same_path "s1" request (world [] [])).1.calls
    ≡ delete_file root
      ∷ apply_web "nginx" delete (site active none)
      ∷ apply_web "nginx" upsert (site active none)
      ∷ chown root
      ∷ create_directory root
      ∷ []
unfolding create lift apply_default_php validated drop_root make_root own_root first_certificate
    prepare_app prepare provision validate_domain check_labels check_label trim_dot trim_space split
    normalize_root_path is_safe_linux_path contains_byte has_prefix text_eq validate_php_version
    validate_ssl validate_proxy attempt call create_row apply_site_config manage_app backup_critical
    verify_site_health pure raise guard or_undo ignore ◌>>=◌ ◌>>◌
lost_root = refl

-- a second site of the same domain takes the web server's configuration of the first one away
lost_configuration :
    (create env same_path "s2" request (world (site active none ∷ []) (true ∷ []))).0 ≡ err conflict
unfolding create lift apply_default_php validated drop_root make_root own_root first_certificate
    prepare_app prepare provision validate_domain check_labels check_label trim_dot trim_space split
    normalize_root_path is_safe_linux_path contains_byte has_prefix text_eq validate_php_version
    validate_ssl validate_proxy attempt call create_row apply_site_config manage_app backup_critical
    verify_site_health pure raise guard or_undo ignore ◌>>=◌ ◌>>◌
lost_configuration = refl

serve_all-Distinct_example :
    Distinct
      (serve_all env same_path
        (create_site "s1" request ∷ create_site "s2" request ∷ remove_site "s1" ∷ [])
        (world [] (true ∷ true ∷ []))).rows
unfolding Distinct
serve_all-Distinct_example =
    serve_all-Distinct env same_path
      (create_site "s1" request ∷ create_site "s2" request ∷ remove_site "s1" ∷ [])
      (world [] (true ∷ true ∷ [])) tt

-- the site does not answer
switch_undone_example :
    find_site "s1" (switch env true "s1" (world (site disabled none ∷ []) [])).1.rows
    ≡ some (site disabled none)
unfolding enable_site set_state set_found apply_state rollback found find_by_id update_row attempt
    call apply_site_config manage_app backup_critical verify_site_health pure raise guard or_undo
    ignore ◌>>=◌ ◌>>◌
switch_undone_example =
    switch_undone env (site disabled none) true (world (site disabled none ∷ []) []) unhealthy
      (no_fault refl) refl refl "s1"

abbrev ssl_of : String → Ssl
ssl_of provider = record {
  provider = provider;
  cert_path = none;
  key_path = none;
  force_https = false;
  auto_renew = true;
}

abbrev no_change : UpdateRequest
no_change = record {
  name = none;
  root_path = none;
  app_type = none;
  app_version = none;
  proxy_target = none;
  ssl_enabled = none;
  ssl_provider = none;
  ssl_cert = none;
  ssl_key = none;
  force_https = none;
  proxy_enabled = none;
  proxy_host = none;
  proxy_port = none;
}

-- an update puts a disabled site on the web server again, and it stays disabled in the rows
woken_site :
    ((update env same_path "s1" no_change (world (site disabled none ∷ []) (true ∷ []))).1.calls
      ≡ apply_web "nginx" upsert (site disabled none) ∷ [])
unfolding update lift change_version change_app change_ssl change_root change next_certificate
    drop_previous_app switch_over undo_update reprovision validate_proxy attempt call found
    find_by_id update_row text_eq apply_site_config manage_app backup_critical verify_site_health
    pure raise guard or_undo ignore ◌>>=◌ ◌>>◌
woken_site = refl

-- the request that changes the provider of a site's certificate to certbot asks for no certificate: the
-- calls are those of the same update without it
unasked_certificate :
    (update env same_path "s1"
      (record no_change { ssl_provider = some "certbot" })
      (world (site active (some (ssl_of "custom")) ∷ []) (true ∷ []))).1.calls
    ≡ apply_web "nginx" upsert (site active (some (ssl_of "certbot"))) ∷ []
unfolding update lift change_version change_app change_ssl change_root change next_certificate
    drop_previous_app switch_over undo_update reprovision validate_proxy attempt call found
    find_by_id update_row text_eq apply_site_config manage_app backup_critical verify_site_health
    pure raise guard or_undo ignore ◌>>=◌ ◌>>◌
unasked_certificate = refl
