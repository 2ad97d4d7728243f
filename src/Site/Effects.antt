-- ===== src/Site/Effects.antt =====
-- repository.go, deploy_service.go and the calls of service.go and operations.go, each of which may fail
-- and changes nothing then.
use opendeploy.Common.{
  ℕ, zero, suc, Bool, true, false, not, ◌||◌, Option, none, some, List, [], ◌∷◌, String, ok, err,
  if◌then◌else◌, str_eq, any,
}
use opendeploy.Common.Text.{Text, text_eq}
use opendeploy.Common.Action.{pure, raise, ◌>>◌, guard}
use opendeploy.Nginx.Sites.{SiteAction}
use opendeploy.Site.Records.{
  Domain, Site, primary, alias, redirect, M, Env, ServiceError, refused, database, conflict,
  not_found, backup_failed, no_module, no_app_module, no_certbot, unhealthy, no_domain, Call,
  back_up, apply_web, apply_app, certify,
}

abbrev pub fails : List ℕ → Bool
fails [] = false
fails (zero ∷ fs) = true
fails (suc n ∷ fs) = false

abbrev pub later : List ℕ → List ℕ
later [] = []
later (zero ∷ fs) = fs
later (suc n ∷ fs) = n ∷ fs

abbrev pub failing : {A : Type 0} → Bool → ServiceError → M A → M A
failing true e m w = (err e, w)
failing false e m w = m w

-- one call or statement: `e` if it fails
unfoldable pub attempt : {A : Type 0} → ServiceError → M A → M A
attempt e m w = failing (fails w.faults) e m (record w { faults = later w.faults })

unfoldable pub call : Call → ServiceError → M (Unit {0})
unfolding attempt
call c e = attempt e (λ w. (ok tt, record w { calls = c ∷ w.calls }))

-- Repository
abbrev pub find_site : String → List Site → Option Site
find_site id [] = none
find_site id (s ∷ ss) = if str_eq s.id id then some s else find_site id ss

unfoldable pub found : Option Site → M Site
found none = raise not_found
found (some s) = pure s

unfoldable pub find_by_id : String → M Site
unfolding attempt found
find_by_id id = attempt database (λ w. found (find_site id w.rows) w)

abbrev pub has_domain : Text → Site → Bool
has_domain d s = any (λ e. text_eq e.domain d) s.domains

-- UNIQUE(server_id, domain)
abbrev pub is_taken : Site → List Site → Bool
is_taken s rows = any (λ e. any (has_domain e.domain) rows) s.domains

abbrev pub created : Site → Bool → M (Unit {0})
created s true w = (err conflict, w)
created s false w = (ok tt, record w { rows = s ∷ w.rows })

abbrev pub insert_site : Site → M (Unit {0})
insert_site s w = created s (is_taken s w.rows) w

-- the id is a fresh one
unfoldable pub create_row : Site → M (Unit {0})
create_row s = attempt database (insert_site s)

abbrev pub replace : Site → List Site → List Site
replace s [] = []
replace s (r ∷ rs) =
    if str_eq r.id s.id then record s { domains = r.domains } ∷ replace s rs else r ∷ replace s rs

abbrev pub updated : Site → Option Site → M (Unit {0})
updated s none w = (err not_found, w)
updated s (some r) w = (ok tt, record w { rows = replace s w.rows })

abbrev pub change_site : Site → M (Unit {0})
change_site s w = updated s (find_site s.id w.rows) w

-- the domains are not written
unfoldable pub update_row : Site → M (Unit {0})
update_row s = attempt database (change_site s)

abbrev pub without : String → List Site → List Site
without id [] = []
without id (r ∷ rs) = if str_eq r.id id then without id rs else r ∷ without id rs

abbrev pub cut_site : String → M (Unit {0})
cut_site id w = (ok tt, record w { rows = without id w.rows })

unfoldable pub delete_row : String → M (Unit {0})
delete_row id = attempt database (cut_site id)

-- managesAppServer
abbrev pub manages_app_server : String → Bool
manages_app_server t = not (str_eq t "" || (str_eq t "static" || str_eq t "proxy"))

-- the first primary domain, else the first one
abbrev pub first_primary : List Domain → Text → Text
first_primary [] d = d
first_primary (e ∷ es) d = elim e.domain_type [
  | primary ↦ e.domain
  | alias ↦ first_primary es d
  | redirect ↦ first_primary es d
]

module _ (env : Env) where
  -- applySiteConfig, DeployService.Apply
  unfoldable pub apply_site_config : String → SiteAction → Site → M (Unit {0})
  apply_site_config module_id action s =
      guard (env.is_web_server module_id) no_module >> call (apply_web module_id action s) refused

  -- applyAppConfig, DeployService.ApplyApp
  unfoldable pub apply_app_config : String → SiteAction → Site → M (Unit {0})
  apply_app_config app_type action s =
      guard (env.is_app_server app_type) no_app_module >> call (apply_app app_type action s) refused

  -- `if managesAppServer(t) { applyAppConfig(t, …) }`
  unfoldable pub manage_app : SiteAction → Site → M (Unit {0})
  manage_app action s =
      if manages_app_server s.app.app_type
      then apply_app_config s.app.app_type action s
      else pure tt

  -- obtainCertbotSSL, DeployService.ObtainCertificate
  unfoldable pub obtain_certificate : Text → M (Unit {0})
  obtain_certificate domain = guard env.has_certbot no_certbot >> call (certify domain) refused

  -- backupCritical
  unfoldable pub backup_critical : M (Unit {0})
  backup_critical = if env.has_backup then call back_up backup_failed else pure tt

-- the rounds of the loop that are left
abbrev pub probe : ℕ → List Bool → Bool × List Bool
probe zero ps = (false, ps)
probe (suc n) [] = (false, [])
probe (suc n) (true ∷ ps) = (true, ps)
probe (suc n) (false ∷ ps) = probe n ps

abbrev pub checked : Bool × List Bool → M (Unit {0})
checked (true, rest) w = (ok tt, record w { probes = rest })
checked (false, rest) w = (err unhealthy, record w { probes = rest })

-- without a domain it panics
abbrev pub check_domains : List Domain → M (Unit {0})
check_domains [] w = (err no_domain, w)
check_domains (d ∷ ds) w = checked (probe 10 w.probes) w

-- the domain that is asked for changes no answer here
unfoldable pub verify_site_health : Site → M (Unit {0})
verify_site_health s = check_domains s.domains
