-- ===== src/Site/Records.antt =====
-- domain.go: sites and the requests for them, and what the service works on. Ids of rows, owners and
-- times are left out.
use opendeploy.Common.{ℕ, Bool, Option, List, String}
use opendeploy.Common.Text.{Text}
use opendeploy.Common.Action.{Action}
use opendeploy.Site.Validation.{ℤ, SiteError}
use opendeploy.Nginx.Sites.{SiteAction}

pub data State : Type 0 where
  active disabled failed : State

pub data DomainType : Type 0 where
  primary alias redirect : DomainType

pub record Domain : Type 0 where
  pub domain : Text
  pub domain_type : DomainType

pub record App : Type 0 where
  pub app_type : String
  pub app_version : Option Text
  pub proxy_target : Option Text

pub record Ssl : Type 0 where
  pub provider : String
  pub cert_path : Option Text
  pub key_path : Option Text
  pub force_https : Bool
  pub auto_renew : Bool

pub record Site : Type 0 where
  pub id : String
  pub name : String
  pub module_id : String
  pub root_path : Text
  pub state : State
  pub domains : List Domain
  pub app : App
  pub ssl : Option Ssl
  pub proxy_enabled : Bool
  pub proxy_host : Text
  pub proxy_port : ℤ

pub record CreateRequest : Type 0 where
  pub name : String
  pub domain : Text
  pub module_id : String
  pub root_path : Text
  pub app_type : String
  pub app_version : Option Text
  pub proxy_target : Option Text
  pub ssl_enabled : Bool
  pub ssl_provider : Option String
  pub ssl_cert : Option Text
  pub ssl_key : Option Text
  pub proxy_enabled : Bool
  pub proxy_host : Option Text
  pub proxy_port : Option ℤ

-- module_id, which Update ignores, is left out
pub record UpdateRequest : Type 0 where
  pub name : Option String
  pub root_path : Option Text
  pub app_type : Option String
  pub app_version : Option Text
  pub proxy_target : Option Text
  pub ssl_enabled : Option Bool
  pub ssl_provider : Option String
  pub ssl_cert : Option Text
  pub ssl_key : Option Text
  pub force_https : Option Bool
  pub proxy_enabled : Option Bool
  pub proxy_host : Option Text
  pub proxy_port : Option ℤ

pub data ServiceError : Type 0 where
  invalid : SiteError → ServiceError
  no_default_php module_required bad_cert_path bad_key_path : ServiceError
  backup_failed root_failed no_web_user bad_web_user chown_failed : ServiceError
  no_module no_app_module no_certbot refused unhealthy no_domain : ServiceError
  database conflict not_found : ServiceError

-- a call that leaves Core: to the backups, the Agent, or a module
pub data Call : Type 0 where
  back_up : Call
  create_directory prepare_root chown delete_file : Text → Call
  apply_web : String → SiteAction → Site → Call
  apply_app : String → SiteAction → Site → Call
  certify : Text → Call

-- `rows` are the stored sites of the server and `calls` the calls that succeeded, the last one first.
-- `faults` has for each failing call or statement the number of good ones before it, and `probes` the
-- answers of the health checks to come, true for an accepted status. Past its end none is accepted.
pub record World : Type 0 where
  pub rows : List Site
  pub calls : List Call
  pub faults : List ℕ
  pub probes : List Bool

abbrev pub M : Type 0 → Type 0
M A = Action ServiceError World A

-- osprovider and os/user: the account that owns web roots
pub data WebAccount : Type 0 where
  no_provider unknown_user bad_ids known : WebAccount

-- What the service is connected with: the backups and the settings, if they are set, with what
-- `core.default_php` is (none if it cannot be read); whether the server is a remote one; and which ids
-- the registry finds as web servers, application servers and certbot.
pub record Env : Type 0 where
  pub has_backup : Bool
  pub settings : Option (Option Text)
  pub is_remote : Bool
  pub web_account : WebAccount
  pub is_web_server : String → Bool
  pub is_app_server : String → Bool
  pub has_certbot : Bool
