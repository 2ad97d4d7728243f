-- ===== src/ControlPlane/Capabilities.antt =====
-- pkg/controlcapabilities/registry.go.
use opendeploy.Common.{
  ◌≡◌, refl, ◌++◌, All, Bool, true, ◌||◌, Option, none, some, List, [], ◌∷◌, String, str_eq, any,
  if◌then◌else◌, arith,
}
use opendeploy.Common.Text.{Text, codes, text_eq, has_prefix}

abbrev pub api_version : String
api_version = "v1"

-- The capabilities that Agents back by concrete command handlers.
abbrev pub names : List String
names =
    "dashboard" ∷ "processes" ∷ "services" ∷ "files" ∷ "firewall" ∷ "cron" ∷ "packages"
    ∷ "nginx_sites" ∷ "site_runtime" ∷ "certificates" ∷ []

-- `none` is the result `("", false)`.
unfoldable pub required_for_command : Text → Option String
required_for_command kind =
    if text_eq kind (codes "system.stats")
    then some "dashboard"
    else if has_prefix kind (codes "process.")
    then some "processes"
    else if has_prefix kind (codes "service.")
    then some "services"
    else if has_prefix kind (codes "file.")
        || (has_prefix kind (codes "directory.") || has_prefix kind (codes "archive."))
    then some "files"
    else if has_prefix kind (codes "firewall.")
    then some "firewall"
    else if has_prefix kind (codes "cron.")
    then some "cron"
    else if has_prefix kind (codes "package.")
    then some "packages"
    else if has_prefix kind (codes "nginx.site.")
    then some "nginx_sites"
    else if has_prefix kind (codes "site.")
    then some "site_runtime"
    else if has_prefix kind (codes "certificate.")
    then some "certificates"
    else none

-- The command namespaces of the wire protocol, each with the capability that guards it.
abbrev pub namespaces : List (String × String)
namespaces =
    ("process.", "processes")
    ∷ ("service.", "services")
    ∷ ("file.", "files")
    ∷ ("directory.", "files")
    ∷ ("archive.", "files")
    ∷ ("firewall.", "firewall")
    ∷ ("cron.", "cron")
    ∷ ("package.", "packages")
    ∷ ("nginx.site.", "nginx_sites")
    ∷ ("site.", "site_runtime")
    ∷ ("certificate.", "certificates")
    ∷ []

-- Every command of a namespace, whatever follows the prefix, requires the capability of that
-- namespace: no earlier case of the switch catches it.
pub required_for_command-namespaces :
    All
      (λ (entry : String × String).
        (rest : Text) → required_for_command (codes entry.0 ++ rest) ≡ some entry.1)
      namespaces
unfolding required_for_command text_eq has_prefix
required_for_command-namespaces = (
  λ rest. refl,
  (
    λ rest. refl,
    (
      λ rest. refl,
      (
        λ rest. refl,
        (
          λ rest. refl,
          (
            λ rest. refl,
            (λ rest. refl, (λ rest. refl, (λ rest. refl, (λ rest. refl, (λ rest. refl, tt))))),
          ),
        ),
      ),
    ),
  ),
)

-- No capability, or one of the published ones.
abbrev pub is_published : Option String → Bool
is_published none = true
is_published (some capability) = any (λ n. str_eq n capability) names

-- Every command that is routed at all requires one of the published capabilities, so an Agent that
-- advertises all of `names` can be sent every registered command.
pub required_for_command-is_published :
    (kind : Text) → is_published (required_for_command kind) ≡ true
unfolding required_for_command
required_for_command-is_published kind = ground arith
