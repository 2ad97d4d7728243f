-- ===== src/Site/Examples.antt =====
-- The theorems about the validation of sites at concrete requests.
use opendeploy.Common.{◌≡◌, ◌≤◌, ◌⊎◌, refl, true, length, all, All}
use opendeploy.Common.Text.{Text, codes, text_eq, has_prefix, contains_byte, trim_space, split}
use opendeploy.Site.Validation.{
  check_label, check_labels, trim_dot, validate_domain, is_path_char, is_safe_linux_path,
  normalize_root_path,
}
use opendeploy.Site.Safety.{is_domain_char, IsLabel, validate_domain_ok, normalize_root_path_ok}

abbrev same_path : Text → Text
same_path s = s

abbrev domain : Text
domain = codes " shop.example.org. "

validate_domain_ok_example :
    (1 ≤ length (trim_space domain))
    × (length (trim_space domain) ≤ 253)
    × (all is_domain_char (trim_space domain) ≡ true)
    × All IsLabel (split (trim_dot (trim_space domain)) b'.')
unfolding validate_domain check_labels check_label trim_dot trim_space split
validate_domain_ok_example = validate_domain_ok domain refl

abbrev path : Text
path = codes "/var/www/shop"

normalize_root_path_ok_example :
    (path ≡ same_path (trim_space path))
    × ((has_prefix path (codes "/var/www/") ≡ true) ⊎ (has_prefix path (codes "/srv/") ≡ true))
    × (all is_path_char path ≡ true)
unfolding normalize_root_path is_safe_linux_path trim_space contains_byte has_prefix text_eq
normalize_root_path_ok_example = normalize_root_path_ok same_path path refl

abbrev cert : Text
cert = codes "/etc/letsencrypt/live/a/fullchain.pem"

abbrev key : Text
key = codes "/var/lib/opendeploy/ssl/a.key"
