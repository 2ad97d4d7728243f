-- ===== src/Site/Validation.antt =====
-- validation.go: what a site's domain, paths, versions and ports must satisfy. `clean` stands for
-- path.Clean of the standard library.
use opendeploy.Common.{
  ℕ, Bool, true, false, not, ◌&&◌, ◌||◌, Option, none, some, List, [], ◌∷◌, ◌++◌, Result, ok, err,
  ◌>>=◌, ◌>>◌, refuse_if, if◌then◌else◌, ltb, leb, ◌==◌, all, length,
}
use opendeploy.Common.Text.{Text, codes, text_eq, has_prefix, contains_byte, trim_space, split}

-- the native integers that a request decodes to
pub data ℤ : Type 0 where
  pos negsuc : ℕ → ℤ

-- apperrors.InvalidInput, by the rule that was broken
pub data SiteError : Type 0 where
  domain_required domain_too_long bad_label hyphen_at_edge bad_character : SiteError
  root_required root_not_absolute root_unsupported root_outside : SiteError
  bad_php_version ssl_required bad_certificate bad_port empty_host : SiteError

abbrev pub is_empty : Text → Bool
is_empty [] = true
is_empty (c ∷ s) = false

abbrev pub is_alnum : ℕ → Bool
is_alnum c =
    (leb b'a' c && leb c b'z') || ((leb b'A' c && leb c b'Z') || (leb b'0' c && leb c b'9'))

abbrev pub is_label_char : ℕ → Bool
is_label_char c = is_alnum c || c == b'-'

abbrev pub starts_with_hyphen : Text → Bool
starts_with_hyphen [] = false
starts_with_hyphen (c ∷ s) = c == b'-'

abbrev pub ends_with_hyphen : Text → Bool
ends_with_hyphen [] = false
ends_with_hyphen (c ∷ []) = c == b'-'
ends_with_hyphen (c ∷ d ∷ s) = ends_with_hyphen (d ∷ s)

-- one round of the loop over the labels
unfoldable pub check_label : Text → Result SiteError (Unit {0})
check_label label = do
  refuse_if (is_empty label || ltb 63 (length label)) bad_label
  refuse_if (starts_with_hyphen label || ends_with_hyphen label) hyphen_at_edge
  refuse_if (not (all is_label_char label)) bad_character

unfoldable pub check_labels : List Text → Result SiteError (Unit {0})
check_labels [] = ok tt
check_labels (l ∷ ls) = check_label l >> check_labels ls

-- strings.TrimSuffix(s, ".")
unfoldable pub trim_dot : Text → Text
trim_dot [] = []
trim_dot (c ∷ []) = if c == b'.' then [] else c ∷ []
trim_dot (c ∷ d ∷ s) = c ∷ trim_dot (d ∷ s)

unfoldable pub validate_domain : Text → Result SiteError (Unit {0})
validate_domain raw = do
  let domain = trim_space raw
  refuse_if (is_empty domain) domain_required
  refuse_if (ltb 253 (length domain)) domain_too_long
  check_labels (split (trim_dot domain) b'.')

abbrev pub is_path_char : ℕ → Bool
is_path_char c = is_alnum c || (c == b'/' || (c == b'.' || (c == b'_' || c == b'-')))

abbrev pub starts_with_slash : Text → Bool
starts_with_slash [] = false
starts_with_slash (c ∷ s) = c == b'/'

unfoldable pub is_safe_linux_path : Text → Bool
is_safe_linux_path value = starts_with_slash value && all is_path_char value

-- one round of the loop over the roots; `whole` is the prefix without its last slash
abbrev pub is_below : Text → Text → Text → Bool
is_below whole prefix clean = not (text_eq clean whole) && has_prefix (clean ++ (b'/' ∷ [])) prefix

abbrev pub is_web_path : Text → Bool
is_web_path path =
    is_below (codes "/var/www") (codes "/var/www/") path
    || is_below (codes "/srv") (codes "/srv/") path

module _ (clean : Text → Text) where
  unfoldable pub normalize_root_path : Text → Result SiteError Text
  normalize_root_path raw = do
    let root = trim_space raw
    refuse_if (is_empty root) root_required
    refuse_if (contains_byte b'\\' root || not (has_prefix root (b'/' ∷ []))) root_not_absolute
    let path = clean root
    refuse_if (not (is_safe_linux_path path)) root_unsupported
    refuse_if (not (is_web_path path)) root_outside
    ok path

  abbrev pub is_managed : Text → Bool
  is_managed path =
      has_prefix path (codes "/etc/letsencrypt/") || has_prefix path (codes "/var/lib/opendeploy/")

  -- `none` is any error
  unfoldable pub normalize_certificate_path : Text → Option Text
  normalize_certificate_path value =
      if contains_byte b'\\' value || not (has_prefix value (b'/' ∷ []))
      then none
      else let path = clean (trim_space value) in
        if is_safe_linux_path path && is_managed path then some path else none

  -- the paths that are written back, if SSL is enabled and both are given; Go visits the two in an order
  -- of its own, with the same outcome but for the name in the message
  unfoldable pub certificates : Text → Text → Result SiteError (Text × Text)
  certificates cert key = elim (normalize_certificate_path cert) [
    | none ↦ err bad_certificate
    | some c ↦ elim (normalize_certificate_path key) [
      | none ↦ err bad_certificate
      | some k ↦ ok (c, k)
    ]
  ]

  unfoldable pub validate_ssl :
      Bool → Option Text → Option Text → Result SiteError (Option Text × Option Text)
  validate_ssl false cert key = ok (cert, key)
  validate_ssl true (some cert) (some key) = do
    refuse_if (is_empty (trim_space cert) || is_empty (trim_space key)) ssl_required
    paths ← certificates cert key
    ok (some paths.0, some paths.1)
  validate_ssl true cert key = err ssl_required

abbrev pub is_digit : ℕ → Bool
is_digit c = leb b'0' c && leb c b'9'

unfoldable pub all_digits : Text → Bool
all_digits value = not (is_empty value) && all is_digit value

abbrev pub is_major_minor : List Text → Bool
is_major_minor (major ∷ minor ∷ []) = all_digits major && all_digits minor
is_major_minor parts = false

-- the version that is written back
unfoldable pub validate_php_version : Option Text → Result SiteError (Option Text)
validate_php_version none = ok none
validate_php_version (some version) =
    let value = trim_space version in
    refuse_if (not (is_major_minor (split value b'.'))) bad_php_version >> ok (some value)

abbrev pub is_port : Option ℤ → Bool
is_port none = false
is_port (some (pos p)) = not (ltb p 1 || ltb 65535 p)
is_port (some (negsuc p)) = false

-- the host that is written back
unfoldable pub validate_proxy : Bool → Option Text → Option ℤ → Result SiteError (Option Text)
validate_proxy false host port = ok host
validate_proxy true none port = refuse_if (not (is_port port)) bad_port >> ok none
validate_proxy true (some host) port = do
  refuse_if (not (is_port port)) bad_port
  refuse_if (is_empty (trim_space host)) empty_host
  ok (some (trim_space host))
