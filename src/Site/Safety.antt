-- ===== src/Site/Safety.antt =====
-- What accepted domains and paths can hold: nothing that a configuration file or a shell would read as
-- more than a name.
use mathlib.Core.Path.{subst}
use opendeploy.Common.{
  ℕ, ◌≡◌, refl, ◌≤◌, ◌⊎◌, ◌∙◌, sym, Bool, true, false, ◌&&◌, ◌||◌, Option, none, some, List, [],
  ◌∷◌, ◌++◌, Result, ok, err, ◌>>=◌, ◌>>◌, refuse_if, if◌then◌else◌, ltb, ◌==◌, all, length, All,
  arith,
}
use opendeploy.Common.Text.{Text, codes, text_eq, has_prefix, trim_space, split, add_head}
use opendeploy.Site.Validation.{
  SiteError, is_empty, is_label_char, is_path_char, check_label, check_labels, trim_dot,
  validate_domain, is_safe_linux_path, is_web_path, normalize_root_path, is_managed,
  normalize_certificate_path, certificates, validate_ssl,
}

abbrev pub is_domain_char : ℕ → Bool
is_domain_char c = is_label_char c || c == b'.'

-- a label of a domain name, as the DNS has it
pub record IsLabel (l : Text) : Type 0 where
  pub some_char : 1 ≤ length l
  pub at_most_63 : length l ≤ 63
  pub label_chars : all is_label_char l ≡ true

check_label_ok : (l : Text) → check_label l ≡ ok tt → IsLabel l
unfolding check_label
check_label_ok [] h = cc
check_label_ok (c ∷ l) h = record {
  some_char = omega arith;
  at_most_63 = ground arith;
  label_chars = ground arith;
}

check_labels_ok : (ls : List Text) → check_labels ls ≡ ok tt → All IsLabel ls
unfolding check_labels
check_labels_ok [] h = tt
check_labels_ok (l ∷ ls) h = go (check_label l) refl h (check_labels_ok ls)
  where
    go :
        (r : Result SiteError (Unit {0}))
        → check_label l ≡ r
        → (r >> check_labels ls) ≡ ok tt
        → (check_labels ls ≡ ok tt → All IsLabel ls)
        → IsLabel l × All IsLabel ls
    go (ok u) e k ih = (check_label_ok l e, ih k)
    go (err x) e k ih = cc

split_some : (s : Text) (sep : ℕ) → split s sep ≡ [] → ⊥
unfolding split add_head
split_some [] sep h = cc
split_some (c ∷ s) sep h = go (c == sep) (split s sep) h
  where
    go : (same : Bool) (ls : List Text) → (if same then [] ∷ ls else add_head c ls) ≡ [] → ⊥
    go true ls h = cc
    go false [] h = cc
    go false (l ∷ ls) h = cc

abbrev Plain : Text → Type 0
Plain l = all is_label_char l ≡ true

labels-Plain : (ls : List Text) → All IsLabel ls → All Plain ls
labels-Plain [] h = tt
labels-Plain (l ∷ ls) h = (h.0.label_chars, labels-Plain ls h.1)

-- the parts hold every byte of the text but the separators
split_chars : (s : Text) → All Plain (split s b'.') → all is_domain_char s ≡ true
unfolding split add_head
split_chars [] h = refl
split_chars (c ∷ s) h = go (c == b'.') refl (split s b'.') refl h (split_chars s)
  where
    go :
        (dot : Bool)
        → (c == b'.') ≡ dot
        → (ls : List Text) → split s b'.' ≡ ls
        → All Plain (if dot then [] ∷ ls else add_head c ls)
        → (All Plain (split s b'.') → all is_domain_char s ≡ true)
        → is_domain_char c && all is_domain_char s ≡ true
    go true d ls e k ih = ground (arith, ih (subst (All Plain) (sym e) k.1))
    go false d [] e k ih = absurd (split_some s b'.' e)
    go false d (l ∷ ls) e k ih = with_tail l ls e k.1 (ground arith) (ground arith) ih
      where
        with_tail :
            (l : Text) (ls : List Text)
            → split s b'.' ≡ l ∷ ls
            → All Plain ls
            → is_label_char c ≡ true
            → all is_label_char l ≡ true
            → (All Plain (split s b'.') → all is_domain_char s ≡ true)
            → is_domain_char c && all is_domain_char s ≡ true
        with_tail l ls e rest here tail ih = rw (here, ih (subst (All Plain) (sym e) (tail, rest)))

trim_dot_chars : (s : Text) → all is_domain_char (trim_dot s) ≡ true → all is_domain_char s ≡ true
unfolding trim_dot
trim_dot_chars [] h = refl
trim_dot_chars (c ∷ []) h = ground arith
trim_dot_chars (c ∷ d ∷ s) h = ground (arith, trim_dot_chars (d ∷ s))

-- An accepted domain has, but for white space around it, 1 to 253 bytes, all of them ASCII letters,
-- digits, hyphens and dots; and without a final dot it is a sequence of labels of 1 to 63 bytes.
pub validate_domain_ok :
    (raw : Text)
    → validate_domain raw ≡ ok tt
    → (1 ≤ length (trim_space raw))
      × (length (trim_space raw) ≤ 253)
      × (all is_domain_char (trim_space raw) ≡ true)
      × All IsLabel (split (trim_dot (trim_space raw)) b'.')
unfolding validate_domain
validate_domain_ok raw h = go (trim_space raw) h
  where
    go :
        (d : Text)
        → (refuse_if (is_empty d) SiteError.domain_required
            >> (refuse_if (ltb 253 (length d)) SiteError.domain_too_long
                >> check_labels (split (trim_dot d) b'.')))
          ≡ ok tt
        → (1 ≤ length d)
          × (length d ≤ 253)
          × (all is_domain_char d ≡ true)
          × All IsLabel (split (trim_dot d) b'.')
    go [] k = cc
    go (c ∷ d) k =
        let checked : check_labels (split (trim_dot (c ∷ d)) b'.') ≡ ok tt = ground arith in
        let labels = check_labels_ok (split (trim_dot (c ∷ d)) b'.') checked in
        (
          omega arith,
          ground arith,
          trim_dot_chars (c ∷ d) (
              split_chars (trim_dot (c ∷ d)) (labels-Plain (split (trim_dot (c ∷ d)) b'.') labels)),
          labels,
        )

-- a slash added to both sides does not make a longer prefix
below_prefix :
    (p w : Text) (c : ℕ)
    → has_prefix (p ++ (c ∷ [])) (w ++ (c ∷ [])) ≡ true
    → text_eq p w ≡ false
    → has_prefix p (w ++ (c ∷ [])) ≡ true
unfolding has_prefix text_eq
below_prefix [] [] c h n = cc
below_prefix [] (v ∷ []) c h n = ground arith
below_prefix [] (v ∷ v' ∷ w) c h n = ground arith
below_prefix (b ∷ p) [] c h n = ground arith
below_prefix (b ∷ p) (v ∷ w) c h n = ground (arith, below_prefix p w c)

-- An accepted root path is the cleaned form of what was sent, lies strictly below /var/www or /srv, and
-- has ASCII letters, digits, slashes, dots, underscores and hyphens only.
pub normalize_root_path_ok :
    (clean : Text → Text) (raw : Text) {path : Text}
    → normalize_root_path clean raw ≡ ok path
    → (path ≡ clean (trim_space raw))
      × ((has_prefix path (codes "/var/www/") ≡ true) ⊎ (has_prefix path (codes "/srv/") ≡ true))
      × (all is_path_char path ≡ true)
unfolding normalize_root_path
normalize_root_path_ok clean raw {path} h =
    let same : path ≡ clean (trim_space raw) = ground arith in
    let safe : is_safe_linux_path path ≡ true = ground arith in
    let web : is_web_path path ≡ true = ground arith in
    (same, below web, unfold is_safe_linux_path in ground arith)
  where
    below :
        is_web_path path ≡ true
        → (has_prefix path (codes "/var/www/") ≡ true) ⊎ (has_prefix path (codes "/srv/") ≡ true)
    below web =
        ground
          (arith, below_prefix path (codes "/var/www") b'/', below_prefix path (codes "/srv") b'/')

-- a path below one of the two directories for certificates, with no byte that a path does not need
abbrev pub Managed : Option Text → Type 0
Managed none = ⊥
Managed (some path) =
    ((has_prefix path (codes "/etc/letsencrypt/") ≡ true)
      ⊎ (has_prefix path (codes "/var/lib/opendeploy/") ≡ true))
    × (all is_path_char path ≡ true)

normalize_certificate_path-Managed :
    (clean : Text → Text) (value : Text) {path : Text}
    → normalize_certificate_path clean value ≡ some path
    → Managed (some path)
unfolding normalize_certificate_path
normalize_certificate_path-Managed clean value {path} h =
    let safe : is_safe_linux_path path ≡ true = ground arith in
    let managed : is_managed clean path ≡ true = ground arith in
    (ground arith, unfold is_safe_linux_path in ground arith)

certificates-Managed :
    (clean : Text → Text) (cert key : Text) {paths : Text × Text}
    → certificates clean cert key ≡ ok paths
    → Managed (some paths.0) × Managed (some paths.1)
unfolding certificates
certificates-Managed clean cert key {paths} h =
    go (normalize_certificate_path clean cert) refl (normalize_certificate_path clean key) refl h
  where
    go :
        (o : Option Text)
        → normalize_certificate_path clean cert ≡ o
        → (o' : Option Text) → normalize_certificate_path clean key ≡ o'
        → (elim o as (λ x. Result SiteError (Text × Text)) [
          | none ↦ err SiteError.bad_certificate
          | some c ↦ elim o' as (λ x. Result SiteError (Text × Text)) [
            | none ↦ err SiteError.bad_certificate
            | some k ↦ ok (c, k)
          ]
        ])
          ≡ ok paths
        → Managed (some paths.0) × Managed (some paths.1)
    go none e o' e' q = cc
    go (some p) e none e' q = cc
    go (some p) e (some p') e' q = (
      normalize_certificate_path-Managed clean cert (e ∙ cc),
      normalize_certificate_path-Managed clean key (e' ∙ cc),
    )

-- Where SSL is enabled, an accepted certificate and an accepted key are both given, and the paths that are
-- written back lie below the directories for certificates and hold no other bytes than a path needs.
pub validate_ssl-Managed :
    (clean : Text → Text) (cert key : Option Text) {c k : Option Text}
    → validate_ssl clean true cert key ≡ ok (c, k)
    → Managed c × Managed k
unfolding validate_ssl
validate_ssl-Managed clean none key h = cc
validate_ssl-Managed clean (some cert) none h = cc
validate_ssl-Managed clean (some cert) (some key) {c} {k} h =
    go (is_empty (trim_space cert) || is_empty (trim_space key)) (certificates clean cert key) refl
      h
  where
    go :
        (missing : Bool) (r : Result SiteError (Text × Text))
        → certificates clean cert key ≡ r
        → ◌≡◌ {A = Result SiteError (Option Text × Option Text)}
            (refuse_if missing SiteError.ssl_required
              >> (r >>= λ paths. ok (some paths.0, some paths.1)))
            (ok (c, k))
        → Managed c × Managed k
    go true r e q = cc
    go false (err x) e q = cc
    go false (ok paths) e q =
        let good = certificates-Managed clean cert key e in
        let left : some paths.0 ≡ c = cc in
        let right : some paths.1 ≡ k = cc in (subst Managed left good.0, subst Managed right good.1)
