-- ===== src/Files/Examples.antt =====
-- The theorem about paths at a concrete file system, and tests.
use opendeploy.Common.{◌≡◌, refl, Option, some, none, ok, [], ◌∷◌, if◌then◌else◌, length, leb}
use opendeploy.Common.Text.{codes, text_eq, has_prefix, contains}
use opendeploy.Files.Paths.{
  Names, Disk, present, missing, rel, turned, validate_path_within, resolved_roots, nearest,
  resolve_existing, secure_path,
}

abbrev www : Names
www = codes "var" ∷ codes "www" ∷ []

abbrev page : Names
page = codes "var" ∷ codes "www" ∷ codes "x" ∷ []

-- only /var/www and what is above it exists, and the links lead to `target`
abbrev linked_to : (Names → Option Names) → Disk
linked_to eval = record {
  clean = λ t. page;
  lstat = λ p. if leb (length p) 2 then present else missing;
  eval_symlinks = eval;
}

abbrev to_etc : Names → Option Names
to_etc p = elim p [ [] ↦ none | n ∷ [] ↦ none | n ∷ m ∷ ns ↦ some (codes "etc" ∷ []) ]

-- the place resolves to the resolved root itself, so that a root that is a link is followed
followed_root :
    secure_path (linked_to to_etc) (codes "/var/www/x") (www ∷ [])
    ≡ ok (codes "etc" ∷ codes "x" ∷ [])
unfolding secure_path validate_path_within nearest turned resolve_existing resolved_roots rel
    has_prefix contains text_eq
followed_root = refl
