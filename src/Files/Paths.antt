-- ===== src/Files/Paths.antt =====
-- path_resolver.go. A clean absolute path is the list of its names from the root on, and `Disk` is what the
-- file system answers: filepath.Clean, os.Lstat, and filepath.EvalSymlinks, where none is an error.
use opendeploy.Common.{
  Bool, true, false, not, Option, none, some, List, [], ◌∷◌, ◌++◌, Result, ok, err, ◌>>=◌, ◌>>◌,
  refuse_if, if◌then◌else◌, map, any,
}
use opendeploy.Common.Text.{Text, codes, text_eq, has_prefix, contains}

abbrev pub Names : Type 0
Names = List Text

pub data PathError : Type 0 where
  not_absolute traversal outside lstat_failed no_parent symlink_failed symlink_outside bad_suffix :
      PathError

-- os.Lstat: nil, os.IsNotExist, or another error
pub data Stat : Type 0 where
  present missing broken : Stat

pub record Disk : Type 0 where
  pub clean : Text → Names
  pub lstat : Names → Stat
  pub eval_symlinks : Names → Option Names

-- filepath.Rel(root, path): the names below the root, or none where Rel would begin with `..`
unfoldable pub rel : Names → Names → Option Names
rel [] path = some path
rel (r ∷ root) [] = none
rel (r ∷ root) (p ∷ path) = if text_eq r p then rel root path else none

abbrev pub is_some {ℓ} : {A : Type ℓ} → Option A → Bool
is_some none = false
is_some (some a) = true

abbrev pub is_within : List Names → Names → Bool
is_within roots path = any (λ root. is_some (rel root path)) roots

-- the names in the other order
unfoldable pub turned : Names → Names
turned [] = []
turned (n ∷ ns) = turned ns ++ (n ∷ [])

abbrev pub evaluated : Option Names → Result PathError Names
evaluated none = err symlink_failed
evaluated (some r) = ok r

-- strings.HasPrefix(suffix, "..")
abbrev pub starts_above : Names → Bool
starts_above [] = false
starts_above (n ∷ ns) = has_prefix n (codes "..")

module _ (disk : Disk) where
  -- validatePathWithin for a text
  unfoldable pub validate_path_within : Text → List Names → Result PathError Names
  validate_path_within path roots = do
    refuse_if (not (has_prefix path (b'/' ∷ []))) not_absolute
    refuse_if (contains path (codes "..")) traversal
    refuse_if (not (is_within roots (disk.clean path))) outside
    ok (disk.clean path)

  -- resolvedRoots
  abbrev pub resolved_root : Names → Names
  resolved_root root = elim (disk.eval_symlinks root) [ some r ↦ r | none ↦ root ]

  unfoldable pub resolved_roots : List Names → List Names
  resolved_roots = map resolved_root

  abbrev pub Found : Type 0
  Found = Result PathError (Names × Names)

  -- one round of the loop of securePath: the path and no names, or what `parent` finds
  abbrev pub found_at : Stat → Names → Found → Found
  found_at present path parent = ok (path, [])
  found_at broken path parent = err lstat_failed
  found_at missing path parent = parent

  abbrev pub add_name : Text → Found → Found
  add_name n (ok (existing, suffix)) = ok (existing, suffix ++ (n ∷ []))
  add_name n (err e) = err e

  -- the loop, for the names from the last one up: the nearest path that exists, and the names below it.
  -- filepath.Dir of the root is the root.
  unfoldable pub nearest : Names → Found
  nearest [] = found_at (disk.lstat []) [] (err no_parent)
  nearest (n ∷ up) =
      found_at (disk.lstat (turned (n ∷ up))) (turned (n ∷ up)) (add_name n (nearest up))

  unfoldable pub resolve_existing : List Names → Names → Result PathError Names
  resolve_existing roots existing = do
    resolved ← evaluated (disk.eval_symlinks existing)
    refuse_if (any (λ n. contains n (codes "..")) resolved) symlink_outside
    refuse_if (not (is_within (resolved_roots roots) resolved)) symlink_outside
    ok resolved

  -- securePath
  unfoldable pub secure_path : Text → List Names → Result PathError Names
  secure_path path roots = do
    clean ← validate_path_within path roots
    place ← nearest (turned clean)
    resolved ← resolve_existing roots place.0
    refuse_if (starts_above place.1) bad_suffix
    ok (resolved ++ place.1)
