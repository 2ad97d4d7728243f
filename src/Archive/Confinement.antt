-- ===== src/Archive/Confinement.antt =====
-- Where an extraction makes files and directories.
use opendeploy.Common.{
  ℕ, ◌+◌, ◌⊎◌, inl, inr, ap, refl, arith, Bool, true, false, Option, none, some, List, [], ◌∷◌,
  Result, ok, err, ◌≡◌, All,
}
use opendeploy.Common.Text.{Text, text_eq, text_eq→eq}
use opendeploy.Common.Action.{
  pure, raise, guard, ◌>>◌, Post, Ensures, Ensures-pure, Ensures-bind, Ensures-then, Ensures-guard,
  Ensures-weaken, Ensures-given,
}
use opendeploy.Archive.Extract.{
  ArchiveError, bad_path, escapes, too_many, too_large, not_made, unsafe_parent, truncated, Kind,
  folder, regular, special, Entry, Disk, Out, M, is_inside, safe_target, resolves_to_itself,
  ensure_safe_parent, make_directory, make_file, open_file, write_tar_entry, extract_tar_kind,
  extract_tar_entry, extract_tar, write_zip_entry, extract_zip_kind, extract_zip_entry,
  extract_zip_entries, extract_zip, Archive, zip_file, tar_file, extract,
}

module _ (disk : Disk) (root : Text) where
  -- a file below the destination, whose parent has no symbolic link in its path
  abbrev pub InsideFile : Text × ℕ → Type 0
  InsideFile p =
      (is_inside disk root p.0 ≡ true) × (disk.eval_symlinks (disk.dir p.0) ≡ some (disk.dir p.0))

  -- a directory whose path is below the destination, or is that of the parent of one below it
  abbrev pub InsideDirectory : Text → Type 0
  InsideDirectory t =
      (is_inside disk root t ≡ true)
      ⊎ ((child : Text) × (t ≡ disk.dir child) × (is_inside disk root child ≡ true))

  unfoldable pub Inside : Out → Type 0
  Inside o = All InsideFile o.files × All InsideDirectory o.directories

  Stays : {A : Type 0} → M A → Type 0
  Stays m = Ensures Inside m (λ a. Inside) Inside

  Stays-guard : (b : Bool) (e : ArchiveError) → Stays (guard b e)
  unfolding Stays
  Stays-guard b e = Ensures-weaken (Ensures-guard (λ o k. k) b e) (λ o k. k) (λ u o k. k.0)

  Ensures-safe_target :
      (name : Text)
      → Ensures Inside
          (safe_target disk root name)
          (λ t o. (is_inside disk root t ≡ true) × Inside o)
          Inside
  unfolding Stays safe_target
  Ensures-safe_target name = Ensures-then _ _ (Stays-guard _ bad_path) (
      Ensures-then _ _
        (Ensures-guard (λ o k. k) (is_inside disk root (disk.join root name)) escapes)
        (Ensures-pure _ _ (disk.join root name) (λ o k. (k.1, k.0))))

  Stays-make_directory : (t : Text) → InsideDirectory t → Stays (make_directory disk root t)
  unfolding Stays make_directory Inside
  Stays-make_directory t i =
      Ensures-then {Q = Inside} _ _ (record { at = λ o k. (k.0, (i, k.1)) })
        (Stays-guard _ not_made)

  resolved : (t : Text) → resolves_to_itself disk root t ≡ true → disk.eval_symlinks t ≡ some t
  unfolding resolves_to_itself
  resolved t = go (disk.eval_symlinks t)
    where
      go : (o : Option Text) → elim o [ none ↦ false | some r ↦ text_eq r t ] ≡ true → o ≡ some t
      go none h = ground arith
      go (some r) h = ap some (text_eq→eq r t h)

  module _ (t : Text) (inside : is_inside disk root t ≡ true) where
    Stays-folder : (n : ℕ) → Stays (make_directory disk root t >> pure n)
    unfolding Stays
    Stays-folder n =
        Ensures-then _ _ (Stays-make_directory t (inl inside))
          (Ensures-pure Inside (λ k. Inside) n (λ o k. k))

    -- the parent was found to have no link in its path
    Opened : Out → Type 0
    Opened o = (disk.eval_symlinks (disk.dir t) ≡ some (disk.dir t)) × Inside o

    Stays-make_file : (n : ℕ) → Ensures Opened (make_file disk root t n) (λ u. Inside) Inside
    unfolding Opened make_file Inside
    Stays-make_file n = record { at = λ o k. (((inside, k.0), k.1.0), k.1.1) }

    Ensures-open_file : Ensures Inside (open_file disk root t) (λ u. Opened) Inside
    unfolding Stays Opened open_file ensure_safe_parent
    Ensures-open_file =
        Ensures-then {Q = Opened} _ _
          (Ensures-then {Q = Inside} _ _ (Stays-make_directory (disk.dir t) (inr (t, refl, inside)))
            (Ensures-weaken
              (Ensures-guard (λ o k. k) (resolves_to_itself disk root (disk.dir t)) unsafe_parent)
              (λ o k. k) (λ u o k. (resolved (disk.dir t) k.1, k.0))))
          (Ensures-weaken (Ensures-guard (λ o k. k.1) _ not_made) (λ o k. k) (λ u o k. k.0))

    Stays-write_tar_entry : (e : Entry) → Stays (write_tar_entry disk root t e)
    unfolding Stays write_tar_entry
    Stays-write_tar_entry e =
        Ensures-then _ _ Ensures-open_file
          (Ensures-then _ _ (Stays-make_file _) (Stays-guard _ truncated))

    Stays-write_zip_entry : (e : Entry) → Stays (write_zip_entry disk root t e)
    unfolding Stays write_zip_entry
    Stays-write_zip_entry e = Ensures-then _ _ Ensures-open_file (Stays-make_file _)

    Stays-tar_kind : (k : Kind) (n : ℕ) (e : Entry) → Stays (extract_tar_kind disk root k n t e)
    unfolding Stays raise
    Stays-tar_kind folder n e = Stays-folder n
    Stays-tar_kind regular n e = Ensures-then _ _ (Stays-guard _ too_large) (
        Ensures-then _ _ (Stays-write_tar_entry e) (Ensures-pure Inside (λ k. Inside) _ (λ o k. k)))
    Stays-tar_kind special n e = record { at = λ o k. k }

    Stays-zip_kind : (k : Kind) (n : ℕ) (e : Entry) → Stays (extract_zip_kind disk root k n t e)
    unfolding Stays raise
    Stays-zip_kind folder n e = Stays-folder n
    Stays-zip_kind regular n e = Ensures-then _ _ (Stays-guard _ too_large) (
        Ensures-then _ _ (Stays-write_zip_entry e) (Ensures-pure Inside (λ k. Inside) _ (λ o k. k)))
    Stays-zip_kind special n e = record { at = λ o k. k }

  Stays-extract_tar :
      (entries n : ℕ) (es : List (Option Entry)) → Stays (extract_tar disk root entries n es)
  unfolding Stays extract_tar extract_tar_entry raise
  Stays-extract_tar entries n [] = Ensures-pure Inside (λ u. Inside) tt (λ o k. k)
  Stays-extract_tar entries n (none ∷ es) = record { at = λ o k. k }
  Stays-extract_tar entries n (some e ∷ es) = Ensures-then _ _ (Stays-guard _ too_many) (
      Ensures-bind _ _ (Ensures-safe_target e.name) λ t. Ensures-given _ λ i.
        Ensures-bind _ _ (Stays-tar_kind t i e.kind n e)
          λ next. Stays-extract_tar (entries + 1) next es)

  Stays-extract_zip : (n : ℕ) (es : List Entry) → Stays (extract_zip_entries disk root n es)
  unfolding Stays extract_zip_entries extract_zip_entry
  Stays-extract_zip n [] = Ensures-pure Inside (λ u. Inside) tt (λ o k. k)
  Stays-extract_zip n (e ∷ es) = Ensures-bind _ _ (Ensures-safe_target e.name) λ t.
      Ensures-given _
        λ i. Ensures-bind _ _ (Stays-zip_kind t i e.kind n e) λ next. Stays-extract_zip next es

outcome :
    (disk : Disk) (root : Text) (r : Result ArchiveError (Unit {0}) × Out)
    → Post (λ u. Inside disk root) (Inside disk root) r
    → Inside disk root r.1
outcome disk root (ok a, o) k = k
outcome disk root (err e, o) k = k

-- An extraction of any archive, also one that fails, opens no file whose path does not begin with the
-- cleaned destination and a slash, or whose parent resolves to another path than its own, and calls
-- MkdirAll for no directory but one whose path begins so, or is the parent of a path that begins so. This
-- is about paths as texts: MkdirAll follows links that the destination has, and so does the opening of a
-- file for its last name.
pub extract-Inside :
    (disk : Disk) (root : Text) (archive : Archive) (out : Out)
    → Inside disk root out
    → Inside disk root (extract disk root archive out).1
unfolding extract extract_zip Stays
extract-Inside disk root (zip_file es) out k = outcome disk root (extract_zip disk root es out) (
    (Ensures-then _ _ (Stays-guard disk root _ too_many) (Stays-extract_zip disk root 0 es)).at out
      k)
extract-Inside disk root (tar_file es) out k =
    outcome disk root (extract_tar disk root 0 0 es out)
      ((Stays-extract_tar disk root 0 0 es).at out k)
