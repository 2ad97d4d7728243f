-- ===== src/Archive/Limits.antt =====
-- How much an extraction writes.
use mathlib.Core.Path.{subst, sym}
use opendeploy.Common.{
  ℕ, ◌+◌, ◌-◌, ◌%◌, ◌^◌, ◌≤◌, ◌<◌, Bool, true, not, Option, none, some, List, [], ◌∷◌, Result, ok,
  err, ◌≡◌, arith, All,
}
use opendeploy.Common.Text.{Text}
use opendeploy.Common.Action.{
  pure, raise, guard, ◌>>◌, Post, Ensures, Ensures-pure, Ensures-bind, Ensures-then, Ensures-guard,
  Ensures-weaken, Ensures-given,
}
use opendeploy.Archive.Extract.{
  ArchiveError, bad_path, escapes, too_many, too_large, not_made, unsafe_parent, truncated, Kind,
  folder, regular, special, Entry, Disk, Out, M, max_extracted_bytes, is_too_large, add_int64,
  safe_target, make_directory, make_file, ensure_safe_parent, open_file, write_tar_entry,
  extract_tar_kind, extract_tar_entry, extract_tar,
}

-- the bytes of all files
abbrev pub written : List (Text × ℕ) → ℕ
written [] = 0
written ((t, n) ∷ fs) = n + written fs

unfoldable pub Small : Option Entry → Type 0
Small none = Unit {0}
Small (some e) = e.size < 2 ^ 63 - 2 ^ 30

-- the size is no overflow, and what is read is no more than it, which the zip reader checks
unfoldable pub Honest : Entry → Type 0
Honest e = (e.size < 2 ^ 63 - 2 ^ 30) × (e.content ≤ e.size)

UpTo : ℕ → Out → Type 0
UpTo n o = written o.files ≤ n

module _ (disk : Disk) (root : Text) where
  Within : Out → Type 0
  Within = UpTo max_extracted_bytes

  Ensures-safe_target :
      (n : ℕ) (name : Text)
      → n ≤ max_extracted_bytes
      → Ensures (UpTo n) (safe_target disk root name) (λ t. UpTo n) Within
  unfolding safe_target UpTo Within
  Ensures-safe_target n name h =
      Ensures-then {Q = UpTo n} _ _
        (Ensures-weaken (Ensures-guard (λ o k. omega arith) _ bad_path) (λ o k. k) (λ u o k. k.0))
        (Ensures-then {Q = UpTo n} _ _
          (Ensures-weaken (Ensures-guard (λ o k. omega arith) _ escapes) (λ o k. k) (λ u o k. k.0))
          (Ensures-pure (UpTo n) (λ t. UpTo n) (disk.join root name) (λ o k. k)))

  kept_test :
      (n : ℕ) (b : Bool) (e : ArchiveError)
      → n ≤ max_extracted_bytes
      → Ensures (UpTo n) (guard b e) (λ u o. (b ≡ true) × UpTo n o) Within
  unfolding UpTo Within
  kept_test n b e h =
      Ensures-weaken (Ensures-guard (λ o k. omega arith) b e) (λ o k. k) (λ u o k. (k.1, k.0))

  passed_test :
      (n : ℕ) (b : Bool) (e : ArchiveError)
      → n ≤ max_extracted_bytes
      → Ensures (UpTo n) (guard b e) (λ u. UpTo n) Within
  passed_test n b e h = Ensures-weaken (kept_test n b e h) (λ o k. k) (λ u o k. k.1)

  Ensures-make_directory :
      (n : ℕ) (t : Text)
      → n ≤ max_extracted_bytes
      → Ensures (UpTo n) (make_directory disk root t) (λ u. UpTo n) Within
  unfolding make_directory UpTo Within
  Ensures-make_directory n t h =
      Ensures-then {Q = UpTo n} _ _ (record { at = λ o k. k }) (passed_test n _ not_made h)

  Ensures-open_file :
      (n : ℕ) (t : Text)
      → n ≤ max_extracted_bytes
      → Ensures (UpTo n) (open_file disk root t) (λ u. UpTo n) Within
  unfolding open_file ensure_safe_parent
  Ensures-open_file n t h =
      Ensures-then {Q = UpTo n} _ _
        (Ensures-then {Q = UpTo n} _ _ (Ensures-make_directory n (disk.dir t) h)
          (passed_test n _ unsafe_parent h))
        (passed_test n _ not_made h)

  Ensures-make_file :
      (n s k : ℕ) (t : Text)
      → k ≤ s
      → Ensures (UpTo n) (make_file disk root t k) (λ u. UpTo (n + s)) Within
  unfolding make_file UpTo
  Ensures-make_file n s k t h = record { at = λ o g. omega arith }

  Total : ℕ → Out → Type 0
  Total next o = (next ≤ max_extracted_bytes) × UpTo next o

  Ensures-folder :
      (n : ℕ) (t : Text)
      → n ≤ max_extracted_bytes
      → Ensures (UpTo n) (make_directory disk root t >> pure n) Total Within
  unfolding Total UpTo
  Ensures-folder n t h =
      Ensures-then {Q = UpTo n} _ _ (Ensures-make_directory n t h)
        (Ensures-pure (UpTo n) _ n (λ o k. (h, k)))

  -- what the test of the sum means for sizes that cannot overflow
  fits :
      (n s : ℕ)
      → n ≤ max_extracted_bytes
      → s < 2 ^ 63 - 2 ^ 30
      → not (is_too_large (add_int64 n s)) ≡ true
      → (add_int64 n s ≡ n + s) × (n + s ≤ max_extracted_bytes)
  fits n s h k e = (small, ground (arith, small))
    where
      small : (n + s) % 2 ^ 64 ≡ n + s
      small = omega arith

  Ensures-write_tar_entry :
      (n : ℕ) (t : Text) (e : Entry)
      → n + e.size ≤ max_extracted_bytes
      → Ensures (UpTo n) (write_tar_entry disk root t e) (λ u. UpTo (n + e.size)) Within
  unfolding write_tar_entry
  Ensures-write_tar_entry n t e h =
      Ensures-then {Q = UpTo n} _ _ (Ensures-open_file n t (omega arith)) (
        Ensures-then {Q = UpTo (n + e.size)} _ _ (Ensures-make_file n e.size _ t (omega arith))
          (passed_test (n + e.size) _ truncated h))

  Ensures-Total :
      (n : ℕ) (s : ℕ) (m : M (Unit {0})) (g : Bool)
      → n ≤ max_extracted_bytes
      → (g ≡ true → (add_int64 n s ≡ n + s) × (n + s ≤ max_extracted_bytes))
      → (n + s ≤ max_extracted_bytes → Ensures (UpTo n) m (λ u. UpTo (n + s)) Within)
      → Ensures (UpTo n) (guard g too_large >> (m >> pure (add_int64 n s))) Total Within
  unfolding Total
  Ensures-Total n s m g h f k = Ensures-then _ _ (kept_test n g too_large h) (
      Ensures-given _ λ e. Ensures-then {Q = UpTo (n + s)} _ _ (k (f e).1) (
        Ensures-pure (UpTo (n + s)) _ (add_int64 n s)
          (λ o u. subst (λ x. (x ≤ max_extracted_bytes) × UpTo x o) (sym (f e).0) ((f e).1, u))))

  Ensures-tar_kind :
      (k : Kind) (n : ℕ) (t : Text) (e : Entry)
      → n ≤ max_extracted_bytes
      → e.size < 2 ^ 63 - 2 ^ 30
      → Ensures (UpTo n) (extract_tar_kind disk root k n t e) Total Within
  unfolding raise UpTo Within
  Ensures-tar_kind folder n t e h s = Ensures-folder n t h
  Ensures-tar_kind regular n t e h s =
      Ensures-Total n e.size (write_tar_entry disk root t e) _ h
        (λ g. fits n e.size h s (ground arith)) (Ensures-write_tar_entry n t e)
  Ensures-tar_kind special n t e h s = record { at = λ o k. omega arith }

  Ensures-extract_tar :
      (entries n : ℕ) (es : List (Option Entry))
      → n ≤ max_extracted_bytes
      → All Small es
      → Ensures (UpTo n) (extract_tar disk root entries n es) (λ u. Within) Within
  unfolding extract_tar extract_tar_entry Small UpTo Within Total raise
  Ensures-extract_tar entries n [] h s = Ensures-pure _ _ tt (λ o k. omega arith)
  Ensures-extract_tar entries n (none ∷ es) h s = record { at = λ o k. omega arith }
  Ensures-extract_tar entries n (some e ∷ es) h s =
      Ensures-then {Q = UpTo n} _ _ (passed_test n _ too_many h) (
        Ensures-bind {Q = λ t. UpTo n} _ _ (Ensures-safe_target n e.name h) λ t.
          Ensures-bind {Q = Total} _ _ (Ensures-tar_kind e.kind n t e h s.0)
            λ next. Ensures-given _ λ b. Ensures-extract_tar (entries + 1) next es b s.1)

bounded :
    {A : Type 0} (r : Result ArchiveError A × Out)
    → Post
        (λ u o. written o.files ≤ max_extracted_bytes)
        (λ o. written o.files ≤ max_extracted_bytes)
        r
    → written r.1.files ≤ max_extracted_bytes
bounded (ok a, o) k = k
bounded (err e, o) k = k

-- An extraction of a tar archive writes at most 2 ^ 30 bytes in all, also one that fails, if no header
-- gives an entry a size within 2 ^ 30 of 2 ^ 63.
pub extract_tar_bounded :
    (disk : Disk) (root : Text) (es : List (Option Entry)) (out : Out)
    → All Small es
    → out.files ≡ []
    → written (extract_tar disk root 0 0 es out).1.files ≤ max_extracted_bytes
unfolding UpTo Within
extract_tar_bounded disk root es out s e =
    bounded (extract_tar disk root 0 0 es out)
      ((Ensures-extract_tar disk root 0 0 es (omega arith) s).at out (nothing out.files e))
  where
    nothing : (fs : List (Text × ℕ)) → fs ≡ [] → written fs ≤ 0
    nothing fs e = ground arith
