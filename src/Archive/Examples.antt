-- ===== src/Archive/Examples.antt =====
-- The theorems about extraction at concrete archives, and tests.
use opendeploy.Common.{
  ℕ, ◌+◌, ◌-◌, ◌^◌, ◌*◌, ◌≤◌, ◌≡◌, refl, true, some, err, [], ◌∷◌, ◌++◌, String, arith,
}
use opendeploy.Common.Text.{Text, codes, text_eq, has_prefix, contains_byte}
use opendeploy.Common.Action.{◌>>=◌, ◌>>◌, pure, raise, guard}
use opendeploy.Archive.Extract.{
  Entry, regular, Disk, Out, max_extracted_bytes, escapes, unsafe_parent, extract_zip_entry,
  write_zip_entry, safe_target, make_directory, resolves_to_itself, ensure_safe_parent, make_file,
  open_file, write_tar_entry, extract_tar_entry, extract_tar, extract_zip_entries, extract_zip,
  zip_file, extract,
}
use opendeploy.Archive.Limits.{written, Small, extract_tar_bounded}
use opendeploy.Archive.Confinement.{Inside, extract-Inside}

abbrev root : Text
root = codes "/srv/a"

-- Join as on names without dots
abbrev disk : Disk
disk = record {
  clean = λ t. t;
  join = λ r n. r ++ (b'/' ∷ n);
  dir = λ t. root;
  makes_directory = λ t. true;
  eval_symlinks = λ t. some t;
  makes_file = λ t. true;
}

abbrev empty : Out
empty = record { files = []; directories = [] }

abbrev entry : String → ℕ → ℕ → Entry
entry name size content = record {
  name = codes name;
  kind = regular;
  size = size;
  content = content;
}

extract_tar_bounded_example :
    written
      (extract_tar disk root 0 0 (some (entry "x" 5 5) ∷ some (entry "y" 9 7) ∷ []) empty).1.files
    ≤ max_extracted_bytes
unfolding Small
extract_tar_bounded_example =
    extract_tar_bounded disk root (some (entry "x" 5 5) ∷ some (entry "y" 9 7) ∷ []) empty
      (omega arith, (omega arith, tt)) refl

extract-Inside_example :
    Inside disk root (extract disk root (zip_file (entry "x" 5 5 ∷ [])) empty).1
unfolding Inside
extract-Inside_example = extract-Inside disk root (zip_file (entry "x" 5 5 ∷ [])) empty (tt, tt)

-- after one byte the sum with a size of 2 ^ 63 - 1 overflows, and five times the limit is written
overflowing_archive :
    written
      (extract_tar disk root 0 0
        (some (entry "x" 1 1) ∷ some (entry "y" (2 ^ 63 - 1) (5 * 2 ^ 30)) ∷ [])
        empty).1.files
    ≡ 1 + 5 * 2 ^ 30
unfolding extract_tar extract_tar_entry write_tar_entry open_file ensure_safe_parent make_directory
    resolves_to_itself text_eq make_file safe_target has_prefix contains_byte pure raise guard ◌>>=◌
    ◌>>◌
overflowing_archive = refl

escaping_entry :
    (extract_zip (record disk { join = λ r n. n }) root (entry "x" 1 1 ∷ []) empty).0 ≡ err escapes
unfolding extract_zip extract_zip_entries safe_target has_prefix contains_byte pure raise guard
    ◌>>=◌ ◌>>◌
escaping_entry = refl

-- A parent that is a link out of the destination is made before it is refused.
linked_parent :
    (extract_zip
      (record disk { dir = λ t. codes "/srv/a/link"; eval_symlinks = λ t. some (codes "/etc") })
      root
      (entry "link/x" 1 1 ∷ [])
      empty)
    ≡ (err unsafe_parent, record { files = []; directories = codes "/srv/a/link" ∷ [] })
unfolding extract_zip extract_zip_entries extract_zip_entry write_zip_entry open_file
    ensure_safe_parent make_directory resolves_to_itself text_eq make_file safe_target has_prefix
    contains_byte pure raise guard ◌>>=◌ ◌>>◌
linked_parent = refl
