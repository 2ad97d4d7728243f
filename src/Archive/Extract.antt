-- ===== src/Archive/Extract.antt =====
-- extractZIP, extractTAR and what they call. An int64 is kept as its residue modulo 2 ^ 64. `Disk` says
-- what the operating system and path/filepath answer: Clean, Join and Dir, EvalSymlinks (none is an error),
-- and for which paths MkdirAll and OpenFile succeed.
use opendeploy.Common.{
  ℕ, ◌+◌, ◌%◌, ◌^◌, Bool, true, false, not, ◌&&◌, ◌||◌, Option, none, some, List, [], ◌∷◌, ◌++◌, ok,
  ltb, leb, length, min,
}
use opendeploy.Common.Text.{Text, text_eq, has_prefix, contains_byte}
use opendeploy.Common.Action.{Action, pure, raise, ◌>>=◌, ◌>>◌, guard}

pub data ArchiveError : Type 0 where
  bad_path escapes bad_type too_many too_large unreadable not_made unsafe_parent truncated :
      ArchiveError

-- the types of entries: tar.TypeDir, TypeReg and TypeRegA, and all others
pub data Kind : Type 0 where
  folder regular special : Kind

-- `size` is the size in the header, as a residue, and `content` the number of bytes that can be read
pub record Entry : Type 0 where
  pub name : Text
  pub kind : Kind
  pub size : ℕ
  pub content : ℕ

pub record Disk : Type 0 where
  pub clean : Text → Text
  pub join : Text → Text → Text
  pub dir : Text → Text
  pub makes_directory : Text → Bool
  pub eval_symlinks : Text → Option Text
  pub makes_file : Text → Bool

-- the last one first: the files that were opened with the bytes written to them, and the directories that
-- MkdirAll was called for, also where it fails, since it may have made some of their parents then
pub record Out : Type 0 where
  pub files : List (Text × ℕ)
  pub directories : List Text

abbrev pub M : Type 0 → Type 0
M A = Action ArchiveError Out A

abbrev pub max_archive_entries : ℕ
max_archive_entries = 10000

abbrev pub max_extracted_bytes : ℕ
max_extracted_bytes = 2 ^ 30

-- an int64 below zero
abbrev pub is_negative : ℕ → Bool
is_negative n = leb (2 ^ 63) n

-- n > maxExtractedBytes
abbrev pub is_too_large : ℕ → Bool
is_too_large n = not (is_negative n) && ltb max_extracted_bytes n

abbrev pub add_int64 : ℕ → ℕ → ℕ
add_int64 a b = (a + b) % 2 ^ 64

module _ (disk : Disk) (root : Text) where
  -- filepath.IsAbs is a leading slash
  abbrev pub is_bad_name : Text → Bool
  is_bad_name name =
      elim name [ [] ↦ true | c ∷ cs ↦ false ]
      || (has_prefix name (b'/' ∷ []) || contains_byte 0 name)

  abbrev pub is_inside : Text → Bool
  is_inside target = has_prefix target (disk.clean root ++ (b'/' ∷ []))

  -- safeTarget
  unfoldable pub safe_target : Text → M Text
  safe_target name = do
    guard (not (is_bad_name name)) bad_path
    guard (is_inside (disk.join root name)) escapes
    pure (disk.join root name)

  abbrev pub add_directory : Text → M (Unit {0})
  add_directory t o = (ok tt, record o { directories = t ∷ o.directories })

  unfoldable pub make_directory : Text → M (Unit {0})
  make_directory target = add_directory target >> guard (disk.makes_directory target) not_made

  unfoldable pub make_file : Text → ℕ → M (Unit {0})
  make_file target n o = (ok tt, record o { files = (target, n) ∷ o.files })

  -- no error, and no symbolic link on the way
  unfoldable pub resolves_to_itself : Text → Bool
  resolves_to_itself parent = elim (disk.eval_symlinks parent) [
    | none ↦ false
    | some resolved ↦ text_eq resolved parent
  ]

  -- ensureSafeParent: the parent is made before its links are looked at
  unfoldable pub ensure_safe_parent : Text → M (Unit {0})
  ensure_safe_parent target = do
    make_directory (disk.dir target)
    guard (resolves_to_itself (disk.dir target)) unsafe_parent

  -- ensureSafeParent and os.OpenFile
  unfoldable pub open_file : Text → M (Unit {0})
  open_file target = do ensure_safe_parent target; guard (disk.makes_file target) not_made

  -- writeTAREntry: io.CopyN
  unfoldable pub write_tar_entry : Text → Entry → M (Unit {0})
  write_tar_entry target e = do
    open_file target
    make_file target (min e.size e.content)
    guard (leb e.size e.content) truncated

  abbrev pub extract_tar_kind : Kind → ℕ → Text → Entry → M ℕ
  extract_tar_kind folder total target e = make_directory target >> pure total
  extract_tar_kind regular total target e = do
    guard (not (is_negative e.size || is_too_large (add_int64 total e.size))) too_large
    write_tar_entry target e
    pure (add_int64 total e.size)
  extract_tar_kind special total target e = raise bad_type

  -- one round of the loop of extractTAR: the total afterwards
  unfoldable pub extract_tar_entry : ℕ → Text → Entry → M ℕ
  extract_tar_entry total target e = extract_tar_kind e.kind total target e

  -- extractTAR for the entries that the reader yields; none is an error of the reader
  unfoldable pub extract_tar : ℕ → ℕ → List (Option Entry) → M (Unit {0})
  extract_tar entries total [] = pure tt
  extract_tar entries total (none ∷ es) = raise unreadable
  extract_tar entries total (some e ∷ es) = do
    guard (not (ltb max_archive_entries (entries + 1))) too_many
    target ← safe_target e.name
    next ← extract_tar_entry total target e
    extract_tar (entries + 1) next es

  -- writeZIPEntry: io.Copy from a limited reader
  unfoldable pub write_zip_entry : Text → Entry → M (Unit {0})
  write_zip_entry target e = do
    open_file target
    make_file target (min (max_extracted_bytes + 1) e.content)

  abbrev pub extract_zip_kind : Kind → ℕ → Text → Entry → M ℕ
  extract_zip_kind folder total target e = make_directory target >> pure total
  extract_zip_kind regular total target e = do
    guard (not (is_too_large (add_int64 total e.size))) too_large
    write_zip_entry target e
    pure (add_int64 total e.size)
  extract_zip_kind special total target e = raise bad_type

  -- one round of the loop of extractZIP
  unfoldable pub extract_zip_entry : ℕ → Text → Entry → M ℕ
  extract_zip_entry total target e = extract_zip_kind e.kind total target e

  unfoldable pub extract_zip_entries : ℕ → List Entry → M (Unit {0})
  extract_zip_entries total [] = pure tt
  extract_zip_entries total (e ∷ es) = do
    target ← safe_target e.name
    next ← extract_zip_entry total target e
    extract_zip_entries next es

  -- extractZIP of an archive that opens
  unfoldable pub extract_zip : List Entry → M (Unit {0})
  extract_zip es = do
    guard (not (ltb max_archive_entries (length es))) too_many
    extract_zip_entries 0 es

-- what an archive holds: the entries of a zip file, or what the tar reader yields
pub data Archive : Type 0 where
  zip_file : List Entry → Archive
  tar_file : List (Option Entry) → Archive

-- Extract of a source that opens, by its suffix, into a destination that is there
unfoldable pub extract : Disk → Text → Archive → M (Unit {0})
extract disk root (zip_file es) = extract_zip disk root es
extract disk root (tar_file es) = extract_tar disk root 0 0 es
