-- ===== src/Update/Manifest.antt =====
-- manifest.go: what a decoded manifest and an update request must satisfy. The JSON decoder is the
-- library's: a manifest is given decoded.
use opendeploy.Common.{
  ℕ, ◌*◌, ◌^◌, Bool, true, false, not, ◌&&◌, ◌||◌, List, [], ◌∷◌, ◌++◌, Result, ok, err, ◌>>◌,
  refuse_if, if◌then◌else◌, ltb, leb, ◌==◌, any, length,
}
use opendeploy.Common.Text.{Text, codes, text_eq, has_prefix, contains_any}
use opendeploy.Update.Patterns.{is_version, is_hex_text}

pub record Artifact : Type 0 where
  pub os : Text
  pub arch : Text
  pub name : Text
  pub sha256 : Text
  pub size : ℕ

pub record Manifest : Type 0 where
  pub schema : Text
  pub version : Text
  pub tag : Text
  pub commit : Text
  -- nanoseconds; 0 is the zero time
  pub published_at : ℕ
  pub artifacts : List Artifact

pub data ManifestError : Type 0 where
  unsupported_schema bad_version bad_commit incomplete : ManifestError
  bad_artifact duplicate_artifact no_artifact : Text → ManifestError

abbrev pub manifest_schema : Text
manifest_schema = codes "opendeploy.release/v1"

abbrev pub max_artifact : ℕ
max_artifact = 512 * 2 ^ 20

-- the key of the `seen` map
unfoldable pub platform_key : Artifact → Text
platform_key a = a.os ++ (b'/' ∷ a.arch)

abbrev pub is_empty : Text → Bool
is_empty [] = true
is_empty (c ∷ s) = false

-- the condition of the loop's first error
unfoldable pub is_bad_artifact : Artifact → Bool
is_bad_artifact a =
    is_empty a.os
    || (is_empty a.arch
        || (is_empty a.name
            || (contains_any (codes "/\\") a.name
                || (not (is_hex_text 64 a.sha256) || (a.size == 0 || ltb max_artifact a.size)))))

-- the loop over the artifacts, with the keys that it has seen
unfoldable pub check_artifacts : List Text → List Artifact → Result ManifestError (Unit {0})
check_artifacts seen [] = ok tt
check_artifacts seen (a ∷ rest) =
    let later = check_artifacts (platform_key a ∷ seen) rest in
    if is_bad_artifact a
    then err (bad_artifact (platform_key a))
    else if any (λ k. text_eq k (platform_key a)) seen
    then err (duplicate_artifact (platform_key a))
    else later

-- ParseManifest, after the decoder
unfoldable pub parse_manifest : Manifest → Result ManifestError Manifest
parse_manifest m = do
  refuse_if (not (text_eq m.schema manifest_schema)) unsupported_schema
  refuse_if (not (is_version m.version) || not (text_eq m.tag m.version)) bad_version
  refuse_if (not (is_hex_text 40 m.commit)) bad_commit
  refuse_if (m.published_at == 0 || length m.artifacts == 0) incomplete
  check_artifacts [] m.artifacts
  ok m

abbrev pub is_for : Text → Text → Artifact → Bool
is_for goos goarch a = text_eq a.os goos && text_eq a.arch goarch

-- ArtifactFor
unfoldable pub artifact_for : List Artifact → Text → Text → Result ManifestError Artifact
artifact_for [] goos goarch = err (no_artifact (goos ++ (b'/' ∷ goarch)))
artifact_for (a ∷ rest) goos goarch =
    let later = artifact_for rest goos goarch in if is_for goos goarch a then ok a else later

pub record UpdateRequest : Type 0 where
  pub request_schema : Text
  pub operation : Text
  pub request_tag : Text
  pub archive : Text
  pub reason : Text
  pub requested_at : ℕ

-- strings.HasSuffix
unfoldable pub has_suffix : Text → Text → Bool
has_suffix [] p = text_eq [] p
has_suffix (c ∷ s) p = text_eq (c ∷ s) p || has_suffix s p

abbrev pub control_bytes : Text
control_bytes = 0 ∷ 13 ∷ 10 ∷ []

-- validBackupArchiveName. `name == filepath.Base(name)` says, of a name without slashes, that it is not
-- empty; the test for slashes is the last one.
unfoldable pub valid_backup_archive_name : Text → Bool
valid_backup_archive_name name =
    not (is_empty name)
    && (has_prefix name (codes "opendeploy-")
        && (has_suffix name (codes ".tar.gz")
            && (leb (length name) 160 && not (contains_any (b'/' ∷ b'\\' ∷ control_bytes) name))))

-- UpdateRequest.Validate
unfoldable pub is_valid_request : UpdateRequest → Bool
is_valid_request r =
    if not (text_eq r.request_schema (codes "opendeploy.update-request/v1")) || r.requested_at == 0
    then false
    else if text_eq r.operation (codes "apply") && is_version r.request_tag
    then true
    else if text_eq r.operation (codes "rollback") && is_empty r.request_tag
    then true
    else if text_eq r.operation (codes "backup")
        && (is_empty r.request_tag
            && (is_empty r.archive
                && (leb (length r.reason) 128 && not (contains_any control_bytes r.reason))))
    then true
    else text_eq r.operation (codes "restore")
      && (is_empty r.request_tag && valid_backup_archive_name r.archive)
