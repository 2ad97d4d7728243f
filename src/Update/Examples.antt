-- ===== src/Update/Examples.antt =====
-- The theorems about updates at a concrete release and disk, and tests.
use opendeploy.Common.{ℕ, ◌≡◌, refl, ◌≢◌, true, none, some, List, [], ◌∷◌, String, ok, All}
use opendeploy.Common.Text.{Text, codes, text_eq, contains_any}
use opendeploy.Common.Action.{pure, ◌>>◌, ◌>>=◌}
use opendeploy.Update.Patterns.{is_version, is_hex_text}
use opendeploy.Update.Manifest.{
  Artifact, Manifest, manifest_schema, platform_key, is_bad_artifact, check_artifacts,
  parse_manifest, artifact_for,
}
use opendeploy.Update.Artifacts.{IsAccepted, OnlyOne, parse_manifest_ok, artifact_for-OnlyOne}
use opendeploy.Update.Disk.{
  Binary, core, Fault, none_at_all, refused, half_way, Files, Disk, make_directory, copy_to_release,
  copy_to_snapshot, stat_live, stat_snapshot, release_to_live, snapshot_to_live, write_current,
}
use opendeploy.Update.Engine.{
  binaries, prepare, install, restore_one, restore, after_install, deploy,
}
use opendeploy.Update.Recovery.{deploy_undone}
use opendeploy.Update.Gates.{
  Download, Evidence, download, content_gates, gates, IsTrusted, gates-IsTrusted,
}
use opendeploy.Update.History.{HistoryEntry, find_history}

abbrev amd : Artifact
amd = record {
  os = codes "linux";
  arch = codes "amd64";
  name = codes "od.tgz";
  sha256 = codes "0123456789abcdef0123456789abcdef0123456789abcdef0123456789abcdef";
  size = 9;
}

abbrev arm : Artifact
arm = record amd { arch = codes "arm64" }

abbrev manifest : Manifest
manifest = record {
  schema = manifest_schema;
  version = codes "v1.2.3";
  tag = codes "v1.2.3";
  commit = codes "0123456789abcdef0123456789abcdef01234567";
  published_at = 5;
  artifacts = amd ∷ arm ∷ [];
}

parsed : parse_manifest manifest ≡ ok manifest
unfolding parse_manifest check_artifacts is_bad_artifact is_version is_hex_text platform_key text_eq
    contains_any
parsed = refl

chosen : artifact_for manifest.artifacts (codes "linux") (codes "arm64") ≡ ok arm
unfolding artifact_for text_eq
chosen = refl

parse_manifest_ok_example : (manifest ≡ manifest) × IsAccepted manifest
parse_manifest_ok_example = parse_manifest_ok manifest parsed

artifact_for-OnlyOne_example : OnlyOne (codes "linux") (codes "arm64") arm (amd ∷ arm ∷ [])
artifact_for-OnlyOne_example =
    artifact_for-OnlyOne manifest (codes "linux") (codes "arm64") parsed chosen

abbrev files : String → Files
files v b = some v

abbrev disk : List Fault → Disk
disk faults = record {
  live = files "old";
  payload = files "new";
  release = λ b. none;
  snapshots = λ dir b. none;
  current = some "v1.2.2";
  faults = faults;
}

-- two live binaries are replaced, then the replacement of the third one is refused
abbrev trouble : List Fault
trouble =
    none_at_all ∷ none_at_all ∷ none_at_all ∷ none_at_all ∷ none_at_all ∷ none_at_all ∷ none_at_all
    ∷ none_at_all ∷ none_at_all ∷ none_at_all ∷ refused ∷ []

new_snapshot : (b : Binary) → (disk trouble).snapshots "tx1" b ≡ none
new_snapshot b = refl

deploy_undone_example :
    (deploy binaries binaries "tx1" "v1.2.3" true (disk trouble)).disk.live core ≡ some "old"
unfolding deploy install prepare restore restore_one after_install make_directory copy_to_release
    copy_to_snapshot stat_live stat_snapshot release_to_live snapshot_to_live write_current ◌>>◌
    ◌>>=◌ pure
deploy_undone_example =
    deploy_undone binaries binaries "tx1" "v1.2.3" true (disk trouble) new_snapshot whole refl refl
      core
  where
    quiet : none_at_all ≢ half_way
    quiet e = cc

    whole : All (λ f. f ≢ half_way) trouble
    whole = (
      quiet,
      (
        quiet,
        (quiet, (quiet, (quiet, (quiet, (quiet, (quiet, (quiet, (quiet, ((λ e. cc), tt))))))))),
      ),
    )

-- the copy of the first live binary into the snapshot stops half way
abbrev full : List Fault
full = none_at_all ∷ none_at_all ∷ none_at_all ∷ half_way ∷ []

-- The snapshot of the core stops half way: the automatic rollback then installs the piece.
piece_goes_live :
    (deploy (core ∷ []) binaries "tx1" "v1.2.3" true (disk full)).disk.live core ≡ some "truncated"
unfolding deploy install prepare restore restore_one after_install make_directory copy_to_release
    copy_to_snapshot stat_live stat_snapshot release_to_live snapshot_to_live write_current ◌>>◌
    ◌>>=◌
piece_goes_live = refl

abbrev answered : ℕ → Download
answered n = record { arrived = true; http_status = 200; written = n }

abbrev evidence : Evidence
evidence = record {
  directories = true;
  lock = true;
  release_tag = some (codes "v1.2.3");
  manifest_asset = true;
  signature_asset = true;
  staging = true;
  manifest_download = answered 4;
  signature_download = answered 2;
  verified = true;
  manifest_file = some manifest;
  tag_commit = some manifest.commit;
  artifact_asset = λ name. true;
  artifact_download = answered 9;
  archive_size = 9;
  archive_sha256 = arm.sha256;
  extracted = true;
  system_backup = true;
}

abbrev id_text : Text → Text
id_text s = s

passes : gates id_text (codes "linux") (codes "arm64") evidence ≡ ok (manifest, arm)
unfolding gates content_gates download parse_manifest check_artifacts is_bad_artifact is_version
    is_hex_text platform_key artifact_for text_eq contains_any
passes = refl

gates-IsTrusted_example : IsTrusted id_text (codes "linux") (codes "arm64") evidence manifest arm
gates-IsTrusted_example = gates-IsTrusted id_text (codes "linux") (codes "arm64") evidence passes

abbrev entry : String → String → HistoryEntry
entry id status = record {
  id = id;
  from_version = "v1";
  to_version = "v2";
  commit = "c";
  status = status;
  backup_dir = id;
}

found_default :
    find_history "" (entry "a" "succeeded" ∷ entry "b" "failed" ∷ []) ≡ some (entry "a" "succeeded")
unfolding find_history
found_default = refl
