-- ===== src/Update/Gates.antt =====
-- Apply of engine.go up to the installation: the gates that a release passes, in their order. What the
-- network, the verifier, the file system and the backup provider answer is given.
use mathlib.Core.Path.{subst}
use opendeploy.Common.{
  ℕ, ◌*◌, ◌^◌, ◌≡◌, refl, Bool, true, false, not, ◌&&◌, ◌||◌, Option, none, some, List, String,
  Result, ok, err, ◌>>=◌, ◌>>◌, refuse_if, if◌then◌else◌, ltb, ◌==◌, arith, ==_iff, sym, ap, ◌∙◌,
}
use opendeploy.Common.Text.{Text, text_eq, text_eq→eq}
use opendeploy.Update.Manifest.{Artifact, Manifest, ManifestError, parse_manifest, artifact_for}
use opendeploy.Update.Artifacts.{OnlyOne, artifact_for-OnlyOne, parse_manifest_ok}
use opendeploy.Update.Disk.{Binary, Disk}
use opendeploy.Update.Engine.{failed, Applied, deploy}

pub data GateError : Type 0 where
  no_directories locked no_release no_manifest_asset no_signature_asset no_staging : GateError
  bad_download bad_signature unreadable wrong_tag no_commit wrong_commit no_artifact_asset :
      GateError
  wrong_size wrong_hash bad_archive no_backup : GateError
  bad_manifest : ManifestError → GateError

-- a finished response of a download: its HTTP status, the bytes of its body, and no transport error
pub record Download : Type 0 where
  pub arrived : Bool
  pub http_status : ℕ
  pub written : ℕ

abbrev pub max_metadata : ℕ
max_metadata = 4 * 2 ^ 20

abbrev pub max_download : ℕ
max_download = 512 * 2 ^ 20

-- download: at most `limit` bytes are accepted
unfoldable pub download : Download → ℕ → Result GateError (Unit {0})
download r limit =
    if limit == 0 || ltb max_download limit
    then err bad_download
    else if not (r.arrived && r.http_status == 200) || ltb limit r.written
    then err bad_download
    else ok tt

pub record Evidence : Type 0 where
  pub directories : Bool
  pub lock : Bool
  -- the tag of the release that GitHub names, and which assets it has
  pub release_tag : Option Text
  pub manifest_asset : Bool
  pub signature_asset : Bool
  pub staging : Bool
  pub manifest_download : Download
  pub signature_download : Download
  -- the verifier accepts the signature of the manifest's file
  pub verified : Bool
  pub manifest_file : Option Manifest
  pub tag_commit : Option Text
  pub artifact_asset : Text → Bool
  pub artifact_download : Download
  pub archive_size : ℕ
  -- of the archive, in hexadecimal
  pub archive_sha256 : Text
  pub extracted : Bool
  pub system_backup : Bool

abbrev pub required : {A : Type 0} → GateError → Option A → Result GateError A
required e none = err e
required e (some a) = ok a

abbrev pub manifest_result : {A : Type 0} → Result ManifestError A → Result GateError A
manifest_result (ok a) = ok a
manifest_result (err e) = err (bad_manifest e)

-- the gates after the signature; `lower` is strings.ToLower
unfoldable pub content_gates :
    (Text → Text) → Text → Text → Text → Evidence → Result GateError (Manifest × Artifact)
content_gates lower goos goarch tag e = do
  decoded ← required unreadable e.manifest_file
  manifest ← manifest_result (parse_manifest decoded)
  refuse_if (not (text_eq manifest.tag tag)) wrong_tag
  commit ← required no_commit e.tag_commit
  refuse_if (not (text_eq commit manifest.commit)) wrong_commit
  artifact ← manifest_result (artifact_for manifest.artifacts goos goarch)
  refuse_if (not (e.artifact_asset artifact.name)) no_artifact_asset
  download e.artifact_download artifact.size
  refuse_if (not (e.archive_size == artifact.size)) wrong_size
  refuse_if (not (text_eq e.archive_sha256 (lower artifact.sha256))) wrong_hash
  refuse_if (not e.extracted) bad_archive
  refuse_if (not e.system_backup) no_backup
  ok (manifest, artifact)

unfoldable pub gates :
    (Text → Text) → Text → Text → Evidence → Result GateError (Manifest × Artifact)
gates lower goos goarch e = do
  refuse_if (not e.directories) no_directories
  refuse_if (not e.lock) locked
  tag ← required no_release e.release_tag
  refuse_if (not e.manifest_asset) no_manifest_asset
  refuse_if (not e.signature_asset) no_signature_asset
  refuse_if (not e.staging) no_staging
  download e.manifest_download max_metadata
  download e.signature_download max_metadata
  refuse_if (not e.verified) bad_signature
  content_gates lower goos goarch tag e

-- Apply
unfoldable pub after_gates :
    List Binary
    → List Binary
    → String
    → String
    → Bool
    → Disk
    → Result GateError (Manifest × Artifact)
    → Applied
after_gates first second dir version healthy d (err e) = record {
  status = failed;
  rollback = none;
  disk = d;
}
after_gates first second dir version healthy d (ok m) = deploy first second dir version healthy d

unfoldable pub apply :
    (Text → Text)
    → Text
    → Text
    → List Binary
    → List Binary
    → String
    → String
    → Bool
    → Evidence
    → Disk
    → Applied
unfolding after_gates
apply lower goos goarch first second dir version healthy e d =
    after_gates first second dir version healthy d (gates lower goos goarch e)

-- what must be so before an archive is installed
pub record IsTrusted (lower : Text → Text) (goos goarch : Text) (e : Evidence) (m : Manifest)
    (a : Artifact) : Type 0 where
  pub signed : e.verified ≡ true
  pub accepted : parse_manifest m ≡ ok m
  pub of_release : e.release_tag ≡ some m.tag
  pub of_commit : e.tag_commit ≡ some m.commit
  pub for_platform : OnlyOne goos goarch a m.artifacts
  pub size_matches : e.archive_size ≡ a.size
  pub hash_matches : e.archive_sha256 ≡ lower a.sha256
  pub backed_up : e.system_backup ≡ true

-- What an accepted result satisfies, gate by gate.
record Yields {A : Type 0} (r : Result GateError A) (Q : A → Type 0) : Type 0 where
  at : (a : A) → r ≡ ok a → Q a

module _ {B : Type 0} {Q : B → Type 0} where
  Yields-required :
      {A : Type 0} (x : GateError) (o : Option A) (f : A → Result GateError B)
      → ((a : A) → o ≡ some a → Yields (f a) Q)
      → Yields (required x o >>= f) Q
  Yields-required x none f k = record { at = λ b h. cc }
  Yields-required x (some a) f k = k a refl

  Yields-manifest :
      {A : Type 0} (r : Result ManifestError A) (f : A → Result GateError B)
      → ((a : A) → r ≡ ok a → Yields (f a) Q)
      → Yields (manifest_result r >>= f) Q
  Yields-manifest (err x) f k = record { at = λ b h. cc }
  Yields-manifest (ok a) f k = k a refl

  Yields-refuse :
      (c : Bool) (x : GateError) (k : Result GateError B)
      → (c ≡ false → Yields k Q)
      → Yields (refuse_if c x >> k) Q
  Yields-refuse true x k h = record { at = λ b e. cc }
  Yields-refuse false x k h = h refl

  Yields-then :
      (r : Result GateError (Unit {0})) (k : Result GateError B) → Yields k Q → Yields (r >> k) Q
  Yields-then (err x) k h = record { at = λ b e. cc }
  Yields-then (ok u) k h = h

ok_injective : {A : Type 0} (a b : A) → ◌≡◌ {A = Result GateError A} (ok a) (ok b) → a ≡ b
ok_injective a b e = cc

Yields-done : {A : Type 0} {Q : A → Type 0} (a : A) → Q a → Yields (ok a) Q
Yields-done {Q = Q} a q = record { at = λ b e. subst Q (ok_injective a b e) q }

not-false : (b : Bool) → not b ≡ false → b ≡ true
not-false b h = ground arith

content_gates_yield :
    (lower : Text → Text) (goos goarch : Text) (e : Evidence) (tag : Text)
    → e.verified ≡ true
    → e.release_tag ≡ some tag
    → Yields
        (content_gates lower goos goarch tag e)
        (λ (p : Manifest × Artifact). IsTrusted lower goos goarch e p.0 p.1)
unfolding content_gates
content_gates_yield lower goos goarch e tag signed released =
    Yields-required unreadable e.manifest_file _ λ decoded read.
      Yields-manifest (parse_manifest decoded) _ λ m parsed.
        Yields-refuse (not (text_eq m.tag tag)) wrong_tag _ λ tagged.
          Yields-required no_commit e.tag_commit _ λ commit known.
            Yields-refuse (not (text_eq commit m.commit)) wrong_commit _ λ of_commit.
              Yields-manifest (artifact_for m.artifacts goos goarch) _ λ a chosen.
                Yields-refuse (not (e.artifact_asset a.name)) no_artifact_asset _ λ asset.
                  Yields-then (download e.artifact_download a.size) _ (
                    Yields-refuse (not (e.archive_size == a.size)) wrong_size _ λ sized.
                      Yields-refuse (not (text_eq e.archive_sha256 (lower a.sha256))) wrong_hash _
                        λ hashed. Yields-refuse (not e.extracted) bad_archive _ λ extracted.
                          Yields-refuse (not e.system_backup) no_backup _ λ saved.
                            Yields-done (m, a)
                              (trust decoded m tag commit a parsed tagged known of_commit chosen
                                sized hashed saved))
  where
    trust :
        (decoded m : Manifest) (tag' commit : Text) (a : Artifact)
        → parse_manifest decoded ≡ ok m
        → not (text_eq m.tag tag) ≡ false
        → e.tag_commit ≡ some commit
        → not (text_eq commit m.commit) ≡ false
        → artifact_for m.artifacts goos goarch ≡ ok a
        → not (e.archive_size == a.size) ≡ false
        → not (text_eq e.archive_sha256 (lower a.sha256)) ≡ false
        → not e.system_backup ≡ false
        → IsTrusted lower goos goarch e m a
    trust decoded m tag' commit a parsed tagged known of_commit chosen sized hashed saved =
        let same : m ≡ decoded = (parse_manifest_ok decoded parsed).0 in
        let accepted : parse_manifest m ≡ ok m =
          subst (λ n. parse_manifest n ≡ ok m) (sym same) parsed in
        record {
          signed = signed;
          accepted = accepted;
          of_release = released ∙ ap some (sym (text_eq→eq m.tag tag (not-false _ tagged)));
          of_commit = known ∙ ap some (text_eq→eq commit m.commit (not-false _ of_commit));
          for_platform = artifact_for-OnlyOne m goos goarch accepted chosen;
          size_matches = (==_iff e.archive_size a.size).0 (not-false _ sized);
          hash_matches = text_eq→eq e.archive_sha256 (lower a.sha256) (not-false _ hashed);
          backed_up = not-false e.system_backup saved;
        }

-- A release that passes the gates has a manifest with an accepted signature and form, for the tag of the
-- release and the commit of that tag, and an archive with the size and the hash that the manifest gives
-- for its only artifact for this platform; and a full backup was made before.
pub gates-IsTrusted :
    (lower : Text → Text) (goos goarch : Text) (e : Evidence) {m : Manifest} {a : Artifact}
    → gates lower goos goarch e ≡ ok (m, a)
    → IsTrusted lower goos goarch e m a
unfolding gates
gates-IsTrusted lower goos goarch e {m} {a} h = whole.at (m, a) h
  where
    whole :
        Yields
          (gates lower goos goarch e)
          (λ (p : Manifest × Artifact). IsTrusted lower goos goarch e p.0 p.1)
    whole = Yields-refuse (not e.directories) no_directories _ λ made.
        Yields-refuse (not e.lock) locked _ λ held.
          Yields-required no_release e.release_tag _ λ tag released.
            Yields-refuse (not e.manifest_asset) no_manifest_asset _ λ listed.
              Yields-refuse (not e.signature_asset) no_signature_asset _ λ listed'.
                Yields-refuse (not e.staging) no_staging _ λ staged.
                  Yields-then (download e.manifest_download max_metadata) _ (
                    Yields-then (download e.signature_download max_metadata) _ (
                      Yields-refuse (not e.verified) bad_signature _ λ signed.
                        content_gates_yield lower goos goarch e tag (not-false e.verified signed)
                          released))

-- A release that fails a gate changes no file.
pub apply_refused :
    (lower : Text → Text) (goos goarch : Text) (first second : List Binary) (dir version : String)
    (healthy : Bool) (e : Evidence) (d : Disk) {x : GateError}
    → gates lower goos goarch e ≡ err x
    → apply lower goos goarch first second dir version healthy e d
      ≡ record { status = failed; rollback = none; disk = d }
unfolding apply
apply_refused lower goos goarch first second dir version healthy e d h = rw (h, after_gates)
