-- ===== src/Update/Artifacts.antt =====
-- What an accepted manifest promises: sound artifacts, and at most one for each platform.
use mathlib.Core.Path.{subst}
use opendeploy.Common.{
  ◌⊎◌, sym, ◌∙◌, ◌≡◌, ◌≢◌, Bool, true, false, List, [], ◌∷◌, ◌++◌, ok, any, All, arith, Bool-cases,
  inl, inr,
}
use opendeploy.Common.Text.{Text, text_eq, text_eq→eq, text_eq_refl}
use opendeploy.Update.Patterns.{is_version, is_hex_text}
use opendeploy.Update.Manifest.{
  Artifact, Manifest, manifest_schema, platform_key, is_bad_artifact, check_artifacts,
  parse_manifest, is_for, artifact_for,
}

-- no two artifacts of the list are for one platform
abbrev pub Distinct : List Artifact → Type 0
Distinct [] = Unit
Distinct (a ∷ rest) = All (λ b. platform_key a ≢ platform_key b) rest × Distinct rest

abbrev pub Sound : Artifact → Type 0
Sound a = is_bad_artifact a ≡ false

absent : (k : Text) (seen : List Text) → any (λ s. text_eq s k) seen ≡ false → All (λ s. s ≢ k) seen
absent k [] h = tt
absent k (s ∷ seen) h = (
  λ e.
      cc (false≢ (text_eq s k) (ground arith) (subst (λ t. text_eq s t ≡ true) e (text_eq_refl s))),
  absent k seen (ground arith),
)
  where
    false≢ : (b : Bool) → b ≡ false → b ≡ true → false ≡ true
    false≢ b p q = sym p ∙ q

heads :
    (k : Text) (seen : List Text) (l : List Artifact)
    → All (λ a. All (λ s. s ≢ platform_key a) (k ∷ seen)) l
    → All (λ a. k ≢ platform_key a) l
heads k seen [] h = tt
heads k seen (a ∷ l) h = (h.0.0, heads k seen l h.1)

tails :
    (k : Text) (seen : List Text) (l : List Artifact)
    → All (λ a. All (λ s. s ≢ platform_key a) (k ∷ seen)) l
    → All (λ a. All (λ s. s ≢ platform_key a) seen) l
tails k seen [] h = tt
tails k seen (a ∷ l) h = (h.0.1, tails k seen l h.1)

check_artifacts_ok :
    (seen : List Text) (l : List Artifact)
    → check_artifacts seen l ≡ ok tt
    → All Sound l × (All (λ a. All (λ s. s ≢ platform_key a) seen) l × Distinct l)
unfolding check_artifacts
check_artifacts_ok seen [] h = (tt, (tt, tt))
check_artifacts_ok seen (a ∷ l) h =
    let good : is_bad_artifact a ≡ false = ground arith in
    let new : any (λ k. text_eq k (platform_key a)) seen ≡ false = ground arith in
    let rest : check_artifacts (platform_key a ∷ seen) l ≡ ok tt = ground arith in
    let ih = check_artifacts_ok (platform_key a ∷ seen) l rest in
    (
      (good, ih.0),
      (
        (absent (platform_key a) seen new, tails (platform_key a) seen l ih.1.0),
        (heads (platform_key a) seen l ih.1.0, ih.1.1),
      ),
    )

pub record IsAccepted (m : Manifest) : Type 0 where
  pub schema_known : m.schema ≡ manifest_schema
  pub version_known : is_version m.version ≡ true
  pub tag_is_version : m.tag ≡ m.version
  pub commit_full : is_hex_text 40 m.commit ≡ true
  pub all_sound : All Sound m.artifacts
  pub distinct : Distinct m.artifacts

-- A manifest that is accepted is the decoded one, and has the known schema, a version that is its tag, a
-- full commit hash, and sound artifacts, no two for one platform.
pub parse_manifest_ok :
    (m : Manifest) {m' : Manifest} → parse_manifest m ≡ ok m' → (m' ≡ m) × IsAccepted m
unfolding parse_manifest
parse_manifest_ok m h =
    let checked : check_artifacts [] m.artifacts ≡ ok tt = ground arith in
    let artifacts = check_artifacts_ok [] m.artifacts checked in
    (
      ground arith,
      record {
        schema_known = text_eq→eq m.schema manifest_schema (ground arith);
        version_known = ground arith;
        tag_is_version = text_eq→eq m.tag m.version (ground arith);
        commit_full = ground arith;
        all_sound = artifacts.0;
        distinct = artifacts.1.1;
      },
    )

-- the key of a platform
platform_of :
    (goos goarch : Text) (a : Artifact)
    → is_for goos goarch a ≡ true
    → platform_key a ≡ goos ++ (b'/' ∷ goarch)
unfolding platform_key
platform_of goos goarch a h =
    rw (text_eq→eq a.os goos (ground arith), text_eq→eq a.arch goarch (ground arith))

other_platforms :
    (goos goarch : Text) (a : Artifact) (l : List Artifact)
    → is_for goos goarch a ≡ true
    → All (λ b. platform_key a ≢ platform_key b) l
    → All (λ b. is_for goos goarch b ≡ false) l
other_platforms goos goarch a [] h d = tt
other_platforms goos goarch a (b ∷ l) h d = (
  elim (Bool-cases (is_for goos goarch b)) [
    | inl same ↦ absurd (d.0 (platform_of goos goarch a h ∙ sym (platform_of goos goarch b same)))
    | inr other ↦ other
  ],
  other_platforms goos goarch a l h d.1,
)

-- the list has one artifact for the platform, and it is `a`
abbrev pub OnlyOne : Text → Text → Artifact → List Artifact → Type 0
OnlyOne goos goarch a [] = ⊥
OnlyOne goos goarch a (b ∷ rest) =
    ((b ≡ a) × (is_for goos goarch b ≡ true) × All (λ c. is_for goos goarch c ≡ false) rest)
    ⊎ ((is_for goos goarch b ≡ false) × OnlyOne goos goarch a rest)

only_one :
    (l : List Artifact) (goos goarch : Text) {a : Artifact}
    → Distinct l
    → artifact_for l goos goarch ≡ ok a
    → OnlyOne goos goarch a l
unfolding artifact_for
only_one [] goos goarch d h = cc
only_one (b ∷ l) goos goarch {a} d h = elim (Bool-cases (is_for goos goarch b)) [
  | inl hit ↦ inl (first_hit hit, hit, other_platforms goos goarch b l hit d.0)
  | inr miss ↦ inr (miss, only_one l goos goarch d.1 (rw (miss, artifact_for) at h))
]
  where
    first_hit : is_for goos goarch b ≡ true → b ≡ a
    first_hit hit = ground arith

-- In an accepted manifest the artifact that is chosen for a platform is the only one for it, wherever it
-- stands in the list.
pub artifact_for-OnlyOne :
    (m : Manifest) (goos goarch : Text) {m' : Manifest} {a : Artifact}
    → parse_manifest m ≡ ok m'
    → artifact_for m'.artifacts goos goarch ≡ ok a
    → OnlyOne goos goarch a m.artifacts
artifact_for-OnlyOne m goos goarch {a = a} parsed chosen =
    let accepted = parse_manifest_ok m parsed in
    only_one m.artifacts goos goarch accepted.1.distinct
      (subst (λ (n : Manifest). artifact_for n.artifacts goos goarch ≡ ok a) accepted.0 chosen)
