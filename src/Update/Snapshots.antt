-- ===== src/Update/Snapshots.antt =====
-- What an installation saves: the snapshot holds only binaries as they were, and a restore from it brings
-- them back.
use mathlib.Core.Path.{subst}
use opendeploy.Common.{
  ◌≡◌, refl, ◌∙◌, ◌⊎◌, inl, inr, Bool, true, false, Option, none, some, List, [], ◌∷◌, String,
  str_eq_refl, Result, ok, err, All, if◌then◌else◌, ◌≢◌,
}
use opendeploy.Common.Action.{Post, Ensures, Ensures-pure, Ensures-then, Ensures-weaken}
use opendeploy.Update.Disk.{
  Binary, core, agent, cli, same, Fault, none_at_all, refused, half_way, EngineError, io,
  missing_live, missing_snapshot, truncated, Files, Disk, put, put_snapshot, copied, replaced,
  next_fault, later, make_directory, copy_to_release, copy_to_snapshot, stat_live, stat_snapshot,
  release_to_live, snapshot_to_live, write_current, each, M,
}
use opendeploy.Update.Engine.{prepare, install, restore_one, restore}

same→eq : (a b : Binary) → same a b ≡ true → a ≡ b
same→eq core core h = refl
same→eq agent agent h = refl
same→eq cli cli h = refl
same→eq a b h = cc

module _ (old : Files) (dir : String) where
  -- the snapshot holds the binaries as they were, as far as it goes; and no copy stops half way
  pub record Saved (d : Disk) : Type 0 where
    pub kept : (b : Binary) → (d.snapshots dir b ≡ none) ⊎ (d.snapshots dir b ≡ old b)
    pub whole : All (λ f. f ≢ half_way) d.faults

  -- and the live binaries are untouched
  pub record Untouched (d : Disk) : Type 0 where
    pub saved : Saved d
    pub unchanged : (b : Binary) → d.live b ≡ old b

  later-whole : (fs : List Fault) → All (λ f. f ≢ half_way) fs → All (λ f. f ≢ half_way) (later fs)
  later-whole [] h = tt
  later-whole (f ∷ fs) h = h.1

  next-whole : (fs : List Fault) → All (λ f. f ≢ half_way) fs → next_fault fs ≢ half_way
  next-whole [] h e = cc
  next-whole (f ∷ fs) h e = h.0 e

  passed : (d : Disk) → Saved d → Saved (record d { faults = later d.faults })
  passed d h = record { kept = h.kept; whole = later-whole d.faults h.whole }

  passed-Untouched : (d : Disk) → Untouched d → Untouched (record d { faults = later d.faults })
  passed-Untouched d h = record { saved = passed d h.saved; unchanged = h.unchanged }

  make_directory-Untouched : Ensures Untouched make_directory (λ u d. Untouched d) Saved
  unfolding make_directory
  make_directory-Untouched = record { at = λ d h. go d (next_fault d.faults) h }
    where
      go :
          (d : Disk) (f : Fault)
          → Untouched d
          → Post
              (λ u d. Untouched d)
              Saved
              (elim f as (λ x. Result EngineError (Unit {0}) × Disk) [
                | none_at_all ↦ (ok tt, record d { faults = later d.faults })
                | _ ↦ (err io, record d { faults = later d.faults })
              ])
      go d none_at_all h = passed-Untouched d h
      go d refused h = passed d h.saved
      go d half_way h = passed d h.saved

  release-Untouched :
      (b : Binary) → Ensures Untouched (copy_to_release b) (λ u d. Untouched d) Saved
  unfolding copy_to_release
  release-Untouched b = record {
    at = λ d h. go d (copied (next_fault d.faults) (d.payload b) (d.release b)) h;
  }
    where
      go :
          (d : Disk) (r : Result EngineError (Unit {0}) × Option String)
          → Untouched d
          → Post
              (λ u d. Untouched d)
              Saved
              (r.0, record d { release = put d.release b r.1; faults = later d.faults })
      go d (ok u, c) h = record {
        saved = record { kept = h.saved.kept; whole = later-whole d.faults h.saved.whole };
        unchanged = h.unchanged;
      }
      go d (err e, c) h = record { kept = h.saved.kept; whole = later-whole d.faults h.saved.whole }

  stat_live-Untouched : (b : Binary) → Ensures Untouched (stat_live b) (λ u d. Untouched d) Saved
  unfolding stat_live
  stat_live-Untouched b = record { at = λ d h. go d (d.live b) h }
    where
      go :
          (d : Disk) (o : Option String)
          → Untouched d
          → Post
              (λ u d. Untouched d)
              Saved
              (elim o as (λ x. Result EngineError (Unit {0}) × Disk) [
                | none ↦ (err missing_live, d)
                | some c ↦ (ok tt, d)
              ])
      go d none h = h.saved
      go d (some c) h = h

  Saved-snapshot :
      (d : Disk) (b : Binary) (c : Option String)
      → (c ≡ none) ⊎ (c ≡ old b)
      → Saved d
      → Saved (record d { snapshots = put_snapshot d.snapshots dir b c; faults = later d.faults })
  Saved-snapshot d b c hc h = record {
    kept = λ j. rw (str_eq_refl dir) (go j (same b j) refl);
    whole = later-whole d.faults h.whole;
  }
    where
      go :
          (j : Binary) (s : Bool)
          → same b j ≡ s
          → ((if s then c else d.snapshots dir j) ≡ none)
            ⊎ ((if s then c else d.snapshots dir j) ≡ old j)
      go j true e = subst (λ k. (c ≡ none) ⊎ (c ≡ old k)) (same→eq b j e) hc
      go j false e = h.kept j

  copy_to_snapshot-Untouched :
      (b : Binary) → Ensures Untouched (copy_to_snapshot dir b) (λ u d. Untouched d) Saved
  unfolding copy_to_snapshot
  copy_to_snapshot-Untouched b = record {
    at = λ d h.
        go d (next_fault d.faults) (d.live b) (next-whole d.faults h.saved.whole) (h.unchanged b) h;
  }
    where
      go :
          (d : Disk) (f : Fault) (o : Option String)
          → f ≢ half_way
          → o ≡ old b
          → Untouched d
          → Post
              (λ u d. Untouched d)
              Saved
              (
                (copied f o (d.snapshots dir b)).0,
                record d {
                  snapshots = put_snapshot d.snapshots dir b (copied f o (d.snapshots dir b)).1;
                  faults = later d.faults;
                },
              )
      go d none_at_all none n e h = Saved-snapshot d b _ (h.saved.kept b) h.saved
      go d refused none n e h = Saved-snapshot d b _ (h.saved.kept b) h.saved
      go d half_way none n e h = Saved-snapshot d b _ (h.saved.kept b) h.saved
      go d none_at_all (some c) n e h = record {
        saved = Saved-snapshot d b (some c) (inr e) h.saved;
        unchanged = h.unchanged;
      }
      go d refused (some c) n e h = Saved-snapshot d b _ (h.saved.kept b) h.saved
      go d half_way (some c) n e h = absurd (n refl)

  release_to_live-Saved : (b : Binary) → Ensures Saved (release_to_live b) (λ u d. Saved d) Saved
  unfolding release_to_live
  release_to_live-Saved b = record {
    at = λ d h. go d (replaced (next_fault d.faults) (d.release b) (d.live b)) h;
  }
    where
      go :
          (d : Disk) (r : Result EngineError (Unit {0}) × Option String)
          → Saved d
          → Post
              (λ u d. Saved d)
              Saved
              (r.0, record d { live = put d.live b r.1; faults = later d.faults })
      go d (ok u, c) h = record { kept = h.kept; whole = later-whole d.faults h.whole }
      go d (err e, c) h = record { kept = h.kept; whole = later-whole d.faults h.whole }

  write_current-Saved : (v : String) → Ensures Saved (write_current v) (λ u d. Saved d) Saved
  unfolding write_current
  write_current-Saved v = record { at = λ d h. go d (next_fault d.faults) h }
    where
      go :
          (d : Disk) (f : Fault)
          → Saved d
          → Post
              (λ u d. Saved d)
              Saved
              (elim f as (λ x. Result EngineError (Unit {0}) × Disk) [
                | none_at_all ↦ (ok tt, record d { current = some v; faults = later d.faults })
                | refused ↦ (err io, record d { faults = later d.faults })
                | half_way ↦ (err io, record d { current = truncated; faults = later d.faults })
              ])
      go d none_at_all h = record { kept = h.kept; whole = later-whole d.faults h.whole }
      go d refused h = passed d h
      go d half_way h = record { kept = h.kept; whole = later-whole d.faults h.whole }

  each_ensures :
      {P F : Disk → Type 0} (f : Binary → M (Unit {0})) (bs : List Binary)
      → ((d : Disk) → P d → F d)
      → ((b : Binary) → Ensures P (f b) (λ u d. P d) F)
      → Ensures P (each f bs) (λ u d. P d) F
  each_ensures f [] drop step = Ensures-pure _ _ _ (λ d h. h)
  each_ensures f (b ∷ bs) drop step = Ensures-then _ _ (step b) (each_ensures f bs drop step)

  pub install-Saved :
      (first second : List Binary) (version : String)
      → Ensures Untouched (install first second dir version) (λ u d. Saved d) Saved
  unfolding install prepare
  install-Saved first second version = Ensures-then _ _ make_directory-Untouched (
      Ensures-then _ _ make_directory-Untouched (
        Ensures-then _ _
          (each_ensures _ first (λ d h. h.saved)
            λ b.
              Ensures-then _ _ (release-Untouched b)
                (Ensures-then _ _ (stat_live-Untouched b) (copy_to_snapshot-Untouched b)))
          (Ensures-then _ _
            (Ensures-weaken (each_ensures {P = Saved} _ second (λ d h. h) release_to_live-Saved)
              (λ d h. h.saved) (λ u d h. h))
            (write_current-Saved version))))

  -- the binaries of the list are live again as they were
  abbrev pub Back : List Binary → Disk → Type 0
  Back bs d = Saved d × All (λ b. d.live b ≡ old b) bs

  put_live :
      (fs : Files) (b : Binary) (c : Option String) (bs : List Binary)
      → c ≡ old b
      → All (λ j. fs j ≡ old j) bs
      → All (λ j. put fs b c j ≡ old j) bs
  put_live fs b c [] e h = tt
  put_live fs b c (j ∷ bs) e h = (go (same b j) refl, put_live fs b c bs e h.1)
    where
      go : (s : Bool) → same b j ≡ s → (if s then c else fs j) ≡ old j
      go true p = subst (λ k. c ≡ old k) (same→eq b j p) e
      go false p = h.0

  put_same : (fs : Files) (b : Binary) (c : Option String) → put fs b c b ≡ c
  put_same fs core c = refl
  put_same fs agent c = refl
  put_same fs cli c = refl

  restore_one-Back :
      (b : Binary) (bs : List Binary)
      → Ensures (Back bs) (restore_one dir b) (λ u d. Back (b ∷ bs) d) Saved
  unfolding restore_one stat_snapshot snapshot_to_live
  restore_one-Back b bs =
      Ensures-then _ _ (record { at = λ d h. stat d (d.snapshots dir b) h })
        (record { at = λ d h. move d (next_fault d.faults) (d.snapshots dir b) (h.0.kept b) h })
    where
      stat :
          (d : Disk) (o : Option String)
          → Back bs d
          → Post
              (λ u d. Back bs d)
              Saved
              (elim o as (λ x. Result EngineError (Unit {0}) × Disk) [
                | none ↦ (err missing_snapshot, d)
                | some c ↦ (ok tt, d)
              ])
      stat d none h = h.0
      stat d (some c) h = h

      kept :
          (d : Disk) (c : Option String)
          → Saved d
          → Saved (record d { live = put d.live b c; faults = later d.faults })
      kept d c h = record { kept = h.kept; whole = later-whole d.faults h.whole }

      move :
          (d : Disk) (f : Fault) (o : Option String)
          → (o ≡ none) ⊎ (o ≡ old b)
          → Back bs d
          → Post
              (λ u d. Back (b ∷ bs) d)
              Saved
              (
                (replaced f o (d.live b)).0,
                record d {
                  live = put d.live b (replaced f o (d.live b)).1;
                  faults = later d.faults;
                },
              )
      move d none_at_all none k h = kept d (d.live b) h.0
      move d refused none k h = kept d (d.live b) h.0
      move d half_way none k h = kept d (d.live b) h.0
      move d none_at_all (some c) (inl e) h = cc
      move d none_at_all (some c) (inr e) h = (
        kept d (some c) h.0,
        (put_same d.live b (some c) ∙ e, put_live d.live b (some c) bs e h.1),
      )
      move d refused (some c) k h = kept d (d.live b) h.0
      move d half_way (some c) k h = kept d (d.live b) h.0

  pub restore-Back : Ensures Saved (restore dir) (λ u d. Back (cli ∷ agent ∷ core ∷ []) d) Saved
  unfolding restore
  restore-Back =
      Ensures-then _ _ (Ensures-weaken (restore_one-Back core []) (λ d h. (h, tt)) (λ u d h. h)) (
        Ensures-then _ _ (restore_one-Back agent (core ∷ [])) (
          Ensures-then _ _ (restore_one-Back cli (agent ∷ core ∷ []))
            (Ensures-pure _ _ _ (λ d h. h))))
