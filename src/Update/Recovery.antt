-- ===== src/Update/Recovery.antt =====
-- An installation that fails is undone: what the automatic rollback restores are the binaries that
-- were live before.
use opendeploy.Common.{
  ◌≡◌, refl, inl, Bool, true, false, none, some, List, [], ◌∷◌, String, Result, ok, err, All, ◌≢◌,
}
use opendeploy.Common.Action.{Post}
use opendeploy.Update.Disk.{Binary, core, agent, cli, half_way, EngineError, Files, Disk}
use opendeploy.Update.Engine.{install, restore, rolled_back, Applied, rolled, after_install, deploy}
use opendeploy.Update.Snapshots.{Saved, Back, install-Saved, restore-Back}

-- what the automatic rollback promises: if it reports no error, every binary is live as before
abbrev Undone : Files → Applied → Type 0
Undone old a =
    a.status ≡ rolled_back → a.rollback ≡ some (ok tt) → (b : Binary) → a.disk.live b ≡ old b

module _ (old : Files) (dir : String) where
  rolled-Undone :
      (r : Result EngineError (Unit {0}) × Disk)
      → Post (λ u d. Back old dir (cli ∷ agent ∷ core ∷ []) d) (Saved old dir) r
      → Undone old (rolled r)
  rolled-Undone (ok u, d) h s e core = h.1.1.1.0
  rolled-Undone (ok u, d) h s e agent = h.1.1.0
  rolled-Undone (ok u, d) h s e cli = h.1.0
  rolled-Undone (err e', d) h s e b = cc

  after_install-Undone :
      (healthy : Bool) (r : Result EngineError (Unit {0}) × Disk)
      → Post (λ u d. Saved old dir d) (Saved old dir) r
      → Undone old (after_install dir healthy r)
  unfolding after_install
  after_install-Undone healthy (err e, d) h =
      rolled-Undone (restore dir d) ((restore-Back old dir).at d h)
  after_install-Undone true (ok u, d) h = λ s e b. cc
  after_install-Undone false (ok u, d) h =
      rolled-Undone (restore dir d) ((restore-Back old dir).at d h)

-- An update that ends rolled back, because its installation failed at any operation or because the new
-- version was not healthy, leaves every binary as it was before the update, if its rollback reported no
-- error. It is supposed that the snapshot directory was new, and that no plain copy stops half way.
pub deploy_undone :
    (first second : List Binary) (dir version : String) (healthy : Bool) (d : Disk)
    → ((b : Binary) → d.snapshots dir b ≡ none)
    → All (λ f. f ≢ half_way) d.faults
    → (deploy first second dir version healthy d).status ≡ rolled_back
    → (deploy first second dir version healthy d).rollback ≡ some (ok tt)
    → (b : Binary) → (deploy first second dir version healthy d).disk.live b ≡ d.live b
unfolding deploy
deploy_undone first second dir version healthy d new whole =
    after_install-Undone d.live dir healthy (install first second dir version d) (
      (install-Saved d.live dir first second version).at d (record {
        saved = record { kept = λ b. inl (new b); whole = whole };
        unchanged = λ b. refl;
      }))
