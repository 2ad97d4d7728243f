-- ===== src/Update/Engine.antt =====
-- install, restore and snapshotLive of engine.go, the part of Apply from the installation on, and
-- Rollback. Go iterates over the map of binaries in an order of its own at each loop: the orders are
-- arguments.
use opendeploy.Common.{
  Bool, Option, none, some, List, [], ◌∷◌, String, Result, ok, err, if◌then◌else◌,
}
use opendeploy.Common.Action.{◌>>◌}
use opendeploy.Update.Disk.{
  Binary, core, agent, cli, EngineError, Disk, M, make_directory, copy_to_release, copy_to_snapshot,
  stat_live, stat_snapshot, release_to_live, snapshot_to_live, write_current, each,
}

abbrev pub binaries : List Binary
binaries = core ∷ agent ∷ cli ∷ []

-- one round of the first loop of `install`
unfoldable pub prepare : String → Binary → M (Unit {0})
prepare dir b = do copy_to_release b; stat_live b; copy_to_snapshot dir b

-- install
unfoldable pub install : List Binary → List Binary → String → String → M (Unit {0})
install first second dir version = do
  make_directory
  make_directory
  each (prepare dir) first
  each release_to_live second
  write_current version

-- one round of `restore`
unfoldable pub restore_one : String → Binary → M (Unit {0})
restore_one dir b = do stat_snapshot dir b; snapshot_to_live dir b

-- restore
unfoldable pub restore : String → M (Unit {0})
restore dir = each (restore_one dir) binaries

-- snapshotLive
unfoldable pub snapshot_live : String → M (Unit {0})
snapshot_live dir = do make_directory; each (copy_to_snapshot dir) binaries

pub data Status : Type 0 where
  failed installing rolled_back succeeded rollback_failed manual_rollback : Status

-- how Apply ends: the status of its history entry, and what the automatic rollback reported
pub record Applied : Type 0 where
  pub status : Status
  pub rollback : Option (Result EngineError (Unit {0}))
  pub disk : Disk

abbrev pub rolled : Result EngineError (Unit {0}) × Disk → Applied
rolled r = record { status = rolled_back; rollback = some r.0; disk = r.1 }

-- Apply after the installation; `healthy` is the outcome of Restart and Healthy
unfoldable pub after_install : String → Bool → Result EngineError (Unit {0}) × Disk → Applied
after_install dir healthy (err e, d) = rolled (restore dir d)
after_install dir healthy (ok u, d) =
    if healthy
    then record { status = succeeded; rollback = none; disk = d }
    else rolled (restore dir d)

unfoldable pub deploy : List Binary → List Binary → String → String → Bool → Disk → Applied
unfolding after_install
deploy first second dir version healthy d =
    after_install dir healthy (install first second dir version d)

-- Rollback after its history entry was found: `dir` is the snapshot to return to, `safety` a new one
unfoldable pub after_restore : String → Bool → Result EngineError (Unit {0}) × Disk → Applied
after_restore safety healthy (err e, d) = record {
  status = rollback_failed;
  rollback = none;
  disk = d;
}
after_restore safety healthy (ok u, d) =
    if healthy
    then record { status = manual_rollback; rollback = none; disk = d }
    else let r = restore safety d in
      record { status = rollback_failed; rollback = some r.0; disk = r.1 }

unfoldable pub after_snapshot :
    String → String → Bool → Result EngineError (Unit {0}) × Disk → Applied
unfolding after_restore
after_snapshot dir safety healthy (err e, d) = record {
  status = rollback_failed;
  rollback = none;
  disk = d;
}
after_snapshot dir safety healthy (ok u, d) = after_restore safety healthy (restore dir d)

unfoldable pub rollback_to : String → String → Bool → Disk → Applied
unfolding after_snapshot
rollback_to dir safety healthy d = after_snapshot dir safety healthy (snapshot_live safety d)
