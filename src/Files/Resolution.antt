-- ===== src/Files/Resolution.antt =====
-- Where the paths lead that securePath accepts.
use opendeploy.Common.{some, ◌++◌, Result, ok, err, ◌≡◌}
use opendeploy.Common.Text.{Text}
use opendeploy.Files.Paths.{Names, PathError, present, Disk, Found}

module _ (disk : Disk) where
  -- the place exists and has the names of the path together with those below it
  unfoldable pub IsPlace : Names → Names × Names → Type 0
  IsPlace path place = (place.0 ++ place.1 ≡ path) × (disk.lstat place.0 ≡ present)

  Places : Names → Found disk → Type 0
  Places path (ok place) = IsPlace path place
  Places path (err e) = Unit {0}

  Value : {A : Type 0} → (A → Type 0) → Result PathError A → Type 0
  Value Q (ok a) = Q a
  Value Q (err e) = Unit {0}

  -- the value of a result, if it has one, is as `Q` says
  record Yields {A : Type 0} (Q : A → Type 0) (r : Result PathError A) : Type 0 where
    value : Value Q r

  -- `q` is what the path becomes when the nearest existing place above it is resolved
  unfoldable pub Resolved : Text → Names → Type 0
  Resolved path q =
      (place : Names × Names) × (resolved : Names) × IsPlace (disk.clean path) place
      × (disk.eval_symlinks place.0 ≡ some resolved)
      × (q ≡ resolved ++ place.1)
