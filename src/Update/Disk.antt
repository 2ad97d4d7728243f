-- ===== src/Update/Disk.antt =====
-- The files that the engine of engine.go moves: the three live binaries, the payload and the immutable
-- copy of a release, and the snapshots under the backups directory. `faults` tells, operation by
-- operation, whether the system reports an error, and whether a plain copy stops half way.
use opendeploy.Common.{
  Bool, true, false, Option, none, some, List, [], ◌∷◌, String, str_eq, Result, ok, err,
  if◌then◌else◌,
}
use opendeploy.Common.Action.{Action, pure, ◌>>◌}

pub data Binary : Type 0 where
  core agent cli : Binary

pub Binary-discrete : Discrete Binary
Binary-discrete = hlevel

abbrev pub same : Binary → Binary → Bool
same core core = true
same agent agent = true
same cli cli = true
same a b = false

pub data Fault : Type 0 where
  none_at_all refused half_way : Fault

pub data EngineError : Type 0 where
  io missing_snapshot missing_live missing_source : EngineError

abbrev pub Files : Type 0
Files = Binary → Option String

abbrev pub put : Files → Binary → Option String → Files
put fs b c d = if same b d then c else fs d

pub record Disk : Type 0 where
  pub live : Files
  pub payload : Files
  pub release : Files
  pub snapshots : String → Files
  -- the content of current.json
  pub current : Option String
  pub faults : List Fault

abbrev pub next_fault : List Fault → Fault
next_fault [] = none_at_all
next_fault (f ∷ fs) = f

abbrev pub later : List Fault → List Fault
later [] = []
later (f ∷ fs) = fs

-- what a copy that stops half way leaves
abbrev pub truncated : Option String
truncated = some "truncated"

-- copyFile: the target is written in place
abbrev pub copied :
    Fault → Option String → Option String → Result EngineError (Unit {0}) × Option String
copied f none old = (err missing_source, old)
copied none_at_all (some c) old = (ok tt, some c)
copied refused (some c) old = (err io, old)
copied half_way (some c) old = (err io, truncated)

-- atomicCopy: the target is replaced by one rename, or left
abbrev pub replaced :
    Fault → Option String → Option String → Result EngineError (Unit {0}) × Option String
replaced f none old = (err missing_source, old)
replaced none_at_all (some c) old = (ok tt, some c)
replaced refused (some c) old = (err io, old)
replaced half_way (some c) old = (err io, old)

abbrev pub M : Type 0 → Type 0
M A = Action EngineError Disk A

-- an operation that makes a directory: it may fail, and moves no file
unfoldable pub make_directory : M (Unit {0})
make_directory d = elim (next_fault d.faults) [
  | none_at_all ↦ (ok tt, record d { faults = later d.faults })
  | _ ↦ (err io, record d { faults = later d.faults })
]

unfoldable pub copy_to_release : Binary → M (Unit {0})
copy_to_release b d =
    let r = copied (next_fault d.faults) (d.payload b) (d.release b) in
    (r.0, record d { release = put d.release b r.1; faults = later d.faults })

abbrev pub put_snapshot : (String → Files) → String → Binary → Option String → String → Files
put_snapshot ss dir b c j = if str_eq dir j then put (ss j) b c else ss j

unfoldable pub copy_to_snapshot : String → Binary → M (Unit {0})
copy_to_snapshot dir b d =
    let r = copied (next_fault d.faults) (d.live b) (d.snapshots dir b) in
    (r.0, record d { snapshots = put_snapshot d.snapshots dir b r.1; faults = later d.faults })

-- os.Stat of a live binary
unfoldable pub stat_live : Binary → M (Unit {0})
stat_live b d = elim (d.live b) [ none ↦ (err missing_live, d) | some c ↦ (ok tt, d) ]

unfoldable pub stat_snapshot : String → Binary → M (Unit {0})
stat_snapshot dir b d = elim (d.snapshots dir b) [
  | none ↦ (err missing_snapshot, d)
  | some c ↦ (ok tt, d)
]

unfoldable pub release_to_live : Binary → M (Unit {0})
release_to_live b d =
    let r = replaced (next_fault d.faults) (d.release b) (d.live b) in
    (r.0, record d { live = put d.live b r.1; faults = later d.faults })

unfoldable pub snapshot_to_live : String → Binary → M (Unit {0})
snapshot_to_live dir b d =
    let r = replaced (next_fault d.faults) (d.snapshots dir b) (d.live b) in
    (r.0, record d { live = put d.live b r.1; faults = later d.faults })

-- os.WriteFile of current.json
unfoldable pub write_current : String → M (Unit {0})
write_current text d = elim (next_fault d.faults) [
  | none_at_all ↦ (ok tt, record d { current = some text; faults = later d.faults })
  | refused ↦ (err io, record d { faults = later d.faults })
  | half_way ↦ (err io, record d { current = truncated; faults = later d.faults })
]

abbrev pub each : (Binary → M (Unit {0})) → List Binary → M (Unit {0})
each f [] = pure tt
each f (b ∷ bs) = f b >> each f bs
