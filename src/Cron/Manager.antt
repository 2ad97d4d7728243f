-- ===== src/Cron/Manager.antt =====
-- manager.go: the store of jobs and their history in one file, and the table that cron reads in another.
-- Each read or write of a file may fail, and changes nothing then; the file of the store always decodes.
use opendeploy.Common.{
  ℕ, zero, suc, Bool, true, false, ◌&&◌, ◌||◌, Option, none, some, List, [], ◌∷◌, ◌++◌, Result, ok,
  err, if◌then◌else◌, ltb, ◌==◌,
}
use opendeploy.Common.Text.{Text, codes, text_eq}
use opendeploy.Common.Action.{Action, pure, raise, ◌>>=◌, ◌>>◌, or_undo, ignore}
use opendeploy.Cron.Schedule.{is_empty}
use opendeploy.Cron.Validate.{
  Job, JobType, untyped, unknown_job, system_job, package_job, opendeploy_job, user_job, System,
  JobError, io_failed, validate_job,
}

pub record Run : Type 0 where
  pub job_id : Text
  pub started_at : ℕ
  pub exit_code : ℕ
  pub stdout : Text

pub record Store : Type 0 where
  pub jobs : List Job
  pub history : List Run

-- `store` is none before the first write; `discovered` are the jobs that discoverSystemJobs finds;
-- `faults` has for each failing operation on a file the number of good ones before it.
pub record Disk : Type 0 where
  pub store : Option Store
  pub table : Text
  pub discovered : List Job
  pub clock : ℕ
  pub faults : List ℕ

abbrev pub M : Type 0 → Type 0
M A = Action JobError Disk A

abbrev pub fails : List ℕ → Bool
fails [] = false
fails (zero ∷ fs) = true
fails (suc n ∷ fs) = false

abbrev pub later : List ℕ → List ℕ
later [] = []
later (zero ∷ fs) = fs
later (suc n ∷ fs) = n ∷ fs

abbrev pub failing : {A : Type 0} → Bool → M A → M A
failing true m w = (err io_failed, w)
failing false m w = m w

unfoldable pub file : {A : Type 0} → M A → M A
file m w = failing (fails w.faults) m (record w { faults = later w.faults })

abbrev pub stored : Option Store → Store
stored none = record { jobs = []; history = [] }
stored (some s) = s

unfoldable pub load : M Store
load = file (λ w. (ok (stored w.store), w))

-- writeState
unfoldable pub write_state : Store → M (Unit {0})
write_state s = file (λ w. (ok tt, record w { store = some s }))

-- the order of Go's strings
unfoldable pub text_lt : Text → Text → Bool
text_lt s [] = false
text_lt [] (c ∷ t) = true
text_lt (b ∷ s) (c ∷ t) = ltb b c || (b == c && text_lt s t)

abbrev pub place : Job → List Job → List Job
place j [] = j ∷ []
place j (k ∷ ks) = if text_lt k.id j.id then k ∷ place j ks else j ∷ k ∷ ks

-- sort.Slice by id
unfoldable pub sort : List Job → List Job
sort [] = []
sort (j ∷ js) = place j (sort js)

abbrev pub has_id : Text → Job → Bool
has_id id j = text_eq j.id id

unfoldable pub find_job : Text → List Job → Option Job
find_job id [] = none
find_job id (j ∷ js) = if has_id id j then some j else find_job id js

abbrev pub is_untyped : JobType → Bool
is_untyped t = elim t [
  | untyped ↦ true
  | unknown_job ↦ false
  | system_job ↦ false
  | package_job ↦ false
  | opendeploy_job ↦ false
  | user_job ↦ false
]

abbrev pub is_opendeploy : JobType → Bool
is_opendeploy t = elim t [
  | untyped ↦ false
  | unknown_job ↦ false
  | system_job ↦ false
  | package_job ↦ false
  | opendeploy_job ↦ true
  | user_job ↦ false
]

-- what Update and Delete refuse to touch
abbrev pub is_locked : Job → Bool
is_locked j = j.is_protected || is_opendeploy j.job_type

-- what List and Get make of a job without a type
abbrev pub shown : Job → Job
shown j =
    if is_untyped j.job_type then record j { job_type = opendeploy_job; is_protected = true } else j

-- the job as it is stored by Create
abbrev pub stamped : ℕ → Job → Job
stamped now j = record j {
  created_at = now;
  updated_at = now;
  job_type = if is_untyped j.job_type then user_job else j.job_type;
}

abbrev pub lift : Result JobError (Unit {0}) → M (Unit {0})
lift (ok a) = pure a
lift (err e) = raise e

module _ (sys : System) where
  abbrev pub render_variables : List (Text × Text) → Text
  render_variables [] = []
  render_variables ((k, v) ∷ ps) = k ++ (codes "=" ++ (sys.quote v ++ (10 ∷ render_variables ps)))

  abbrev pub render_job : Job → Text
  render_job j =
      (if is_empty j.timezone then [] else codes "CRON_TZ=" ++ (j.timezone ++ (10 ∷ [])))
      ++ (render_variables j.environment
          ++ (j.expression
              ++ (codes " root /usr/bin/opendeploy-agent --cron-run="
                  ++ (j.id ++ (codes " # opendeploy:" ++ (j.id ++ (10 ∷ [])))))))

  abbrev pub render_enabled : List Job → Text
  render_enabled [] = []
  render_enabled (j ∷ js) = (if j.enabled then render_job j else []) ++ render_enabled js

  -- the text that writeCron writes for the jobs in order
  unfoldable pub render : List Job → Text
  render js =
      codes "# Managed by OpenDeploy. Manual changes will be overwritten."
      ++ (10 ∷ render_enabled js)

  -- the checks of the loop of writeCron
  unfoldable pub check_enabled : List Job → M (Unit {0})
  check_enabled [] = pure tt
  check_enabled (j ∷ js) =
      (if j.enabled then lift (validate_job sys j) else pure tt) >> check_enabled js

  unfoldable pub put_table : Text → M (Unit {0})
  put_table t = file (λ w. (ok tt, record w { table = t }))

  -- the slice is sorted in place, so that the caller's jobs are in order afterwards
  unfoldable pub write_cron : List Job → M (List Job)
  write_cron js = do check_enabled (sort js); put_table (render (sort js)); pure (sort js)

  unfoldable pub write_cron_from_disk : M (Unit {0})
  write_cron_from_disk = do s ← load; js ← write_cron s.jobs; pure tt

  unfoldable pub commit : Store → M (Unit {0})
  commit s = do
    js ← write_cron s.jobs
    or_undo (write_state (record s { jobs = js })) (ignore write_cron_from_disk)
