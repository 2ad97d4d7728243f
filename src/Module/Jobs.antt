-- ===== src/Module/Jobs.antt =====
-- sqliteJobRepository of sqlite_repository.go, and jobs.go. The table is a list of rows; `faults` tells of
-- each statement whether the driver fails. The times of start and end are left out, and the payload is the
-- id of the module that it holds.
use opendeploy.Common.{
  ℕ, Bool, true, false, not, ◌&&◌, ◌||◌, Option, none, some, List, [], ◌∷◌, ◌++◌, String, str_eq,
  map, ok, err, if◌then◌else◌, leb, any, keep, take,
}
use opendeploy.Common.Action.{Action, pure, raise, ◌>>=◌, ◌>>◌, guard}

pub data JobType : Type 0 where
  install_module uninstall_module enable_module disable_module restart_module : JobType

pub data JobState : Type 0 where
  pending running success error canceled : JobState

pub record Job : Type 0 where
  pub id : String
  pub server_id : String
  pub job_type : JobType
  pub module_id : String
  pub state : JobState
  pub progress : ℕ
  pub output : String
  pub error_text : String
  pub created_at : ℕ

pub data JobError : Type 0 where
  database duplicate_id no_rows not_active not_attached not_finished not_retriable : JobError
  bad_payload module_gone bad_type : JobError

pub record Jobs : Type 0 where
  pub rows : List Job
  pub faults : List Bool
  -- the ids under which Service.cancels holds a function, and those whose function was called
  pub attached : List String
  pub stopped : List String

abbrev pub M : Type 0 → Type 0
M A = Action JobError Jobs A

abbrev pub is_pending : JobState → Bool
is_pending pending = true
is_pending s = false

abbrev pub is_running : JobState → Bool
is_running running = true
is_running s = false

abbrev pub is_active : JobState → Bool
is_active s = is_pending s || is_running s

abbrev pub fails : List Bool → Bool
fails [] = false
fails (b ∷ bs) = b

abbrev pub rest_of : List Bool → List Bool
rest_of [] = []
rest_of (b ∷ bs) = bs

-- one statement
unfoldable pub statement : {A : Type 0} → M A → M A
statement f w =
    let v = record w { faults = rest_of w.faults } in
    if fails w.faults then (err database, v) else f v

abbrev pub is_row : String → String → Job → Bool
is_row server id j = str_eq j.id id && str_eq j.server_id server

abbrev pub first_row : String → String → List Job → Option Job
first_row server id [] = none
first_row server id (j ∷ js) = if is_row server id j then some j else first_row server id js

abbrev pub in_table : Option Job → M Job
in_table none = raise no_rows
in_table (some j) = pure j

-- FindByID
unfoldable pub find_job : String → String → M Job
find_job server id = statement (λ w. in_table (first_row server id w.rows) w)

-- Create
unfoldable pub create_job : Job → M (Unit {0})
create_job j = statement λ w.
    if any (λ k. str_eq k.id j.id) w.rows
    then (err duplicate_id, w)
    else (ok tt, record w { rows = w.rows ++ (record j { output = "" } ∷ []) })

-- what the UPDATE of a state writes
abbrev pub set_state : JobState → String → String → Job → Job
set_state running out e j = record j { state = running; progress = 10 }
set_state success out e j = record j {
  state = success;
  progress = 100;
  output = out;
  error_text = e;
}
set_state error out e j = record j { state = error; output = out; error_text = e }
set_state canceled out e j = record j { state = canceled; output = out; error_text = e }
set_state pending out e j = record j { state = pending }

abbrev pub update_rows : String → String → (Job → Job) → List Job → List Job
update_rows server id f js = map (λ j. if is_row server id j then f j else j) js

-- UpdateState: the present state of the row is not looked at
unfoldable pub update_job_state : String → String → JobState → String → String → M (Unit {0})
update_job_state server id s out e =
    statement (λ w. (ok tt, record w { rows = update_rows server id (set_state s out e) w.rows }))

-- ORDER BY created_at DESC
unfoldable pub place : Job → List Job → List Job
place j [] = j ∷ []
place j (k ∷ ks) =
    let rest = place j ks in if leb k.created_at j.created_at then j ∷ k ∷ ks else k ∷ rest

unfoldable pub newest_first : List Job → List Job
unfolding place
newest_first [] = []
newest_first (j ∷ js) = place j (newest_first js)

abbrev pub in_state : String → (JobState → Bool) → Job → Bool
in_state server test j = test j.state && str_eq j.server_id server

-- ListByState: at most 100 rows
unfoldable pub list_by_state : String → (JobState → Bool) → M (List Job)
unfolding newest_first
list_by_state server test =
    statement (λ w. (ok (take 100 (newest_first (keep (in_state server test) w.rows))), w))

-- Delete
unfoldable pub delete_row : String → String → M (Unit {0})
delete_row server id = statement λ w.
    let doomed : Job → Bool = λ j. is_row server id j && not (is_active j.state) in
    if any doomed w.rows
    then (ok tt, record w { rows = keep (λ j. not (doomed j)) w.rows })
    else (err not_finished, w)

-- DeleteJob
unfoldable pub delete_job : String → String → M (Unit {0})
delete_job server id = do j ← find_job server id; delete_row server id

unfoldable pub call_cancel : String → M (Unit {0})
call_cancel id w = (ok tt, record w { stopped = id ∷ w.stopped })

unfoldable pub is_attached : String → M Bool
is_attached id w = (ok (any (λ k. str_eq k id) w.attached), w)

-- CancelJob
unfoldable pub cancel_job : String → String → M (Unit {0})
cancel_job server id = do
  j ← find_job server id
  guard (is_active j.state) not_active
  here ← is_attached id
  guard here not_attached
  call_cancel id
  update_job_state server id canceled j.output "canceled by user"

-- the loop of RecoverInterruptedJobs over the jobs of one state
abbrev pub interrupted : String
interrupted = "operation interrupted by Core restart; runtime state will be reconciled"

unfoldable pub mark_all : String → List Job → M (Unit {0})
mark_all server [] = pure tt
mark_all server (j ∷ js) =
    update_job_state server j.id error j.output interrupted >> mark_all server js

-- RecoverInterruptedJobs
unfoldable pub recover_interrupted_jobs : String → M (Unit {0})
recover_interrupted_jobs server = do
  waiting ← list_by_state server is_pending
  mark_all server waiting
  started ← list_by_state server is_running
  mark_all server started
