-- ===== src/Cron/Operations.antt =====
-- manager.go: the operations of the Manager.
use opendeploy.Common.{
  ℕ, ◌-◌, Bool, true, false, not, ◌&&◌, ◌||◌, Option, none, some, List, [], ◌∷◌, ◌++◌, Result, ok,
  err, if◌then◌else◌, ltb, any, length, keep, map, take, drop,
}
use mathlib.Core.List.{reverse}
use opendeploy.Common.Text.{Text, text_eq}
use opendeploy.Common.Action.{pure, raise, ◌>>=◌, ◌>>◌, guard}
use opendeploy.Cron.Schedule.{is_empty}
use opendeploy.Cron.Validate.{
  Job, System, JobError, already_exists, protected, not_exist, validate_job,
}
use opendeploy.Cron.Manager.{
  Run, M, load, text_lt, write_state, has_id, find_job, is_untyped, is_locked, shown, stamped, lift,
  commit,
}

module _ (sys : System) where
  -- discoverSystemJobs
  abbrev pub discover : M (List Job)
  discover w = (ok w.discovered, w)

  abbrev pub now : M ℕ
  now w = (ok w.clock, w)

  -- Manager.Create
  unfoldable pub create : Job → M Job
  create j = do
    lift (validate_job sys j)
    s ← load
    guard (not (any (has_id j.id) s.jobs)) already_exists
    found ← discover
    guard (not (any (has_id j.id) found)) already_exists
    t ← now
    commit sys (record s { jobs = s.jobs ++ (stamped t j ∷ []) })
    pure (stamped t j)

  -- the job that takes the place of `old`
  abbrev pub renewed : ℕ → Job → Job → Job
  renewed t j old = record j {
    created_at = old.created_at;
    updated_at = t;
    job_type = if is_untyped j.job_type then old.job_type else j.job_type;
  }

  abbrev pub add_job : Job → Result JobError (List Job × Job) → Result JobError (List Job × Job)
  add_job k (ok p) = ok (k ∷ p.0, p.1)
  add_job k (err e) = err e

  abbrev pub renew_one : Bool → ℕ → Job → Job → List Job → Result JobError (List Job × Job)
  renew_one true t j k ks = err protected
  renew_one false t j k ks = ok (renewed t j k ∷ ks, renewed t j k)

  -- the loop of Update, up to the first job with the id: the new jobs and the changed one
  unfoldable pub renew : ℕ → Job → List Job → Result JobError (List Job × Job)
  renew t j [] = err not_exist
  renew t j (k ∷ ks) =
      let rest = renew t j ks in
      if has_id j.id k then renew_one (is_locked k) t j k ks else add_job k rest

  abbrev pub found : {A : Type 0} → Result JobError A → M A
  found (ok a) = pure a
  found (err e) = raise e

  abbrev pub is_fixed : Text → Job → Bool
  is_fixed id j = has_id id j && j.is_protected

  -- Manager.Update
  unfoldable pub update : Job → M Job
  update j = do
    lift (validate_job sys j)
    s ← load
    external ← discover
    guard (not (any (is_fixed j.id) external)) protected
    t ← now
    p ← found (renew t j s.jobs)
    commit sys (record s { jobs = p.0 })
    pure p.1

  abbrev pub cut_job :
      Bool → Job → Result JobError (List Job × Bool) → Result JobError (List Job × Bool)
  cut_job true k rest = err protected
  cut_job false k (ok p) = ok (p.0, true)
  cut_job false k (err e) = err e

  abbrev pub keep_job : Job → Result JobError (List Job × Bool) → Result JobError (List Job × Bool)
  keep_job k (ok p) = ok (k ∷ p.0, p.1)
  keep_job k (err e) = err e

  -- the loop of Delete: the jobs that stay, and whether one was found
  unfoldable pub cut : Text → List Job → Result JobError (List Job × Bool)
  cut id [] = ok ([], false)
  cut id (k ∷ ks) =
      let rest = cut id ks in if has_id id k then cut_job (is_locked k) k rest else keep_job k rest

  -- Manager.Delete
  unfoldable pub delete : Text → M (Unit {0})
  delete id = do
    s ← load
    external ← discover
    guard (not (any (is_fixed id) external)) protected
    p ← found (cut id s.jobs)
    guard p.1 not_exist
    commit sys (record s { jobs = p.0 })

  abbrev pub get_from : Option Job → Option Job → M Job
  get_from (some j) o = pure (shown j)
  get_from none (some j) = pure j
  get_from none none = raise not_exist

  -- Manager.Get
  unfoldable pub get : Text → M Job
  get id = do s ← load; external ← discover; get_from (find_job id s.jobs) (find_job id external)

  -- Manager.SetEnabled
  unfoldable pub set_enabled : Text → Bool → M Job
  set_enabled id b = do
    j ← get id
    guard (not j.is_protected) protected
    update (record j { enabled = b })

  abbrev pub place_name : Job → List Job → List Job
  place_name j [] = j ∷ []
  place_name j (k ∷ ks) = if text_lt k.name j.name then k ∷ place_name j ks else j ∷ k ∷ ks

  -- sort.Slice by name, which may leave jobs of the same name in another order
  unfoldable pub sort_names : List Job → List Job
  sort_names [] = []
  sort_names (j ∷ js) = place_name j (sort_names js)

  -- Manager.List
  unfoldable pub list : M (List Job)
  list = do s ← load; external ← discover; pure (map shown (sort_names s.jobs) ++ external)

  abbrev pub clipped : ℕ → List Run → List Run
  clipped retention rs = drop (length rs - retention) rs

  -- appendHistory
  unfoldable pub append_history : ℕ → Run → M (Unit {0})
  append_history retention r = do
    s ← load
    write_state (record s { history = clipped retention (s.history ++ (r ∷ [])) })

  -- Manager.Run, for what the command did between the start and the end
  unfoldable pub run : ℕ → Text → (Job → Run) → M Run
  run retention id execute = do j ← get id; append_history retention (execute j); pure (execute j)

  abbrev pub is_wanted : Text → Run → Bool
  is_wanted id r = is_empty id || text_eq r.job_id id

  abbrev pub limited : ℕ → ℕ → ℕ
  limited retention limit = if ltb limit 1 || ltb retention limit then 100 else limit

  -- Manager.History; a limit below zero is like zero
  unfoldable pub history : ℕ → Text → ℕ → M (List Run)
  history retention id limit = do
    s ← load
    pure (take (limited retention limit) (keep (is_wanted id) (reverse s.history)))
