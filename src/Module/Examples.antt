-- ===== src/Module/Examples.antt =====
-- The theorems about jobs at a concrete table, and tests.
use opendeploy.Common.{◌≡◌, refl, true, not, [], ◌∷◌, String, ok, err, all, map, arith}
use opendeploy.Common.Action.{◌>>=◌, ◌>>◌, pure, raise, guard}
use opendeploy.Module.Jobs.{
  Job, install_module, pending, running, success, error, JobState, Jobs, is_active, in_state,
  statement, newest_first, place, list_by_state, update_job_state, mark_all,
  recover_interrupted_jobs, find_job, cancel_job, is_attached, not_attached,
}
use opendeploy.Module.History.{recover_interrupted_jobs_settles}

abbrev job : String → String → JobState → Job
job id server state = record {
  id = id;
  server_id = server;
  job_type = install_module;
  module_id = "php";
  state = state;
  progress = 0;
  output = "";
  error_text = "";
  created_at = 4;
}

abbrev table : Jobs
table = record {
  rows =
      job "j1" "local" pending
      ∷ job "j2" "local" success
      ∷ job "j3" "edge" running
      ∷ job "j4" "local" running
      ∷ [];
  faults = [];
  attached = [];
  stopped = [];
}

recover_interrupted_jobs_settles_example :
    ((recover_interrupted_jobs "local" table).0 ≡ ok tt)
    × (all (λ j. not (in_state "local" is_active j)) (recover_interrupted_jobs "local" table).1.rows
        ≡ true)
recover_interrupted_jobs_settles_example =
    recover_interrupted_jobs_settles "local" table refl (omega arith) (omega arith)

-- The recovery for the local server leaves the interrupted job of another server running, and after the
-- restart nobody can cancel it.
edge_job_stays :
    map (λ (j : Job). j.state) (recover_interrupted_jobs "local" table).1.rows
    ≡ error ∷ success ∷ running ∷ error ∷ []
unfolding recover_interrupted_jobs list_by_state mark_all update_job_state statement newest_first
    place pure ◌>>=◌ ◌>>◌
edge_job_stays = refl

edge_job_is_stuck :
    (cancel_job "edge" "j3" (recover_interrupted_jobs "local" table).1).0 ≡ err not_attached
unfolding cancel_job is_attached find_job recover_interrupted_jobs list_by_state mark_all
    update_job_state statement newest_first place pure raise guard ◌>>=◌ ◌>>◌
edge_job_is_stuck = refl
