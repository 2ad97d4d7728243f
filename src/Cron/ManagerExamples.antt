-- ===== src/Cron/ManagerExamples.antt =====
-- The theorems about the cron manager at a concrete disk, and tests.
use opendeploy.Common.{
  ◌≡◌, ◌≤◌, refl, true, false, not, some, err, [], ◌∷◌, List, length, arith, inl,
}
use opendeploy.Common.Text.{
  Text, codes, split, contains, contains_any, contains_byte, text_eq, has_prefix, trim_space,
}
use opendeploy.Common.Action.{◌>>=◌, ◌>>◌, pure, raise, guard, or_undo, ignore}
use opendeploy.Cron.Schedule.{
  fields, spans, before, part_ok, validate_cron_field, check_fields, validate_expression,
}
use opendeploy.Cron.Validate.{
  Job, System, user_job, opendeploy_job, JobType, is_job_id, validate_command, validate_job,
  unknown_user, protected,
}
use opendeploy.Cron.Manager.{
  Disk, file, load, write_state, sort, render, check_enabled, put_table, write_cron, commit, stored,
}
use opendeploy.Cron.Operations.{create, cut, delete}
use opendeploy.Cron.Requests.{create_job, delete_job, run_job, Request, serve_all}
use opendeploy.Cron.Protected.{Among, serve_all-Among}
use opendeploy.Cron.Retention.{UniqueIds, serve_all-bounded, serve_all-UniqueIds}

-- a host whose users but `gone` exist
abbrev sys : System
sys = record {
  sscanf = λ s. some 5;
  to_lower = λ s. s;
  user_exists = λ u. not (text_eq u (codes "gone"));
  directory_exists = λ d. true;
  zone_exists = λ z. true;
  quote = λ s. s;
}

abbrev job : Text → Text → JobType → Job
job id user kind = record {
  id = id;
  name = codes "backup";
  command = codes "/bin/true";
  working_dir = [];
  user_name = user;
  environment = [];
  expression = codes "5 5 * * *";
  timezone = [];
  enabled = true;
  created_at = 3;
  updated_at = 3;
  job_type = kind;
  is_protected = false;
}

abbrev core_job : Job
core_job = job (codes "core") (codes "root") opendeploy_job

abbrev gone_job : Job
gone_job = job (codes "old") (codes "gone") user_job

abbrev own_job : Job
own_job = job (codes "own") (codes "root") user_job

abbrev disk : List Job → Disk
disk js = record {
  store = some (record { jobs = js; history = [] });
  table = [];
  discovered = [];
  clock = 9;
  faults = [];
}

abbrev requests : List Request
requests =
    create_job own_job
    ∷ delete_job (codes "core")
    ∷ run_job (codes "own")
        (λ j. record { job_id = j.id; started_at = 4; exit_code = 0; stdout = [] })
    ∷ []

serve_all-Among_example :
    Among core_job (stored (serve_all sys 1 requests (disk (core_job ∷ []))).store).jobs
unfolding Among
serve_all-Among_example =
    serve_all-Among sys 1 core_job requests (disk (core_job ∷ [])) refl (inl refl)

serve_all-bounded_example :
    length (stored (serve_all sys 1 requests (disk (core_job ∷ []))).store).history ≤ 1
serve_all-bounded_example = serve_all-bounded sys 1 requests (disk (core_job ∷ [])) (omega arith)

serve_all-UniqueIds_example :
    UniqueIds (stored (serve_all sys 1 requests (disk (core_job ∷ []))).store).jobs
unfolding UniqueIds
serve_all-UniqueIds_example = serve_all-UniqueIds sys 1 requests (disk (core_job ∷ [])) (refl, tt)

created_job :
    (stored (create sys own_job (disk [])).1.store).jobs
    ≡ record own_job { created_at = 9; updated_at = 9 } ∷ []
unfolding create commit validate_job is_job_id validate_command trim_space contains has_prefix
    contains_any contains_byte text_eq validate_expression check_fields validate_cron_field part_ok
    before fields spans split file load write_state sort check_enabled put_table render write_cron
    pure raise guard or_undo ignore ◌>>=◌ ◌>>◌
created_job = refl

locked_job : (delete sys (codes "core") (disk (core_job ∷ []))).0 ≡ err protected
unfolding delete cut text_eq file load pure raise guard ◌>>=◌ ◌>>◌
locked_job = refl

-- an enabled job whose user is gone keeps every other job from being deleted
blocked_deletion :
    ((delete sys (codes "own") (disk (gone_job ∷ own_job ∷ []))).0 ≡ err unknown_user)
unfolding delete cut commit validate_job is_job_id validate_command trim_space contains has_prefix
    contains_any contains_byte text_eq validate_expression check_fields validate_cron_field part_ok
    before fields spans split file load write_state sort check_enabled put_table render write_cron
    pure raise guard or_undo ignore ◌>>=◌ ◌>>◌
blocked_deletion = refl
