-- ===== src/Module/History.antt =====
-- The recovery ends where the database works, and a deletion takes away finished jobs only.
use opendeploy.Module.Interrupted.{Few, recover_interrupted_jobs_ok}
use opendeploy.Common.{
  ◌≡◌, refl, ◌∙◌, Option, none, some, all, Bool, true, false, not, ◌&&◌, List, [], ◌∷◌, String,
  Result, ok, err, if◌then◌else◌, any, keep, arith,
}
use opendeploy.Common.Action.{pure, raise, Post, Ensures, Ensures-pure, Ensures-bind, Ensures-then}
use opendeploy.Module.Jobs.{
  Job, JobError, database, not_finished, Jobs, M, is_pending, is_running, is_active, in_state,
  fails, rest_of, statement, is_row, first_row, in_table, find_job, update_job_state, list_by_state,
  mark_all, recover_interrupted_jobs, delete_row, delete_job,
}

abbrev Quiet : Jobs → Type 0
Quiet w = w.faults ≡ []

abbrev Never : Jobs → Type 0
Never w = ⊥

statement-Quiet :
    {A : Type 0} (f : M A)
    → ((w : Jobs) → Quiet w → Post (λ a. Quiet) Never (f w))
    → Ensures Quiet (statement f) (λ a. Quiet) Never
unfolding statement
statement-Quiet f k = record { at = λ w h. rw (h) (k (record w { faults = [] }) refl) }

mark_all-Quiet :
    (server : String) (js : List Job) → Ensures Quiet (mark_all server js) (λ u. Quiet) Never
unfolding mark_all update_job_state
mark_all-Quiet server [] = Ensures-pure _ _ _ (λ w h. h)
mark_all-Quiet server (j ∷ js) =
    Ensures-then _ _ (statement-Quiet _ (λ w h. h)) (mark_all-Quiet server js)

recover_interrupted_jobs-Quiet :
    (server : String) → Ensures Quiet (recover_interrupted_jobs server) (λ u. Quiet) Never
unfolding recover_interrupted_jobs list_by_state
recover_interrupted_jobs-Quiet server = Ensures-bind _ _ (statement-Quiet _ (λ w h. h)) λ l.
    Ensures-then _ _ (mark_all-Quiet server l)
      (Ensures-bind _ _ (statement-Quiet _ (λ w h. h)) λ l'. mark_all-Quiet server l')

-- Where no statement fails, the recovery after a restart of Core reports no error and leaves no job of the
-- server pending or running, if there were at most 100 jobs in each of the two states.
pub recover_interrupted_jobs_settles :
    (server : String) (w : Jobs)
    → w.faults ≡ []
    → Few server is_pending w.rows
    → Few server is_running w.rows
    → ((recover_interrupted_jobs server w).0 ≡ ok tt)
      × (all (λ j. not (in_state server is_active j)) (recover_interrupted_jobs server w).1.rows
          ≡ true)
recover_interrupted_jobs_settles server w quiet waiting started =
    both _ (recover_interrupted_jobs server w) ((recover_interrupted_jobs-Quiet server).at w quiet)
      (recover_interrupted_jobs_ok server w waiting started)
  where
    both :
        (F : Jobs → Type 0) (r : Result JobError (Unit {0}) × Jobs)
        → Post (λ u. Quiet) Never r
        → Post (λ u v. all (λ j. not (in_state server is_active j)) v.rows ≡ true) F r
        → (r.0 ≡ ok tt) × (all (λ j. not (in_state server is_active j)) r.1.rows ≡ true)
    both F (ok u, v) q s = (refl, s)
    both F (err e, v) q s = absurd q

abbrev active : Job → Bool
active j = is_active j.state

abbrev pub active_rows : Jobs → List Job
active_rows w = keep active w.rows

kept_active :
    (server id : String) (rows : List Job)
    → keep active (keep (λ j. not (is_row server id j && not (is_active j.state))) rows)
      ≡ keep active rows
kept_active server id [] = refl
kept_active server id (j ∷ rows) = ground (arith, kept_active server id rows)

-- What a statement does to the active rows, if its body keeps them.
statement_keeps :
    {A : Type 0} (before : List Job) (f : M A)
    → ((w : Jobs)
        → active_rows w ≡ before
        → Post (λ a v. active_rows v ≡ before) (λ v. active_rows v ≡ before) (f w))
    → Ensures
        (λ w. active_rows w ≡ before)
        (statement f)
        (λ a v. active_rows v ≡ before)
        (λ v. active_rows v ≡ before)
unfolding statement
statement_keeps {A} before f k = record { at = λ w h. go w (fails w.faults) h }
  where
    go :
        (w : Jobs) (b : Bool)
        → active_rows w ≡ before
        → Post
            (λ a v. active_rows v ≡ before)
            (λ v. active_rows v ≡ before)
            (if b
              then (err database, record w { faults = rest_of w.faults })
              else f (record w { faults = rest_of w.faults }))
    go w true h = h
    go w false h = k (record w { faults = rest_of w.faults }) h

found_keeps :
    (before : List Job) (o : Option Job) (w : Jobs)
    → active_rows w ≡ before
    → Post (λ a v. active_rows v ≡ before) (λ v. active_rows v ≡ before) (in_table o w)
unfolding pure raise
found_keeps before none w h = h
found_keeps before (some j) w h = h

delete_row_keeps :
    (server id : String) (before : List Job)
    → Ensures
        (λ w. active_rows w ≡ before)
        (delete_row server id)
        (λ a v. active_rows v ≡ before)
        (λ v. active_rows v ≡ before)
unfolding delete_row
delete_row_keeps server id before =
    statement_keeps before _
      λ w h. go w h (any (λ j. is_row server id j && not (is_active j.state)) w.rows)
  where
    go :
        (w : Jobs)
        → active_rows w ≡ before
        → (b : Bool)
        → Post
            (λ a v. active_rows v ≡ before)
            (λ v. active_rows v ≡ before)
            (if b
              then (
                ok tt,
                record w {
                  rows = keep (λ j. not (is_row server id j && not (is_active j.state))) w.rows;
                },
              )
              else (err not_finished, w))
    go w h true = kept_active server id w.rows ∙ h
    go w h false = h

-- A request to delete a job takes no pending or running job of any server out of the table, whatever it
-- reports.
pub delete_job-active_rows :
    (server id : String) (w : Jobs) → active_rows (delete_job server id w).1 ≡ active_rows w
unfolding delete_job find_job
delete_job-active_rows server id w = either (delete_job server id w) (whole.at w refl)
  where
    whole :
        Ensures
          (λ v. active_rows v ≡ active_rows w)
          (delete_job server id)
          (λ u v. active_rows v ≡ active_rows w)
          (λ v. active_rows v ≡ active_rows w)
    whole =
        Ensures-bind _ _
          (statement_keeps (active_rows w) _
            (λ v h. found_keeps (active_rows w) (first_row server id v.rows) v h))
          (λ j. delete_row_keeps server id (active_rows w))

    either :
        (r : Result JobError (Unit {0}) × Jobs)
        → Post (λ u v. active_rows v ≡ active_rows w) (λ v. active_rows v ≡ active_rows w) r
        → active_rows r.1 ≡ active_rows w
    either (ok u, v) h = h
    either (err e, v) h = h
