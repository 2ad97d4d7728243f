-- ===== src/Cron/Requests.antt =====
-- What requests on cron jobs keep true of the store, in any order and with any failures.
use mathlib.Core.Path.{subst}
use opendeploy.Common.{
  ℕ, Bool, true, false, not, Option, none, some, List, [], ◌∷◌, ◌++◌, Result, ok, err,
  if◌then◌else◌, ◌≡◌, refl, sym, any,
}
use opendeploy.Common.Text.{Text}
use opendeploy.Common.Action.{
  pure, raise, guard, ◌>>=◌, ignore, Post, Ensures, Ensures-pure, Ensures-bind, Ensures-then,
  Ensures-guard, Ensures-weaken, Ensures-given, Ensures-or_undo,
}
use opendeploy.Cron.Validate.{
  Job, System, JobError, protected, not_exist, already_exists, validate_job,
}
use opendeploy.Cron.Manager.{
  Run, Store, Disk, M, fails, later, failing, file, stored, load, write_state, sort, has_id,
  find_job, lift, stamped, check_enabled, put_table, render, write_cron, write_cron_from_disk,
  commit,
}
use opendeploy.Cron.Operations.{
  discover, now, create, renew, found, update, cut, delete, get_from, get, set_enabled, clipped,
  append_history, run,
}

pub data Request : Type 0 where
  create_job update_job : Job → Request
  delete_job : Text → Request
  enable_job : Text → Bool → Request
  run_job : Text → (Job → Run) → Request

module _ (sys : System) (retention : ℕ) where
  abbrev pub serve : Request → Disk → Disk
  serve (create_job j) w = (create sys j w).1
  serve (update_job j) w = (update sys j w).1
  serve (delete_job id) w = (delete sys id w).1
  serve (enable_job id b) w = (set_enabled sys id b w).1
  serve (run_job id execute) w = (run sys retention id execute w).1

  abbrev pub serve_all : List Request → Disk → Disk
  serve_all [] w = w
  serve_all (r ∷ rs) w = serve_all rs (serve r w)

  module _ (P : Store → Type 0)
      (grow : (s : Store) (j : Job)
        → any (has_id j.id) s.jobs ≡ false
        → P s
        → P (record s { jobs = sort (s.jobs ++ (j ∷ [])) }))
      (swap : (s : Store) (t : ℕ) (j : Job) (p : List Job × Job)
        → renew sys t j s.jobs ≡ ok p
        → P s
        → P (record s { jobs = sort p.0 }))
      (drop : (s : Store) (id : Text) (p : List Job × Bool)
        → cut sys id s.jobs ≡ ok p
        → P s
        → P (record s { jobs = sort p.0 }))
      (log : (s : Store) (r : Run)
        → P s
        → P (record s { history = clipped sys retention (s.history ++ (r ∷ [])) })) where
    Holds : Disk → Type 0
    Holds w = P (stored w.store)

    Keeps : {A : Type 0} → M A → Type 0
    Keeps m = Ensures Holds m (λ a. Holds) Holds

    Ensures-file :
        {A : Type 0} {Q : A → Disk → Type 0} (m : M A)
        → Ensures Holds m Q Holds
        → Ensures Holds (file m) Q Holds
    unfolding Holds file
    Ensures-file {A} {Q} m k = record {
      at = λ w h. go (fails w.faults) (record w { faults = later w.faults }) h;
    }
      where
        go :
            (b : Bool) (w : Disk)
            → P (stored w.store)
            → Post Q (λ w. P (stored w.store)) (failing b m w)
        go true w h = h
        go false w h = k.at w h

    Ensures-load : Ensures Holds load (λ s w. P s × Holds w) Holds
    unfolding load Holds
    Ensures-load = Ensures-file (λ w. (ok (stored w.store), w)) (record { at = λ w h. (h, h) })

    -- the rest of an operation after the store is loaded
    loaded :
        {A : Type 0} {Q : A → Disk → Type 0} (f : Store → M A)
        → ((s : Store) → P s → Ensures Holds (f s) Q Holds)
        → Ensures Holds (load >>= f) Q Holds
    loaded f k = Ensures-bind load f Ensures-load (λ s. Ensures-given (f s) (k s))

    Keeps-lift : (r : Result JobError (Unit {0})) → Keeps (lift r)
    unfolding Keeps raise Holds
    Keeps-lift (ok a) = Ensures-pure Holds (λ u. Holds) a (λ w h. h)
    Keeps-lift (err e) = record { at = λ w h. h }

    Ensures-test :
        (b : Bool) (e : JobError) → Ensures Holds (guard b e) (λ u w. (b ≡ true) × Holds w) Holds
    Ensures-test b e =
        Ensures-weaken (Ensures-guard (λ w h. h) b e) (λ w h. h) (λ u w h. (h.1, h.0))

    Ensures-found :
        {A : Type 0} (r : Result JobError A)
        → Ensures Holds (found sys r) (λ a w. (r ≡ ok a) × Holds w) Holds
    unfolding pure raise
    Ensures-found (ok a) = record { at = λ w h. (refl, h) }
    Ensures-found (err e) = record { at = λ w h. h }

    Keeps-check_enabled : (js : List Job) → Keeps (check_enabled sys js)
    unfolding Keeps check_enabled
    Keeps-check_enabled [] = Ensures-pure Holds (λ u. Holds) tt (λ w h. h)
    Keeps-check_enabled (j ∷ js) = Ensures-then _ _ (checked j.enabled) (Keeps-check_enabled js)
      where
        checked :
            (b : Bool)
            → Ensures Holds (if b then lift (validate_job sys j) else pure tt) (λ u. Holds) Holds
        checked true = Keeps-lift (validate_job sys j)
        checked false = Ensures-pure Holds (λ u. Holds) tt (λ w h. h)

    Ensures-write_cron :
        (js : List Job) → Ensures Holds (write_cron sys js) (λ ks w. (ks ≡ sort js) × Holds w) Holds
    unfolding Keeps write_cron put_table Holds
    Ensures-write_cron js = Ensures-then _ _ (Keeps-check_enabled (sort js)) (
        Ensures-then {Q = Holds} _ _
          (Ensures-file (λ w. (ok tt, record w { table = render sys (sort js) }))
            (record { at = λ w h. h }))
          (Ensures-pure Holds _ (sort js) (λ w h. (refl, h))))

    Keeps-write_cron_from_disk : Keeps (write_cron_from_disk sys)
    unfolding Keeps write_cron_from_disk
    Keeps-write_cron_from_disk = loaded _ (λ s p.
        Ensures-bind _ _ (Ensures-write_cron s.jobs)
          (λ ks. Ensures-pure _ (λ u. Holds) tt (λ w h. h.1)))

    Keeps-write_state : (s : Store) → P s → Keeps (write_state s)
    unfolding Keeps write_state Holds
    Keeps-write_state s p =
        Ensures-file (λ w. (ok tt, record w { store = some s })) (record { at = λ w h. p })

    undone_commit : (w : Disk) → Holds w → Holds (ignore (write_cron_from_disk sys) w).1
    unfolding ignore Keeps
    undone_commit w h = go (write_cron_from_disk sys w) (Keeps-write_cron_from_disk.at w h)
      where
        go : (r : Result JobError (Unit {0}) × Disk) → Post (λ u. Holds) Holds r → Holds r.1
        go (ok a, t) k = k
        go (err e, t) k = k

    Keeps-commit : (s : Store) → P (record s { jobs = sort s.jobs }) → Keeps (commit sys s)
    unfolding Keeps commit
    Keeps-commit s p = Ensures-bind _ _ (Ensures-write_cron s.jobs) λ ks. Ensures-given _ λ e.
        Ensures-or_undo _ _ undone_commit (
          Keeps-write_state (record s { jobs = ks })
            (subst (λ x. P (record s { jobs = x })) (sym e) p))

    Keeps-discover : Keeps (discover sys)
    unfolding Keeps
    Keeps-discover = record { at = λ w h. h }

    Keeps-now : Keeps (now sys)
    unfolding Keeps
    Keeps-now = record { at = λ w h. h }

    Keeps-raise : (e : JobError) → Keeps (raise {A = Job} e)
    unfolding Keeps raise
    Keeps-raise e = record { at = λ w h. h }

    -- a test that nothing later depends on
    Keeps-test : (b : Bool) (e : JobError) → Keeps (guard b e)
    unfolding Keeps
    Keeps-test b e = Ensures-weaken (Ensures-test b e) (λ w h. h) (λ u w h. h.1)

    Keeps-create : (j : Job) → Keeps (create sys j)
    unfolding Keeps create
    Keeps-create j = Ensures-then _ _ (Keeps-lift (validate_job sys j)) (
        loaded _ λ s p.
          Ensures-then _ _ (Ensures-test (not (any (has_id j.id) s.jobs)) already_exists) (
            Ensures-given _ λ e. Ensures-bind _ _ Keeps-discover λ external.
              Ensures-then _ _ (Keeps-test _ already_exists) (
                Ensures-bind _ _ Keeps-now λ t.
                  Ensures-then _ _
                    (Keeps-commit _
                      (grow s (stamped t j) (none_there (any (has_id j.id) s.jobs) e) p))
                    (Ensures-pure _ (λ u. Holds) (stamped t j) (λ w h. h)))))
      where
        none_there : (b : Bool) → not b ≡ true → b ≡ false
        none_there true e = sym e
        none_there false e = refl

    Keeps-update : (j : Job) → Keeps (update sys j)
    unfolding Keeps update
    Keeps-update j = Ensures-then _ _ (Keeps-lift (validate_job sys j)) (
        loaded _ λ s p. Ensures-bind _ _ Keeps-discover λ external.
          Ensures-then _ _ (Keeps-test _ protected) (
            Ensures-bind _ _ Keeps-now λ t.
              Ensures-bind _ _ (Ensures-found (renew sys t j s.jobs)) λ q. Ensures-given _ λ e.
                Ensures-then _ _ (Keeps-commit _ (swap s t j q e p))
                  (Ensures-pure _ (λ u. Holds) q.1 (λ w h. h))))

    Keeps-delete : (id : Text) → Keeps (delete sys id)
    unfolding Keeps delete
    Keeps-delete id = loaded _ λ s p. Ensures-bind _ _ Keeps-discover λ external.
        Ensures-then _ _ (Keeps-test _ protected) (
          Ensures-bind _ _ (Ensures-found (cut sys id s.jobs)) λ q.
            Ensures-given _
              λ e. Ensures-then _ _ (Keeps-test q.1 not_exist) (Keeps-commit _ (drop s id q e p)))

    Keeps-get : (id : Text) → Keeps (get sys id)
    unfolding Keeps get
    Keeps-get id = loaded _ λ s p.
        Ensures-bind _ _ Keeps-discover
          λ external. chosen (find_job id s.jobs) (find_job id external)
      where
        chosen : (o e : Option Job) → Ensures Holds (get_from sys o e) (λ j. Holds) Holds
        chosen (some j) e = Ensures-pure _ (λ u. Holds) _ (λ w h. h)
        chosen none (some j) = Ensures-pure _ (λ u. Holds) _ (λ w h. h)
        chosen none none = Keeps-raise not_exist

    Keeps-set_enabled : (id : Text) (b : Bool) → Keeps (set_enabled sys id b)
    unfolding Keeps set_enabled
    Keeps-set_enabled id b =
        Ensures-bind _ _ (Keeps-get id)
          λ j. Ensures-then _ _ (Keeps-test _ protected) (Keeps-update (record j { enabled = b }))

    Keeps-run : (id : Text) (execute : Job → Run) → Keeps (run sys retention id execute)
    unfolding Keeps run append_history
    Keeps-run id execute = Ensures-bind _ _ (Keeps-get id) λ j.
        Ensures-then _ _ (loaded _ λ s p. Keeps-write_state _ (log s (execute j) p))
          (Ensures-pure _ (λ u. Holds) (execute j) (λ w h. h))

    after :
        {A : Type 0} (r : Result JobError A × Disk)
        → Post (λ a. Holds) Holds r
        → P (stored r.1.store)
    unfolding Holds
    after (ok a, t) h = h
    after (err e, t) h = h

    kept_request : (r : Request) (w : Disk) → P (stored w.store) → P (stored (serve r w).store)
    unfolding Keeps Holds
    kept_request (create_job j) w h = after (create sys j w) ((Keeps-create j).at w h)
    kept_request (update_job j) w h = after (update sys j w) ((Keeps-update j).at w h)
    kept_request (delete_job id) w h = after (delete sys id w) ((Keeps-delete id).at w h)
    kept_request (enable_job id b) w h =
        after (set_enabled sys id b w) ((Keeps-set_enabled id b).at w h)
    kept_request (run_job id execute) w h =
        after (run sys retention id execute w) ((Keeps-run id execute).at w h)

    pub kept_requests :
        (rs : List Request) (w : Disk) → P (stored w.store) → P (stored (serve_all rs w).store)
    kept_requests [] w h = h
    kept_requests (r ∷ rs) w h = kept_requests rs (serve r w) (kept_request r w h)
