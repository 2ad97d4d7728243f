-- ===== src/Module/Interrupted.antt =====
-- After a restart of Core no job of the server is left pending or running.
use mathlib.Core.Path.{subst}
use opendeploy.Common.{
  ℕ, zero, suc, ◌+◌, ◌≡◌, refl, ◌∙◌, sym, ap, ◌≤◌, Bool, true, false, not, ◌||◌, List, [], ◌∷◌,
  String, str_eq, str_eq_iff, str_eq_refl, err, if◌then◌else◌, any, all, keep, take, length, arith,
}
use opendeploy.Common.Action.{
  Post, Ensures, Ensures-pure, Ensures-bind, Ensures-then, Ensures-weaken,
}
use opendeploy.Module.Jobs.{
  Job, JobState, error, database, Jobs, M, is_pending, is_running, is_active, fails, rest_of,
  statement, set_state, update_rows, update_job_state, place, newest_first, in_state, list_by_state,
  interrupted, mark_all, recover_interrupted_jobs,
}

module _ (p : Job → Bool) where
  any-place : (j : Job) (js : List Job) → any p (place j js) ≡ p j || any p js
  unfolding place
  any-place j [] = refl
  any-place j (k ∷ ks) = ground (arith, any-place j ks)

  any-newest_first : (js : List Job) → any p (newest_first js) ≡ any p js
  unfolding newest_first
  any-newest_first [] = refl
  any-newest_first (j ∷ js) =
      any-place j (newest_first js) ∙ ap (λ b. p j || b) (any-newest_first js)

length-place : (j : Job) (js : List Job) → length (place j js) ≡ 1 + length js
unfolding place
length-place j [] = refl
length-place j (k ∷ ks) = ground (arith, length-place j ks)

length-newest_first : (js : List Job) → length (newest_first js) ≡ length js
unfolding newest_first
length-newest_first [] = refl
length-newest_first (j ∷ js) =
    omega (arith, length-place j (newest_first js), length-newest_first js)

take_all : (n : ℕ) (js : List Job) → length js ≤ n → take n js ≡ js
take_all zero [] h = refl
take_all (suc n) [] h = refl
take_all zero (j ∷ js) h = absurd (omega arith)
take_all (suc n) (j ∷ js) h = ap (λ l. j ∷ l) (take_all n js (omega arith))

abbrev has_id : List Job → Job → Bool
has_id l j = any (λ k. str_eq k.id j.id) l

module _ (server : String) where
  -- each row in a state of the test has its id in the list
  abbrev covered : (JobState → Bool) → List Job → Job → Bool
  covered test l j = not (in_state server test j) || has_id l j

  abbrev Covered : (JobState → Bool) → List Job → List Job → Type 0
  Covered test l rows = all (covered test l) rows ≡ true

  abbrev pub Few : (JobState → Bool) → List Job → Type 0
  Few test rows = length (keep (in_state server test) rows) ≤ 100

  listed :
      (test : JobState → Bool) (l rows : List Job)
      → ((p : Job → Bool) → any p (keep (in_state server test) rows) ≡ true → any p l ≡ true)
      → Covered test l rows
  listed test l [] h = refl
  listed test l (r ∷ rows) h = ground (arith, here, listed test l rows later)
    where
      later : (p : Job → Bool) → any p (keep (in_state server test) rows) ≡ true → any p l ≡ true
      later p k = h p (ground arith)

      here : in_state server test r ≡ true → has_id l r ≡ true
      here k = h (λ j. str_eq j.id r.id) (ground (arith, str_eq_refl r.id))

  marked :
      (test : JobState → Bool) (j : Job) (js rows : List Job)
      → test error ≡ false
      → Covered test (j ∷ js) rows
      → Covered test js (update_rows server j.id (set_state error j.output interrupted) rows)
  marked test j js [] e h = refl
  marked test j js (r ∷ rows) e h =
      ground (arith, marked test j js rows e, str_eq_iff r.id j.id, str_eq_iff j.id r.id)

  covered_more :
      (j : Job) (rows : List Job) → Covered is_pending [] rows → Covered is_pending (j ∷ []) rows
  covered_more j [] h = refl
  covered_more j (r ∷ rows) h = ground (arith, covered_more j rows)

  fewer :
      (test : JobState → Bool) (id out text : String) (rows : List Job)
      → test error ≡ false
      → length (keep (in_state server test) (update_rows server id (set_state error out text) rows))
        ≤ length (keep (in_state server test) rows)
  fewer test id out text [] e = omega arith
  fewer test id out text (r ∷ rows) e = ground (arith, fewer test id out text rows e)

  abbrev On : (List Job → Type 0) → Jobs → Type 0
  On P w = P w.rows

  abbrev Whatever : Jobs → Type 0
  Whatever w = Unit

  statement_ensures :
      {A : Type 0} (P : List Job → Type 0) (Q : A → Jobs → Type 0) (f : M A)
      → Ensures (On P) f Q Whatever
      → Ensures (On P) (statement f) Q Whatever
  unfolding statement
  statement_ensures {A} P Q f k = record { at = λ w h. go w (fails w.faults) h }
    where
      go :
          (w : Jobs) (b : Bool)
          → P w.rows
          → Post Q Whatever (
              if b
              then (err database, record w { faults = rest_of w.faults })
              else f (record w { faults = rest_of w.faults }))
      go w true h = tt
      go w false h = k.at (record w { faults = rest_of w.faults }) h

  mark_all_ensures :
      (P : List Job → List Job → Type 0) (js : List Job)
      → ((j : Job) (js rows : List Job)
          → P (j ∷ js) rows
          → P js (update_rows server j.id (set_state error j.output interrupted) rows))
      → Ensures (On (P js)) (mark_all server js) (λ u. On (P [])) Whatever
  unfolding mark_all update_job_state
  mark_all_ensures P [] step = Ensures-pure _ _ _ (λ w h. h)
  mark_all_ensures P (j ∷ js) step =
      Ensures-then _ _
        (statement_ensures (P (j ∷ js)) (λ u. On (P js)) _
          (record { at = λ w h. step j js w.rows h }))
        (mark_all_ensures P js step)

  list_ensures :
      (test : JobState → Bool) (P : List Job → Type 0)
      → Ensures
          (λ w. P w.rows × Few test w.rows)
          (list_by_state server test)
          (λ l w. P w.rows × Covered test l w.rows)
          Whatever
  unfolding list_by_state
  list_ensures test P =
      statement_ensures (λ rows. P rows × Few test rows) _ _
        (record { at = λ w h. (h.0, all_listed w.rows h.1) })
    where
      all_listed :
          (rows : List Job)
          → Few test rows
          → Covered test (take 100 (newest_first (keep (in_state server test) rows))) rows
      all_listed rows few = listed test _ rows λ p k.
          subst (λ l. any p l ≡ true)
            (sym (
              take_all 100 (newest_first (keep (in_state server test) rows))
                (omega (arith, length-newest_first (keep (in_state server test) rows), few))))
            (any-newest_first p (keep (in_state server test) rows) ∙ k)

  active_gone :
      (rows : List Job)
      → Covered is_pending [] rows
      → Covered is_running [] rows
      → all (λ j. not (in_state server is_active j)) rows ≡ true
  active_gone [] p r = refl
  active_gone (j ∷ rows) p r = ground (arith, active_gone rows)

  -- the first loop keeps the second list short
  FirstLoop : List Job → List Job → Type 0
  FirstLoop l rows = Few is_running rows × Covered is_pending l rows

  SecondLoop : List Job → List Job → Type 0
  SecondLoop l rows = Covered is_pending [] rows × Covered is_running l rows

  -- When the recovery after a restart of Core reports no error, no job of the server is pending or running,
  -- if there were at most 100 jobs in each of the two states.
  pub recover_interrupted_jobs_ok :
      (w : Jobs)
      → Few is_pending w.rows
      → Few is_running w.rows
      → Post
          (λ u v. all (λ j. not (in_state server is_active j)) v.rows ≡ true)
          Whatever
          (recover_interrupted_jobs server w)
  unfolding recover_interrupted_jobs FirstLoop SecondLoop
  recover_interrupted_jobs_ok w waiting started = whole.at w (started, waiting)
    where
      whole :
          Ensures
            (λ w. Few is_running w.rows × Few is_pending w.rows)
            (recover_interrupted_jobs server)
            (λ u v. all (λ j. not (in_state server is_active j)) v.rows ≡ true)
            Whatever
      whole = Ensures-bind _ _ (list_ensures is_pending (Few is_running)) λ l.
          Ensures-then _ _
            (mark_all_ensures FirstLoop l λ j js rows h. (
              omega (arith, fewer is_running j.id j.output interrupted rows refl, h.0),
              marked is_pending j js rows refl h.1,
            ))
            (Ensures-bind _ _
              (Ensures-weaken (list_ensures is_running (Covered is_pending [])) (λ v h. (h.1, h.0))
                (λ l v h. h))
              λ l.
                Ensures-weaken
                  (mark_all_ensures SecondLoop l λ j js rows h. (
                    marked is_pending j [] rows refl (covered_more j rows h.0),
                    marked is_running j js rows refl h.1,
                  ))
                  (λ v h. h) (λ u v h. active_gone v.rows h.0 h.1))
