-- ===== src/Cron/Protected.antt =====
-- The ids of the stored jobs, and the jobs that the manager must leave alone.
use mathlib.Core.Path.{subst}
use opendeploy.Common.{
  ℕ, Bool, true, false, List, [], ◌∷◌, ◌++◌, Result, ok, err, if◌then◌else◌, ◌≡◌, refl, sym, ap,
  ◌∙◌, ◌⊎◌, inl, inr, false≢true,
}
use opendeploy.Common.Text.{Text}
use opendeploy.Cron.Validate.{Job, System, JobError}
use opendeploy.Cron.Manager.{Disk, stored, place, sort, text_lt, has_id, is_locked}
use opendeploy.Cron.Operations.{add_job, renew_one, renew, cut_job, keep_job, cut}
use opendeploy.Cron.Requests.{Request, serve_all, kept_requests}

-- `j` is one of the jobs
unfoldable pub Among : Job → List Job → Type 0
Among j [] = ⊥
Among j (k ∷ ks) = (k ≡ j) ⊎ Among j ks

module _ (j : Job) where
  place_self : (k : Job) (ks : List Job) → k ≡ j → Among j (place k ks)
  unfolding Among
  place_self k [] e = inl e
  place_self k (x ∷ ks) e = go (text_lt x.id k.id) (place_self k ks e)
    where
      go : (b : Bool) → Among j (place k ks) → Among j (if b then x ∷ place k ks else k ∷ x ∷ ks)
      go true m = inr m
      go false m = inl e

  Among-place : (k : Job) (ks : List Job) → Among j ks → Among j (place k ks)
  unfolding Among
  Among-place k [] m = inr m
  Among-place k (x ∷ ks) m = go (text_lt x.id k.id) m (Among-place k ks)
    where
      go :
          (b : Bool)
          → Among j (x ∷ ks)
          → (Among j ks → Among j (place k ks))
          → Among j (if b then x ∷ place k ks else k ∷ x ∷ ks)
      go true (inl e) f = inl e
      go true (inr m) f = inr (f m)
      go false m f = inr m

  Among-sort : (ks : List Job) → Among j ks → Among j (sort ks)
  unfolding Among sort
  Among-sort [] m = m
  Among-sort (k ∷ ks) (inl e) = place_self k (sort ks) e
  Among-sort (k ∷ ks) (inr m) = Among-place k (sort ks) (Among-sort ks m)

  Among-append : (ks ls : List Job) → Among j ks → Among j (ks ++ ls)
  unfolding Among
  Among-append [] ls m = absurd m
  Among-append (k ∷ ks) ls (inl e) = inl e
  Among-append (k ∷ ks) ls (inr m) = inr (Among-append ks ls m)

  -- `j` is one of the jobs of a result that is no error
  Survives : {B : Type 0} → Result JobError (List Job × B) → Type 0
  Survives (ok q) = Among j q.0
  Survives (err e) = Unit {0}

  Among-ok :
      {B : Type 0} (r : Result JobError (List Job × B)) (p : List Job × B)
      → Survives r
      → r ≡ ok p
      → Among j p.0
  unfolding Survives
  Among-ok r p m e = subst Survives e m

  module _ (sys : System) (locked : is_locked j ≡ true) where
    added :
        (k : Job) (ks : List Job) (r : Result JobError (List Job × Job))
        → (Among j ks → Survives r)
        → Among j (k ∷ ks)
        → Survives (add_job sys k r)
    unfolding Survives Among
    added k ks (ok q) f (inl e) = inl e
    added k ks (ok q) f (inr m) = inr (f m)
    added k ks (err e) f m = tt

    Survives-renew : (t : ℕ) (x : Job) (ks : List Job) → Among j ks → Survives (renew sys t x ks)
    unfolding Survives Among renew
    Survives-renew t x [] m = tt
    Survives-renew t x (k ∷ ks) m =
        go (has_id x.id k) (is_locked k) refl m (renew sys t x ks) (Survives-renew t x ks)
      where
        go :
            (b l : Bool)
            → is_locked k ≡ l
            → (k ≡ j) ⊎ Among j ks
            → (r : Result JobError (List Job × Job)) → (Among j ks → Survives r)
            → Survives (if b then renew_one sys l t x k ks else add_job sys k r)
        go true true h m r f = tt
        go true false h (inl e) r f = absurd (false≢true (sym h ∙ (ap is_locked e ∙ locked)))
        go true false h (inr m) r f = inr m
        go false l h m r f = added k ks r f m

    kept :
        (k : Job) (ks : List Job) (r : Result JobError (List Job × Bool))
        → (Among j ks → Survives r)
        → Among j (k ∷ ks)
        → Survives (keep_job sys k r)
    unfolding Survives Among
    kept k ks (ok q) f (inl e) = inl e
    kept k ks (ok q) f (inr m) = inr (f m)
    kept k ks (err e) f m = tt

    Survives-cut : (id : Text) (ks : List Job) → Among j ks → Survives (cut sys id ks)
    unfolding Survives Among cut
    Survives-cut id [] m = m
    Survives-cut id (k ∷ ks) m =
        go (has_id id k) (is_locked k) refl m (cut sys id ks) (Survives-cut id ks)
      where
        go :
            (b l : Bool)
            → is_locked k ≡ l
            → (k ≡ j) ⊎ Among j ks
            → (r : Result JobError (List Job × Bool)) → (Among j ks → Survives r)
            → Survives (if b then cut_job sys l k r else keep_job sys k r)
        go true true h m r f = tt
        go true false h (inl e) r f = absurd (false≢true (sym h ∙ (ap is_locked e ∙ locked)))
        go true false h (inr m) (ok q) f = f m
        go true false h (inr m) (err e) f = tt
        go false l h m r f = kept k ks r f m

-- A job that is stored as protected, or of the type of OpenDeploy, stays stored and unchanged through
-- every sequence of creations, updates, deletions, enablings and runs, at every failure of a file.
pub serve_all-Among :
    (sys : System) (retention : ℕ) (j : Job) (rs : List Request) (w : Disk)
    → is_locked j ≡ true
    → Among j (stored w.store).jobs
    → Among j (stored (serve_all sys retention rs w).store).jobs
serve_all-Among sys retention j rs w locked =
    kept_requests sys retention (λ s. Among j s.jobs)
      (λ s k e m. Among-sort j (s.jobs ++ (k ∷ [])) (Among-append j s.jobs (k ∷ []) m))
      (λ s t x p e m.
        Among-sort j p.0
          (Among-ok j (renew sys t x s.jobs) p (Survives-renew j sys locked t x s.jobs m) e))
      (λ s id p e m.
        Among-sort j p.0
          (Among-ok j (cut sys id s.jobs) p (Survives-cut j sys locked id s.jobs m) e))
      (λ s r m. m) rs w
