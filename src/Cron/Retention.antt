-- ===== src/Cron/Retention.antt =====
-- The history of runs, and the ids of the stored jobs.
use mathlib.Core.Path.{subst}
use opendeploy.Common.{
  ℕ, zero, suc, ◌-◌, ◌≤◌, Bool, true, false, ◌||◌, List, [], ◌∷◌, ◌++◌, Result, ok, err,
  if◌then◌else◌, ◌≡◌, refl, ◌∙◌, any, arith, length, drop,
}
use opendeploy.Common.Text.{Text, text_eq, text_eq→eq, text_eq_refl}
use opendeploy.Cron.Validate.{Job, System, JobError}
use opendeploy.Cron.Manager.{Run, Disk, stored, place, sort, text_lt, has_id, is_locked}
use opendeploy.Cron.Operations.{add_job, renew_one, renew, cut_job, keep_job, cut, clipped}
use opendeploy.Cron.Requests.{Request, serve_all, kept_requests}

length-drop {ℓ} : {A : Type ℓ} (n : ℕ) (xs : List A) → length (drop n xs) ≡ length xs - n
length-drop zero xs = omega arith
length-drop (suc n) [] = omega arith
length-drop (suc n) (x ∷ xs) = omega (arith, length-drop n xs)

-- The stored history never holds more runs than the retention, through every sequence of requests and at
-- every failure of a file.
pub serve_all-bounded :
    (sys : System) (retention : ℕ) (rs : List Request) (w : Disk)
    → length (stored w.store).history ≤ retention
    → length (stored (serve_all sys retention rs w).store).history ≤ retention
serve_all-bounded sys retention rs w =
    kept_requests sys retention (λ s. length s.history ≤ retention) (λ s k e m. m)
      (λ s t x p e m. m) (λ s id p e m. m) (λ s r m. clipped_short (s.history ++ (r ∷ []))) rs w
  where
    clipped_short : (xs : List Run) → length (clipped sys retention xs) ≤ retention
    clipped_short xs = omega (arith, length-drop (length xs - retention) xs)

text_eq_sym : (s t : Text) → text_eq s t ≡ false → text_eq t s ≡ false
text_eq_sym s t e = ground (arith, text_eq→eq t s, text_eq_refl s)

-- no two jobs have the same id
unfoldable pub UniqueIds : List Job → Type 0
UniqueIds [] = Unit {0}
UniqueIds (j ∷ js) = (any (has_id j.id) js ≡ false) × UniqueIds js

any-place :
    (id : Text) (k : Job) (ks : List Job)
    → any (has_id id) (place k ks) ≡ has_id id k || any (has_id id) ks
any-place id k [] = refl
any-place id k (x ∷ ks) = ground (arith, any-place id k ks)

any-sort : (id : Text) (ks : List Job) → any (has_id id) (sort ks) ≡ any (has_id id) ks
unfolding sort
any-sort id [] = refl
any-sort id (k ∷ ks) = ground (arith, any-place id k (sort ks), any-sort id ks)

UniqueIds-place :
    (k : Job) (ks : List Job) → any (has_id k.id) ks ≡ false → UniqueIds ks → UniqueIds (place k ks)
unfolding UniqueIds
UniqueIds-place k [] e u = (refl, tt)
UniqueIds-place k (x ∷ ks) e u = go (text_lt x.id k.id) (UniqueIds-place k ks (ground arith) u.1)
  where
    go : (b : Bool) → UniqueIds (place k ks) → UniqueIds (if b then x ∷ place k ks else k ∷ x ∷ ks)
    go true v = (any-place x.id k ks ∙ ground (arith, u.0, text_eq_sym x.id k.id), v)
    go false v = (e, u)

UniqueIds-sort : (ks : List Job) → UniqueIds ks → UniqueIds (sort ks)
unfolding UniqueIds sort
UniqueIds-sort [] u = u
UniqueIds-sort (k ∷ ks) u =
    UniqueIds-place k (sort ks) (any-sort k.id ks ∙ u.0) (UniqueIds-sort ks u.1)

any-last :
    (id : Text) (j : Job) (ks : List Job)
    → any (has_id id) (ks ++ (j ∷ [])) ≡ any (has_id id) ks || has_id id j
any-last id j [] = ground arith
any-last id j (k ∷ ks) = ground (arith, any-last id j ks)

UniqueIds-last :
    (j : Job) (ks : List Job)
    → any (has_id j.id) ks ≡ false
    → UniqueIds ks
    → UniqueIds (ks ++ (j ∷ []))
unfolding UniqueIds
UniqueIds-last j [] e u = (refl, tt)
UniqueIds-last j (k ∷ ks) e u = (
  any-last k.id j ks ∙ ground (arith, u.0, text_eq_sym k.id j.id),
  UniqueIds-last j ks (ground arith) u.1,
)

module _ (sys : System) where
  -- the jobs of a result that is no error have unique ids, and no id that the jobs before had not
  Renewed : {B : Type 0} → List Job → Result JobError (List Job × B) → Type 0
  Renewed js (ok p) =
      UniqueIds p.0 × ((id : Text) → any (has_id id) js ≡ false → any (has_id id) p.0 ≡ false)
  Renewed js (err e) = Unit {0}

  UniqueIds-ok :
      {B : Type 0} (js : List Job) (r : Result JobError (List Job × B)) (p : List Job × B)
      → Renewed js r
      → r ≡ ok p
      → UniqueIds p.0
  unfolding Renewed
  UniqueIds-ok js r p m e = let k : Renewed js (ok p) = subst (Renewed js) e m in k.0

  Renewed-renew : (t : ℕ) (x : Job) (ks : List Job) → UniqueIds ks → Renewed ks (renew sys t x ks)
  unfolding Renewed UniqueIds renew
  Renewed-renew t x [] u = tt
  Renewed-renew t x (k ∷ ks) u =
      go (has_id x.id k) refl (is_locked k) (renew sys t x ks) (Renewed-renew t x ks u.1)
    where
      go :
          (b : Bool)
          → has_id x.id k ≡ b
          → (l : Bool) (r : Result JobError (List Job × Job)) → Renewed ks r
          → Renewed (k ∷ ks) (if b then renew_one sys l t x k ks else add_job sys k r)
      go true h true r m = tt
      go true h false r m =
          let e : k.id ≡ x.id = text_eq→eq k.id x.id h in
          (
            (subst (λ i. any (has_id i) ks ≡ false) e u.0, u.1),
            λ id n. subst (λ i. text_eq i id || any (has_id id) ks ≡ false) e n,
          )
      go false h l (err e) m = tt
      go false h l (ok q) m = ((m.1 k.id u.0, m.0), λ id n. ground (arith, m.1 id))

  Renewed-cut : (id : Text) (ks : List Job) → UniqueIds ks → Renewed ks (cut sys id ks)
  unfolding Renewed UniqueIds cut
  Renewed-cut id [] u = (tt, λ i n. refl)
  Renewed-cut id (k ∷ ks) u = go (has_id id k) (is_locked k) (cut sys id ks) (Renewed-cut id ks u.1)
    where
      go :
          (b l : Bool) (r : Result JobError (List Job × Bool))
          → Renewed ks r
          → Renewed (k ∷ ks) (if b then cut_job sys l k r else keep_job sys k r)
      go true true r m = tt
      go true false (err e) m = tt
      go true false (ok q) m = (m.0, λ i n. ground (arith, m.1 i))
      go false l (err e) m = tt
      go false l (ok q) m = ((m.1 k.id u.0, m.0), λ i n. ground (arith, m.1 i))

-- No two stored jobs come to have the same id, through every sequence of requests and at every failure
-- of a file.
pub serve_all-UniqueIds :
    (sys : System) (retention : ℕ) (rs : List Request) (w : Disk)
    → UniqueIds (stored w.store).jobs
    → UniqueIds (stored (serve_all sys retention rs w).store).jobs
serve_all-UniqueIds sys retention rs w =
    kept_requests sys retention (λ s. UniqueIds s.jobs)
      (λ s k e u. UniqueIds-sort (s.jobs ++ (k ∷ [])) (UniqueIds-last k s.jobs e u))
      (λ s t x p e u.
        UniqueIds-sort p.0
          (UniqueIds-ok sys s.jobs (renew sys t x s.jobs) p (Renewed-renew sys t x s.jobs u) e))
      (λ s id p e u.
        UniqueIds-sort p.0
          (UniqueIds-ok sys s.jobs (cut sys id s.jobs) p (Renewed-cut sys id s.jobs u) e))
      (λ s r u. u) rs w
