-- ===== src/Site/Keeps.antt =====
-- What the operations on sites keep true of the stored rows, at every outcome of every call.
use opendeploy.Common.{
  Bool, true, false, Option, none, some, List, [], ◌∷◌, String, Result, ok, err, if◌then◌else◌,
}
use opendeploy.Common.Action.{continue, pure, raise, ◌>>=◌, ◌>>◌, guard, or_undo, undone, ignore}
use opendeploy.Site.Records.{Domain, Site, World, M, ServiceError, not_found, database, Call}
use opendeploy.Site.Effects.{
  later, fails, failing, attempt, call, find_site, found, find_by_id, probe, checked, check_domains,
  verify_site_health,
}

module _ (P : List Site → Type 0) where
  -- `m` keeps P true of the rows
  pub record Keeps {A : Type 0} (m : M A) : Type 0 where
    pub at : (w : World) → P w.rows → P (m w).1.rows

  pub Keeps-pure : {A : Type 0} (a : A) → Keeps (pure a)
  unfolding pure
  Keeps-pure a = record { at = λ w p. p }

  pub Keeps-raise : {A : Type 0} (e : ServiceError) → Keeps (raise {A = A} e)
  unfolding raise
  Keeps-raise e = record { at = λ w p. p }

  pub Keeps-guard : (b : Bool) (e : ServiceError) → Keeps (guard b e)
  unfolding guard
  Keeps-guard true e = Keeps-pure tt
  Keeps-guard false e = Keeps-raise e

  pub Keeps-bind :
      {A B : Type 0} (m : M A) (f : A → M B) → Keeps m → ((a : A) → Keeps (f a)) → Keeps (m >>= f)
  unfolding ◌>>=◌
  Keeps-bind {A} m f k j = record { at = λ w p. go (m w) (k.at w p) }
    where
      go : (r : Result ServiceError A × World) → P r.1.rows → P (continue r.0 f r.1).1.rows
      go (ok a, v) p = (j a).at v p
      go (err e, v) p = p

  pub Keeps-then : {B : Type 0} (m : M (Unit {0})) (k : M B) → Keeps m → Keeps k → Keeps (m >> k)
  unfolding ◌>>◌
  Keeps-then m k i j = Keeps-bind m (λ u. k) i (λ u. j)

  pub Keeps-ignore : (m : M (Unit {0})) → Keeps m → Keeps (ignore m)
  unfolding ignore
  Keeps-ignore m k = record { at = k.at }

  pub Keeps-or_undo :
      {A : Type 0} (m : M A) (u : M (Unit {0})) → Keeps m → Keeps u → Keeps (or_undo m u)
  unfolding or_undo
  Keeps-or_undo {A} m u k j = record { at = λ w p. go (m w) (k.at w p) }
    where
      go : (r : Result ServiceError A × World) → P r.1.rows → P (undone u r).1.rows
      go (ok a, v) p = p
      go (err e, v) p = j.at v p

  pub Keeps-if :
      {A : Type 0} (b : Bool) (m k : M A) → Keeps m → Keeps k → Keeps (if b then m else k)
  Keeps-if true m k i j = i
  Keeps-if false m k i j = j

  pub Keeps-attempt : {A : Type 0} (e : ServiceError) (m : M A) → Keeps m → Keeps (attempt e m)
  unfolding attempt
  Keeps-attempt {A} e m k = record {
    at = λ w p. go (fails w.faults) (record w { faults = later w.faults }) p;
  }
    where
      go : (b : Bool) (v : World) → P v.rows → P (failing b e m v).1.rows
      go true v p = p
      go false v p = k.at v p

  pub Keeps-call : (c : Call) (e : ServiceError) → Keeps (call c e)
  unfolding call
  Keeps-call c e =
      Keeps-attempt e (λ w. (ok tt, record w { calls = c ∷ w.calls })) (record { at = λ w p. p })

  pub Keeps-found : (o : Option Site) → Keeps (found o)
  unfolding found
  Keeps-found none = Keeps-raise not_found
  Keeps-found (some s) = Keeps-pure s

  pub Keeps-find_by_id : (id : String) → Keeps (find_by_id id)
  unfolding find_by_id
  Keeps-find_by_id id =
      Keeps-attempt database (λ w. found (find_site id w.rows) w)
        (record { at = λ w. (Keeps-found (find_site id w.rows)).at w })

  pub Keeps-verify_site_health : (s : Site) → Keeps (verify_site_health s)
  unfolding verify_site_health
  Keeps-verify_site_health s = go s.domains
    where
      answered : (x : Bool × List Bool) (w : World) → P w.rows → P (checked x w).1.rows
      answered (true, rest) w p = p
      answered (false, rest) w p = p

      go : (ds : List Domain) → Keeps (check_domains ds)
      go [] = record { at = λ w p. p }
      go (d ∷ ds) = record { at = λ w p. answered (probe 10 w.probes) w p }
