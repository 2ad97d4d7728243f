-- ===== src/Auth/Hoare.antt =====
-- What an action guarantees: from a state with `P`, a value with `Q` or an error with `E`. One rule
-- for each way to build an action.
use mathlib.Core.Path.{subst, sym}
use opendeploy.Common.{
  [], ◌≡◌, refl, Bool, true, false, Option, none, some, List, Result, ok, err, if◌then◌else◌,
}
use opendeploy.Apperrors.Defs.{GoError, plain}
use opendeploy.Auth.Store.{
  World, Db, pure, raise, continue, ◌>>=◌, ◌>>◌, ignore, map_error, guard, fails, later, query,
  found,
}
use opendeploy.Auth.Service.{need}

abbrev pub Post :
    {A : Type 0} → (A → World → Type 0) → (World → Type 0) → Result GoError A × World → Type 0
Post Q E (ok a, w) = Q a w
Post Q E (err e, w) = E w

pub record Ensures {A : Type 0} (P : World → Type 0) (m : Db A) (Q : A → World → Type 0)
    (E : World → Type 0) : Type 0 where
  pub at : (w : World) → P w → Post Q E (m w)

module _ {A : Type 0} {E : World → Type 0} where
  pub Ensures-pure :
      (P : World → Type 0) (Q : A → World → Type 0) (a : A)
      → ((w : World) → P w → Q a w)
      → Ensures P (pure a) Q E
  unfolding pure
  Ensures-pure P Q a h = record { at = h }

  pub Ensures-weaken :
      {P P' : World → Type 0} {m : Db A} {Q Q' : A → World → Type 0}
      → Ensures P m Q E
      → ((w : World) → P' w → P w)
      → ((a : A) (w : World) → Q a w → Q' a w)
      → Ensures P' m Q' E
  Ensures-weaken {P} {m = m} {Q} {Q'} k pre post = record {
    at = λ w h. go (m w) (k.at w (pre w h));
  }
    where
      go : (r : Result GoError A × World) → Post Q E r → Post Q' E r
      go (ok a, v) q = post a v q
      go (err e, v) q = q

module _ {A : Type 0} {P E : World → Type 0} (drop : (w : World) → P w → E w) where
  -- a value from a result that may be missing
  pub Ensures-found :
      (e : GoError) (o : Option A) → Ensures P (found e o) (λ a w. P w × (o ≡ some a)) E
  unfolding found pure raise
  Ensures-found e none = record { at = drop }
  Ensures-found e (some a) = record { at = λ w h. (h, refl) }

  pub Ensures-need :
      (e : GoError) (o : Option A) → Ensures P (need e o) (λ a w. P w × (o ≡ some a)) E
  unfolding need pure raise
  Ensures-need e none = record { at = drop }
  Ensures-need e (some a) = record { at = λ w h. (h, refl) }

module _ {P E : World → Type 0} (drop : (w : World) → P w → E w) where
  pub Ensures-guard : (b : Bool) (e : GoError) → Ensures P (guard b e) (λ u w. P w × (b ≡ true)) E
  unfolding guard pure raise
  Ensures-guard true e = record { at = λ w h. (h, refl) }
  Ensures-guard false e = record { at = drop }

module _ {A B : Type 0} {E : World → Type 0} where
  pub Ensures-bind :
      {P : World → Type 0} {Q : A → World → Type 0} {R : B → World → Type 0} (m : Db A)
      (f : A → Db B)
      → Ensures P m Q E
      → ((a : A) → Ensures (Q a) (f a) R E)
      → Ensures P (m >>= f) R E
  unfolding ◌>>=◌
  Ensures-bind {P} {Q} {R} m f km kf = record { at = λ w h. go (m w) (km.at w h) }
    where
      go : (r : Result GoError A × World) → Post Q E r → Post R E (continue r.0 f r.1)
      go (ok a, v) q = (kf a).at v q
      go (err e, v) q = q

module _ {A : Type 0} where
  pub Ensures-ignore :
      {P Q : World → Type 0} (m : Db A)
      → Ensures P m (λ a w. Q w) Q
      → (E : World → Type 0) → Ensures P (ignore m) (λ u w. Q w) E
  unfolding ignore
  Ensures-ignore {P} {Q} m k E = record { at = λ w h. go (m w) (k.at w h) }
    where
      go : (r : Result GoError A × World) → Post {A = A} (λ a w. Q w) Q r → Q r.1
      go (ok a, v) q = q
      go (err e, v) q = q

  pub Ensures-map_error :
      {P E : World → Type 0} {Q : A → World → Type 0} (g : GoError → GoError) (m : Db A)
      → Ensures P m Q E
      → Ensures P (map_error g m) Q E
  unfolding map_error
  Ensures-map_error {P} {E} {Q} g m k = record { at = λ w h. go (m w) (k.at w h) }
    where
      go :
          (r : Result GoError A × World)
          → Post Q E r
          → Post Q E (elim r.0 as (λ x. Result GoError A × World) [
            | ok a ↦ (ok a, r.1)
            | err e ↦ (err (g e), r.1)
          ])
      go (ok a, v) q = q
      go (err e, v) q = q

  -- a call of the database: what holds must not mention the faults still to come
  pub Ensures-query :
      {P E : World → Type 0} {Q : A → World → Type 0} (wrap : GoError → GoError) (m : Db A)
      → ((w : World) (bs : List Bool) → P w → P (record w { faults = bs }))
      → ((w : World) → P w → E w)
      → Ensures P m Q E
      → Ensures P (query wrap m) Q E
  unfolding query
  Ensures-query {P} {E} {Q} wrap m blind drop k = record {
    at = λ w h. go w (fails w.faults) (blind w (later w.faults) h);
  }
    where
      go :
          (w : World) (b : Bool)
          → P (record w { faults = later w.faults })
          → Post Q E (
              if b
              then (err (wrap (plain "database")), record w { faults = later w.faults })
              else m (record w { faults = later w.faults }))
      go w true h = drop _ h
      go w false h = k.at _ h

module _ {B : Type 0} {E : World → Type 0} where
  pub Ensures-then :
      {P Q : World → Type 0} {R : B → World → Type 0} (m : Db (Unit {0})) (k : Db B)
      → Ensures P m (λ u w. Q w) E
      → Ensures Q k R E
      → Ensures P (m >> k) R E
  unfolding ◌>>◌
  Ensures-then m k km kk = Ensures-bind m (λ u. k) km (λ u. kk)

module _ {P E : World → Type 0} (drop : (w : World) → P w → E w) where
  pub Ensures-guard_kept : (b : Bool) (e : GoError) → Ensures P (guard b e) (λ u w. P w) E
  Ensures-guard_kept b e = Ensures-weaken (Ensures-guard drop b e) (λ w h. h) (λ u w h. h.0)

-- what follows a guard may use that the guard held
module _ {B : Type 0} {P E : World → Type 0} (drop : (w : World) → P w → E w) where
  pub Ensures-guarded :
      {R : B → World → Type 0} (b : Bool) (e : GoError) (k : Db B)
      → (b ≡ true → Ensures P k R E)
      → Ensures P (guard b e >> k) R E
  unfolding guard pure raise ◌>>◌ ◌>>=◌
  Ensures-guarded true e k kk = record { at = (kk refl).at }
  Ensures-guarded false e k kk = record { at = drop }

-- what holds of the precondition's part that does not mention the world may be used
pub Ensures-known :
    {A : Type 0} {P E : World → Type 0} {K : Type 0} {m : Db A} {R : A → World → Type 0}
    (project : (w : World) → P w → K)
    → (K → Ensures P m R E)
    → Ensures P m R E
Ensures-known project k = record { at = λ w h. (k (project w h)).at w h }

-- without faults a call of the database is what it does
pub Ensures-clean :
    {A : Type 0} {P E : World → Type 0} {Q : A → World → Type 0} (wrap : GoError → GoError)
    (m : Db A)
    → ((w : World) → P w → w.faults ≡ [])
    → Ensures P m Q E
    → Ensures P (query wrap m) Q E
unfolding query
Ensures-clean {P} {E} {Q} wrap m clean k = record {
  at = λ w h.
      subst
        (λ (bs : List Bool). Post Q E (
          if fails bs
          then (err (wrap (plain "database")), record w { faults = later bs })
          else m (record w { faults = later bs })))
        (sym (clean w h))
        (subst (λ (bs : List Bool). Post Q E (m (record w { faults = bs }))) (clean w h)
          (k.at w h));
}

pub Ensures-fail :
    {A : Type 0} {P E E' : World → Type 0} {m : Db A} {Q : A → World → Type 0}
    → Ensures P m Q E
    → ((w : World) → E w → E' w)
    → Ensures P m Q E'
Ensures-fail {A} {E} {E'} {m} {Q} k wider = record { at = λ w h. go (m w) (k.at w h) }
  where
    go : (r : Result GoError A × World) → Post Q E r → Post Q E' r
    go (ok a, v) q = q
    go (err e, v) q = wider v q

pub Ensures-raise :
    {A : Type 0} {P E : World → Type 0} {Q : A → World → Type 0}
    → ((w : World) → P w → E w)
    → (e : GoError) → Ensures P (raise {A = A} e) Q E
unfolding raise
Ensures-raise drop e = record { at = drop }
