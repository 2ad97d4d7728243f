-- ===== src/Site/Calm.antt =====
-- Runs of setState of lifecycle_service.go in which at most one call fails.
use mathlib.Core.Path.{subst}
use opendeploy.Common.{
  ℕ, zero, suc, Bool, true, false, List, [], ◌∷◌, Result, ok, err, if◌then◌else◌, ◌≡◌, refl, ◌∙◌,
  sym, arith, ◌⊎◌, inl, inr,
}
use opendeploy.Common.Action.{pure, raise, guard, Post, Ensures, Ensures-then, Ensures-pure}
use opendeploy.Nginx.Sites.{SiteAction, upsert, enable, disable, delete}
use opendeploy.Site.Records.{
  Domain, Site, World, M, Env, ServiceError, State, no_module, no_app_module, refused, apply_web,
  apply_app, Call,
}
use opendeploy.Site.Effects.{
  later, fails, failing, attempt, call, apply_site_config, apply_app_config, manage_app,
  manages_app_server, probe, checked, check_domains, verify_site_health,
}
use opendeploy.Site.Lifecycle.{check_enabled, apply_state}

module _ (env : Env) (s : Site) where
  -- no call fails, or exactly one does, the modules of the site are registered, and the next check is good
  pub data Calm (w : World) : Type 0 where
    no_fault : w.faults ≡ [] → Calm w
    one_fault :
        (n : ℕ)
        → w.faults ≡ n ∷ []
        → env.is_web_server s.module_id ≡ true
        → env.is_app_server s.app.app_type ≡ true
        → (check_domains s.domains w).0 ≡ ok tt
        → Calm w

  unfoldable pub Faultless : World → Type 0
  Faultless w = w.faults ≡ []

  Goes : {A : Type 0} → M A → Type 0
  Goes m = Ensures Calm m (λ a. Calm) Faultless

  check_faults :
      (ds : List Domain) (w : World) (fs : List ℕ)
      → (check_domains ds (record w { faults = fs })).0 ≡ (check_domains ds w).0
  check_faults [] w fs = refl
  check_faults (d ∷ ds) w fs = go (probe 10 w.probes)
    where
      go : (x : Bool × List Bool) → (checked x (record w { faults = fs })).0 ≡ (checked x w).0
      go (true, ps) = refl
      go (false, ps) = refl

  unfoldable pub Next : World → Bool → List ℕ → Type 0
  Next w true fs = fs ≡ []
  Next w false fs = Calm (record w { faults = fs })

  pub Calm-Next : (w : World) → Calm w → Next w (fails w.faults) (later w.faults)
  unfolding Next
  Calm-Next w (no_fault e) = subst (λ fs. Next w (fails fs) (later fs)) (sym e) (no_fault refl)
  Calm-Next w (one_fault zero e a b c) = subst (λ fs. Next w (fails fs) (later fs)) (sym e) refl
  Calm-Next w (one_fault (suc n) e a b c) =
      subst (λ fs. Next w (fails fs) (later fs)) (sym e)
        (one_fault n refl a b (check_faults s.domains w (n ∷ []) ∙ c))

  Goes-attempt : {A : Type 0} (e : ServiceError) (m : M A) → Goes m → Goes (attempt e m)
  unfolding Goes attempt Faultless Next
  Goes-attempt {A} e m k = record {
    at = λ w c. go w (fails w.faults) (later w.faults) (Calm-Next w c);
  }
    where
      go :
          (w : World) (b : Bool) (fs : List ℕ)
          → Next w b fs
          → Post (λ (a : A). Calm) Faultless (failing b e m (record w { faults = fs }))
      go w true fs x = x
      go w false fs x = k.at (record w { faults = fs }) x

  check_same :
      (ds : List Domain) (v w : World)
      → v.probes ≡ w.probes
      → (check_domains ds v).0 ≡ (check_domains ds w).0
  check_same [] v w e = refl
  check_same (d ∷ ds) v w e =
      subst (λ x. (checked (probe 10 v.probes) v).0 ≡ (checked (probe 10 x) w).0) e
        (go (probe 10 v.probes))
    where
      go : (x : Bool × List Bool) → (checked x v).0 ≡ (checked x w).0
      go (true, ps) = refl
      go (false, ps) = refl

  pub Calm-same : (w v : World) → v.faults ≡ w.faults → v.probes ≡ w.probes → Calm w → Calm v
  Calm-same w v f p (no_fault e) = no_fault (f ∙ e)
  Calm-same w v f p (one_fault n e a b c) = one_fault n (f ∙ e) a b (check_same s.domains v w p ∙ c)

  Goes-call : (c : Call) (e : ServiceError) → Goes (call c e)
  unfolding Goes call
  Goes-call c e =
      Goes-attempt e (λ w. (ok tt, record w { calls = c ∷ w.calls }))
        (record { at = λ w h. Calm-same w (record w { calls = c ∷ w.calls }) refl refl h })

  -- a test that holds if one call may fail
  Goes-guard :
      (b : Bool) (e : ServiceError)
      → ((w : World) → Calm w → (b ≡ true) ⊎ Faultless w)
      → Goes (guard b e)
  unfolding Goes guard pure raise
  Goes-guard true e k = record { at = λ w c. c }
  Goes-guard false e k = record { at = λ w c. go w (k w c) }
    where
      go : (w : World) → (false ≡ true) ⊎ Faultless w → Faultless w
      go w (inl x) = ground arith
      go w (inr x) = x

  web_there : (w : World) → Calm w → (env.is_web_server s.module_id ≡ true) ⊎ Faultless w
  unfolding Faultless
  web_there w (no_fault e) = inr e
  web_there w (one_fault n e a b c) = inl a

  app_there : (w : World) → Calm w → (env.is_app_server s.app.app_type ≡ true) ⊎ Faultless w
  unfolding Faultless
  app_there w (no_fault e) = inr e
  app_there w (one_fault n e a b c) = inl b

  Goes-web : (a : SiteAction) (t : Site) → Goes (apply_site_config env s.module_id a t)
  unfolding Goes apply_site_config
  Goes-web a t =
      Ensures-then _ _ (Goes-guard _ no_module web_there)
        (Goes-call (apply_web s.module_id a t) refused)

  Goes-app : (a : SiteAction) (t : Site) → Goes (apply_app_config env s.app.app_type a t)
  unfolding Goes apply_app_config
  Goes-app a t =
      Ensures-then _ _ (Goes-guard _ no_app_module app_there)
        (Goes-call (apply_app s.app.app_type a t) refused)

  unfoldable pub Ends : M (Unit {0}) → Type 0
  Ends m = Ensures Calm m (λ u w. Unit {0}) Faultless

  Ends-verify : (state : State) → Ends (verify_site_health (record s { state = state }))
  unfolding Ends verify_site_health Faultless
  Ends-verify state = record { at = λ w c. go s.domains w c }
    where
      fine : (ds : List Domain) (w : World) → w.faults ≡ [] → (check_domains ds w).1.faults ≡ []
      fine [] w e = e
      fine (d ∷ ds) w e = good (probe 10 w.probes)
        where
          good : (x : Bool × List Bool) → (checked x w).1.faults ≡ []
          good (true, ps) = e
          good (false, ps) = e

      last :
          (r : Result ServiceError (Unit {0}) × World)
          → (r.1.faults ≡ []) ⊎ (r.0 ≡ ok tt)
          → Post (λ u w. Unit {0}) (λ w. w.faults ≡ []) r
      last (ok a, t) e = tt
      last (err x, t) (inl e) = e
      last (err x, t) (inr e) = ground arith

      go :
          (ds : List Domain) (w : World)
          → Calm w
          → Post (λ u w. Unit {0}) (λ w. w.faults ≡ []) (check_domains s.domains w)
      go ds w (no_fault e) = last (check_domains s.domains w) (inl (fine s.domains w e))
      go ds w (one_fault n e a b c) = last (check_domains s.domains w) (inr c)

  pub Ends-apply_state :
      (action : SiteAction) (state : State)
      → Ends (apply_state env action (record s { state = state }))
  unfolding Ends Goes apply_state manage_app
  Ends-apply_state action state =
      Ensures-then _ _ (app (manages_app_server s.app.app_type))
        (Ensures-then _ _ (Goes-web action (record s { state = state })) (check action))
    where
      app :
          (b : Bool)
          → Ensures Calm
              (if b
                then apply_app_config env s.app.app_type action (record s { state = state })
                else pure tt)
              (λ u. Calm)
              Faultless
      app true = Goes-app action (record s { state = state })
      app false = Ensures-pure Calm (λ u. Calm) tt (λ w c. c)

      check :
          (action : SiteAction)
          → Ensures Calm
              (check_enabled env action (record s { state = state }))
              (λ u w. Unit {0})
              Faultless
      check upsert = Ensures-pure Calm (λ u w. Unit {0}) tt (λ w c. tt)
      check enable = Ends-verify state
      check disable = Ensures-pure Calm (λ u w. Unit {0}) tt (λ w c. tt)
      check delete = Ensures-pure Calm (λ u w. Unit {0}) tt (λ w c. tt)
