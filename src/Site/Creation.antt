-- ===== src/Site/Creation.antt =====
-- What Create of service.go achieves.
use mathlib.Core.Path.{subst}
use opendeploy.Common.{
  Bool, true, false, Option, List, [], ◌∷◌, String, Result, ok, err, ◌≡◌, refl, ◌∙◌, sym, ap,
}
use opendeploy.Common.Text.{Text, trim_space}
use opendeploy.Common.Action.{
  pure, raise, Post, Ensures, Ensures-bind, Ensures-then, Ensures-pure, Ensures-guard,
  Ensures-weaken, Ensures-or_undo,
}
use opendeploy.Nginx.Sites.{upsert}
use opendeploy.Site.Validation.{SiteError, validate_domain, normalize_root_path}
use opendeploy.Site.Records.{
  Domain, primary, Site, World, M, Env, ServiceError, active, no_module, module_required, refused,
  database, apply_web, Call, CreateRequest,
}
use opendeploy.Site.Effects.{
  later, fails, failing, attempt, call, is_taken, create_row, created, insert_site,
  apply_site_config, verify_site_health, check_domains, checked, probe,
}
use opendeploy.Site.Create.{lift, to_lower, validated, prepare, provision, create}
use opendeploy.Site.Keeps.{Keeps}
use opendeploy.Site.Requests.{
  Keeps-apply_default_php, Keeps-backup_critical, Keeps-prepare_app, Keeps-undo_web,
  Keeps-undo_prepare, Keeps-undo_create,
}

-- what the request says of the site
unfoldable pub Asked : (Text → Text) → CreateRequest → Site → Type 0
Asked clean req s =
    (validate_domain req.domain ≡ ok tt)
    × (normalize_root_path clean req.root_path ≡ ok s.root_path)
    × (s.domains ≡ record { domain = to_lower (trim_space req.domain); domain_type = primary } ∷ [])
    × (s.state ≡ active)
    × (s.module_id ≡ req.module_id)

-- the call that succeeded last made the web server serve the site
unfoldable pub Served : Site → World → Type 0
Served s w = (rest : List Call) × (w.calls ≡ apply_web s.module_id upsert s ∷ rest)

unfoldable pub Stored : List Site → Site → World → Type 0
Stored rows s w = (w.rows ≡ s ∷ rows) × (is_taken s rows ≡ false) × Served s w

module _ (env : Env) (clean : Text → Text) (req : CreateRequest) (rows : List Site) where
  Same : World → Type 0
  Same w = w.rows ≡ rows

  Ensures-kept : {A : Type 0} (m : M A) → Keeps (λ x. x ≡ rows) m → Ensures Same m (λ a. Same) Same
  unfolding Same
  Ensures-kept {A} m k = record { at = λ w e. go (m w) (k.at w e) }
    where
      go :
          (r : Result ServiceError A × World)
          → r.1.rows ≡ rows
          → Post (λ a w. w.rows ≡ rows) (λ w. w.rows ≡ rows) r
      go (ok a, t) e = e
      go (err x, t) e = e

  Ensures-lift :
      {A : Type 0} {P : World → Type 0} (r : Result SiteError A)
      → ((w : World) → P w → Same w)
      → Ensures P (lift r) (λ a w. P w × (r ≡ ok a)) Same
  unfolding lift pure raise
  Ensures-lift (ok a) k = record { at = λ w p. (p, refl) }
  Ensures-lift (err e) k = record { at = k }

  With : Type 0 → World → Type 0
  With F w = Same w × F

  Ensures-some :
      {A : Type 0} {P : World → Type 0} (r : Result SiteError A)
      → ((w : World) → P w → Same w)
      → Ensures P (lift r) (λ a. P) Same
  Ensures-some r k = Ensures-weaken (Ensures-lift r k) (λ w p. p) (λ a w x. x.0)

  Ensures-validated :
      (id : String) (v : Option Text)
      → Ensures Same (validated env clean id req v) (λ s w. Same w × Asked clean req s) Same
  unfolding validated Asked With
  Ensures-validated id v =
      Ensures-then {Q = With (validate_domain req.domain ≡ ok tt)} _ _
        (Ensures-lift {P = Same} (validate_domain req.domain) (λ w p. p))
        (Ensures-bind
          {Q = λ root w.
            With (validate_domain req.domain ≡ ok tt) w
            × (normalize_root_path clean req.root_path ≡ ok root)}
          _ _ (Ensures-lift (normalize_root_path clean req.root_path) (λ w p. p.0))
          λ root.
            let P : World → Type 0 = λ w.
              With (validate_domain req.domain ≡ ok tt) w
              × (normalize_root_path clean req.root_path ≡ ok root) in
            let same : (w : World) → P w → Same w = λ w p. p.0.0 in
            Ensures-bind {Q = λ a. P} _ _ (Ensures-some _ same) λ version.
              Ensures-then {Q = P} _ _
                (Ensures-weaken (Ensures-guard same _ module_required) (λ w p. p) (λ u w x. x.0))
                (Ensures-bind {Q = λ a. P} _ _ (Ensures-some _ same) λ paths.
                  Ensures-bind {Q = λ a. P} _ _ (Ensures-some _ same)
                    λ host. Ensures-pure P _ _ (λ w p. (p.0.0, (p.0.1, p.1, refl, refl, refl)))))

  Ensures-call :
      (c : Call) (e : ServiceError)
      → Ensures Same (call c e) (λ u w. Same w × ((rest : List Call) × (w.calls ≡ c ∷ rest))) Same
  unfolding Same call attempt
  Ensures-call c e = record {
    at = λ w p. go (fails w.faults) (record w { faults = later w.faults }) p;
  }
    where
      go :
          (b : Bool) (v : World)
          → v.rows ≡ rows
          → Post
              (λ (u : Unit {0}) w. (w.rows ≡ rows) × ((rest : List Call) × (w.calls ≡ c ∷ rest)))
              (λ w. w.rows ≡ rows)
              (failing b e (λ w. (ok tt, record w { calls = c ∷ w.calls })) v)
      go true v p = p
      go false v p = (p, (v.calls, refl))

  Ready : Site → World → Type 0
  Ready s w = Same w × Served s w

  Ensures-web :
      (s : Site) → Ensures Same (apply_site_config env s.module_id upsert s) (λ u. Ready s) Same
  unfolding apply_site_config Ready Served
  Ensures-web s =
      Ensures-then {Q = Same} _ _
        (Ensures-weaken (Ensures-guard (λ w p. p) _ no_module) (λ w p. p) (λ u w x. x.0))
        (Ensures-call (apply_web s.module_id upsert s) refused)

  Ensures-verify : (s : Site) → Ensures (Ready s) (verify_site_health s) (λ u. Ready s) Same
  unfolding verify_site_health Ready Served Same
  Ensures-verify s = record { at = λ w p. go s.domains w p }
    where
      good :
          (x : Bool × List Bool) (w : World)
          → Same w × Served s w
          → Post (λ u w. Same w × Served s w) Same (checked x w)
      good (true, ps) w p = p
      good (false, ps) w p = p.0

      go :
          (ds : List Domain) (w : World)
          → Same w × Served s w
          → Post (λ u w. Same w × Served s w) Same (check_domains ds w)
      go [] w p = p.0
      go (d ∷ ds) w p = good (probe 10 w.probes) w p

  Ensures-create_row : (s : Site) → Ensures (Ready s) (create_row s) (λ u. Stored rows s) Same
  unfolding create_row attempt Ready Served Same Stored
  Ensures-create_row s = record {
    at = λ w p. go (fails w.faults) (record w { faults = later w.faults }) p;
  }
    where
      insert :
          (b : Bool) (v : World)
          → is_taken s v.rows ≡ b
          → Same v × Served s v
          → Post (λ u. Stored rows s) Same (created s b v)
      insert true v e p = p.0
      insert false v e p = (ap (λ x. s ∷ x) p.0, (ap (is_taken s) (sym p.0) ∙ e), p.1)

      go :
          (b : Bool) (v : World)
          → Same v × Served s v
          → Post (λ u. Stored rows s) Same (failing b database (insert_site s) v)
      go true v p = p.0
      go false v p = insert (is_taken s v.rows) v refl p

  Ensures-provision :
      (s : Site) → Ensures Same (provision env clean req s) (λ t w. (t ≡ s) × Stored rows t w) Same
  unfolding provision prepare Same
  Ensures-provision s =
      Ensures-then {Q = Ready s} _ _
        (Ensures-then {Q = Same} _ _
          (Ensures-kept _ (Keeps-prepare_app (λ x. x ≡ rows) env clean req s))
          (Ensures-then {Q = Ready s} _ _
            (Ensures-or_undo _ _ (keeps (Keeps-undo_web (λ x. x ≡ rows) env clean s))
              (Ensures-web s))
            (Ensures-or_undo _ _ (keeps (Keeps-undo_prepare (λ x. x ≡ rows) env clean s))
              (Ensures-verify s))))
        (Ensures-then {Q = Stored rows s} _ _
          (Ensures-or_undo _ _ (keeps (Keeps-undo_create (λ x. x ≡ rows) env clean s))
            (Ensures-create_row s))
          (Ensures-pure (Stored rows s) _ s (λ w p. (refl, p))))
    where
      keeps : {m : M (Unit {0})} → Keeps (λ x. x ≡ rows) m → (w : World) → Same w → Same (m w).1
      keeps k w p = k.at w p

  Ensures-framed :
      {A : Type 0} {Q : A → World → Type 0} (G : Type 0) (m : M A)
      → Ensures Same m Q Same
      → Ensures (With G) m (λ a w. Q a w × G) Same
  unfolding With
  Ensures-framed {A} {Q} G m k = record { at = λ w p. go (m w) p.1 (k.at w p.0) }
    where
      go : (r : Result ServiceError A × World) → G → Post Q Same r → Post (λ a w. Q a w × G) Same r
      go (ok a, t) g q = (q, g)
      go (err e, t) g q = q

  Ensures-create :
      (id : String)
      → Ensures Same (create env clean id req) (λ s w. Asked clean req s × Stored rows s w) Same
  unfolding create With
  Ensures-create id =
      Ensures-bind {Q = λ v. Same} _ _
        (Ensures-kept _ (Keeps-apply_default_php (λ x. x ≡ rows) env clean req))
        λ version. Ensures-bind _ _ (Ensures-validated id version) λ s.
          Ensures-then {Q = With (Asked clean req s)} _ _
            (Ensures-framed (Asked clean req s) _
              (Ensures-kept _ (Keeps-backup_critical (λ x. x ≡ rows) env clean)))
            (Ensures-weaken (Ensures-framed (Asked clean req s) _ (Ensures-provision s)) (λ w p. p)
              (λ t w q. (subst (Asked clean req) (sym q.0.0) q.1, q.0.1)))

-- What the outcome of Create promises of a request and the stored rows.
unfoldable pub Created :
    (Text → Text) → CreateRequest → List Site → Result ServiceError Site × World → Type 0
Created clean req rows (ok s, w) = Asked clean req s × Stored rows s w
Created clean req rows (err e, w) = w.rows ≡ rows

-- Whatever calls fail: if Create succeeds, then the domain and the root of the request were valid, the
-- new site has the domain in lower case, the cleaned root and the active state, no stored site had one
-- of its domains, it is stored before the other rows, and the last call that succeeded put it on the
-- web server of the request's module. If it fails, the rows are as they were.
pub create-Created :
    (env : Env) (clean : Text → Text) (id : String) (req : CreateRequest) (w : World)
    → Created clean req w.rows (create env clean id req w)
unfolding Created Same
create-Created env clean id req w =
    go (create env clean id req w) ((Ensures-create env clean req w.rows id).at w refl)
  where
    go :
        (r : Result ServiceError Site × World)
        → Post (λ s v. Asked clean req s × Stored w.rows s v) (λ v. v.rows ≡ w.rows) r
        → Created clean req w.rows r
    go (ok s, v) q = q
    go (err e, v) q = q
