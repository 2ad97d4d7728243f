-- ===== src/Site/Domains.antt =====
-- The requests on sites in any order, with any failures, and the domains of the stored sites.
use opendeploy.Common.{
  Bool, true, false, Option, none, some, List, [], ◌∷◌, String, if◌then◌else◌, ◌≡◌, refl, ◌∙◌,
  arith, str_eq, any,
}
use opendeploy.Common.Text.{Text}
use opendeploy.Nginx.Sites.{SiteAction, upsert, enable, disable, delete}
use opendeploy.Site.Records.{
  Domain, Site, World, Env, State, active, disabled, database, CreateRequest, UpdateRequest,
}
use opendeploy.Site.Effects.{
  find_site, has_domain, is_taken, create_row, insert_site, created, change_site, cut_site, replace,
  updated, update_row, without, delete_row,
}
use opendeploy.Site.Lifecycle.{
  delete_found, delete_site, rollback, set_found, set_state, enable_site, disable_site, repair,
  repair_all, repair_active, repair_rows, reconcile_active, is_active,
}
use opendeploy.Site.Create.{provision, create}
use opendeploy.Site.Update.{reprovision, update}
use opendeploy.Site.Keeps.{
  Keeps, Keeps-pure, Keeps-bind, Keeps-then, Keeps-ignore, Keeps-or_undo, Keeps-attempt,
  Keeps-find_by_id,
}
use opendeploy.Site.Requests.{
  Keeps-apply_site_config, Keeps-manage_app, ignored_web, ignored_app, Keeps-backup_critical,
  Keeps-apply_state, Keeps-apply_default_php, Keeps-validated, before_row, Keeps-undo_create,
}
use opendeploy.Site.Updates.{Keeps-change, before_update, Keeps-undo_update}

pub data Request : Type 0 where
  create_site : String → CreateRequest → Request
  update_site : String → UpdateRequest → Request
  remove_site switch_on switch_off : String → Request
  reconcile : Request

module _ (env : Env) (clean : Text → Text) where
  abbrev pub serve : Request → World → World
  serve (create_site id req) w = (create env clean id req w).1
  serve (update_site id req) w = (update env clean id req w).1
  serve (remove_site id) w = (delete_site env id w).1
  serve (switch_on id) w = (enable_site env id w).1
  serve (switch_off id) w = (disable_site env id w).1
  serve reconcile w = (reconcile_active env w).1

  abbrev pub serve_all : List Request → World → World
  serve_all [] w = w
  serve_all (r ∷ rs) w = serve_all rs (serve r w)

  -- what holds of the rows through the three statements that change them holds through every request
  module _ (P : List Site → Type 0)
      (grow : (s : Site) (rows : List Site) → is_taken s rows ≡ false → P rows → P (s ∷ rows))
      (swap : (s : Site) (rows : List Site) → P rows → P (replace s rows))
      (cut : (id : String) (rows : List Site) → P rows → P (without id rows)) where
    Keeps-create_row : (s : Site) → Keeps P (create_row s)
    unfolding create_row
    Keeps-create_row s =
        Keeps-attempt P database (insert_site s)
          (record { at = λ w p. go w (is_taken s w.rows) refl p })
      where
        go : (w : World) (b : Bool) → is_taken s w.rows ≡ b → P w.rows → P (created s b w).1.rows
        go w true e p = p
        go w false e p = grow s w.rows e p

    Keeps-update_row : (s : Site) → Keeps P (update_row s)
    unfolding update_row
    Keeps-update_row s =
        Keeps-attempt P database (change_site s)
          (record { at = λ w p. go w (find_site s.id w.rows) p })
      where
        go : (w : World) (o : Option Site) → P w.rows → P (updated s o w).1.rows
        go w none p = p
        go w (some r) p = swap s w.rows p

    Keeps-delete_row : (id : String) → Keeps P (delete_row id)
    unfolding delete_row
    Keeps-delete_row id =
        Keeps-attempt P database (cut_site id) (record { at = λ w p. cut id w.rows p })

    Keeps-create : (id : String) (req : CreateRequest) → Keeps P (create env clean id req)
    unfolding create provision
    Keeps-create id req = Keeps-bind P _ _ (Keeps-apply_default_php P env clean req) λ version.
        Keeps-bind P _ _ (Keeps-validated P env clean id req version) λ s.
          Keeps-then P _ _ (Keeps-backup_critical P env clean) (
            Keeps-then P _ _ (before_row P env clean req s) (
              Keeps-then P _ _
                (Keeps-or_undo P _ _ (Keeps-create_row s) (Keeps-undo_create P env clean s))
                (Keeps-pure P s)))

    Keeps-update : (id : String) (req : UpdateRequest) → Keeps P (update env clean id req)
    unfolding update reprovision
    Keeps-update id req = Keeps-then P _ _ (Keeps-backup_critical P env clean) (
        Keeps-bind P _ _ (Keeps-find_by_id P id) λ old.
          Keeps-bind P _ _ (Keeps-change P env clean req old) λ s.
            Keeps-then P _ _ (before_update P env clean _ s) (
              Keeps-then P _ _
                (Keeps-or_undo P _ _ (Keeps-update_row s) (Keeps-undo_update P env clean _ s))
                (Keeps-pure P s)))

    Keeps-delete_site : (id : String) → Keeps P (delete_site env id)
    unfolding delete_site delete_found
    Keeps-delete_site id = Keeps-then P _ _ (Keeps-backup_critical P env clean) (
        Keeps-bind P _ _ (Keeps-find_by_id P id) λ s.
          Keeps-then P _ _ (ignored_app P env clean delete s) (
            Keeps-then P _ _ (ignored_web P env clean s.module_id delete s) (
              Keeps-or_undo P _ _ (Keeps-delete_row id) (
                Keeps-then P _ _ (ignored_web P env clean s.module_id upsert s)
                  (ignored_app P env clean upsert s)))))

    Keeps-set_state :
        (id : String) (state : State) (a : SiteAction) → Keeps P (set_state env id state a)
    unfolding set_state set_found rollback
    Keeps-set_state id state a = Keeps-bind P _ _ (Keeps-find_by_id P id) λ s.
        Keeps-then P _ _ (Keeps-update_row _) (
          Keeps-or_undo P _ _ (Keeps-apply_state P env clean a _) (
            Keeps-then P _ _ (Keeps-ignore P _ (Keeps-update_row s)) (
              Keeps-then P _ _
                (Keeps-ignore P _ (Keeps-apply_site_config P env clean s.module_id _ s))
                (Keeps-ignore P _ (Keeps-manage_app P env clean _ s)))))

    Keeps-repair : (s : Site) → Keeps P (repair env s)
    unfolding repair
    Keeps-repair s =
        Keeps-then P _ _ (Keeps-manage_app P env clean upsert s)
          (Keeps-apply_site_config P env clean s.module_id upsert s)

    Keeps-repair_active : (b : Bool) (s : Site) → Keeps P (repair_active env b s)
    Keeps-repair_active true s = Keeps-repair s
    Keeps-repair_active false s = Keeps-pure P tt

    kept_repairs : (ss : List Site) (w : World) → P w.rows → P (repair_all env ss w).1.rows
    unfolding repair_all
    kept_repairs [] w p = p
    kept_repairs (s ∷ ss) w p =
        kept_repairs ss (repair_active env (is_active env s) s w).1
          ((Keeps-repair_active (is_active env s) s).at w p)

    Keeps-reconcile_active : Keeps P (reconcile_active env)
    unfolding reconcile_active
    Keeps-reconcile_active =
        Keeps-attempt P database (repair_rows env) (record { at = λ w p. kept_repairs w.rows w p })

    kept_request : (r : Request) (w : World) → P w.rows → P (serve r w).rows
    unfolding enable_site disable_site
    kept_request (create_site id req) w p = (Keeps-create id req).at w p
    kept_request (update_site id req) w p = (Keeps-update id req).at w p
    kept_request (remove_site id) w p = (Keeps-delete_site id).at w p
    kept_request (switch_on id) w p =
        (Keeps-then P _ _ (Keeps-backup_critical P env clean) (Keeps-set_state id active enable)).at
          w p
    kept_request (switch_off id) w p =
        (Keeps-then P _ _ (Keeps-backup_critical P env clean)
            (Keeps-set_state id disabled disable)).at
          w p
    kept_request reconcile w p = Keeps-reconcile_active.at w p

    kept_requests : (rs : List Request) (w : World) → P w.rows → P (serve_all rs w).rows
    kept_requests [] w p = p
    kept_requests (r ∷ rs) w p = kept_requests rs (serve r w) (kept_request r w p)

-- no two stored sites share a domain
unfoldable pub Distinct : List Site → Type 0
Distinct [] = Unit {0}
Distinct (s ∷ rows) = (is_taken s rows ≡ false) × Distinct rows

any-replace :
    (d : Text) (s : Site) (rows : List Site)
    → any (has_domain d) (replace s rows) ≡ any (has_domain d) rows
any-replace d s [] = refl
any-replace d s (r ∷ rows) = ground (arith, any-replace d s rows)

any-without :
    (d : Text) (id : String) (rows : List Site)
    → any (has_domain d) rows ≡ false
    → any (has_domain d) (without id rows) ≡ false
any-without d id [] e = refl
any-without d id (r ∷ rows) e = ground (arith, any-without d id rows)

taken_replace :
    (ds : List Domain) (s : Site) (rows : List Site)
    → any (λ e. any (has_domain e.domain) (replace s rows)) ds
      ≡ any (λ e. any (has_domain e.domain) rows) ds
taken_replace [] s rows = refl
taken_replace (d ∷ ds) s rows = ground (arith, any-replace d.domain s rows, taken_replace ds s rows)

taken_without :
    (ds : List Domain) (id : String) (rows : List Site)
    → any (λ e. any (has_domain e.domain) rows) ds ≡ false
    → any (λ e. any (has_domain e.domain) (without id rows)) ds ≡ false
taken_without [] id rows e = refl
taken_without (d ∷ ds) id rows e =
    ground (arith, any-without d.domain id rows, taken_without ds id rows)

Distinct-replace : (s : Site) (rows : List Site) → Distinct rows → Distinct (replace s rows)
unfolding Distinct
Distinct-replace s [] h = h
Distinct-replace s (r ∷ rows) h =
    go (str_eq r.id s.id) (taken_replace r.domains s rows ∙ h.0) (Distinct-replace s rows h.1)
  where
    go :
        (b : Bool)
        → is_taken r (replace s rows) ≡ false
        → Distinct (replace s rows)
        → Distinct
            (if b then record s { domains = r.domains } ∷ replace s rows else r ∷ replace s rows)
    go true e k = (e, k)
    go false e k = (e, k)

Distinct-without : (id : String) (rows : List Site) → Distinct rows → Distinct (without id rows)
unfolding Distinct
Distinct-without id [] h = h
Distinct-without id (r ∷ rows) h =
    go (str_eq r.id id) (taken_without r.domains id rows h.0) (Distinct-without id rows h.1)
  where
    go :
        (b : Bool)
        → is_taken r (without id rows) ≡ false
        → Distinct (without id rows)
        → Distinct (if b then without id rows else r ∷ without id rows)
    go true e k = k
    go false e k = (e, k)

-- Through every sequence of creations, updates, removals, enablings, disablings and repairs of sites,
-- at every failure of the database, the Agent, the modules and the health checks, no two stored sites
-- come to share a domain.
pub serve_all-Distinct :
    (env : Env) (clean : Text → Text) (rs : List Request) (w : World)
    → Distinct w.rows
    → Distinct (serve_all env clean rs w).rows
unfolding Distinct
serve_all-Distinct env clean rs w =
    kept_requests env clean Distinct (λ s rows e h. (e, h)) Distinct-replace Distinct-without rs w
