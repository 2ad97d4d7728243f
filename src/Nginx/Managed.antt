-- ===== src/Nginx/Managed.antt =====
-- Manager.Apply of the Agent's nginxsite/manager.go, and that it does what ApplySite does locally.
use mathlib.Core.Path.{subst}
use opendeploy.Common.{
  Bool, true, false, not, ◌&&◌, ◌||◌, none, some, [], ◌∷◌, String, ok, if◌then◌else◌, ◌≡◌, refl, ap,
  sym, ◌∙◌, ◌⊎◌, inl, inr, arith, leb, ◌==◌, all, length, str_eq,
}
use opendeploy.Common.Text.{Text, codes, contains}
use opendeploy.Common.Action.{or_undo, pure, raise, ◌>>=◌, ◌>>◌, guard, Ensures, Ensures-bind}
use opendeploy.Site.Validation.{is_alnum}
use opendeploy.Nginx.Host.{
  available, enabled, Files, Host, HostError, no_file, no_content, invalid_domain, M, fails, put,
  write, remove, Snapshot, read_snapshot, restore_snapshot,
}
use opendeploy.Nginx.Sites.{
  SiteAction, upsert, enable, disable, delete, validate_and_reload, restore_both, apply_site,
}
use opendeploy.Nginx.Applied.{
  applied, Has, Turns, Ends, Turns-write, Turns-remove, Turns-or_undo, Turns-then,
  Turns-validate_and_reload, ended, apply_site-applied,
}

-- the last byte of a text that is not empty is a letter or a digit
abbrev pub ends_with_alnum : Text → Bool
ends_with_alnum [] = false
ends_with_alnum (c ∷ []) = is_alnum c
ends_with_alnum (c ∷ d ∷ t) = ends_with_alnum (d ∷ t)

abbrev pub starts_with_alnum : Text → Bool
starts_with_alnum [] = false
starts_with_alnum (c ∷ t) = is_alnum c

-- validDomain, managedDomainPattern
unfoldable pub valid_domain : Text → Bool
valid_domain d =
    leb (length d) 253
    && ((starts_with_alnum d
          && (ends_with_alnum d && all (λ c. is_alnum c || (c == 46 || c == 45)) d))
        && not (contains d (codes "..")))

-- the changes of each action, before the validation
unfoldable pub change : SiteAction → Text → String → Snapshot → Snapshot → M (Unit {0})
change upsert d content c e = do
  guard (not (str_eq content "")) no_content
  write available d content
  or_undo (write enabled d content) (restore_snapshot available d c)
change enable d content none e = raise no_file
change enable d content (some c) e = write enabled d c
change disable d content c e = remove enabled d
change delete d content c e = do
  remove enabled d
  or_undo (remove available d) (restore_snapshot enabled d e)

-- Manager.Apply with its files, shell and systemd there
unfoldable pub manager_apply : SiteAction → Text → String → M (Unit {0})
manager_apply action d content = do
  guard (valid_domain d) invalid_domain
  c ← read_snapshot available d
  e ← read_snapshot enabled d
  change action d content c e
  or_undo validate_and_reload (restore_both d c e)

-- what a snapshot of a file holds, for the right files
Seen : Files → Text → Snapshot → Host → Type 0
Seen fs d c h = (h.files ≡ fs) × ((c ≡ none) ⊎ (c ≡ fs available d))

Ensures-Seen :
    (fs : Files) (d : Text)
    → Ensures (Has fs) (read_snapshot available d) (Seen fs d) (λ h. Unit {0})
unfolding Has Seen read_snapshot
Ensures-Seen fs d = record { at = λ h e. (e, go (fails h.faults) (ap (λ x. x available d) e)) }
  where
    go :
        {c x : Snapshot} (b : Bool)
        → c ≡ x
        → ((if b then none else c) ≡ none) ⊎ ((if b then none else c) ≡ x)
    go true e = inl refl
    go false e = inr e

Turns-guard : (fs : Files) (b : Bool) (e : HostError) → Turns fs (guard b e) fs
unfolding Turns guard pure raise
Turns-guard fs true e = record { at = λ h k. k }
Turns-guard fs false e = record { at = λ h k. tt }

Turns-raise : (fs gs : Files) (e : HostError) → Turns fs (raise e) gs
unfolding Turns raise
Turns-raise fs gs e = record { at = λ h k. tt }

Turns-change :
    (action : SiteAction) (d : Text) (content : String) (c e : Snapshot) (fs : Files)
    → ((c ≡ none) ⊎ (c ≡ fs available d))
    → Turns fs (change action d content c e) (applied action d content fs)
unfolding change applied
Turns-change upsert d content c e fs k =
    let one = put fs available d (some content) in
    let two = put one enabled d (some content) in
    Turns-then fs fs two _ _ (Turns-guard fs (not (str_eq content "")) no_content) (
      Turns-then fs one two _ _ (Turns-write fs available d content) (
        Turns-or_undo one two (write enabled d content) (restore_snapshot available d c)
          (Turns-write one enabled d content)))
Turns-change enable d content none e fs k =
    Turns-raise fs (put fs enabled d (fs available d)) no_file
Turns-change enable d content (some c) e fs (inl k) = ground arith
Turns-change enable d content (some c) e fs (inr k) =
    subst (λ x. Turns fs (write enabled d c) (put fs enabled d x)) k (Turns-write fs enabled d c)
Turns-change disable d content c e fs k = Turns-remove fs enabled d
Turns-change delete d content c e fs k =
    let one = put fs enabled d none in
    let two = put one available d none in
    Turns-then fs one two _ _ (Turns-remove fs enabled d) (
      Turns-or_undo one two (remove available d) (restore_snapshot enabled d e)
        (Turns-remove one available d))

finished :
    (action : SiteAction) (d : Text) (content : String) (c e : Snapshot) (fs : Files)
    → Ensures
        (Seen fs d c)
        (change action d content c e >> or_undo validate_and_reload (restore_both d c e))
        (λ u. Has (applied action d content fs))
        (λ h. Unit {0})
unfolding Seen Turns Has
finished action d content c e fs = record { at = λ h s. (all_turns s.1).at h s.0 }
  where
    all_turns :
        ((c ≡ none) ⊎ (c ≡ fs available d))
        → Turns fs
            (change action d content c e >> or_undo validate_and_reload (restore_both d c e))
            (applied action d content fs)
    all_turns k =
        Turns-then fs (applied action d content fs) (applied action d content fs) _ _
          (Turns-change action d content c e fs k)
          (Turns-or_undo _ _ validate_and_reload (restore_both d c e)
            (Turns-validate_and_reload (applied action d content fs)))

Seen-read :
    (fs : Files) (d : Text) (c : Snapshot)
    → Ensures (Seen fs d c) (read_snapshot enabled d) (λ e. Seen fs d c) (λ h. Unit {0})
unfolding Seen read_snapshot
Seen-read fs d c = record { at = λ h s. s }

Turns-manager_apply :
    (action : SiteAction) (d : Text) (content : String) (fs : Files)
    → Turns fs (manager_apply action d content) (applied action d content fs)
unfolding Turns manager_apply
Turns-manager_apply action d content fs =
    Turns-then fs fs (applied action d content fs) _ _
      (Turns-guard fs (valid_domain d) invalid_domain)
      (Ensures-bind {Q = Seen fs d} _ _ (Ensures-Seen fs d) (λ c.
        Ensures-bind {Q = λ e. Seen fs d c} _ _ (Seen-read fs d c)
          (λ e. finished action d content c e fs)))

-- Whenever the control plane's local change of a site and the Agent's own one both succeed from the same
-- files, on hosts with any faults, they leave the same files: for every domain, folder and action.
pub manager_apply-apply_site :
    (action : SiteAction) (d : Text) (content : String) (near far : Host)
    → near.files ≡ far.files
    → (apply_site action d content near).0 ≡ ok tt
    → (manager_apply action d content far).0 ≡ ok tt
    → (manager_apply action d content far).1.files ≡ (apply_site action d content near).1.files
unfolding Turns Has Ends
manager_apply-apply_site action d content near far same e k =
    ended (manager_apply action d content far) (applied action d content far.files)
      ((Turns-manager_apply action d content far.files).at far refl) k
    ∙ (ap (applied action d content) (sym same)
        ∙ sym (apply_site-applied action d content near e).1)
