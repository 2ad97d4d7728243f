-- ===== src/Nginx/Applied.antt =====
-- What a change of a site's configuration makes of the files, as ApplySite of sites.go makes it.
use mathlib.Core.Path.{subst}
use opendeploy.Common.{
  ℕ, Bool, true, false, Option, none, some, List, String, Result, ok, err, if◌then◌else◌, ◌≡◌, refl,
  ap, sym, arith,
}
use opendeploy.Common.Text.{Text}
use opendeploy.Common.Action.{
  or_undo, undone, raise, ◌>>=◌, ◌>>◌, Post, Ensures, Ensures-bind, Ensures-then,
}
use opendeploy.Nginx.Host.{
  Folder, available, enabled, Files, Host, HostError, unreachable, invalid_domain, M, fails,
  after_call, put, call, write, remove, run, Snapshot, read_snapshot, restore_snapshot,
}
use opendeploy.Nginx.Sites.{
  SiteAction, upsert, enable, disable, delete, validate_and_reload, restore_both, copy_file, tear,
  write_copy, write_both, check_both, upsert_site, enable_site, disable_site, delete_site,
  do_action, apply_site, valid_managed_domain,
}

-- the files that an action asks for
unfoldable pub applied : SiteAction → Text → String → Files → Files
applied upsert d c fs = put (put fs available d (some c)) enabled d (some c)
applied enable d c fs = put fs enabled d (fs available d)
applied disable d c fs = put fs enabled d none
applied delete d c fs = put (put fs enabled d none) available d none

unfoldable pub Has : Files → Host → Type 0
Has fs h = h.files ≡ fs

-- `m` turns the files `fs` into `gs`, or fails
unfoldable pub Turns : Files → M (Unit {0}) → Files → Type 0
Turns fs m gs = Ensures (Has fs) m (λ u. Has gs) (λ h. Unit {0})

unfoldable pub Ends : Files → Result HostError (Unit {0}) × Host → Type 0
Ends gs r = Post {E = HostError} {S = Host} {A = Unit {0}} (λ u. Has gs) (λ h. Unit {0}) r

pub Ensures-read_snapshot :
    (f : Folder) (d : Text) (fs : Files)
    → Ensures (Has fs) (read_snapshot f d) (λ c. Has fs) (λ h. Unit {0})
unfolding read_snapshot Has
Ensures-read_snapshot f d fs = record { at = λ h e. e }

Turns-call :
    (fs gs : Files) (f : Host → Host)
    → ((h : Host) (later : List ℕ) → Has fs h → Has gs (f (record h { faults = later })))
    → Turns fs (call f) gs
unfolding Turns call Ends
Turns-call fs gs f k = record {
  at = λ h e.
      go (fails h.faults) (record h { faults = after_call h.faults }) (k h (after_call h.faults) e);
}
  where
    go :
        (b : Bool) (t : Host)
        → Has gs (f t)
        → Ends gs (if b then (err unreachable, t) else (ok tt, f t))
    go true t e = tt
    go false t e = e

Turns-put :
    (fs : Files) (f : Folder) (d : Text) (c : Option String)
    → Turns fs (call (λ h. record h { files = put h.files f d c })) (put fs f d c)
unfolding Has
Turns-put fs f d c =
    Turns-call fs (put fs f d c) (λ h. record h { files = put h.files f d c })
      (λ h later e. ap (λ x. put x f d c) e)

pub Turns-write :
    (fs : Files) (f : Folder) (d : Text) (c : String) → Turns fs (write f d c) (put fs f d (some c))
unfolding write
Turns-write fs f d c = Turns-put fs f d (some c)

pub Turns-remove : (fs : Files) (f : Folder) (d : Text) → Turns fs (remove f d) (put fs f d none)
unfolding remove
Turns-remove fs f d = Turns-put fs f d none

Turns-run : (fs : Files) → Turns fs run fs
unfolding run Has
Turns-run fs = Turns-call fs fs (λ h. h) (λ h later e. e)

pub Turns-or_undo :
    (fs gs : Files) (m undo : M (Unit {0})) → Turns fs m gs → Turns fs (or_undo m undo) gs
unfolding Turns or_undo Ends
Turns-or_undo fs gs m undo k = record { at = λ h e. go (m h) (k.at h e) }
  where
    go : (r : Result HostError (Unit {0}) × Host) → Ends gs r → Ends gs (undone undo r)
    go (ok a, t) q = q
    go (err e, t) q = tt

pub Turns-then :
    (fs gs hs : Files) (m k : M (Unit {0})) → Turns fs m gs → Turns gs k hs → Turns fs (m >> k) hs
unfolding Turns
Turns-then fs gs hs m k = Ensures-then m k

Turns-read :
    (fs gs : Files) (f : Folder) (d : Text) (k : Snapshot → M (Unit {0}))
    → ((c : Snapshot) → Turns fs (k c) gs)
    → Turns fs (read_snapshot f d >>= k) gs
unfolding Turns
Turns-read fs gs f d k j =
    Ensures-bind {Q = λ c. Has fs} (read_snapshot f d) k (Ensures-read_snapshot f d fs) j

Turns-write_copy :
    (fs : Files) (d : Text) (c : Option String) → Turns fs (write_copy c d) (put fs enabled d c)
unfolding Turns Has Ends
Turns-write_copy fs d none = record { at = λ h e. tt }
Turns-write_copy fs d (some c) = record {
  at = λ h e.
      go (fails h.faults) (tear h.cut d (record h { faults = after_call h.faults }))
        (record h { files = put h.files enabled d (some c); faults = after_call h.faults })
        (ap (λ x. put x enabled d (some c)) e);
}
  where
    go :
        (b : Bool) (torn t : Host)
        → Has (put fs enabled d (some c)) t
        → Ends (put fs enabled d (some c)) (if b then (err unreachable, torn) else (ok tt, t))
    go true torn t e = tt
    go false torn t e = e

Turns-copy_file :
    (fs : Files) (d : Text) → Turns fs (copy_file d) (put fs enabled d (fs available d))
unfolding Turns copy_file Has Ends
Turns-copy_file fs d = record {
  at = λ h e.
      subst (λ c. Ends (put fs enabled d (fs available d)) (write_copy c d h))
        (sym (ap (λ x. x available d) e)) ((Turns-write_copy fs d (fs available d)).at h e);
}

Turns-check_both : (fs : Files) (d : Text) (c e : Snapshot) → Turns fs (check_both d c e) fs
unfolding check_both
Turns-check_both fs d c e =
    Turns-then fs fs fs _ _ (Turns-or_undo fs fs run (restore_both d c e) (Turns-run fs))
      (Turns-or_undo fs fs run (restore_both d c e) (Turns-run fs))

pub Turns-validate_and_reload : (fs : Files) → Turns fs validate_and_reload fs
unfolding validate_and_reload
Turns-validate_and_reload fs = Turns-then fs fs fs run run (Turns-run fs) (Turns-run fs)

Turns-do_action :
    (action : SiteAction) (d : Text) (content : String) (fs : Files)
    → Turns fs (do_action action d content) (applied action d content fs)
unfolding applied upsert_site write_both enable_site disable_site delete_site
Turns-do_action upsert d content fs =
    let one = put fs available d (some content) in
    let two = put one enabled d (some content) in
    Turns-read fs two available d _ λ c. Turns-read fs two enabled d _ λ e.
      Turns-then fs two two _ _
        (Turns-then fs one two _ _ (Turns-write fs available d content) (
          Turns-or_undo one two (write enabled d content) (restore_snapshot available d c)
            (Turns-write one enabled d content)))
        (Turns-check_both two d c e)
Turns-do_action enable d content fs =
    let one = put fs enabled d (fs available d) in
    Turns-read fs one available d _ λ c.
      Turns-read fs one enabled d _
        λ e. Turns-then fs one one _ _ (Turns-copy_file fs d) (Turns-check_both one d c e)
Turns-do_action disable d content fs =
    let one = put fs enabled d none in
    Turns-read fs one enabled d _ λ e. Turns-then fs one one _ _ (Turns-remove fs enabled d) (
      Turns-or_undo one one validate_and_reload (restore_snapshot enabled d e)
        (Turns-validate_and_reload one))
Turns-do_action delete d content fs =
    let one = put fs enabled d none in
    let two = put one available d none in
    Turns-read fs two available d _ λ c. Turns-read fs two enabled d _ λ e.
      Turns-then fs one two _ _ (Turns-remove fs enabled d) (
        Turns-then one two two _ _
          (Turns-or_undo one two (remove available d) (restore_snapshot enabled d e)
            (Turns-remove one available d))
          (Turns-or_undo two two validate_and_reload (restore_both d c e)
            (Turns-validate_and_reload two)))

pub ended :
    (r : Result HostError (Unit {0}) × Host) (fs : Files) → Ends fs r → r.0 ≡ ok tt → r.1.files ≡ fs
unfolding Ends Has
ended (ok a, t) fs k e = k
ended (err x, t) fs k e = ground arith

refused :
    (h : Host) → ¬ ((raise {E = HostError} {S = Host} {A = Unit {0}} invalid_domain h).0 ≡ ok tt)
unfolding raise
refused h e = ground arith

-- A change of a site that succeeds has a valid domain, and leaves exactly the files that it asks for:
-- upsert writes both files of the domain, enable copies the available one, disable removes the enabled
-- one and delete removes both; no file of another domain is touched. This holds for any faults.
pub apply_site-applied :
    (action : SiteAction) (d : Text) (content : String) (h : Host)
    → (apply_site action d content h).0 ≡ ok tt
    → (valid_managed_domain d ≡ true)
      × ((apply_site action d content h).1.files ≡ applied action d content h.files)
unfolding apply_site Turns Has Ends
apply_site-applied action d content h = go (valid_managed_domain d)
  where
    go :
        (b : Bool)
        → ((if b then do_action action d content else raise invalid_domain) h).0 ≡ ok tt
        → (b ≡ true)
          × (((if b then do_action action d content else raise invalid_domain) h).1.files
              ≡ applied action d content h.files)
    go true e = (
      refl,
      ended (do_action action d content h) (applied action d content h.files)
          ((Turns-do_action action d content h.files).at h refl) e,
    )
    go false e = absurd (refused h e)
