-- ===== src/Nginx/Sites.antt =====
-- ApplySite of sites.go.
use opendeploy.Common.{
  Bool, not, ◌&&◌, ◌||◌, Option, none, some, String, ok, err, if◌then◌else◌, ltb, all, length,
}
use opendeploy.Common.Text.{Text, codes, contains_any, split}
use opendeploy.Common.Action.{or_undo, raise, ◌>>=◌, ◌>>◌}
use opendeploy.Site.Validation.{is_empty, is_label_char, starts_with_hyphen, ends_with_hyphen}
use opendeploy.Nginx.Host.{
  available, enabled, no_file, unreachable, invalid_domain, Host, M, fails, after_call, put, write,
  remove, run, Snapshot, read_snapshot, restore_snapshot,
}

-- contract.SiteAction
pub data SiteAction : Type 0 where
  upsert enable disable delete : SiteAction

abbrev pub is_managed_label : Text → Bool
is_managed_label l =
    not (is_empty l || ltb 63 (length l))
    && (not (starts_with_hyphen l || ends_with_hyphen l) && all is_label_char l)

-- validManagedDomain
unfoldable pub valid_managed_domain : Text → Bool
valid_managed_domain d =
    not (is_empty d || (ltb 253 (length d) || contains_any (codes "/\\:@") d))
    && all is_managed_label (split d b'.')

-- `nginx -t`, then the reload
unfoldable pub validate_and_reload : M (Unit {0})
validate_and_reload = run >> run

abbrev pub restore_both : Text → Snapshot → Snapshot → M (Unit {0})
restore_both d c e = restore_snapshot available d c >> restore_snapshot enabled d e

-- what a failing FileCopy leaves of the enabled file
abbrev pub tear : Option String → Text → Host → Host
tear none d h = h
tear (some part) d h = record h { files = put h.files enabled d (some part) }

-- FileCopy of the available file over the enabled one
abbrev pub write_copy : Option String → Text → M (Unit {0})
write_copy none d h = (err no_file, record h { faults = after_call h.faults })
write_copy (some c) d h =
    let t = record h { faults = after_call h.faults } in
    if fails h.faults
    then (err unreachable, tear h.cut d t)
    else (ok tt, record t { files = put t.files enabled d (some c) })

unfoldable pub copy_file : Text → M (Unit {0})
copy_file d h = write_copy (h.files available d) d h

unfoldable pub write_both : Text → String → Snapshot → M (Unit {0})
write_both d content c = do
  write available d content
  or_undo (write enabled d content) (restore_snapshot available d c)

unfoldable pub check_both : Text → Snapshot → Snapshot → M (Unit {0})
check_both d c e = do or_undo run (restore_both d c e); or_undo run (restore_both d c e)

unfoldable pub upsert_site : Text → String → M (Unit {0})
upsert_site d content = do
  c ← read_snapshot available d
  e ← read_snapshot enabled d
  write_both d content c
  check_both d c e

unfoldable pub enable_site : Text → M (Unit {0})
enable_site d = do
  c ← read_snapshot available d
  e ← read_snapshot enabled d
  copy_file d
  check_both d c e

unfoldable pub disable_site : Text → M (Unit {0})
disable_site d = do
  e ← read_snapshot enabled d
  remove enabled d
  or_undo validate_and_reload (restore_snapshot enabled d e)

unfoldable pub delete_site : Text → M (Unit {0})
delete_site d = do
  c ← read_snapshot available d
  e ← read_snapshot enabled d
  remove enabled d
  or_undo (remove available d) (restore_snapshot enabled d e)
  or_undo validate_and_reload (restore_both d c e)

abbrev pub do_action : SiteAction → Text → String → M (Unit {0})
do_action upsert d content = upsert_site d content
do_action enable d content = enable_site d
do_action disable d content = disable_site d
do_action delete d content = delete_site d

-- ApplySite on the local host, with the rendered configuration
unfoldable pub apply_site : SiteAction → Text → String → M (Unit {0})
apply_site action d content =
    if valid_managed_domain d then do_action action d content else raise invalid_domain
