-- ===== src/Nginx/Examples.antt =====
-- The theorems about site configurations at a concrete host, and tests.
use opendeploy.Common.{true, ◌≡◌, refl, none, some, ℕ, List, [], ◌∷◌, if◌then◌else◌}
use opendeploy.Common.Text.{
  Text, codes, text_eq, contains, contains_any, contains_byte, has_prefix, split,
}
use opendeploy.Common.Action.{or_undo, ◌>>=◌, ◌>>◌, pure, raise, guard}
use opendeploy.Nginx.Host.{
  available, enabled, Files, Host, call, write, remove, run, read_snapshot, restore_snapshot,
}
use opendeploy.Nginx.Sites.{
  upsert, enable, valid_managed_domain, validate_and_reload, copy_file, write_both, check_both,
  upsert_site, enable_site, apply_site,
}
use opendeploy.Nginx.Applied.{applied, apply_site-applied}
use opendeploy.Nginx.Managed.{change, valid_domain, manager_apply, manager_apply-apply_site}

abbrev shop : Text
shop = codes "shop.example"

abbrev old_files : Files
old_files f d = if text_eq d shop then some "old" else none

abbrev host_with : List ℕ → Host
host_with faults = record {
  files = old_files;
  directories = λ d. none;
  faults = faults;
  cut = none;
}

apply_site-applied_example :
    (valid_managed_domain shop ≡ true)
    × ((apply_site upsert shop "new" (host_with [])).1.files ≡ applied upsert shop "new" old_files)
unfolding apply_site valid_managed_domain has_prefix contains_any contains_byte split text_eq
    upsert_site write_both check_both read_snapshot restore_snapshot or_undo write remove run call
    ◌>>=◌ ◌>>◌ pure raise
apply_site-applied_example = apply_site-applied upsert shop "new" (host_with []) refl

manager_apply-apply_site_example :
    (manager_apply enable shop "" (host_with [])).1.files
    ≡ (apply_site enable shop "" (host_with [])).1.files
unfolding apply_site manager_apply change valid_domain contains guard valid_managed_domain
    has_prefix contains_any contains_byte split text_eq enable_site copy_file validate_and_reload
    check_both read_snapshot restore_snapshot or_undo write remove run call ◌>>=◌ ◌>>◌ pure raise
manager_apply-apply_site_example =
    manager_apply-apply_site enable shop "" (host_with []) (host_with []) refl refl refl

-- readSnapshot takes a failed read for a missing file: the restore then deletes the file that was there
lost_file : (apply_site upsert shop "new" (host_with (0 ∷ 4 ∷ []))).1.files available shop ≡ none
unfolding apply_site valid_managed_domain has_prefix contains_any contains_byte split text_eq
    upsert_site write_both check_both read_snapshot restore_snapshot or_undo write remove run call
    ◌>>=◌ ◌>>◌ pure raise
lost_file = refl

-- a copy that stops half way leaves the enabled file truncated, and nothing puts it back
abbrev half_copied : Host
half_copied = record (host_with (2 ∷ [])) { cut = some "o" }

torn_file : (apply_site enable shop "" half_copied).1.files enabled shop ≡ some "o"
unfolding apply_site valid_managed_domain has_prefix contains_any contains_byte split text_eq
    enable_site copy_file check_both read_snapshot restore_snapshot or_undo write remove run call
    ◌>>=◌ ◌>>◌ pure raise
torn_file = refl
