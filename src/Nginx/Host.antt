-- ===== src/Nginx/Host.antt =====
-- The host as an Agent shows it: the two configuration files of each domain, and directories with what
-- they hold. A call of the Agent may fail. It changes nothing then (a write is a rename of a whole file),
-- but for a FileCopy, which truncates its destination and copies in place: `cut` is what a failing copy
-- leaves there, or none where it fails before it has opened the destination.
-- `faults` has for each failing call the number of calls that go well before it.
use opendeploy.Common.{
  ℕ, zero, suc, Bool, true, false, Option, none, some, List, [], ◌∷◌, String, ok, err,
  if◌then◌else◌,
}
use opendeploy.Common.Text.{Text, text_eq}
use opendeploy.Common.Action.{Action}

-- /etc/nginx/sites-available and /etc/nginx/sites-enabled; the file of a domain is opendeploy-<domain>.conf
pub data Folder : Type 0 where
  available enabled : Folder

pub data HostError : Type 0 where
  unreachable no_file invalid_domain no_content unsupported : HostError

abbrev pub Files : Type 0
Files = Folder → Text → Option String

pub record Host : Type 0 where
  pub files : Files
  pub directories : Text → Option String
  pub faults : List ℕ
  pub cut : Option String

abbrev pub M : Type 0 → Type 0
M A = Action HostError Host A

abbrev pub same_folder : Folder → Folder → Bool
same_folder available available = true
same_folder enabled enabled = true
same_folder f g = false

abbrev pub put : Files → Folder → Text → Option String → Files
put fs f d c g e = if same_folder f g then (if text_eq d e then c else fs g e) else fs g e

-- whether the next call fails, and the faults after it
abbrev pub fails : List ℕ → Bool
fails [] = false
fails (zero ∷ fs) = true
fails (suc n ∷ fs) = false

abbrev pub after_call : List ℕ → List ℕ
after_call [] = []
after_call (zero ∷ fs) = fs
after_call (suc n ∷ fs) = n ∷ fs

-- one call that changes the host by `f`
unfoldable pub call : (Host → Host) → M (Unit {0})
call f h =
    let t = record h { faults = after_call h.faults } in
    if fails h.faults then (err unreachable, t) else (ok tt, f t)

-- FileWrite, FileDelete
unfoldable pub write : Folder → Text → String → M (Unit {0})
unfolding call
write f d c = call (λ h. record h { files = put h.files f d (some c) })

unfoldable pub remove : Folder → Text → M (Unit {0})
unfolding call
remove f d = call (λ h. record h { files = put h.files f d none })

-- a command or a reload that may fail: `nginx -t`, ServiceReload
unfoldable pub run : M (Unit {0})
unfolding call
run = call (λ h. h)

-- readSnapshot: an error of any kind counts as no file
abbrev pub Snapshot : Type 0
Snapshot = Option String

unfoldable pub read_snapshot : Folder → Text → M Snapshot
read_snapshot f d h =
    (ok (if fails h.faults then none else h.files f d), record h { faults = after_call h.faults })

-- restoreSnapshot, which drops the error
unfoldable pub restore_snapshot : Folder → Text → Snapshot → M (Unit {0})
unfolding write remove
restore_snapshot f d (some c) h = (ok tt, (write f d c h).1)
restore_snapshot f d none h = (ok tt, (remove f d h).1)
