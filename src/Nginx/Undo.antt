-- ===== src/Nginx/Undo.antt =====
-- What a change of a site's configuration leaves behind, as ApplySite of sites.go makes it.
use opendeploy.Common.{ℕ, false, Option, none, some, [], ◌∷◌, String, Result, ok, err, ◌≡◌, refl}
use opendeploy.Common.Text.{Text, text_eq}
use opendeploy.Nginx.Host.{
  Folder, Files, Host, HostError, put, call, write, remove, Snapshot, restore_snapshot,
}

module _ (h : Host) (d : Text) where
  -- the files of the other domains are those of `h`
  Elsewhere : Files → Type 0
  Elsewhere fs = (f : Folder) (g : Text) → text_eq d g ≡ false → fs f g ≡ h.files f g

  restore_one :
      (f : Folder) (c : Snapshot) (fs : Files) (dirs : Text → Option String)
      → (restore_snapshot f d c
          (record { files = fs; directories = dirs; faults = []; cut = none })).1
        ≡ record { files = put fs f d c; directories = dirs; faults = []; cut = none }
  unfolding restore_snapshot write remove call
  restore_one f none fs dirs = refl
  restore_one f (some c) fs dirs = refl

Kept : Host → Result HostError (Unit {0}) × Host → Type 0
Kept h (ok a, t) = Unit {0}
Kept h (err e, t) = (f : Folder) (g : Text) → t.files f g ≡ h.files f g

with_fault : Host → ℕ → Host
with_fault h n = record h { faults = n ∷ []; cut = none }
