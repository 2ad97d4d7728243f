-- ===== src/Update/History.antt =====
-- findHistory of engine.go: the transaction that a rollback returns from. The history is given in the
-- order of the file, the oldest entry first.
use opendeploy.Common.{
  ◌∙◌, ◌≡◌, refl, ◌⊎◌, Bool, ◌&&◌, ◌||◌, Option, none, some, List, [], ◌∷◌, ◌++◌, String, str_eq,
  str_eq_iff, arith, if◌then◌else◌,
}

pub record HistoryEntry : Type 0 where
  pub id : String
  pub from_version : String
  pub to_version : String
  pub commit : String
  pub status : String
  pub backup_dir : String

-- the test of the loop
abbrev pub is_wanted : String → HistoryEntry → Bool
is_wanted id e = (str_eq id "" && str_eq e.status "succeeded") || str_eq e.id id

abbrev pub or_else : Option HistoryEntry → Option HistoryEntry → Option HistoryEntry
or_else (some e) o = some e
or_else none o = o

-- the loop from the last index down: what stands behind an entry is looked at first
unfoldable pub find_history : String → List HistoryEntry → Option HistoryEntry
find_history id [] = none
find_history id (e ∷ rest) =
    or_else (find_history id rest) (if is_wanted id e then some e else none)

-- The entries that were appended later come first, and only if none of them is wanted do the earlier
-- ones count.
pub find_history-append :
    (id : String) (earlier later : List HistoryEntry)
    → find_history id (earlier ++ later) ≡ or_else (find_history id later) (find_history id earlier)
unfolding find_history
find_history-append id [] later = none_behind (find_history id later)
  where
    none_behind : (o : Option HistoryEntry) → o ≡ or_else o none
    none_behind none = refl
    none_behind (some e) = refl
find_history-append id (e ∷ earlier) later = ground (arith, find_history-append id earlier later)

-- With no id given, the chosen entry has succeeded, or has no id itself.
pub find_history_default :
    (entries : List HistoryEntry) {e : HistoryEntry}
    → find_history "" entries ≡ some e
    → (e.status ≡ "succeeded") ⊎ (e.id ≡ "")
unfolding find_history
find_history_default [] h = cc
find_history_default (x ∷ entries) {e} h =
    go (find_history "" entries) refl (find_history_default entries {e = e}) h
  where
    go :
        (o : Option HistoryEntry)
        → find_history "" entries ≡ o
        → (find_history "" entries ≡ some e → (e.status ≡ "succeeded") ⊎ (e.id ≡ ""))
        → or_else o (if is_wanted "" x then some x else none) ≡ some e
        → (e.status ≡ "succeeded") ⊎ (e.id ≡ "")
    go (some y) p ih q = ih (p ∙ q)
    go none p ih q = ground (arith, str_eq_iff x.status "succeeded", str_eq_iff x.id "")
