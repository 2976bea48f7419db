-- ===== src/Issues/Items/Safety.antt =====
-- internal/issues/items.go: which copies item deletes.
use forge_sync.Prelude.{false, not, str_eq, or_default, ℕ, ◌≡◌, ◌⊎◌, true, none, some, is_some}
use forge_sync.Prelude.Effects.{tell, ◌>>◌, Effect, give}
use forge_sync.Prelude.Map
use forge_sync.Prelude.Map.{Map}
use forge_sync.Issues.Items.{
  false, not, tell, Effect, give, str_eq, or_default, same_fields, Event, edited, created, deleted,
  item_saved, record_deleted, field_conflict, deletion_conflict, vanished, kept, snapshot_put,
  incomplete, Answers, Run, RepoItem, ItemKind, Look, Fields,
}

-- The item was marked as deleted, or the primary's copy is not there any more.
abbrev pub GoneOnPrimary : Run → RepoItem → Type 0
GoneOnPrimary r it =
    (is_some it.deleted_at ≡ true)
    ⊎ ((fid : ℕ) × (Map.lookup r.primary it.copies ≡ some fid) × (r.snapshot r.primary fid ≡ none))

-- A deletion is of a copy that has the base's fields still, of an item that is gone on the primary.
abbrev pub Allowed : Run → ItemKind → RepoItem → Event → Type 0
Allowed r k it (deleted n fid) =
    GoneOnPrimary r it
    × ((f : Fields) × (r.snapshot n fid ≡ some f) × (same_fields f it.base k.fields ≡ true))
Allowed r k it (edited n fid field v) = Unit
Allowed r k it (created n f) = Unit
Allowed r k it (item_saved x) = Unit
Allowed r k it (record_deleted x) = Unit
Allowed r k it (field_conflict x) = Unit
Allowed r k it (deletion_conflict x) = Unit
Allowed r k it (vanished n) = Unit
Allowed r k it (kept n) = Unit
Allowed r k it (snapshot_put n fid f) = Unit
Allowed r k it incomplete = Unit

module _ (answers : Answers) (r : Run) (k : ItemKind) (it : RepoItem) where
  -- The primary's copy is as it was, and where the item is said to be deleted it is gone there.
  abbrev Sound : Look → Type 0
  Sound l =
      (Map.lookup r.primary l.copies ≡ Map.lookup r.primary it.copies)
      × (l.is_deleted ≡ true → GoneOnPrimary r it)
