-- ===== src/Issues/Items/Tests.antt =====
-- Runs of internal/issues/items.go, and its theorems at them.
use forge_sync.Issues.Merge.{merge}
use forge_sync.Prelude.Map.{Map}
use forge_sync.Prelude.{
  str_eq_iff, ◌≢◌, str_eq, if◌then◌else◌, ℕ, ◌≡◌, refl, true, false, [], ◌∷◌, bytes, none, some,
}
use forge_sync.Prelude.Effects.{given}
use forge_sync.Issues.Items.{
  deleted, record_deleted, first_time, same_fields, look_at, look_mapped, look_each, edited,
  delete_answered, incomplete, delete_copy, edit_answered, delete_mapped, edit_one, delete_each,
  merge, edit_each, deleted_saved, failed, values_of, merge_field_by, item_deleted, str_eq,
  field_of, merge_field, Map, label_kind, item_seen, item, Answers, Run, RepoItem, Merging, Fields,
}
use forge_sync.Issues.Items.Undone.{reverted, after_writes, some_failed, merge_field-undone}

abbrev red : Fields
red = (bytes "name", bytes "bug") ∷ (bytes "color", bytes "red") ∷ []

abbrev blue : Fields
blue = (bytes "name", bytes "bug") ∷ (bytes "color", bytes "blue") ∷ []

-- Everything succeeds but a write on dk.
abbrev answering : Answers
answering = record {
  edit = λ n fid field v h. if str_eq n (bytes "dk") then failed (bytes "down") else given tt;
  create = λ n f h. given 9;
  delete = λ n fid h. given tt;
  save_item = λ it h. given (bytes "i1");
  delete_record = λ i h. given tt;
}

-- The label is gone on the primary and as it was on dk.
abbrev gone_run : Run
gone_run = record {
  nodes = bytes "se" ∷ bytes "dk" ∷ [];
  primary = bytes "se";
  now = 5;
  snapshot = λ n fid. if str_eq n (bytes "dk") then some red else none;
}

abbrev label : RepoItem
label = record {
  id = bytes "i1";
  base = red;
  copies = (bytes "se", 1) ∷ (bytes "dk", 2) ∷ [];
  deleted_at = none;
}

deleted_run :
    (item answering gone_run label_kind label []).1
    ≡ record_deleted (bytes "i1") ∷ deleted (bytes "dk") 2 ∷ []
unfolding item item_seen item_deleted deleted_saved delete_each delete_mapped delete_copy
    delete_answered look_each look_mapped look_at same_fields field_of first_time
    forge_sync.Prelude.Map.lookup str_eq forge_sync.Prelude.Map.delete
deleted_run = refl

abbrev blue_on_primary : Map Fields
blue_on_primary = (bytes "se", blue) ∷ (bytes "dk", red) ∷ []

abbrev from_red : Merging
from_red = record { want = []; base = red }

abbrev label_copies : Map ℕ
label_copies = (bytes "se", 1) ∷ (bytes "dk", 2) ∷ []

-- The colour changed on the primary; the write on dk fails, and the base is blue all the same.
failed_write :
    merge_field answering gone_run blue_on_primary label_copies (bytes "color") from_red [] ≡ (
      given (record { want = (bytes "color", bytes "blue") ∷ []; base = blue }),
      incomplete ∷ edited (bytes "dk") 2 (bytes "color") (bytes "blue") ∷ [],
    )
unfolding merge_field merge_field_by edit_each edit_one edit_answered values_of field_of merge
    forge_sync.Issues.Merge.merge_changed forge_sync.Prelude.Map.keys
    forge_sync.Issues.Merge.mark_changed str_eq forge_sync.Prelude.Map.lookup
    forge_sync.Prelude.Map.insert forge_sync.Prelude.Sort.sort forge_sync.Issues.Merge.nodes_other
failed_write = refl

merged-new :
    (merge (values_of (bytes "color") blue_on_primary) (field_of (bytes "color") red)).value
    ≢ bytes "red"
unfolding values_of merge field_of forge_sync.Issues.Merge.merge_changed forge_sync.Prelude.Map.keys
    forge_sync.Issues.Merge.mark_changed str_eq forge_sync.Prelude.Map.lookup
    forge_sync.Prelude.Map.insert
merged-new e =
    let same : str_eq (bytes "blue") (bytes "red") ≡ true =
      (str_eq_iff (bytes "blue") (bytes "red")).1 e in
    cc

merge_field-undone_example :
    merge
      (after_writes (bytes "blue") (bytes "dk" ∷ []) (values_of (bytes "color") blue_on_primary))
      (bytes "blue")
    ≡ reverted
        (bytes "red")
        (after_writes (bytes "blue") (bytes "dk" ∷ []) (values_of (bytes "color") blue_on_primary))
unfolding field_of values_of merge some_failed forge_sync.Issues.Merge.merge_changed
    forge_sync.Prelude.Map.keys forge_sync.Issues.Merge.mark_changed str_eq
    forge_sync.Prelude.Map.lookup forge_sync.Prelude.Map.insert forge_sync.Prelude.contains
merge_field-undone_example =
    merge_field-undone answering gone_run (bytes "color") blue_on_primary label_copies from_red
      (record { want = (bytes "color", bytes "blue") ∷ []; base = blue }) []
      (incomplete ∷ edited (bytes "dk") 2 (bytes "color") (bytes "blue") ∷ []) (bytes "dk" ∷ [])
      refl merged-new refl failed_write
