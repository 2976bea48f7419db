-- ===== src/Inventory/Tests.antt =====
-- Runs of internal/inventory/compare.go on two nodes, and its theorems at them.
use forge_sync.Prelude.{
  is_some, false, if◌then◌else◌, true, contains, ◌≡◌, refl, List, [], ◌∷◌, Str, bytes, some, none,
}
use forge_sync.Prelude.Map
use forge_sync.Prelude.Map.{Map}
use forge_sync.Records.{Replica, RepositoryRecord, NodeScan}
use forge_sync.Inventory.Laws.{
  compare_nodes-status, gone_somewhere, unseen_somewhere, present_copies,
}
use forge_sync.Inventory.{
  compare_heads, unknown, deleted, head_unread, is_some, false, true, compare_nodes, same, missing,
}

abbrev copy_at : Str → Str → Replica
copy_at node sha = record {
  node = node;
  present = true;
  mirror = false;
  empty = false;
  default_branch = bytes "main";
  head_sha = sha;
  head_error = [];
  forgejo_created = some 1;
  full_name = bytes "ada/demo";
  last_seen_at = some 5;
}

abbrev on_both : RepositoryRecord
on_both = record {
  id = bytes "r1";
  full_name = bytes "ada/demo";
  primary_node = bytes "se";
  first_seen_at = 1;
  deleted_at = none;
  replicas = copy_at (bytes "se") (bytes "c1") ∷ copy_at (bytes "dk") (bytes "c1") ∷ [];
}

abbrev both : List Str
both = bytes "se" ∷ bytes "dk" ∷ []

abbrev with_de : List Str
with_de = bytes "se" ∷ bytes "de" ∷ []

abbrev de_scanned : Map NodeScan
de_scanned = (bytes "de", record { node = bytes "de"; ok = true; last_success_at = some 3 }) ∷ []

same_run : (compare_nodes on_both both []).0 ≡ same
unfolding compare_nodes forge_sync.Inventory.status_of forge_sync.Inventory.see_each
    forge_sync.Inventory.see Map.lookup forge_sync.Inventory.by_node Map.insert
    forge_sync.Prelude.str_eq forge_sync.Inventory.compare_heads
    forge_sync.Inventory.any_head_unread head_unread forge_sync.Inventory.all_same_head
    forge_sync.Inventory.same_head forge_sync.Inventory.same_bool
same_run = refl

se_listed : contains (bytes "se") both ≡ true
unfolding contains forge_sync.Prelude.str_eq
se_listed = refl

dk_listed : contains (bytes "dk") both ≡ true
unfolding contains forge_sync.Prelude.str_eq
dk_listed = refl

missing_run : (compare_nodes on_both with_de de_scanned).0 ≡ missing
unfolding compare_nodes forge_sync.Inventory.status_of forge_sync.Inventory.see_each
    forge_sync.Inventory.see Map.lookup forge_sync.Inventory.by_node Map.insert
    forge_sync.Prelude.str_eq forge_sync.Inventory.success_since
missing_run = refl

compare_nodes-status_example : (compare_nodes on_both with_de de_scanned).0 ≡ (
    if is_some on_both.deleted_at
    then deleted
    else if gone_somewhere on_both with_de de_scanned
    then missing
    else if unseen_somewhere on_both with_de de_scanned
    then unknown
    else compare_heads (present_copies on_both with_de de_scanned))
compare_nodes-status_example = compare_nodes-status on_both with_de de_scanned
