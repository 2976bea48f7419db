-- ===== src/Issues/Merge/Tests.antt =====
-- Runs of internal/issues/merge.go on a title on three nodes, and its theorems at them.
use forge_sync.Issues.Merge.Laws.{merge-conflict, merge-writes, is_new, merge-keeps}
use forge_sync.Prelude.{
  str_eq, ◌≢◌, ◌↔◌, not, ap, true, false, contains, ◌⊎◌, distinct, some, ◌≡◌, refl, List, [], ◌∷◌,
  Str, bytes,
}
use forge_sync.Prelude.Map
use forge_sync.Prelude.Map.{Map}
use forge_sync.Issues.Merge.{str_eq, true, false, merge}

-- One node has a new title.
abbrev one_new : Map Str
one_new = (bytes "se", bytes "old") ∷ (bytes "dk", bytes "new") ∷ (bytes "de", bytes "old") ∷ []

abbrev two_new : Map Str
two_new = (bytes "se", bytes "left") ∷ (bytes "dk", bytes "right") ∷ []

one_new_run :
    merge one_new (bytes "old")
    ≡ record { value = bytes "new"; writes = bytes "de" ∷ bytes "se" ∷ []; conflict = false }
unfolding merge forge_sync.Issues.Merge.merge_changed Map.keys forge_sync.Issues.Merge.mark_changed
    forge_sync.Prelude.str_eq Map.insert forge_sync.Prelude.Sort.sort
    forge_sync.Issues.Merge.nodes_other
one_new_run = refl

one_new_merges : (merge one_new (bytes "old")).conflict ≡ false
one_new_merges = ap (λ m. m.conflict) one_new_run

two_new_run : (merge two_new (bytes "old")).conflict ≡ true
unfolding merge forge_sync.Issues.Merge.merge_changed Map.keys forge_sync.Issues.Merge.mark_changed
    forge_sync.Prelude.str_eq Map.insert
two_new_run = refl

one_new_se : Map.lookup (bytes "se") one_new ≡ some (bytes "old")
unfolding Map.lookup forge_sync.Prelude.str_eq
one_new_se = refl

one_new-distinct : distinct (Map.keys one_new) ≡ true
unfolding distinct Map.keys contains forge_sync.Prelude.str_eq
one_new-distinct = refl

merge-keeps_example :
    (bytes "old" ≡ bytes "old") ⊎ (bytes "old" ≡ (merge one_new (bytes "old")).value)
merge-keeps_example =
    merge-keeps one_new (bytes "old") (bytes "se") (bytes "old") one_new_se one_new_merges

merge-writes_example :
    contains (bytes "se") (merge one_new (bytes "old")).writes
    ≡ not (str_eq (bytes "old") (merge one_new (bytes "old")).value)
merge-writes_example =
    merge-writes one_new (bytes "old") (bytes "se") (bytes "old") one_new_se one_new-distinct
      one_new_merges

merge-conflict_example : ((merge two_new (bytes "old")).conflict ≡ true) ↔ (
    (v : Str) × (w : Str) × (v ≢ w)
    × (is_new (bytes "old") v two_new ≡ true)
    × (is_new (bytes "old") w two_new ≡ true))
merge-conflict_example = merge-conflict two_new (bytes "old")
