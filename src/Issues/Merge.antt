-- ===== src/Issues/Merge.antt =====
-- internal/issues/merge.go: one field across the nodes that have a copy.
pub mod Laws
mod Tests
use forge_sync.Prelude.{Bool, true, false, List, [], ◌∷◌, Str, str_eq, if◌then◌else◌}
use forge_sync.Prelude.Map
use forge_sync.Prelude.Map.{Map}
use forge_sync.Prelude.Sort.{sort}

pub record Merged : Type 0 where
  pub value : Str
  pub writes : List Str
  pub conflict : Bool

-- The first loop: the values that differ from the base, as the keys of `changed`.
unfoldable pub mark_changed : Map Str → Str → Map Bool → Map Bool
mark_changed [] base changed = changed
mark_changed ((node, v) ∷ vals) base changed =
    mark_changed vals base (if str_eq v base then changed else Map.insert v true changed)

-- The nodes whose value is another.
unfoldable pub nodes_other : Str → Map Str → List Str
nodes_other value [] = []
nodes_other value ((node, v) ∷ vals) =
    let rest = nodes_other value vals in if str_eq v value then rest else node ∷ rest

-- The switch on the number of changed values.
unfoldable pub merge_changed : Map Str → Str → List Str → Merged
merge_changed vals base [] = record { value = base; writes = []; conflict = false }
merge_changed vals base (v ∷ []) = record {
  value = v;
  writes = sort (nodes_other v vals);
  conflict = false;
}
merge_changed vals base (v ∷ w ∷ r) = record { value = []; writes = []; conflict = true }

unfoldable pub merge : Map Str → Str → Merged
merge vals base = merge_changed vals base (Map.keys (mark_changed vals base []))
