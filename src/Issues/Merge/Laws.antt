-- ===== src/Issues/Merge/Laws.antt =====
-- internal/issues/merge.go: what merge decides, and that it drops nobody's change.
use forge_sync.Prelude.{
  inl, ◌⊎◌, ◌≡◌, ◌≢◌, ◌↔◌, refl, ◌∙◌, Bool, true, false, not, ◌&&◌, ◌||◌, List, [], ◌∷◌, Str,
  str_eq, str_eq_iff, str_eq_refl, contains, distinct, arith, some, if◌then◌else◌,
}
use forge_sync.Prelude.Map
use forge_sync.Prelude.Map.{Map, contains-keys, contains-keys-insert, distinct-keys-insert}
use forge_sync.Prelude.Sort.{contains-sort}
use forge_sync.Issues.Merge.{mark_changed, nodes_other, merge_changed, merge}

-- Some node has the value, and it is not the base's.
unfoldable pub is_new : Str → Str → Map Str → Bool
is_new base v [] = false
is_new base v ((node, w) ∷ vals) = (str_eq w v && not (str_eq v base)) || is_new base v vals

contains-mark_changed :
    (v base : Str) (vals : Map Str) (changed : Map Bool)
    → contains v (Map.keys (mark_changed vals base changed))
      ≡ (is_new base v vals || contains v (Map.keys changed))
unfolding mark_changed is_new
contains-mark_changed v base [] changed = refl
contains-mark_changed v base ((node, w) ∷ vals) changed = ground (
  arith,
  contains-mark_changed v base vals (if str_eq w base then changed else Map.insert w true changed),
  contains-keys-insert w v true changed,
  str_eq_iff w v,
)

distinct-mark_changed :
    (base : Str) (vals : Map Str) (changed : Map Bool)
    → distinct (Map.keys changed) ≡ true
    → distinct (Map.keys (mark_changed vals base changed)) ≡ true
unfolding mark_changed
distinct-mark_changed base [] changed d = d
distinct-mark_changed base ((node, w) ∷ vals) changed d =
    distinct-mark_changed base vals (if str_eq w base then changed else Map.insert w true changed)
      (ground (arith, distinct-keys-insert w true changed d))

-- The values that `changed` holds are the new ones.
pub changed_is_new :
    (v base : Str) (vals : Map Str)
    → contains v (Map.keys (mark_changed vals base [])) ≡ is_new base v vals
changed_is_new v base vals =
    contains-mark_changed v base vals [] ∙ unfold contains Map.keys in ground arith

is_new_at :
    (base n v : Str) (vals : Map Str)
    → Map.lookup n vals ≡ some v
    → str_eq v base ≡ false
    → is_new base v vals ≡ true
unfolding is_new Map.lookup
is_new_at base n v [] h d = cc
is_new_at base n v ((node, w) ∷ vals) h d = ground (arith, is_new_at base n v vals, str_eq_refl v)

contains-nodes_other_known :
    (value n : Str) (vals : Map Str)
    → contains n (nodes_other value vals) ≡ true
    → contains n (Map.keys vals) ≡ true
unfolding nodes_other contains Map.keys
contains-nodes_other_known value n [] h = h
contains-nodes_other_known value n ((node, w) ∷ vals) h =
    ground (arith, contains-nodes_other_known value n vals)

contains-nodes_other :
    (value n x : Str) (vals : Map Str)
    → distinct (Map.keys vals) ≡ true
    → Map.lookup n vals ≡ some x
    → contains n (nodes_other value vals) ≡ not (str_eq x value)
unfolding nodes_other contains Map.keys Map.lookup distinct
contains-nodes_other value n x [] d h = cc
contains-nodes_other value n x ((node, w) ∷ vals) d h = ground (
  arith,
  contains-nodes_other value n x vals,
  contains-nodes_other_known value n vals,
  str_eq_iff node n,
)

-- `changed` lists the new values, each once.
abbrev Lists : Map Str → Str → List Str → Type 0
Lists vals base changed = (v : Str) → contains v changed ≡ is_new base v vals

module _ (vals : Map Str) (base n x : Str) (copy : Map.lookup n vals ≡ some x) where
  merge_changed-keeps :
      (changed : List Str)
      → Lists vals base changed
      → (merge_changed vals base changed).conflict ≡ false
      → (x ≡ base) ⊎ (x ≡ (merge_changed vals base changed).value)
  unfolding merge_changed contains
  merge_changed-keeps [] new c =
      ground (arith, new x, is_new_at base n x vals copy, str_eq_iff x base)
  merge_changed-keeps (v ∷ []) new c =
      ground (arith, new x, is_new_at base n x vals copy, str_eq_iff x base, str_eq_iff v x)
  merge_changed-keeps (v ∷ w ∷ r) new c = cc

  merge_changed-writes :
      (changed : List Str)
      → Lists vals base changed
      → distinct (Map.keys vals) ≡ true
      → (merge_changed vals base changed).conflict ≡ false
      → contains n (merge_changed vals base changed).writes
        ≡ not (str_eq x (merge_changed vals base changed).value)
  unfolding merge_changed contains
  merge_changed-writes [] new d c =
      ground (arith, new x, is_new_at base n x vals copy, str_eq_iff x base)
  merge_changed-writes (v ∷ []) new d c =
      contains-sort n (nodes_other v vals) ∙ contains-nodes_other v n x vals d copy
  merge_changed-writes (v ∷ w ∷ r) new d c = cc

  -- Where merge reports no conflict, each node's value is the base's or is the merged value.
  pub merge-keeps : (merge vals base).conflict ≡ false → (x ≡ base) ⊎ (x ≡ (merge vals base).value)
  unfolding merge
  merge-keeps =
      merge_changed-keeps (Map.keys (mark_changed vals base [])) (λ v. changed_is_new v base vals)

  -- Where merge reports no conflict and no node is named twice, it writes to a node exactly if that
  -- node's value is not the merged one.
  pub merge-writes :
      distinct (Map.keys vals) ≡ true
      → (merge vals base).conflict ≡ false
      → contains n (merge vals base).writes ≡ not (str_eq x (merge vals base).value)
  unfolding merge
  merge-writes d =
      merge_changed-writes (Map.keys (mark_changed vals base [])) (λ v. changed_is_new v base vals)
        d

merge_changed-value :
    (vals : Map Str) (base : Str) (changed : List Str)
    → Lists vals base changed
    → (merge_changed vals base changed).conflict ≡ false
    → ((merge_changed vals base changed).value ≡ base)
      ⊎ (is_new base (merge_changed vals base changed).value vals ≡ true)
unfolding merge_changed contains
merge_changed-value vals base [] new c = inl refl
merge_changed-value vals base (v ∷ []) new c = ground (arith, new v, str_eq_refl v)
merge_changed-value vals base (v ∷ w ∷ r) new c = cc

-- Where merge reports no conflict, the merged value is the base's, or is some node's value and not
-- the base's.
pub merge-value :
    (vals : Map Str) (base : Str)
    → (merge vals base).conflict ≡ false
    → ((merge vals base).value ≡ base) ⊎ (is_new base (merge vals base).value vals ≡ true)
unfolding merge
merge-value vals base =
    merge_changed-value vals base (Map.keys (mark_changed vals base []))
      (λ v. changed_is_new v base vals)

merge_changed-conflict :
    (vals : Map Str) (base : Str) (changed : List Str)
    → Lists vals base changed
    → distinct changed ≡ true
    → ((merge_changed vals base changed).conflict ≡ true) ↔ (
        (v : Str) × (w : Str) × (v ≢ w) × (is_new base v vals ≡ true) × (is_new base w vals ≡ true))
unfolding merge_changed contains distinct
merge_changed-conflict vals base [] new d = (λ c. cc, λ (v, w, ne, a, b). ground (arith, new v))
merge_changed-conflict vals base (u ∷ []) new d =
    (λ c. cc, λ (v, w, ne, a, b). ground (arith, new v, new w, str_eq_iff u v, str_eq_iff u w))
merge_changed-conflict vals base (u ∷ t ∷ r) new d = (
  λ c. (
    u,
    t,
    (λ e. ground (arith, str_eq_iff t u)),
    ground (arith, new u, str_eq_refl u),
    ground (arith, new t, str_eq_refl t),
  ),
  λ h. refl,
)

-- merge reports a conflict exactly when two different values, neither of them the base's, are each
-- some node's value.
pub merge-conflict :
    (vals : Map Str) (base : Str)
    → ((merge vals base).conflict ≡ true) ↔ (
        (v : Str) × (w : Str) × (v ≢ w) × (is_new base v vals ≡ true) × (is_new base w vals ≡ true))
unfolding merge
merge-conflict vals base =
    merge_changed-conflict vals base (Map.keys (mark_changed vals base []))
      (λ v. changed_is_new v base vals)
      (distinct-mark_changed base vals [] (unfold Map.keys distinct in refl))
