-- ===== src/Issues/Items/Undone.antt =====
-- internal/issues: the base of a field after a write that failed.
use forge_sync.Prelude.{
  ℕ, ◌≡◌, ◌≢◌, refl, arith, ◌||◌, ◌&&◌, if◌then◌else◌, Bool, true, false, List, [], ◌∷◌, Str,
  str_eq, str_eq_iff, str_eq_refl, contains,
}
use forge_sync.Prelude.Effects.{given, Returns, Returns-give, Returns->>}
use forge_sync.Prelude.Map
use forge_sync.Prelude.Map.{lookup-insert_self, Map}
use forge_sync.Prelude.Sort.{sort}
use forge_sync.Issues.Merge.{merge, Merged, mark_changed, nodes_other, merge_changed}
use forge_sync.Issues.Merge.Laws.{is_new, changed_is_new}
use forge_sync.Issues.Items.{
  Answers, Run, Merging, merge_field, merge_field_by, field_of, Fields, values_of, History,
}

field_of-insert : (k v : Str) (f : Fields) → field_of k (Map.insert k v f) ≡ v
unfolding field_of
field_of-insert k v f = rw (lookup-insert_self k v f) refl

-- The values after a run that wrote `v` everywhere but on the nodes whose write failed.
unfoldable pub after_writes : Str → List Str → Map Str → Map Str
after_writes v failing [] = []
after_writes v failing ((n, x) ∷ vals) =
    (n, if contains n failing then x else v) ∷ after_writes v failing vals

-- Some node whose write failed has the old value.
unfoldable pub some_failed : Str → List Str → Map Str → Bool
some_failed old failing [] = false
some_failed old failing ((n, x) ∷ vals) =
    (contains n failing && str_eq x old) || some_failed old failing vals

unfoldable pub old_or_new : Str → Str → Map Str → Bool
old_or_new old v [] = true
old_or_new old v ((n, x) ∷ vals) = (str_eq x old || str_eq v x) && old_or_new old v vals

all_old_or_new :
    (old v : Str) (vals : Map Str)
    → ((w : Str) → is_new old w vals ≡ true → str_eq v w ≡ true)
    → old_or_new old v vals ≡ true
unfolding old_or_new is_new
all_old_or_new old v [] h = refl
all_old_or_new old v ((n, x) ∷ vals) h =
    ground (arith, h x, str_eq_refl x, all_old_or_new old v vals (λ w k. h w (ground arith)))

merge_changed-one :
    (vals : Map Str) (old : Str) (changed : List Str)
    → ((w : Str) → contains w changed ≡ is_new old w vals)
    → (merge_changed vals old changed).conflict ≡ false
    → (merge_changed vals old changed).value ≢ old
    → (w : Str) → is_new old w vals ≡ true
    → str_eq (merge_changed vals old changed).value w ≡ true
unfolding merge_changed contains
merge_changed-one vals old [] l c d w h = absurd (d refl)
merge_changed-one vals old (v ∷ []) l c d w h = ground (arith, l w)
merge_changed-one vals old (v ∷ x ∷ r) l c d w h = cc

merge-old_or_new :
    (vals : Map Str) (old : Str)
    → (merge vals old).conflict ≡ false
    → (merge vals old).value ≢ old
    → old_or_new old (merge vals old).value vals ≡ true
unfolding merge
merge-old_or_new vals old c d = all_old_or_new old ((merge vals old).value) vals (
    merge_changed-one vals old (Map.keys (mark_changed vals old []))
      (λ w. changed_is_new w old vals) c d)

-- The changed values found so far: the old one, or none.
abbrev found_old : Str → Bool → Map Bool
found_old old true = (old, true) ∷ []
found_old old false = []

-- Only the old value counts as changed in the next run.
mark_changed-found_old :
    (old v : Str) (failing : List Str) (vals : Map Str) (b : Bool)
    → str_eq old v ≡ false
    → old_or_new old v vals ≡ true
    → mark_changed (after_writes v failing vals) v (found_old old b)
      ≡ found_old old (b || some_failed old failing vals)
unfolding mark_changed after_writes some_failed old_or_new Map.insert
mark_changed-found_old old v failing [] true d o = refl
mark_changed-found_old old v failing [] false d o = refl
mark_changed-found_old old v failing ((n, x) ∷ vals) true d o = ground (
  arith,
  mark_changed-found_old old v failing vals true,
  str_eq_iff x old,
  str_eq_iff v x,
  str_eq_iff x v,
  str_eq_iff old v,
  str_eq_iff old x,
  str_eq_refl v,
)
mark_changed-found_old old v failing ((n, x) ∷ vals) false d o = ground (
  arith,
  mark_changed-found_old old v failing vals true,
  mark_changed-found_old old v failing vals false,
  str_eq_iff x old,
  str_eq_iff v x,
  str_eq_iff x v,
  str_eq_iff old v,
  str_eq_refl v,
)

-- What the next run's merge says: the old value, for all that have another.
abbrev pub reverted : Str → Map Str → Merged
reverted old vals = record { value = old; writes = sort (nodes_other old vals); conflict = false }

merge_changed-reverted :
    (vals : Map Str) (base old : Str) (b : Bool)
    → b ≡ true
    → merge_changed vals base (Map.keys (found_old old b)) ≡ reverted old vals
unfolding merge_changed Map.keys
merge_changed-reverted vals base old true e = refl
merge_changed-reverted vals base old false e = cc

merge-reverted :
    (vals : Map Str) (old v : Str) (failing : List Str)
    → str_eq old v ≡ false
    → old_or_new old v vals ≡ true
    → some_failed old failing vals ≡ true
    → merge (after_writes v failing vals) v ≡ reverted old (after_writes v failing vals)
unfolding merge
merge-reverted vals old v failing d o f = rw (mark_changed-found_old old v failing vals false d o) (
    merge_changed-reverted (after_writes v failing vals) v old
      (false || some_failed old failing vals) f)

module _ (answers : Answers) (r : Run) (field : Str) (present : Map Fields) (copies : Map ℕ) where
  -- The base has the value, whatever came of the writes.
  abbrev BaseMoved : Str → Merging → Type 0
  BaseMoved v m = field_of field m.base ≡ v

  merge_field_by-BaseMoved :
      (d : Merged) (m : Merging)
      → d.conflict ≡ false
      → Returns (BaseMoved d.value) (merge_field_by answers r field present copies d m)
  unfolding merge_field_by
  merge_field_by-BaseMoved d m c =
      rw c (search (Returns->>, Returns-give, field_of-insert field d.value m.base))

  -- If a field of a label or milestone has one changed value, and some of the writes of it fail on
  -- nodes that have the old value, then after that turn of item's loop the base is the new value
  -- all the same, and the next merge of the field, where the other writes took, gives the old value
  -- and writes it to all nodes that have another.
  pub merge_field-undone :
      (m m2 : Merging) (h h2 : History) (failing : List Str)
      → (merge (values_of field present) (field_of field m.base)).conflict ≡ false
      → (merge (values_of field present) (field_of field m.base)).value ≢ field_of field m.base
      → some_failed (field_of field m.base) failing (values_of field present) ≡ true
      → merge_field answers r present copies field m h ≡ (given m2, h2)
      → merge
          (after_writes (field_of field m2.base) failing (values_of field present))
          (field_of field m2.base)
        ≡ reverted
            (field_of field m.base)
            (after_writes (field_of field m2.base) failing (values_of field present))
  unfolding merge_field
  merge_field-undone m m2 h h2 failing c d f e =
      let vals = values_of field present in
      let old = field_of field m.base in
      rw ((merge_field_by-BaseMoved (merge vals old) m c).returns m2 h h2 e) (
        merge-reverted vals old ((merge vals old).value) failing
          (ground (arith, str_eq_iff old ((merge vals old).value))) (merge-old_or_new vals old c d)
          f)
