-- ===== src/Replication/Plan/Refs.antt =====
-- internal/replication/plan.go: which refs `union` lists.
use forge_sync.Prelude.{true, ◌≡◌, refl, ◌||◌, Str, [], contains, distinct, is_some, arith}
use forge_sync.Prelude.Map
use forge_sync.Prelude.Map.{Map, contains-keys}
use forge_sync.Prelude.Sort.{contains-sort, distinct-sort}
use forge_sync.Set.{mark}
use forge_sync.Set.Members.{lookup-mark, distinct-keys-mark}
use forge_sync.Replication.Plan.{Refs, union}

pub contains-union :
    (k : Str) (primary replica base : Refs)
    → contains k (union primary replica base) ≡ (
        is_some (Map.lookup k base)
        || (is_some (Map.lookup k replica) || is_some (Map.lookup k primary)))
unfolding union Map.lookup
contains-union k primary replica base =
    let first = mark (Map.keys primary) [] in
    let second = mark (Map.keys replica) first in
    ground (
      arith,
      contains-sort k (Map.keys (mark (Map.keys base) second)),
      contains-keys k (mark (Map.keys base) second),
      lookup-mark k (Map.keys base) second,
      lookup-mark k (Map.keys replica) first,
      lookup-mark k (Map.keys primary) [],
      contains-keys k base,
      contains-keys k replica,
      contains-keys k primary,
    )

pub distinct-union : (primary replica base : Refs) → distinct (union primary replica base) ≡ true
unfolding union
distinct-union primary replica base = distinct-sort _ (
    distinct-keys-mark (Map.keys base) _ (
      distinct-keys-mark (Map.keys replica) _
        (distinct-keys-mark (Map.keys primary) [] (unfold Map.keys distinct in refl))))
