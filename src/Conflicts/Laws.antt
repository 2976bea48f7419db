-- ===== src/Conflicts/Laws.antt =====
-- What internal/conflicts/detector.go reports and clears.
use forge_sync.Conflicts.Pairs.{check_sides-kinds, any_diverging, verdict, kinds}
use forge_sync.Prelude.Map.{Map}
use forge_sync.Inventory.{Presence, present, absent, not_known_yet, NodeView, compare_nodes}
use forge_sync.Records.{NodeScan, Replica, RepositoryRecord}
use forge_sync.Prelude.{str_eq, Str, ℕ, ◌≡◌, Bool, true, ◌&&◌, not, List, [], Option, none, some}
use forge_sync.Conflicts.{
  check, NodeScan, Map, Replica, Presence, sides_of, NodeView, RepositoryRecord, str_eq, Str, Side,
}

-- A copy is not there, or it is read: the node's scan is not stale, and the head has no error.
unfoldable pub readable_copy : Presence → Bool → Option Replica → Bool
readable_copy present stale (some r) = not stale && str_eq r.head_error []
readable_copy present stale none = true
readable_copy absent stale r = true
readable_copy not_known_yet stale r = true

unfoldable pub readable : NodeView → Bool
readable v = readable_copy v.presence v.stale v.replica

-- The copies to compare.
abbrev pub sides : List Str → Map NodeScan → RepositoryRecord → List Side
sides nodes scans rec = (sides_of ((compare_nodes rec nodes scans).1)).0

module _ (clients : Str → Bool) (commits_ahead : Str → Str → Str → Str → Option (ℕ × Bool)) where
  module _ (nodes : List Str) (scans : Map NodeScan) (rec : RepositoryRecord) where
    -- What check reports of a repository: nothing if fewer than two copies are there to compare;
    -- else one conflict over the default branch if the copies differ in it; else one over diverged
    -- commits if, of some two copies with different heads, each head is said to have commits that
    -- the other lacks; else nothing.
    pub check-kinds :
        kinds ((check clients commits_ahead nodes scans rec).0)
        ≡ verdict
            (sides nodes scans rec)
            (any_diverging clients commits_ahead rec.full_name (sides nodes scans rec))
    unfolding check
    check-kinds =
        check_sides-kinds clients commits_ahead rec (sides nodes scans rec)
          ((sides_of ((compare_nodes rec nodes scans).1)).1)
