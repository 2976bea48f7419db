-- ===== src/Inventory.antt =====
-- internal/inventory/compare.go: a repository's status across the nodes.
pub mod Laws
mod Tests
use forge_sync.Prelude.{
  ℕ, Bool, true, false, ◌&&◌, ◌||◌, not, ltb, length, List, [], ◌∷◌, ◌++◌, Str, str_eq, Option,
  none, some, is_some, if◌then◌else◌, ◌==◌,
}
use forge_sync.Prelude.Map
use forge_sync.Prelude.Map.{Map}
use forge_sync.Records.{Replica, RepositoryRecord, NodeScan}

pub data Status : Type 0 where
  same differs missing unknown deleted : Status

pub data Presence : Type 0 where
  present absent not_known_yet : Presence

pub record NodeView : Type 0 where
  pub node : Str
  pub presence : Presence
  pub stale : Bool
  pub replica : Option Replica

-- `replicas[r.Node] = r` for each of the record's replicas.
unfoldable pub by_node : List Replica → Map Replica → Map Replica
by_node [] m = m
by_node (r ∷ rs) m = by_node rs (Map.insert r.node r m)

-- What the loop over the nodes builds up.
pub record Found : Type 0 where
  pub views : List NodeView
  pub missing : Bool
  pub unknown : Bool
  pub present : List Replica

unfoldable pub scan_stale : Option NodeScan → Bool
scan_stale none = false
scan_stale (some s) = not s.ok

-- Scanned successfully since the time.
unfoldable pub success_since : Option NodeScan → ℕ → Bool
success_since none t = false
success_since (some s) t = elim s.last_success_at [ none ↦ false | some at ↦ not (ltb at t) ]

-- The switch on one node, by its replica and its latest scan.
unfoldable pub see : ℕ → Str → Option Replica → Option NodeScan → Found → Found
see first_seen n (some r) scan f =
    if r.present
    then record f {
      views =
          f.views
          ++ record { node = n; presence = present; stale = scan_stale scan; replica = some r }
            ∷ [];
      present = f.present ++ r ∷ [];
    }
    else record f {
      views =
          f.views
          ++ record { node = n; presence = absent; stale = scan_stale scan; replica = some r } ∷ [];
      missing = true;
    }
see first_seen n none scan f =
    if success_since scan first_seen
    then record f {
      views =
          f.views
          ++ record { node = n; presence = absent; stale = scan_stale scan; replica = none } ∷ [];
      missing = true;
    }
    else record f {
      views =
          f.views
          ++ record { node = n; presence = not_known_yet; stale = scan_stale scan; replica = none }
            ∷ [];
      unknown = true;
    }

unfoldable pub see_each : ℕ → Map Replica → Map NodeScan → List Str → Found → Found
see_each first_seen replicas scans [] f = f
see_each first_seen replicas scans (n ∷ nodes) f =
    see_each first_seen replicas scans nodes
      (see first_seen n (Map.lookup n replicas) (Map.lookup n scans) f)

-- A head that couldn't be read.
unfoldable pub head_unread : Replica → Bool
head_unread r = not (str_eq r.head_error []) || (not r.empty && str_eq r.head_sha [])

unfoldable pub any_head_unread : List Replica → Bool
any_head_unread [] = false
any_head_unread (r ∷ rs) = head_unread r || any_head_unread rs

unfoldable pub same_bool : Bool → Bool → Bool
same_bool true b = b
same_bool false b = not b

unfoldable pub same_head : Replica → Replica → Bool
same_head first r =
    same_bool r.empty first.empty
    && (str_eq r.default_branch first.default_branch && str_eq r.head_sha first.head_sha)

unfoldable pub all_same_head : Replica → List Replica → Bool
all_same_head first [] = true
all_same_head first (r ∷ rs) = same_head first r && all_same_head first rs

-- The two loops over the copies that are present.
unfoldable pub compare_heads : List Replica → Status
compare_heads [] = unknown
compare_heads (first ∷ rest) =
    if any_head_unread (first ∷ rest)
    then unknown
    else if all_same_head first rest
    then same
    else differs

unfoldable pub status_of : Option ℕ → Found → Status
status_of deleted_at f =
    if is_some deleted_at
    then deleted
    else if f.missing
    then missing
    else if f.unknown || (length f.present == 0)
    then unknown
    else compare_heads f.present

abbrev pub nothing_seen : Found
nothing_seen = record { views = []; missing = false; unknown = false; present = [] }

abbrev pub found : RepositoryRecord → List Str → Map NodeScan → Found
found rec nodes scans =
    see_each rec.first_seen_at (by_node rec.replicas []) scans nodes nothing_seen

-- Compare.
unfoldable pub compare_nodes : RepositoryRecord → List Str → Map NodeScan → Status × List NodeView
compare_nodes rec nodes scans =
    let f = found rec nodes scans in (status_of rec.deleted_at f, f.views)
