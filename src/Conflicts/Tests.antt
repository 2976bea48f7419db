-- ===== src/Conflicts/Tests.antt =====
-- Runs of internal/conflicts/detector.go on two copies, and its theorems at them.
use forge_sync.Prelude.Sort.{sort_by, insert_by, str_le}
use forge_sync.Inventory.{
  compare_nodes, by_node, see, see_each, status_of, scan_stale, success_since,
}
use forge_sync.Conflicts.Calls.{sync_calls-kept, call_kept}
use forge_sync.Conflicts.{
  has_commits_not_in, compared, is_diverged, relation_of, has_commits, keyed, all_equal, sides_of,
  side_of, no_scopes, scopes, all_same, diverged, sync_calls, compare_nodes, check, FoundConflict,
  relation_between, compare_with, compare_pairs, check_pairs, check_sides, is_mismatch, scoped,
  latest_scans, sync_all, run,
}
use forge_sync.Prelude.Map
use forge_sync.Prelude.Map.{Map}
use forge_sync.Records.{NodeScan, RepositoryRecord, Replica}
use forge_sync.Prelude.{
  all, if◌then◌else◌, ℕ, ◌≡◌, refl, Bool, true, false, List, [], ◌∷◌, Str, str_eq, bytes, Option,
  none, some,
}
use forge_sync.Conflicts.Pairs.{kinds}

abbrev at_head : Str → Str → Replica
at_head node sha = record {
  node = node;
  present = true;
  mirror = false;
  empty = false;
  default_branch = bytes "main";
  head_sha = sha;
  head_error = [];
  forgejo_created = some 1;
  full_name = bytes "ada/demo";
  last_seen_at = some 5;
}

abbrev demo : Str → RepositoryRecord
demo primary = record {
  id = bytes "r1";
  full_name = bytes "ada/demo";
  primary_node = primary;
  first_seen_at = 1;
  deleted_at = none;
  replicas = at_head (bytes "se") (bytes "c1") ∷ at_head (bytes "dk") (bytes "c2") ∷ [];
}

abbrev sites : List Str
sites = bytes "se" ∷ bytes "dk" ∷ []

abbrev no_scans : Map NodeScan
no_scans = []

abbrev every_node : Str → Bool
every_node node = true

-- No node has the other's head.
abbrev lacking : Str → Str → Str → Str → Option (ℕ × Bool)
lacking node repo base head = some (0, false)

-- c2 has one commit more than c1.
abbrev one_more : Str → Str → Str → Str → Option (ℕ × Bool)
one_more node repo base head = if str_eq head (bytes "c2") then some (1, true) else some (0, true)

check_diverged : kinds ((check every_node lacking sites no_scans (demo [])).0) ≡ diverged ∷ []
unfolding side_of sides_of all_equal all_same keyed has_commits relation_of is_diverged compared
    has_commits_not_in relation_between compare_with compare_pairs check_pairs check_sides check
    compare_nodes by_node see see_each status_of scan_stale success_since str_eq Map.lookup
    Map.insert kinds sort_by insert_by str_le
check_diverged = refl

abbrev checks : RepositoryRecord → List FoundConflict × Bool
checks = check every_node lacking sites no_scans

abbrev without_primary : Str → Bool
without_primary id = str_eq id (bytes "r1")

sync_calls-kept_example :
    all
      (call_kept checks without_primary)
      (sync_calls true (scopes true checks (demo [] ∷ []) no_scopes))
    ≡ true
unfolding forge_sync.Conflicts.Calls.tested str_eq
sync_calls-kept_example = sync_calls-kept checks without_primary (demo [] ∷ []) refl
