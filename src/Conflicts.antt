-- ===== src/Conflicts.antt =====
-- internal/conflicts/detector.go: what the detector reports of the copies of a repository, and
-- which conflicts it lets the store clear. The nodes' CommitsAhead and the store's SyncConflicts are
-- parameters, `none` where they fail; the log is left out.
pub mod Pairs
pub mod Laws
pub mod Calls
mod Tests
use forge_sync.Prelude.{
  keep, ℕ, Bool, true, false, ◌&&◌, ◌||◌, not, ltb, length, List, [], ◌∷◌, ◌++◌, Str, str_eq, bytes,
  Option, none, some, if◌then◌else◌,
}
use forge_sync.Prelude.Map
use forge_sync.Prelude.Map.{Map}
use forge_sync.Prelude.Sort.{sort_by}
use forge_sync.Records.{Replica, RepositoryRecord, NodeScan}
use forge_sync.Inventory.{Presence, present, absent, not_known_yet, NodeView, compare_nodes, Status}

pub data ConflictKind : Type 0 where
  diverged branch_mismatch : ConflictKind

pub data Relation : Type 0 where
  rel_diverged rel_a_behind rel_b_behind : Relation

pub record Side : Type 0 where
  pub node : Str
  pub branch : Str
  pub head : Str

pub record Related : Type 0 where
  pub a : Str
  pub b : Str
  pub relation : Relation

-- store.FoundConflict, with the entries of its details.
pub record FoundConflict : Type 0 where
  pub repository_id : Str
  pub kind : ConflictKind
  pub ref : Str
  pub branches : Map Str
  pub branch : Str
  pub heads : Map Str
  pub relations : List Related
  pub primary : Str

-- One turn of the loop over the views.
unfoldable pub side_of :
    Presence → Bool → Str → Option Replica → List Side × Bool → List Side × Bool
side_of present stale node (some r) (sides, conclusive) =
    if stale || not (str_eq r.head_error [])
    then (sides, false)
    else if r.empty
    then (sides, conclusive)
    else (record { node = node; branch = r.default_branch; head = r.head_sha } ∷ sides, conclusive)
side_of present stale node none rest = rest
side_of absent stale node r rest = rest
side_of not_known_yet stale node r rest = rest

-- The sides to compare, and whether every present copy could be read.
unfoldable pub sides_of : List NodeView → List Side × Bool
sides_of [] = ([], true)
sides_of (v ∷ views) = side_of v.presence v.stale v.node v.replica (sides_of views)

unfoldable pub all_equal : (Side → Str) → Str → List Side → Bool
all_equal key k [] = true
all_equal key k (s ∷ sides) = if not (str_eq (key s) k) then false else all_equal key k sides

-- allSame, of a list that is not empty.
unfoldable pub all_same : (Side → Str) → List Side → Bool
all_same key [] = true
all_same key (s ∷ sides) = all_equal key (key s) sides

unfoldable pub keyed : (Side → Str) → List Side → Map Str → Map Str
keyed key [] m = m
keyed key (s ∷ sides) m = keyed key sides (Map.insert s.node (key s) m)

-- What the loops over the pairs build up.
pub record Compared : Type 0 where
  pub relations : List Related
  pub diverged : Bool
  pub conclusive : Bool

-- hasCommitsNotIn, of the answer: `none` an error, else how many commits, and whether the node has
-- the head at all.
unfoldable pub has_commits : Option (ℕ × Bool) → Option Bool
has_commits none = none
has_commits (some (n, found)) = some (not found || ltb 0 n)

-- relation's switch.
unfoldable pub relation_of : Option Bool → Option Bool → Option Relation
relation_of (some true) (some true) = some rel_diverged
relation_of (some true) (some false) = some rel_b_behind
relation_of (some false) (some true) = some rel_a_behind
relation_of (some false) (some false) = none
relation_of (some a) none = none
relation_of none b = none

unfoldable pub is_diverged : Relation → Bool
is_diverged rel_diverged = true
is_diverged rel_a_behind = false
is_diverged rel_b_behind = false

-- A pair's relation, or that the comparison failed, taken in.
unfoldable pub compared : Side → Side → Option Relation → Compared → Compared
compared a b none c = record c { conclusive = false }
compared a b (some rel) c = record c {
  relations = c.relations ++ record { a = a.node; b = b.node; relation = rel } ∷ [];
  diverged = is_diverged rel || c.diverged;
}

-- The nodes that have a client, and what the node answers on a repository, a base and a head.
module _ (clients : Str → Bool) (commits_ahead : Str → Str → Str → Str → Option (ℕ × Bool)) where
  unfoldable pub has_commits_not_in : Str → Str → Str → Str → Option Bool
  has_commits_not_in node repo base head =
      if not (clients node) then none else has_commits (commits_ahead node repo base head)

  -- The second question is not asked where the first fails, which the answer does not show.
  unfoldable pub relation_between : Str → Side → Side → Option Relation
  relation_between repo a b =
      relation_of (has_commits_not_in b.node repo b.head a.head)
        (has_commits_not_in a.node repo a.head b.head)

  -- The inner loop.
  unfoldable pub compare_with : Str → Side → List Side → Compared → Compared
  compare_with repo a [] c = c
  compare_with repo a (b ∷ sides) c =
      compare_with repo a sides
        (if str_eq a.head b.head then c else compared a b (relation_between repo a b) c)

  -- The outer loop.
  unfoldable pub compare_pairs : Str → List Side → Compared → Compared
  compare_pairs repo [] c = c
  compare_pairs repo (a ∷ sides) c = compare_pairs repo sides (compare_with repo a sides c)

  unfoldable pub check_pairs :
      RepositoryRecord → Str → List Side → Compared → List FoundConflict × Bool
  check_pairs rec branch sides c = if not c.diverged then ([], c.conclusive) else (
    record {
      repository_id = rec.id;
      kind = diverged;
      ref = bytes "refs/heads/" ++ branch;
      branches = [];
      branch = branch;
      heads = keyed (λ s. s.head) sides [];
      relations = sort_by (λ r. r.a ++ r.b) c.relations;
      primary = rec.primary_node;
    }
        ∷ [],
    c.conclusive,
  )

  -- check, past the loop over the views.
  unfoldable pub check_sides : RepositoryRecord → List Side → Bool → List FoundConflict × Bool
  check_sides rec [] conclusive = ([], conclusive)
  check_sides rec (s ∷ []) conclusive = ([], conclusive)
  check_sides rec (s ∷ t ∷ sides) conclusive =
      if not (all_same (λ x. x.branch) (s ∷ t ∷ sides))
      then (
        record {
          repository_id = rec.id;
          kind = branch_mismatch;
          ref = [];
          branches = keyed (λ x. x.branch) (s ∷ t ∷ sides) [];
          branch = [];
          heads = [];
          relations = [];
          primary = rec.primary_node;
        }
            ∷ [],
        conclusive,
      )
      else if all_same (λ x. x.head) (s ∷ t ∷ sides)
      then ([], conclusive)
      else check_pairs rec s.branch (s ∷ t ∷ sides) (
          compare_pairs rec.full_name (s ∷ t ∷ sides)
            (record { relations = []; diverged = false; conclusive = conclusive }))

  module _ (nodes : List Str) where
    -- check.
    unfoldable pub check : Map NodeScan → RepositoryRecord → List FoundConflict × Bool
    check scans rec =
        let (status, views) = compare_nodes rec nodes scans in
        let (sides, conclusive) = sides_of views in check_sides rec sides conclusive

-- The scopes that Run fills: what was found and what was checked, of the repositories that the
-- detector owns, and of those with a primary.
pub record Scopes : Type 0 where
  pub found : List FoundConflict
  pub checked : List Str
  pub found_primaried : List FoundConflict
  pub checked_primaried : List Str

abbrev pub no_scopes : Scopes
no_scopes = record { found = []; checked = []; found_primaried = []; checked_primaried = [] }

unfoldable pub is_mismatch : FoundConflict → Bool
is_mismatch c = elim c.kind [ diverged ↦ false | branch_mismatch ↦ true ]

-- What check gave for one repository, put in its scope.
unfoldable pub scoped : Bool → RepositoryRecord → List FoundConflict × Bool → Scopes → Scopes
scoped owns rec (f, conclusive) s =
    if owns && not (str_eq rec.primary_node [])
    then record s {
      found_primaried = s.found_primaried ++ keep is_mismatch f;
      checked_primaried = s.checked_primaried ++ (if conclusive then rec.id ∷ [] else []);
    }
    else record s {
      found = s.found ++ f;
      checked = s.checked ++ (if conclusive then rec.id ∷ [] else []);
    }

unfoldable pub scopes :
    Bool → (RepositoryRecord → List FoundConflict × Bool) → List RepositoryRecord → Scopes → Scopes
scopes owns checks [] s = s
scopes owns checks (rec ∷ recs) s = scopes owns checks recs (scoped owns rec (checks rec) s)

-- `scans[s.Node] = s` for each of them.
unfoldable pub latest_scans : List NodeScan → Map NodeScan → Map NodeScan
latest_scans [] m = m
latest_scans (s ∷ scans) m = latest_scans scans (Map.insert s.node s m)

-- A call of SyncConflicts: what was found, the repositories checked, and the kinds of conflict that
-- the call owns.
pub record SyncCall : Type 0 where
  pub found : List FoundConflict
  pub checked : List Str
  pub kinds : List ConflictKind

unfoldable pub sync_calls : Bool → Scopes → List SyncCall
sync_calls owns s =
    record { found = s.found; checked = s.checked; kinds = diverged ∷ branch_mismatch ∷ [] }
    ∷ (if owns
        then record {
          found = s.found_primaried;
          checked = s.checked_primaried;
          kinds = branch_mismatch ∷ [];
        }
          ∷ []
        else [])

-- Each call in turn, while none fails; all changes of the calls are written to the audit log.
module _ {C : Type 0} (sync_conflicts : SyncCall → Option (List C)) where
  unfoldable pub sync_all : List SyncCall → List C → Option (List C)
  sync_all [] changes = some changes
  sync_all (call ∷ calls) changes = elim (sync_conflicts call) [
    | none ↦ none
    | some more ↦ sync_all calls (changes ++ more)
  ]

  -- Run: `none` an error, or the changes that are audited.
  unfoldable pub run :
      (Map NodeScan → RepositoryRecord → List FoundConflict × Bool)
      → Bool
      → Option (List RepositoryRecord)
      → Option (List NodeScan)
      → Option (List C)
  run checks owns none scans = none
  run checks owns (some recs) none = none
  run checks owns (some recs) (some scans) =
      sync_all (sync_calls owns (scopes owns (checks (latest_scans scans [])) recs no_scopes)) []
