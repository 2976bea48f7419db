-- ===== src/Replication/Plan.antt =====
-- internal/replication/plan.go: what to do on one replica, ref by ref. Git's ancestry test is a
-- parameter; it answers `(is, ok)`, and `ok` is false where it could not tell.
pub mod Refs
pub mod Outcome
pub mod Safety
pub mod Push
mod Tests
use forge_sync.Prelude.{
  Bool, true, false, ◌&&◌, ◌||◌, not, List, [], ◌∷◌, ◌++◌, Str, str_eq, bytes, starts_with, ltb,
  length, Option, none, some, if◌then◌else◌,
}
use forge_sync.Prelude.Map
use forge_sync.Prelude.Map.{Map}
use forge_sync.Prelude.Sort.{sort}
use forge_sync.Set.{mark}

abbrev pub Refs : Type 0
Refs = Map Str

pub data ActionKind : Type 0 where
  create fast_forward delete reset : ActionKind

pub record Action : Type 0 where
  pub kind : ActionKind
  pub ref : Str
  pub expected : Str
  pub target : Str

pub data IssueKind : Type 0 where
  replica_ahead diverged primary_rewrote replica_changed replica_extra : IssueKind

pub record Issue : Type 0 where
  pub kind : IssueKind
  pub ref : Str
  pub primary : Str
  pub replica : Str

abbrev pub Ancestry : Type 0
Ancestry = Str → Str → Bool × Bool

-- The two lists that Plan builds up.
pub record Work : Type 0 where
  pub actions : List Action
  pub issues : List Issue

abbrev pub act : Work → Action → Work
act w a = record w { actions = w.actions ++ a ∷ [] }

abbrev pub report : Work → IssueKind → Str → Str → Str → Work
report w k ref p r = record w {
  issues = w.issues ++ record { kind = k; ref = ref; primary = p; replica = r } ∷ [];
}

-- isTag: longer than "refs/tags/", and beginning with it.
unfoldable pub is_tag : Str → Bool
is_tag ref = ltb 10 (length ref) && starts_with (bytes "refs/tags/") ref

-- Replicated.
unfoldable pub replicated : Str → Bool
replicated ref = is_tag ref || (ltb 11 (length ref) && starts_with (bytes "refs/heads/") ref)

-- `hasB && b == r`.
unfoldable pub unchanged : Option Str → Str → Bool
unchanged none r = false
unchanged (some b) r = str_eq b r

-- union.
unfoldable pub union : Refs → Refs → Refs → List Str
union primary replica base =
    sort (Map.keys (mark (Map.keys base) (mark (Map.keys replica) (mark (Map.keys primary) []))))

module _ (is_ancestor : Ancestry) where
  -- planChange, past the test for a tag.
  unfoldable pub plan_branch : Work → Str → Str → Str → Option Str → Work
  plan_branch w ref p r b =
      let (behind, ok) = is_ancestor r p in
      if not ok
      then report w diverged ref p r
      else if behind
      then act w (record { kind = fast_forward; ref = ref; expected = r; target = p })
      else if unchanged b r
      then report w primary_rewrote ref p r
      else (let (ahead, told) = is_ancestor p r in
          if told && ahead then report w replica_ahead ref p r else report w diverged ref p r)

  -- planChange.
  unfoldable pub plan_change : Work → Str → Str → Str → Option Str → Work
  plan_change w ref p r b =
      if is_tag ref
      then (if unchanged b r
          then report w primary_rewrote ref p r
          else report w replica_changed ref p r)
      else plan_branch w ref p r b

  -- The switch over the ref's values on the primary, on the replica, and in the base.
  unfoldable pub plan_values : Work → Str → Option Str → Option Str → Option Str → Work
  plan_values w ref (some p) (some r) b = if str_eq p r then w else plan_change w ref p r b
  plan_values w ref (some p) none b =
      act w (record { kind = create; ref = ref; expected = []; target = p })
  plan_values w ref none (some r) (some b) =
      if str_eq b r
      then act w (record { kind = delete; ref = ref; expected = r; target = [] })
      else report w replica_changed ref [] r
  plan_values w ref none (some r) none = report w replica_extra ref [] r
  plan_values w ref none none b = w

  module _ (primary replica base : Refs) where
    unfoldable pub plan_ref : Work → Str → Work
    plan_ref w ref =
        plan_values w ref (Map.lookup ref primary) (Map.lookup ref replica) (Map.lookup ref base)

    unfoldable pub plan_refs : Work → List Str → Work
    plan_refs w [] = w
    plan_refs w (ref ∷ refs) = plan_refs (plan_ref w ref) refs

    -- The function that the rest makes up.
    unfoldable pub plan : Work
    plan = plan_refs (record { actions = []; issues = [] }) (union primary replica base)
