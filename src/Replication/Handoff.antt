-- ===== src/Replication/Handoff.antt =====
-- internal/replication/handoff.go: diverged branches are handed to the owner as pull requests. This
-- part is what is done about the hand-offs that there are, and about the differences that need no
-- owner; Handoff.Opening is how they are opened and extended, Handoff.Defaults is
-- fixDefaultBranches. The guard (protection.go) is not modelled.
--
-- What git, Forgejo and the database answer may depend on all that was done before: a call's answer
-- is a parameter, a function of the history of the calls. Times are numbers. A hand-off's id and the
-- repository's name, which no test reads, are left out, and so is the log.
pub mod Decisions
pub mod Pushes
pub mod Safety
pub mod Fixes
pub mod Names
pub mod Defaults
pub mod Opening
mod Tests
use forge_sync.Prelude.{
  ℕ, Bool, true, false, ◌&&◌, ◌||◌, not, length, ◌==◌, List, [], ◌∷◌, ◌++◌, Str, str_eq, bytes,
  starts_with, contains, Option, none, some, if◌then◌else◌, or_default,
}
use forge_sync.Prelude.Map
use forge_sync.Prelude.Map.{Map}
use forge_sync.Prelude.Sort.{sort}
use forge_sync.Replication.Plan.{
  Refs, Action, create, fast_forward, Issue, IssueKind, replica_ahead, diverged, primary_rewrote,
  replica_changed, replica_extra,
}

abbrev pub handoff_prefix : Str
handoff_prefix = bytes "refs/heads/forgesync/conflict/"

-- splitHandoffRefs.
unfoldable pub split_handoff_refs : Refs → Refs × Refs
split_handoff_refs [] = ([], [])
split_handoff_refs ((ref, sha) ∷ all) =
    let (refs, handoff) = split_handoff_refs all in
    if starts_with handoff_prefix ref
    then (refs, (ref, sha) ∷ handoff)
    else ((ref, sha) ∷ refs, handoff)

unfoldable pub is_owners : IssueKind → Bool
is_owners replica_ahead = false
is_owners diverged = true
is_owners primary_rewrote = true
is_owners replica_changed = false
is_owners replica_extra = false

-- handOffKind.
unfoldable pub hand_off_kind : Issue → Bool
hand_off_kind is =
    is_owners is.kind && starts_with (bytes "refs/heads/") is.ref && not (str_eq is.replica [])

pub data HandoffState : Type 0 where
  open_state merged gone kept_primary expired : HandoffState

pub record Handoff : Type 0 where
  pub ref : Str
  pub sha : Str
  pub nodes : List Str
  pub branch : Str
  pub pr_number : ℕ
  pub pr_url : Str
  pub state : HandoffState
  pub decided_at : Option ℕ
  pub backup_until : Option ℕ

unfoldable pub is_open : HandoffState → Bool
is_open open_state = true
is_open merged = false
is_open gone = false
is_open kept_primary = false
is_open expired = false

unfoldable pub has_value : Str → Map Str → Bool
has_value v [] = false
has_value v ((k, x) ∷ m) = str_eq x v || has_value v m

pub record HandoffInfo : Type 0 where
  pub pr_number : ℕ
  pub pr_url : Str
  -- With the leading "refs/heads/", which the code trims.
  pub branch : Str
  pub nodes : List Str
  pub state : HandoffState

-- handoffsFor.
unfoldable pub handoffs_for : List Handoff → Str → Map Str → List HandoffInfo
handoffs_for [] ref heads = []
handoffs_for (h ∷ hs) ref heads =
    let rest = handoffs_for hs ref heads in
    if not (str_eq h.ref ref) || not (is_open h.state)
    then rest
    else if has_value h.sha heads
    then record {
      pr_number = h.pr_number;
      pr_url = h.pr_url;
      branch = h.branch;
      nodes = h.nodes;
      state = h.state;
    }
      ∷ rest
    else rest

unfoldable pub add_new : List Str → List Str → List Str
add_new out [] = out
add_new out (x ∷ b) = add_new (if contains x out then out else out ++ x ∷ []) b

-- union2.
unfoldable pub union_two : List Str → List Str → List Str
union_two a b = sort (add_new a b)

-- sameSet.
unfoldable pub same_set : List Str → List Str → Bool
same_set a b = (length (union_two a b) == length a) && (length a == length b)

-- git.go, PushResult.
pub record PushResult : Type 0 where
  pub ok : Bool
  pub reason : Str

-- What a push says of a ref; of a ref it says nothing of, the zero value.
unfoldable pub result_of : Str → Map PushResult → PushResult
result_of ref results = or_default (record { ok = false; reason = [] }) (Map.lookup ref results)

unfoldable pub fix : IssueKind → Issue → List Action → List Action
fix replica_ahead is rest =
    record { kind = fast_forward; ref = is.ref; expected = is.primary; target = is.replica } ∷ rest
fix replica_extra is rest =
    record { kind = create; ref = is.ref; expected = []; target = is.replica } ∷ rest
fix diverged is rest = rest
fix primary_rewrote is rest = rest
fix replica_changed is rest = rest

-- The actions that take a replica's refs to the primary.
unfoldable pub fixes : List Issue → List Action
fixes [] = []
fixes (is ∷ issues) = fix is.kind is (fixes issues)

-- The refs whose push succeeded, and the primary's refs with them.
unfoldable pub take_fixed : Map PushResult → List Action → List Str × Refs → List Str × Refs
take_fixed results [] done = done
take_fixed results (a ∷ actions) (fixed, refs) = take_fixed results actions (
    if (result_of a.ref results).ok
    then (if contains a.ref fixed then fixed else a.ref ∷ fixed, Map.insert a.ref a.target refs)
    else (fixed, refs))

unfoldable pub not_fixed : List Str → List Issue → List Issue
not_fixed fixed [] = []
not_fixed fixed (is ∷ issues) =
    let rest = not_fixed fixed issues in if contains is.ref fixed then rest else is ∷ rest

unfoldable pub after_fix :
    Refs → List Issue → List Action → Option (Map PushResult) → List Issue × ℕ × Refs
after_fix refs issues actions none = (issues, 0, refs)
after_fix refs issues actions (some results) =
    let (fixed, now) = take_fixed results actions ([], refs) in
    (not_fixed fixed issues, length fixed, now)

-- autoFix: the issues left, how many were fixed, and the primary's refs.
unfoldable pub auto_fix :
    (List Action → Option (Map PushResult)) → Refs → List Issue → List Issue × ℕ × Refs
auto_fix push refs issues = elim (fixes issues) [
  | [] ↦ (issues, 0, refs)
  | a ∷ actions ↦ after_fix refs issues (a ∷ actions) (push (a ∷ actions))
]
