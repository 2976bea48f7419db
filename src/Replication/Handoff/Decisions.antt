-- ===== src/Replication/Handoff/Decisions.antt =====
-- internal/replication/handoff.go, applyDecisions with resetReplicas and deleteHandoffBranch: what
-- becomes of the hand-offs by what their owners did.
use forge_sync.Prelude.{
  ℕ, ◌+◌, Bool, true, false, not, ltb, List, [], ◌∷◌, Str, bytes, has_part, Option, none, some,
  if◌then◌else◌,
}
use forge_sync.Prelude.Map
use forge_sync.Prelude.Map.{Map}
use forge_sync.Replication.Plan.{Refs, Action, delete, reset}
use forge_sync.Replication.Handoff.{
  Handoff, HandoffState, open_state, merged, gone, kept_primary, expired, PushResult, result_of,
}

-- forgejo.PullRequest, as far as it is read.
pub record PullRequest : Type 0 where
  pub was_merged : Bool
  pub closed : Bool

-- What was done, the latest first.
pub data Event : Type 0 where
  asked : ℕ → Event
  -- A push to the primary.
  pushed : List Action → Event
  -- A push to a replica with ForgeSync's own guard lifted for it (withoutGuard).
  pushed_unguarded : Str → List Action → Event
  saved : Handoff → Event
  -- The action's name.
  audited : Str → Handoff → Event
  -- The replica that was reset.
  reset_audited : Str → Handoff → Event
  commented : ℕ → Event

abbrev pub History : Type 0
History = List Event

-- What the calls give after a history: `none` an error, `some none` a pull request that is not there.
pub record Answers : Type 0 where
  pub pull_request : History → ℕ → Option (Option PullRequest)
  pub push : History → List Action → Option (Map PushResult)
  -- Whether withoutGuard gets to the push for a branch, a commit handed off and a node: false where
  -- the node has ForgeSync's guard and deleting it failed.
  pub lifts_guard : Str → Str → Str → Bool
  pub push_unguarded : History → Str → List Action → Option (Map PushResult)

-- One run's surroundings; has_api: the primary's client is there.
pub record Run : Type 0 where
  pub now : ℕ
  pub backup_for : ℕ
  pub has_api : Bool
  pub configured : Str → Bool
  pub healthy : Str → Bool
  pub primary_refs : Refs

-- What a run changes: the hand-off branches that it knows of, and the history.
pub record Desk : Type 0 where
  pub handoff_refs : Refs
  pub history : History

abbrev pub note : Event → Desk → Desk
note e d = record d { history = e ∷ d.history }

unfoldable pub branch_deleted : Handoff → Option (Map PushResult) → Desk → Desk
branch_deleted h none d = d
branch_deleted h (some results) d =
    if (result_of h.branch results).ok
    then record d { handoff_refs = Map.delete h.branch d.handoff_refs }
    else d

-- The deletion of a hand-off branch, at the value that it was seen at.
abbrev pub branch_deletion : Str → Str → List Action
branch_deletion branch cur =
    record { kind = delete; ref = branch; expected = cur; target = [] } ∷ []

-- The action that takes a replica's branch to the primary's version.
unfoldable pub reset_action : Str → Str → Option Str → Action
reset_action ref sha (some target) = record {
  kind = reset;
  ref = ref;
  expected = sha;
  target = target;
}
reset_action ref sha none = record { kind = delete; ref = ref; expected = sha; target = [] }

-- Whether the replica has to wait for another run, and what was done.
unfoldable pub reset_answered : Handoff → Str → Option (Map PushResult) → Desk → Bool × Desk
reset_answered h node none d = (true, d)
reset_answered h node (some results) d =
    if (result_of h.ref results).ok
    then (false, note (reset_audited node h) d)
    else if has_part (bytes "stale info") (result_of h.ref results).reason
    then (false, d)
    else (true, d)

unfoldable pub closed_at : Option ℕ → ℕ → Option ℕ
closed_at none now = some now
closed_at (some t) now = some t

module _ (answers : Answers) (r : Run) where
  -- A hand-off branch deleted, by the value that it was seen at, if it was seen.
  unfoldable pub delete_branch : Handoff → Option Str → Desk → Desk
  delete_branch h none d = d
  delete_branch h (some cur) d =
      branch_deleted h (answers.push d.history (branch_deletion h.branch cur))
        (note (pushed (branch_deletion h.branch cur)) d)

  -- deleteHandoffBranch.
  unfoldable pub delete_handoff_branch : Handoff → Desk → Desk
  delete_handoff_branch h d = delete_branch h (Map.lookup h.branch d.handoff_refs) d

  -- resetReplicas, on one node; where the guard cannot be lifted, withoutGuard fails with no push.
  unfoldable pub reset_node : Handoff → Str → Desk → Bool × Desk
  reset_node h node d =
      if not (r.configured node)
      then (false, d)
      else if not (r.healthy node)
      then (true, d)
      else if not (answers.lifts_guard h.ref h.sha node)
      then (true, d)
      else let a = reset_action h.ref h.sha (Map.lookup h.ref r.primary_refs) ∷ [] in
        reset_answered h node (answers.push_unguarded d.history node a)
          (note (pushed_unguarded node a) d)

  -- resetReplicas: the nodes left, in place of h.Nodes.
  unfoldable pub reset_replicas : Handoff → List Str → Desk → List Str × Desk
  reset_replicas h [] d = ([], d)
  reset_replicas h (node ∷ nodes) d =
      let (waits, d1) = reset_node h node d in
      let (left, d2) = reset_replicas h nodes d1 in (if waits then node ∷ left else left, d2)

  -- A closed pull request, after resetReplicas.
  unfoldable pub after_reset : Handoff → List Str × Desk → Option Handoff × Desk
  after_reset h ([], d) =
      let kept = (record h {
        nodes = [];
        state = kept_primary;
        backup_until = some (r.now + r.backup_for);
      }) in
      (
        some kept,
        note (saved kept) (
            note (commented h.pr_number)
              (note (audited (bytes "conflict.owner_kept_primary") kept) d)),
      )
  after_reset h (n ∷ left, d) =
      (some (record h { nodes = n ∷ left }), note (saved (record h { nodes = n ∷ left })) d)

  -- What becomes of an open hand-off by its pull request; `none` where it is no longer active.
  unfoldable pub decide_open : Handoff → Option (Option PullRequest) → Desk → Option Handoff × Desk
  decide_open h none d = (some h, d)
  decide_open h (some none) d =
      let lost = (record h { state = gone; decided_at = some r.now }) in
      (none, note (audited (bytes "conflict.handoff_gone") lost) (note (saved lost) d))
  decide_open h (some (some pr)) d =
      if pr.was_merged
      then (let done = (record h { state = merged; decided_at = some r.now }) in
          (
            none,
            note (audited (bytes "conflict.owner_merged") done)
                (note (saved done) (delete_handoff_branch done d)),
          ))
      else if pr.closed
      then (let h1 = (record h { decided_at = closed_at h.decided_at r.now }) in
          after_reset h1 (reset_replicas h1 h1.nodes d))
      else (some h, d)

  unfoldable pub is_past : Option ℕ → Bool
  is_past none = false
  is_past (some t) = ltb t r.now

  -- The switch on a hand-off's state.
  unfoldable pub decide_state : HandoffState → Handoff → Desk → Option Handoff × Desk
  decide_state open_state h d =
      decide_open h (answers.pull_request d.history h.pr_number) (note (asked h.pr_number) d)
  decide_state kept_primary h d =
      if is_past h.backup_until
      then (let old = (record h { state = expired }) in
          (
            none,
            note (audited (bytes "conflict.backup_deleted") old)
                (note (saved old) (delete_handoff_branch h d)),
          ))
      else (some h, d)
  decide_state merged h d = (some h, d)
  decide_state gone h d = (some h, d)
  decide_state expired h d = (some h, d)

  unfoldable pub put_active : Option Handoff → List Handoff → List Handoff
  put_active none active = active
  put_active (some h) active = h ∷ active

  unfoldable pub decide_each : List Handoff → Desk → List Handoff × Desk
  decide_each [] d = ([], d)
  decide_each (h ∷ hs) d =
      let (kept, d1) = decide_state h.state h d in
      let (active, d2) = decide_each hs d1 in (put_active kept active, d2)

  -- applyDecisions: the hand-offs still active.
  unfoldable pub apply_decisions : List Handoff → Desk → List Handoff × Desk
  apply_decisions hs d = if not r.has_api then (hs, d) else decide_each hs d
