-- ===== src/Replication/Handoff/Opening.antt =====
-- internal/replication/handoff.go: diverged branches are handed to the owner (handOff). What the
-- calls answer may depend on all calls before. A pull request's title and body, and all comments'
-- texts, are left out, with the merge base that only they say.
mod Listed
pub mod Safety
mod Tests
use forge_sync.Prelude.{
  ◌&&◌, not, ℕ, Bool, true, false, List, [], ◌∷◌, ◌++◌, Str, bytes, str_eq, starts_with, length,
  ltb, ◌==◌, Option, none, some, or_default, if◌then◌else◌,
}
use forge_sync.Prelude.Effects.{
  Answer, given, failed, Effect, ◌>>=◌, ◌>>◌, give, call, tell, attempt,
}
use forge_sync.Prelude.Map
use forge_sync.Prelude.Map.{Map}
use forge_sync.Prelude.Sort.{sort, str_le}
use forge_sync.Replication.Plan.{Refs, Action, create, fast_forward, delete, Issue}
use forge_sync.Replication.Handoff.{
  Handoff, handoff_prefix, is_open, same_set, union_two, result_of, PushResult, open_state,
}
use forge_sync.Replication.Handoff.Names.{free_name}

-- divergence: a node, with the ref and the replica's value of its issue.
pub record Divergence : Type 0 where
  pub node : Str
  pub ref : Str
  pub replica : Str

pub data Event : Type 0 where
  -- A push of one action to the primary.
  pushed : Action → Event
  org_asked : Str → Event
  -- A pull request of a branch into a branch, with its assignees.
  pull_made : Str → Str → List Str → Event
  -- SaveHandoff of a new one, and saveHandoff of one that is there.
  recorded : Handoff → Event
  saved : Handoff → Event
  commented : ℕ → Event
  audited : Str → Event

abbrev pub History : Type 0
History = List Event

pub record Answers : Type 0 where
  pub push : Action → History → Answer (Map PushResult)
  -- The owner alone, or an organization's owners.
  pub is_org : Str → History → Answer Bool
  pub org_owners : Str → History → Answer (List Str)
  -- The number and the address of the pull request.
  pub create_pull : Str → Str → List Str → History → Answer (ℕ × Str)
  pub record_handoff : Handoff → History → Answer (Unit {0})
  -- IsAncestor: nothing where git cannot say.
  pub is_ancestor : Str → Str → Option Bool

-- strings.TrimPrefix(s, p), the prefix first.
unfoldable pub drop_prefix : Str → Str → Str
drop_prefix [] s = s
drop_prefix (c ∷ p) [] = []
drop_prefix (c ∷ p) (d ∷ s) = drop_prefix p s

unfoldable pub trim_prefix : Str → Str → Str
trim_prefix p s = if starts_with p s then drop_prefix p s else s

unfoldable pub first_node : List Str → Str
first_node [] = []
first_node (n ∷ nodes) = n

-- What a run knows: whether the primary's client is there, and the owner of the repository.
pub record Run : Type 0 where
  pub has_api : Bool
  pub owner : Str

unfoldable pub or_nobody : Answer (List Str) → List Str
or_nobody (failed e) = []
or_nobody (given l) = l

abbrev pub new_handoff : Str → Str → List Str → Str → ℕ × Str → Handoff
new_handoff ref sha nodes full pr = record {
  ref = ref;
  sha = sha;
  nodes = nodes;
  branch = full;
  pr_number = pr.0;
  pr_url = pr.1;
  state = open_state;
  decided_at = none;
  backup_until = none;
}

abbrev pub creation : Str → Str → Action
creation full sha = record { kind = create; ref = full; expected = []; target = sha }

abbrev pub removal : Str → Str → Action
removal full sha = record { kind = delete; ref = full; expected = sha; target = [] }

abbrev pub extension : Handoff → Str → Action
extension h sha = record { kind = fast_forward; ref = h.branch; expected = h.sha; target = sha }

unfoldable pub put_first : Handoff → Option (List Handoff) → Option (List Handoff)
put_first h none = none
put_first h (some hs) = some (h ∷ hs)

unfoldable pub with_opened : List Handoff → Option Handoff × Refs → List Handoff × Refs
with_opened hs (none, refs) = (hs, refs)
with_opened hs (some h, refs) = (hs ++ h ∷ [], refs)

module _ (answers : Answers) (r : Run) where
  abbrev pub push_one : Action → Effect Event (Map PushResult)
  push_one a = call (answers.push a) (pushed a)

  unfoldable pub owners_of : Bool → Effect Event (List Str)
  owners_of false = give (r.owner ∷ [])
  owners_of true = call (answers.org_owners r.owner) (org_asked r.owner)

  -- decisionMakers.
  unfoldable pub decision_makers : Effect Event (List Str)
  decision_makers = do org ← call (answers.is_org r.owner) (org_asked r.owner); owners_of org

  abbrev pub make_pull : Str → Str → List Str → Effect Event (ℕ × Str)
  make_pull head base assignees =
      call (answers.create_pull head base assignees) (pull_made head base assignees)

  -- Assignees may be refused: then without them.
  unfoldable pub pull_again :
      Str → Str → List Str → Answer (ℕ × Str) → Effect Event (Answer (ℕ × Str))
  pull_again head base assignees (given pr) = give (given pr)
  pull_again head base [] (failed e) = give (failed e)
  pull_again head base (a ∷ assignees) (failed e) = attempt (make_pull head base [])

  unfoldable pub handoff_recorded :
      Refs → Handoff → Answer (Unit {0}) → Effect Event (Option Handoff × Refs)
  handoff_recorded refs h (failed e) = give (none, refs)
  handoff_recorded refs h (given u) = do tell (audited h.ref); give (some h, refs)

  -- The branch goes again if it has no pull request.
  unfoldable pub pull_opened :
      Refs → Str → Str → List Str → Str → Answer (ℕ × Str) → Effect Event (Option Handoff × Refs)
  pull_opened refs ref sha nodes full (failed e) = do
    attempt (push_one (removal full sha))
    give (none, Map.delete full refs)
  pull_opened refs ref sha nodes full (given pr) = do
    o ← attempt (
        call (answers.record_handoff (new_handoff ref sha nodes full pr))
          (recorded (new_handoff ref sha nodes full pr)))
    handoff_recorded refs (new_handoff ref sha nodes full pr) o

  unfoldable pub branch_pushed :
      Refs
      → Str
      → Str
      → List Str
      → Str
      → Answer (Map PushResult)
      → Effect Event (Option Handoff × Refs)
  branch_pushed refs ref sha nodes full (failed e) = give (none, refs)
  branch_pushed refs ref sha nodes full (given results) =
      if (result_of full results).ok
      then (do
        who ← attempt decision_makers
        first ← attempt (
            make_pull (trim_prefix (bytes "refs/heads/") full)
              (trim_prefix (bytes "refs/heads/") ref) (or_nobody who))
        o ←
            pull_again (trim_prefix (bytes "refs/heads/") full)
              (trim_prefix (bytes "refs/heads/") ref) (or_nobody who) first
        pull_opened (Map.insert full sha refs) ref sha nodes full o)
      else give (none, refs)

  unfoldable pub open_as :
      Refs → Str → Str → List Str → Option Str → Effect Event (Option Handoff × Refs)
  open_as refs ref sha nodes none = give (none, refs)
  open_as refs ref sha nodes (some full) = do
    o ← attempt (push_one (creation full sha))
    branch_pushed refs ref sha nodes full o

  -- openHandoff: the new hand-off, or none, and the hand-off branches after it.
  unfoldable pub open_handoff : Refs → Str → Str → List Str → Effect Event (Option Handoff × Refs)
  open_handoff refs ref sha nodes = open_as refs ref sha nodes (
      free_name refs
        (handoff_prefix ++ (first_node nodes ++ b'/' ∷ trim_prefix (bytes "refs/heads/") ref)))

  unfoldable pub extended :
      Handoff → List Handoff → Str → Answer (Map PushResult) → Effect Event (Option (List Handoff))
  extended h hs sha (failed e) = give none
  extended h hs sha (given results) =
      if (result_of h.branch results).ok
      then (do
        tell (saved (record h { sha = sha }))
        tell (commented h.pr_number)
        give (some (record h { sha = sha } ∷ hs)))
      else give none

  -- The conditions on a hand-off that is to be extended.
  unfoldable pub is_extended : Refs → Str → Str → List Str → Handoff → Bool
  is_extended refs ref sha nodes h =
      is_open h.state
      && str_eq h.ref ref
      && str_eq (or_default [] (Map.lookup h.branch refs)) h.sha
      && same_set h.nodes nodes
      && or_default false (answers.is_ancestor h.sha sha)

  -- extendHandoff: the hand-offs with the one that was extended.
  unfoldable pub extend_handoff :
      Refs → Str → Str → List Str → List Handoff → Effect Event (Option (List Handoff))
  extend_handoff refs ref sha nodes [] = give none
  extend_handoff refs ref sha nodes (h ∷ hs) =
      let later = (do x ← extend_handoff refs ref sha nodes hs; give (put_first h x)) in
      if is_extended refs ref sha nodes h
      then (do o ← attempt (push_one (extension h sha)); extended h hs sha o)
      else later

  -- An open hand-off of the same version takes more nodes.
  unfoldable pub join_handoff :
      Str → Str → List Str → List Handoff → Effect Event (Option (List Handoff))
  join_handoff ref sha nodes [] = give none
  join_handoff ref sha nodes (h ∷ hs) =
      let later = (do x ← join_handoff ref sha nodes hs; give (put_first h x)) in
      if is_open h.state && str_eq h.ref ref && str_eq h.sha sha
      then (if same_set h.nodes nodes then give (some (h ∷ hs)) else (do
        tell (saved (record h { nodes = union_two h.nodes nodes }))
        give (some (record h { nodes = union_two h.nodes nodes } ∷ hs))))
      else later

  unfoldable pub not_extended :
      Refs
      → Str
      → Str
      → List Str
      → List Handoff
      → Option (List Handoff)
      → Effect Event (List Handoff × Refs)
  not_extended refs ref sha nodes hs (some changed) = give (changed, refs)
  not_extended refs ref sha nodes hs none = do
    x ← open_handoff refs ref sha nodes
    give (with_opened hs x)

  unfoldable pub not_joined :
      Refs
      → Str
      → Str
      → List Str
      → List Handoff
      → Option (List Handoff)
      → Effect Event (List Handoff × Refs)
  not_joined refs ref sha nodes hs (some changed) = give (changed, refs)
  not_joined refs ref sha nodes hs none = do
    x ← extend_handoff refs ref sha nodes hs
    not_extended refs ref sha nodes hs x

  -- One turn of handOff's loop.
  unfoldable pub hand_off_version :
      Refs → Str → Str → List Str → List Handoff → Effect Event (List Handoff × Refs)
  hand_off_version refs ref sha nodes hs = do
    x ← join_handoff ref sha nodes hs
    not_joined refs ref sha nodes hs x

-- One version of a branch, and the nodes that have it.
pub record Version : Type 0 where
  pub ref : Str
  pub sha : Str
  pub nodes : List Str

unfoldable pub add_to_group : Divergence → List Version → List Version
add_to_group d [] = record { ref = d.ref; sha = d.replica; nodes = d.node ∷ [] } ∷ []
add_to_group d (v ∷ vs) =
    let rest = add_to_group d vs in
    if str_eq v.ref d.ref && str_eq v.sha d.replica
    then record v { nodes = v.nodes ++ d.node ∷ [] } ∷ vs
    else v ∷ rest

unfoldable pub group_each : List Divergence → List Version → List Version
group_each [] vs = vs
group_each (d ∷ found) vs = group_each found (add_to_group d vs)

unfoldable pub insert_version : Version → List Version → List Version
insert_version v [] = v ∷ []
insert_version v (w ∷ vs) =
    let rest = insert_version v vs in
    if str_le (v.ref ++ v.sha) (w.ref ++ w.sha) then v ∷ w ∷ vs else w ∷ rest

unfoldable pub sort_versions : List Version → List Version
sort_versions [] = []
sort_versions (v ∷ vs) = insert_version v (sort_versions vs)

module _ (answers : Answers) (r : Run) where
  unfoldable pub hand_off_each :
      List Version → List Handoff × Refs → Effect Event (List Handoff × Refs)
  hand_off_each [] s = give s
  hand_off_each (v ∷ vs) s = do
    next ← hand_off_version answers r s.1 v.ref v.sha (sort v.nodes) s.0
    hand_off_each vs next

  -- handOff: the active hand-offs and the hand-off branches after it.
  unfoldable pub hand_off :
      Refs → List Handoff → List Divergence → Effect Event (List Handoff × Refs)
  hand_off refs hs found =
      if not r.has_api
      then give (hs, refs)
      else hand_off_each (sort_versions (group_each found [])) (hs, refs)
