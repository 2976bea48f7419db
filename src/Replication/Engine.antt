-- ===== src/Replication/Engine.antt =====
-- internal/replication/engine.go, replicate and seedPrimary: one replica brought up to date, and a
-- primary that lacks the repository filled from a copy. What git, the database, the guard
-- (protection.go) and createOnReplica (provision.go) answer is a parameter. A detail's text is a
-- value with its parts, since it is only shown.

pub mod Base
pub mod Runs
pub mod Seed
mod Tests
use forge_sync.Prelude.{
  ℕ, suc, Bool, true, false, ◌&&◌, ◌||◌, not, ltb, length, any, List, [], ◌∷◌, ◌++◌, Str, str_eq,
  bytes, has_part, Option, none, some, if◌then◌else◌, or_default, is_some,
}
use forge_sync.Prelude.Effects.{Answer, given, failed}
use forge_sync.Prelude.Map
use forge_sync.Prelude.Map.{Map}
use forge_sync.Prelude.Sort.{sort}
use forge_sync.Replication.Plan.{
  Refs, Action, create, fast_forward, delete, reset, Issue, Ancestry, plan, Work,
}
use forge_sync.Replication.Handoff.{PushResult, result_of, split_handoff_refs}

pub data Listing : Type 0 where
  listed : Refs → Listing
  not_there : Listing
  unreadable : Str → Listing

-- How createOnReplica ends; blocked: something that a person has to settle.
pub data Created : Type 0 where
  made : Created
  blocked : Str → Created
  refused : Str → Created

pub data ReplicaState : Type 0 where
  synced conflict error missing : ReplicaState

pub data Detail : Type 0 where
  no_detail : Detail
  create_it : Detail
  why : Str → Detail
  -- Of the updates, these were rejected, each with its reason.
  rejected : List Str → ℕ → Detail
  need_person : ℕ → Detail

pub record Outcome : Type 0 where
  pub state : ReplicaState
  pub detail : Detail
  pub updated : ℕ
  -- What is now known to be on the replica; `none` keeps what was known.
  pub refs : Option Refs
  pub issues : List Issue
  pub has_error : Bool
  -- Whether the guard was written again.
  pub reasserted : Bool

-- What the calls of one run of replicate answer.
pub record Calls : Type 0 where
  pub create_missing : Bool
  -- ProtectReplicas is on, and the node is not the primary.
  pub guards : Bool
  pub listing : Listing
  pub created : Created
  pub forget : Option Str
  pub listing_again : Listing
  pub fetch : Option Str
  pub base : Answer Refs
  -- With the guard lifted for it, and without.
  pub push_unguarded : List Action → Answer (Map PushResult)
  pub push : List Action → Answer (Map PushResult)

unfoldable pub gives_up : ReplicaState → Str → List Issue → Outcome
gives_up state e issues = record {
  state = state;
  detail = why e;
  updated = 0;
  refs = none;
  issues = issues;
  has_error = true;
  reasserted = false;
}

unfoldable pub waits : Detail → Outcome
waits detail = record {
  state = missing;
  detail = detail;
  updated = 0;
  refs = none;
  issues = [];
  has_error = false;
  reasserted = false;
}

unfoldable pub is_delete : Action → Bool
is_delete a = elim a.kind [ create ↦ false | fast_forward ↦ false | delete ↦ true | reset ↦ false ]

-- The refs in sync, put into the base.
unfoldable pub keep_synced : Refs → Refs → Refs → Refs
keep_synced r [] next = next
keep_synced r ((ref, p) ∷ primary) next =
    keep_synced r primary
      (if str_eq (or_default [] (Map.lookup ref r)) p then Map.insert ref p next else next)

-- The refs that are gone everywhere, taken out of it.
unfoldable pub drop_gone : Refs → Refs → Refs → Refs
drop_gone p r [] = []
drop_gone p r ((ref, v) ∷ next) =
    let rest = drop_gone p r next in
    if not (is_some (Map.lookup ref p)) && not (is_some (Map.lookup ref r))
    then rest
    else (ref, v) ∷ rest

-- The loop over the results: the failed refs with their reasons, how many were updated, the base.
pub record Tally : Type 0 where
  pub failed : List Str
  pub updated : ℕ
  pub next : Refs

unfoldable pub tally_one : Action → PushResult → Tally → Tally
tally_one a res t =
    if not res.ok
    then record t { failed = t.failed ++ (a.ref ++ bytes ": " ++ res.reason) ∷ [] }
    else if is_delete a
    then record t { next = Map.delete a.ref t.next; updated = suc t.updated }
    else record t { next = Map.insert a.ref a.target t.next; updated = suc t.updated }

unfoldable pub tally : Map PushResult → List Action → Tally → Tally
tally results [] t = t
tally results (a ∷ actions) t = tally results actions (tally_one a (result_of a.ref results) t)

-- A refusal that shows that the guard's whitelist was emptied.
unfoldable pub is_guard_refusal : PushResult → Bool
is_guard_refusal res =
    not res.ok
    && (has_part (bytes "pre-receive hook declined") res.reason
        || has_part (bytes "protected branch") res.reason)

unfoldable pub any_refusal : Map PushResult → Bool
any_refusal [] = false
any_refusal ((ref, res) ∷ results) = is_guard_refusal res || any_refusal results

unfoldable pub outcome_of : List Action → List Issue → Bool → Tally → Outcome
outcome_of actions issues reasserted t =
    if ltb 0 (length t.failed)
    then record {
      state = error;
      detail = rejected (sort t.failed) (length actions);
      updated = t.updated;
      refs = some t.next;
      issues = issues;
      has_error = false;
      reasserted = reasserted;
    }
    else if ltb 0 (length issues)
    then record {
      state = conflict;
      detail = need_person (length issues);
      updated = t.updated;
      refs = some t.next;
      issues = issues;
      has_error = false;
      reasserted = reasserted;
    }
    else record {
      state = synced;
      detail = no_detail;
      updated = t.updated;
      refs = some t.next;
      issues = [];
      has_error = false;
      reasserted = reasserted;
    }

-- The base after a push: with the refs in sync, what was written, and without what is gone.
unfoldable pub next_tally : Refs → Refs → Refs → Map PushResult → List Action → Tally
next_tally p r base results actions =
    tally results actions
      (record { failed = []; updated = 0; next = drop_gone p r (keep_synced r p base) })

unfoldable pub after_push : Bool → Refs → Refs → Refs → Work → Answer (Map PushResult) → Outcome
after_push guards p r base w (failed e) = gives_up error e w.issues
after_push guards p r base w (given results) =
    outcome_of w.actions w.issues (guards && any_refusal results)
      (next_tally p r base results w.actions)

module _ (is_ancestor : Ancestry) (primary : Refs) (c : Calls) where
  -- Past the reading of the base.
  unfoldable pub replicate_planned : Refs → Refs → Outcome
  replicate_planned replica base =
      let w = plan is_ancestor primary replica base in
      after_push c.guards primary replica base w
        (if any is_delete w.actions then c.push_unguarded w.actions else c.push w.actions)

  unfoldable pub replicate_fetched : Refs → Option Str → Answer Refs → Outcome
  replicate_fetched replica (some e) base = gives_up error e []
  replicate_fetched replica none (failed e) = gives_up error e []
  replicate_fetched replica none (given base) = replicate_planned replica base

  -- Past the creation of a repository that was not there.
  unfoldable pub replicate_listed : Listing → Outcome
  replicate_listed (listed all) =
      let (replica, handoff) = split_handoff_refs all in
      replicate_fetched replica (if ltb 0 (length replica) then c.fetch else none) c.base
  replicate_listed not_there = gives_up error (bytes "repository not found") []
  replicate_listed (unreadable e) = gives_up error e []

  unfoldable pub replicate_created : Created → Option Str → Outcome
  replicate_created (blocked e) forget = waits (why e)
  replicate_created (refused e) forget = gives_up error e []
  replicate_created made (some e) = gives_up error e []
  replicate_created made none = replicate_listed c.listing_again

  unfoldable pub replicate_from : Listing → Outcome
  replicate_from not_there =
      if not c.create_missing then waits create_it else replicate_created c.created c.forget
  replicate_from (listed all) = replicate_listed (listed all)
  replicate_from (unreadable e) = replicate_listed (unreadable e)

  -- replicate.
  unfoldable pub replicate : Outcome
  replicate = replicate_from c.listing
