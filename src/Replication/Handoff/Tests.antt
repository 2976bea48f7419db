-- ===== src/Replication/Handoff/Tests.antt =====
-- Runs of internal/replication/handoff.go, and its theorems at them.
use forge_sync.Replication.Handoff.Fixes.{fixes-lossless, GainsAction}
use forge_sync.Replication.Handoff.Safety.{backup-kept}
use forge_sync.Replication.Handoff.Pushes.{
  chose_primary, reset_pushes, is_done_with, deletion_push, deletion_push, reset_pushes,
  is_done_with, chose_primary,
}
use forge_sync.Replication.Plan.{plan, Refs, Ancestry, Action}
use forge_sync.Prelude.{
  ◌&&◌, All, ℕ, ◌≡◌, refl, true, false, List, [], ◌∷◌, Str, str_eq, bytes, Option, none, some,
  arith,
}
use forge_sync.Prelude.Map
use forge_sync.Prelude.Map.{Map}
use forge_sync.Replication.Handoff.{
  fixes, Refs, Action, result_of, Handoff, open_state, kept_primary, PushResult,
}
use forge_sync.Replication.Handoff.Decisions.{
  reset_action, reset_action, reset_answered, closed_at, reset_node, reset_replicas, after_reset,
  decide_open, decide_state, Answers, Run, Desk,
}

abbrev at_main : Str
at_main = bytes "refs/heads/main"

abbrev its_branch : Str
its_branch = bytes "refs/heads/forgesync/conflict/dk/main"

abbrev open_one : Handoff
open_one = record {
  ref = at_main;
  sha = bytes "c2";
  nodes = bytes "dk" ∷ [];
  branch = its_branch;
  pr_number = 7;
  pr_url = [];
  state = open_state;
  decided_at = none;
  backup_until = none;
}

-- Every push is taken.
abbrev taken : List Action → Option (Map PushResult)
taken [] = some []
taken (a ∷ actions) = some ((a.ref, record { ok = true; reason = [] }) ∷ [])

-- The pull request is closed, and not merged.
abbrev closing : Answers
closing = record {
  pull_request = λ es n. some (some (record { was_merged = false; closed = true }));
  push = λ es actions. taken actions;
  lifts_guard = λ ref sha node. true;
  push_unguarded = λ es node actions. taken actions;
}

abbrev at_time : ℕ → Run
at_time now = record {
  now = now;
  backup_for = 30;
  has_api = true;
  configured = λ n. true;
  healthy = λ n. true;
  primary_refs = (at_main, bytes "c1") ∷ [];
}

abbrev desk : Desk
desk = record { handoff_refs = (its_branch, bytes "c2") ∷ []; history = [] }

abbrev kept_one : Handoff
kept_one = record open_one {
  nodes = [];
  state = kept_primary;
  decided_at = some 100;
  backup_until = some 130;
}

decided_open : (decide_state closing (at_time 100) open_one.state open_one desk).0 ≡ some kept_one
unfolding reset_action reset_answered closed_at reset_node reset_replicas after_reset decide_open
    decide_state result_of Map.lookup str_eq
decided_open = refl

backup-kept_example :
    decide_state closing (at_time 130) kept_primary kept_one desk ≡ (some kept_one, desk)
backup-kept_example =
    backup-kept closing (at_time 100) (at_time 130) open_one kept_one desk desk refl decided_open
      refl (omega arith)

-- A history in which only "a1" comes before "a2".
abbrev one_step : Ancestry
one_step a b = (str_eq a (bytes "a1") && str_eq b (bytes "a2"), true)

abbrev behind : Refs
behind = (at_main, bytes "a1") ∷ []

abbrev in_front : Refs
in_front = (at_main, bytes "a2") ∷ (bytes "refs/heads/new", bytes "n1") ∷ []

fixes-lossless_example :
    All (GainsAction one_step behind in_front []) (fixes (plan one_step behind in_front []).issues)
fixes-lossless_example = fixes-lossless one_step behind in_front []

-- The pull request is still open.
abbrev waiting : Answers
waiting = record closing {
  pull_request = λ es n. some (some (record { was_merged = false; closed = false }));
}
