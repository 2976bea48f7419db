-- ===== src/Replication/Handoff/Opening/Tests.antt =====
-- Runs of internal/replication/handoff.go, handOff, and its theorems at them.
use forge_sync.Prelude.Sort.{sort}
use forge_sync.Prelude.Text.{digits_on}
use forge_sync.Replication.Handoff.{result_of, sort, Handoff}
use forge_sync.Prelude.{
  starts_with, format_int, str_eq, map, refl, false, some, ◌∷◌, ◌≡◌, bytes, All, [], List, true,
  Str,
}
use forge_sync.Replication.Plan.{Refs}
use forge_sync.Prelude.Map
use forge_sync.Prelude.Effects.{failed, Answer, given}
use forge_sync.Replication.Handoff.Names.{
  numbered, search_name, free_name, is_taken, free_name-total,
}
use forge_sync.Replication.Handoff.Opening.{
  insert_version, add_to_group, group_each, sort_versions, drop_prefix, trim_prefix, first_node,
  with_opened, handoff_recorded, pull_opened, pull_again, or_nobody, owners_of, decision_makers,
  branch_pushed, open_as, open_handoff, not_extended, extend_handoff, not_joined, join_handoff,
  hand_off_version, hand_off_each, Handoff, [], List, true, Str, Refs, hand_off, Answers, Run,
  Divergence,
}
use forge_sync.Replication.Handoff.Opening.Safety.{hand_off-Allowed, Allowed}

abbrev taken_refs : Refs
taken_refs = (bytes "refs/heads/forgesync/conflict/dk/main", bytes "c1") ∷ []

abbrev base_name : Str
base_name = bytes "refs/heads/forgesync/conflict/dk/main"

free_name_run :
    free_name taken_refs base_name ≡ some (bytes "refs/heads/forgesync/conflict/dk/main-2")
unfolding free_name search_name is_taken str_eq Map.lookup numbered format_int digits_on
free_name_run = refl

free_name-total_example :
    (full : Str) × (free_name taken_refs base_name ≡ some full) × (is_taken taken_refs full ≡ false)
free_name-total_example = free_name-total taken_refs base_name

abbrev taking : Answers
taking = record {
  push = λ a h. given ((a.ref, record { ok = true; reason = [] }) ∷ []);
  is_org = λ o h. given false;
  org_owners = λ o h. given [];
  create_pull = λ head base l h. given (7, bytes "/pulls/7");
  record_handoff = λ x h. given tt;
  is_ancestor = λ a b. some false;
}

abbrev adas_run : Run
adas_run = record { has_api = true; owner = bytes "ada" }

abbrev main_on_dk : List Divergence
main_on_dk = record { node = bytes "dk"; ref = bytes "refs/heads/main"; replica = bytes "c2" } ∷ []

branches_of : Answer (List Handoff × Refs) → List Str
branches_of (failed e) = []
branches_of (given (hs, refs)) = map (λ h. h.branch) hs

pushed_branch :
    branches_of ((hand_off taking adas_run taken_refs [] main_on_dk []).0)
    ≡ bytes "refs/heads/forgesync/conflict/dk/main-2" ∷ []
unfolding hand_off hand_off_each hand_off_version join_handoff not_joined extend_handoff
    not_extended open_handoff open_as branch_pushed decision_makers owners_of or_nobody pull_again
    pull_opened handoff_recorded with_opened first_node trim_prefix drop_prefix sort_versions
    group_each add_to_group insert_version free_name search_name sort result_of Map.lookup
    Map.insert branches_of is_taken str_eq starts_with numbered format_int digits_on
pushed_branch = refl

hand_off-Allowed_example :
    All (Allowed taking main_on_dk []) ((hand_off taking adas_run taken_refs [] main_on_dk []).1)
hand_off-Allowed_example = hand_off-Allowed taking adas_run main_on_dk [] taken_refs
