-- ===== src/Replication/Plan/Tests.antt =====
-- Runs of internal/replication/plan.go on a small repository, and its theorems at them.
use forge_sync.Prelude.{
  ◌&&◌, ◌==◌, ◌≡◌, refl, Bool, true, false, List, [], ◌∷◌, Str, bytes, str_eq, starts_with, ltb,
  length, Option, none, some, All, arith, if◌then◌else◌, ◌⊎◌,
}
use forge_sync.Prelude.Map
use forge_sync.Replication.Plan.{
  Refs, Ancestry, plan, plan_refs, plan_ref, plan_values, plan_change, plan_branch, unchanged,
  is_tag, union, create, fast_forward, delete, diverged,
}
use forge_sync.Replication.Plan.Safety.{
  reported, LosslessAction, HoldsIssue, plan-lossless, plan-holds, plan-times, times, same_value,
}
use forge_sync.Replication.Plan.Push.{
  accepted, pushed, pushed-plan, pushed-plan_race, NonEmpty, NonEmpty-entries, no_empty,
}

-- A history in which only "a1" comes before "a2".
abbrev history : Ancestry
history a b = (str_eq a (bytes "a1") && str_eq b (bytes "a2"), true)

abbrev on_primary : Refs
on_primary =
    (bytes "refs/heads/main", bytes "a2")
    ∷ (bytes "refs/heads/new", bytes "n1")
    ∷ (bytes "refs/heads/split", bytes "p1")
    ∷ []

abbrev on_replica : Refs
on_replica =
    (bytes "refs/heads/main", bytes "a1")
    ∷ (bytes "refs/heads/old", bytes "o1")
    ∷ (bytes "refs/heads/split", bytes "r1")
    ∷ []

abbrev last_written : Refs
last_written = (bytes "refs/heads/main", bytes "a1") ∷ (bytes "refs/heads/old", bytes "o1") ∷ []

-- The replica after someone moved "main" there.
abbrev moved_replica : Refs
moved_replica = (bytes "refs/heads/main", bytes "x9") ∷ (bytes "refs/heads/old", bytes "o1") ∷ []

plan_run : plan history on_primary on_replica last_written ≡ record {
  actions =
      record {
        kind = fast_forward;
        ref = bytes "refs/heads/main";
        expected = bytes "a1";
        target = bytes "a2";
      }
      ∷ record { kind = create; ref = bytes "refs/heads/new"; expected = []; target = bytes "n1" }
      ∷ record { kind = delete; ref = bytes "refs/heads/old"; expected = bytes "o1"; target = [] }
      ∷ [];
  issues =
      record {
        kind = diverged;
        ref = bytes "refs/heads/split";
        primary = bytes "p1";
        replica = bytes "r1";
      }
      ∷ [];
}
unfolding plan plan_refs union forge_sync.Prelude.Sort.sort Map.keys forge_sync.Set.mark Map.insert
    str_eq plan_ref plan_values Map.lookup plan_change is_tag starts_with plan_branch unchanged
plan_run = refl

on_primary_ids : NonEmpty on_primary
on_primary_ids = NonEmpty-entries on_primary (unfold no_empty in refl)

on_replica_ids : NonEmpty on_replica
on_replica_ids = NonEmpty-entries on_replica (unfold no_empty in refl)

moved_replica_ids : NonEmpty moved_replica
moved_replica_ids = NonEmpty-entries moved_replica (unfold no_empty in refl)

plan-lossless_example :
    All
      (LosslessAction history on_primary on_replica last_written)
      (plan history on_primary on_replica last_written).actions
plan-lossless_example = plan-lossless history on_primary on_replica last_written

plan-holds_example :
    All
      (HoldsIssue history on_primary on_replica last_written)
      (plan history on_primary on_replica last_written).issues
plan-holds_example = plan-holds history on_primary on_replica last_written

plan-times_example :
    times (bytes "refs/heads/old") (plan history on_primary on_replica last_written) ≡ (
      if same_value
        (Map.lookup (bytes "refs/heads/old") on_primary)
        (Map.lookup (bytes "refs/heads/old") on_replica)
      then 0
      else 1)
plan-times_example = plan-times history on_primary on_replica last_written (bytes "refs/heads/old")

pushed-plan_example :
    Map.lookup
      (bytes "refs/heads/main")
      (pushed (λ a. true) (plan history on_primary on_replica last_written).actions on_replica)
    ≡ (if (0
            == reported
                (bytes "refs/heads/main")
                (plan history on_primary on_replica last_written).issues)
          && accepted
              (λ a. true)
              (bytes "refs/heads/main")
              (plan history on_primary on_replica last_written).actions
        then Map.lookup (bytes "refs/heads/main") on_primary
        else Map.lookup (bytes "refs/heads/main") on_replica)
pushed-plan_example =
    pushed-plan (λ a. true) history on_primary on_replica last_written (bytes "refs/heads/main")

pushed-plan_race_example :
    (Map.lookup
        (bytes "refs/heads/main")
        (pushed (λ a. true) (plan history on_primary on_replica last_written).actions moved_replica)
      ≡ Map.lookup (bytes "refs/heads/main") moved_replica)
    ⊎ (Map.lookup (bytes "refs/heads/main") moved_replica
        ≡ Map.lookup (bytes "refs/heads/main") on_replica)
pushed-plan_race_example =
    pushed-plan_race (λ a. true) history on_primary on_replica last_written on_replica_ids
      (bytes "refs/heads/main") moved_replica on_primary_ids moved_replica_ids
