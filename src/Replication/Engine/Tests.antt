-- ===== src/Replication/Engine/Tests.antt =====
-- Runs of internal/replication/engine.go, and its theorems at them.
use forge_sync.Replication.Engine.Runs.{
  moves, move, advance, phase_step, put, enter, leave, reload, trigger, is_cancelled, is_forgotten,
  Move, trigger_called, goroutine_moves, usual, at_rest,
}
use forge_sync.Replication.Engine.Runs.Seen.{rest-seen, is_usual}
use forge_sync.Replication.Engine.Runs.Single.{active, active-one, one_if}
use forge_sync.Prelude.{all, ◌≤◌}
use forge_sync.Replication.Engine.Base.{next_tally-known, left_of, known_before}
use forge_sync.Replication.Engine.{is_delete, drop_gone, keep_synced, tally_one, tally, next_tally}
use forge_sync.Replication.Engine.Seed.{is_before, can_seed, better, pick, source_from}
use forge_sync.Prelude.{
  distinct, contains, ℕ, ◌≡◌, refl, Bool, true, false, List, [], ◌∷◌, Str, str_eq, bytes, none,
  some,
}
use forge_sync.Prelude.Map
use forge_sync.Prelude.Map.{Map}
use forge_sync.Records.{Replica}
use forge_sync.Replication.Plan.{Refs, Action, fast_forward, delete}
use forge_sync.Replication.Handoff.{PushResult, result_of}

abbrev copy_from : Str → ℕ → Replica
copy_from node created = record {
  node = node;
  present = true;
  mirror = false;
  empty = false;
  default_branch = bytes "main";
  head_sha = bytes "c1";
  head_error = [];
  forgejo_created = some created;
  full_name = bytes "ada/demo";
  last_seen_at = some 5;
}

abbrev two_copies : List Replica
two_copies = copy_from (bytes "dk") 9 ∷ copy_from (bytes "no") 4 ∷ []

abbrev yes : Str → Bool
yes node = true

source_run : source_from yes yes (bytes "se") none two_copies ≡ some (copy_from (bytes "no") 4)
unfolding source_from pick better can_seed is_before str_eq
source_run = refl

abbrev main_ref : Str
main_ref = bytes "refs/heads/main"

abbrev moved_up : List Action
moved_up =
    record { kind = fast_forward; ref = main_ref; expected = bytes "a1"; target = bytes "a2" } ∷ []

abbrev accepted : Map PushResult
accepted = (main_ref, record { ok = true; reason = [] }) ∷ []

abbrev has_a2 : Refs
has_a2 = (main_ref, bytes "a2") ∷ []

abbrev has_a1 : Refs
has_a1 = (main_ref, bytes "a1") ∷ []

recorded_a2 :
    Map.lookup main_ref (next_tally has_a2 has_a1 has_a1 accepted moved_up).next ≡ some (bytes "a2")
unfolding next_tally tally tally_one keep_synced drop_gone result_of is_delete Map.lookup Map.insert
    str_eq
recorded_a2 = refl

next_tally-known_example :
    Map.lookup main_ref (next_tally has_a2 has_a1 has_a1 accepted moved_up).next
    ≡ left_of accepted main_ref moved_up (
        known_before
          (Map.lookup main_ref has_a2)
          (Map.lookup main_ref has_a1)
          (Map.lookup main_ref has_a1))
unfolding distinct Map.keys contains
next_tally-known_example =
    next_tally-known has_a2 has_a1 has_a1 accepted moved_up main_ref refl refl

-- A ref that only the replica and the old record have is deleted, and no longer recorded.
abbrev removed_main : List Action
removed_main = record { kind = delete; ref = main_ref; expected = bytes "a1"; target = [] } ∷ []

deleted_forgotten :
    Map.lookup main_ref (next_tally [] has_a1 has_a1 accepted removed_main).next ≡ none
unfolding next_tally tally tally_one keep_synced drop_gone result_of is_delete Map.lookup Map.insert
    Map.delete str_eq
deleted_forgotten = refl

-- A trigger; then, while its goroutine runs, another one.
abbrev two_triggers : List Move
two_triggers =
    trigger_called
    ∷ goroutine_moves 0 usual
    ∷ goroutine_moves 0 usual
    ∷ trigger_called
    ∷ goroutine_moves 0 usual
    ∷ goroutine_moves 0 usual
    ∷ goroutine_moves 0 usual
    ∷ goroutine_moves 0 usual
    ∷ goroutine_moves 0 usual
    ∷ goroutine_moves 0 usual
    ∷ []

two_triggers_seen : (moves two_triggers at_rest).1.seen ≡ 2
unfolding moves move advance phase_step put enter leave reload trigger is_cancelled is_forgotten
two_triggers_seen = refl

active-one_example :
    active (moves two_triggers at_rest).0 ≡ one_if (moves two_triggers at_rest).1.running
active-one_example = active-one two_triggers

rest-seen_example : (moves two_triggers at_rest).1.changes ≤ (moves two_triggers at_rest).1.seen
unfolding all is_usual moves move advance phase_step put enter leave reload trigger is_cancelled
    is_forgotten
rest-seen_example = rest-seen two_triggers refl refl
