-- ===== src/Replication/Rename/Tests.antt =====
-- Runs of internal/replication/rename.go, and its theorem at one.
use forge_sync.Prelude.Bytes.{lower}
use forge_sync.Prelude.{
  to_lower, refl, ◌≡◌, length, equal_fold, ◌&&◌, [], true, All, cut, bytes, str_eq,
}
use forge_sync.Prelude.Effects.{given}
use forge_sync.Replication.Rename.{
  arrived, move_owner, rename_name, rename_ready, ready_owner, owner_ready, rename_found,
  is_same_owner, ask_mid, cut, bytes, str_eq, rename_on, task_of, Answers, Task,
}
use forge_sync.Replication.Rename.Safety.{rename_on-Allowed, Allowed}

-- dk has ada/demo; the repository is now club/show, of an organization that dk has too.
abbrev moving : Answers
moving = record {
  get_repo = λ n owner name h. given (str_eq owner (bytes "ada") && str_eq name (bytes "demo"));
  is_org = λ n owner h. given true;
  ensure_user = λ owner n h. given tt;
  rename_repo = λ n owner name to h. given tt;
  move_repo = λ n owner name to h. given tt;
}

abbrev to_club : Task
to_club = task_of (bytes "dk") true (bytes "se") (bytes "ada/demo") (bytes "club/show")

-- The move waits, since the copy has not arrived.
moved_run : length ((rename_on moving to_club []).1) ≡ 7
unfolding rename_on task_of cut ask_mid is_same_owner rename_found owner_ready ready_owner
    rename_ready rename_name move_owner arrived equal_fold str_eq to_lower lower
moved_run = refl

rename_on-Allowed_example : All (Allowed moving to_club) ((rename_on moving to_club []).1)
rename_on-Allowed_example = rename_on-Allowed moving to_club
