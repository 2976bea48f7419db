-- ===== src/Replication/Deletion/Tests.antt =====
-- Runs of internal/replication/deletion.go, and its theorems at them.
use forge_sync.Replication.Deletion.Archives.{archive_on-is_due}
use forge_sync.Replication.Deletion.Purge.{
  purge_archives-IsForgettable, purge_archives-Allowed, IsForgettable, Allowed,
}
use forge_sync.Replication.Deletion.{
  new_archive, kept_archive, Run, Answers, Archive, purge_archives, purge_from, purge_each,
  purge_one, purge_answered, is_purged, is_due, is_archived, is_over, is_recent, any_present,
  archive_on, start_archive, finish_archive, ensure_archive_org, move_unless, archived,
}
use forge_sync.Prelude.{ℕ, ◌≡◌, refl, true, false, [], ◌∷◌, bytes, none, some, arith, All}
use forge_sync.Prelude.Effects.{given}
use forge_sync.Records.{RepositoryRecord}

abbrev old_archive : Archive
old_archive = record {
  node = bytes "dk";
  original_name = bytes "ada/demo";
  archived_name = bytes "ada--demo--20260101-000000";
  state = archived;
  delete_after = some 130;
}

-- Everything succeeds, and each repository that is asked for is there.
abbrev smooth : Answers
smooth = record {
  get_repo = λ n o s h. given true;
  rename_repo = λ n o s t h. given tt;
  move_repo = λ n o s t h. given tt;
  freeze_repo = λ n o s h. given tt;
  delete_repo = λ n o s h. given true;
  is_org = λ n h. given true;
  create_org = λ n h. given true;
  save_archive = λ a h. given tt;
  read_archives = λ h. given (old_archive ∷ []);
  mark_deleted = λ t h. given tt;
  sync_conflicts = λ l h. given tt;
}

abbrev run_at : ℕ → Run
run_at now = record {
  now = now;
  stamp = bytes "20260101-000000";
  backup_for = 30;
  archive_org = bytes "archive";
  configured = λ n. true;
  has_api = λ n. true;
  healthy = λ n. true;
}

abbrev deleted_demo : RepositoryRecord
deleted_demo = record {
  id = bytes "r1";
  full_name = bytes "ada/demo";
  primary_node = bytes "se";
  first_seen_at = 1;
  deleted_at = some 100;
  replicas = [];
}

purged_run : (purge_archives smooth (run_at 130) deleted_demo []).0 ≡ given true
unfolding purge_archives purge_from purge_each purge_one purge_answered is_purged is_due is_archived
    is_over is_recent any_present
purged_run = refl

purge_archives-Allowed_example :
    All
      (Allowed (run_at 130) (old_archive ∷ []))
      ((purge_archives smooth (run_at 130) deleted_demo []).1)
purge_archives-Allowed_example =
    purge_archives-Allowed smooth (run_at 130) deleted_demo (old_archive ∷ []) refl

purge_archives-IsForgettable_example :
    IsForgettable smooth (run_at 130) deleted_demo (old_archive ∷ [])
unfolding purge_archives purge_from purge_each purge_one purge_answered is_purged is_due is_archived
    is_over is_recent any_present
purge_archives-IsForgettable_example =
    purge_archives-IsForgettable smooth (run_at 130) deleted_demo (old_archive ∷ []) []
      ((purge_archives smooth (run_at 130) deleted_demo []).1) refl refl

archive_on-is_due_example :
    is_due (run_at 129) (
      kept_archive
        (run_at 100)
        (new_archive (run_at 100) (bytes "dk") (bytes "ada") (bytes "demo") (bytes "ada/demo")))
    ≡ false
unfolding archive_on start_archive finish_archive ensure_archive_org move_unless
archive_on-is_due_example =
    archive_on-is_due smooth (run_at 100) (bytes "dk") (bytes "ada") (bytes "demo")
      (bytes "ada/demo") none (run_at 129)
      (kept_archive (run_at 100)
        (new_archive (run_at 100) (bytes "dk") (bytes "ada") (bytes "demo") (bytes "ada/demo")))
      []
      ((archive_on smooth (run_at 100) (bytes "dk") (bytes "ada") (bytes "demo") (bytes "ada/demo")
        none []).1)
      tt refl (omega arith)
