-- ===== src/Replication/Deletion.antt =====
-- internal/replication/deletion.go: a repository that was deleted on its primary is archived on the
-- other nodes, and the archives are deleted when their time is over. What Forgejo and the database
-- answer is a parameter. An archive's id and the details' text are left out.
pub mod Purge
pub mod Archives
mod Tests
use forge_sync.Prelude.{
  ◌==◌, none, zero, suc, ℕ, ◌+◌, ◌-◌, Bool, true, false, ◌&&◌, ◌||◌, not, ltb, length, List, [],
  ◌∷◌, ◌++◌, Str, str_eq, bytes, equal_fold, Option, some, if◌then◌else◌, is_some,
}
use forge_sync.Prelude.Effects.{
  tell, fail, ◌>>◌, attempt, failed, given, Answer, Effect, ◌>>=◌, give, call,
}
use forge_sync.Records.{Replica, RepositoryRecord}

pub data ArchiveState : Type 0 where
  renamed archived purged : ArchiveState

pub record Archive : Type 0 where
  pub node : Str
  pub original_name : Str
  pub archived_name : Str
  pub state : ArchiveState
  pub delete_after : Option ℕ

pub data ReplicaNote : Type 0 where
  waiting missing error archived_copy : ReplicaNote

-- The calls that are made.
pub data Event : Type 0 where
  -- Of a repository on a node, by its owner and its name.
  repo_asked : Str → Str → Str → Event
  repo_renamed : Str → Str → Str → Str → Event
  repo_moved : Str → Str → Str → Str → Event
  repo_frozen : Str → Str → Str → Event
  repo_deleted : Str → Str → Str → Event
  org_asked : Str → Event
  org_created : Str → Event
  archive_saved : Archive → Event
  archives_read : Event
  marked_deleted : ℕ → Event
  replica_recorded : Str → ReplicaNote → Event
  conflicts_synced : List Str → Event
  audited : Str → Event

abbrev pub History : Type 0
History = List Event

-- What the calls answer. create_org: whether it was made, or was there already; delete_repo:
-- whether it was deleted, or was not there.
pub record Answers : Type 0 where
  pub get_repo : Str → Str → Str → History → Answer Bool
  pub rename_repo : Str → Str → Str → Str → History → Answer (Unit {0})
  pub move_repo : Str → Str → Str → Str → History → Answer (Unit {0})
  pub freeze_repo : Str → Str → Str → History → Answer (Unit {0})
  pub delete_repo : Str → Str → Str → History → Answer Bool
  pub is_org : Str → History → Answer Bool
  pub create_org : Str → History → Answer Bool
  pub save_archive : Archive → History → Answer (Unit {0})
  pub read_archives : History → Answer (List Archive)
  pub mark_deleted : ℕ → History → Answer (Unit {0})
  pub sync_conflicts : List Str → History → Answer (Unit {0})

-- A run's surroundings. stamp: the time as text, "20060102-150405".
pub record Run : Type 0 where
  pub now : ℕ
  pub stamp : Str
  pub backup_for : ℕ
  pub archive_org : Str
  pub configured : Str → Bool
  pub has_api : Str → Bool
  pub healthy : Str → Bool

-- primaryHad, past the test for DeletedAt.
unfoldable pub had_replica : List Replica → Str → Bool × Bool
had_replica [] primary = (false, false)
had_replica (r ∷ replicas) primary =
    let rest = had_replica replicas primary in
    if str_eq r.node primary && is_some r.last_seen_at then (true, not r.present) else rest

-- primaryHad: whether the primary had the repository, and whether it is gone there.
unfoldable pub primary_had : RepositoryRecord → Str → Bool × Bool
primary_had rec primary =
    if is_some rec.deleted_at then (true, true) else had_replica rec.replicas primary

-- The first bytes of a text.
unfoldable pub first_bytes : ℕ → Str → Str
first_bytes zero s = []
first_bytes (suc n) [] = []
first_bytes (suc n) (c ∷ s) = c ∷ first_bytes n s

-- archiveName.
unfoldable pub archive_name : Str → Str → Str → Str
archive_name owner name stamp =
    let suffix = bytes "--" ++ stamp in
    let base = owner ++ (bytes "--" ++ name) in
    (if ltb 100 (length base + length suffix) then first_bytes (100 - length suffix) base else base)
    ++ suffix

unfoldable pub is_purged : ArchiveState → Bool
is_purged renamed = false
is_purged archived = false
is_purged purged = true

unfoldable pub is_archived : ArchiveState → Bool
is_archived renamed = false
is_archived archived = true
is_archived purged = false

-- The last archive of the copy on a node that is not purged.
unfoldable pub archive_of : Str → Str → List Archive → Option Archive → Option Archive
archive_of node full [] found = found
archive_of node full (a ∷ archives) found = archive_of node full archives (
    if str_eq a.node node && not (is_purged a.state) && equal_fold a.original_name full
    then some a
    else found)

unfoldable pub any_present : List Replica → Bool
any_present [] = false
any_present (r ∷ replicas) = r.present || any_present replicas

module _ (r : Run) where
  abbrev pub kept_archive : Archive → Archive
  kept_archive a = record a { state = archived; delete_after = some (r.now + r.backup_for) }

  abbrev pub new_archive : Str → Str → Str → Str → Archive
  new_archive n owner name full = record {
    node = n;
    original_name = full;
    archived_name = archive_name owner name r.stamp;
    state = renamed;
    delete_after = none;
  }

  unfoldable pub is_over : Option ℕ → Bool
  is_over none = false
  is_over (some t) = not (ltb r.now t)

  -- An archive whose time is over, on a node that can be reached.
  unfoldable pub is_due : Archive → Bool
  is_due a =
      is_archived a.state
      && is_over a.delete_after
      && r.configured a.node
      && r.has_api a.node
      && r.healthy a.node

  -- The repository was not deleted, or that is not long ago.
  unfoldable pub is_recent : Option ℕ → Bool
  is_recent none = true
  is_recent (some t) = ltb r.now (t + r.backup_for)

module _ (answers : Answers) (r : Run) where
  abbrev pub ask_repo : Str → Str → Str → Effect Event Bool
  ask_repo n owner name = call (answers.get_repo n owner name) (repo_asked n owner name)

  abbrev pub save : Archive → Effect Event (Unit {0})
  save a = call (answers.save_archive a) (archive_saved a)

  -- ensureArchiveOrg.
  unfoldable pub ensure_archive_org : Str → Effect Event (Unit {0})
  ensure_archive_org n = do
    exists ← call (answers.is_org n) (org_asked n)
    if exists then give tt else (call (answers.create_org n) (org_created n) >>= λ made. give tt)

  -- The move into the archive organization, unless the copy is there.
  unfoldable pub move_unless : Bool → Str → Str → Str → Effect Event (Unit {0})
  move_unless there n owner name = if there then give tt else (do
    call (answers.move_repo n owner name r.archive_org) (repo_moved n owner name r.archive_org)
    arrived ← ask_repo n r.archive_org name
    if arrived then give tt else fail (bytes "waiting for acceptance"))

  -- archiveOn, from an archive on.
  unfoldable pub finish_archive : ArchiveState → Str → Archive → Effect Event (Option Archive)
  finish_archive renamed owner a = do
    ensure_archive_org a.node
    there ← ask_repo a.node r.archive_org a.archived_name
    move_unless there a.node owner a.archived_name
    call (answers.freeze_repo a.node r.archive_org a.archived_name)
        (repo_frozen a.node r.archive_org a.archived_name)
    save (kept_archive r a)
    tell (audited (bytes "repo.archived_on_node"))
    give (some (kept_archive r a))
  finish_archive archived owner a = give (some a)
  finish_archive purged owner a = give (some a)

  -- A copy that has no archive yet: the rename first, then the rest.
  unfoldable pub start_archive : Str → Str → Str → Str → Effect Event (Option Archive)
  start_archive n owner name full = do
    call (answers.rename_repo n owner name (archive_name owner name r.stamp))
        (repo_renamed n owner name (archive_name owner name r.stamp))
    save (new_archive r n owner name full)
    finish_archive renamed owner (new_archive r n owner name full)

  -- archiveOn: the archive, or none where the node has no copy.
  unfoldable pub archive_on : Str → Str → Str → Str → Option Archive → Effect Event (Option Archive)
  archive_on n owner name full (some a) = finish_archive a.state owner a
  archive_on n owner name full none = do
    found ← ask_repo n owner name
    if not found then give none else start_archive n owner name full

  -- What is recorded of a replica after archiveOn, and whether it was dealt with.
  unfoldable pub archive_answered : Str → Answer (Option Archive) → Effect Event Bool
  archive_answered n (given a) = do tell (replica_recorded n archived_copy); give true
  archive_answered n (failed e) = do tell (replica_recorded n error); give false

  -- One turn of the loop over the replicas.
  unfoldable pub archive_replica : Str → Str → Str → List Archive → Str → Effect Event Bool
  archive_replica owner name full archives n =
      if not (r.healthy n)
      then (do tell (replica_recorded n waiting); give false)
      else if not (r.has_api n)
      then (do tell (replica_recorded n missing); give false)
      else (do
        a ← attempt (archive_on n owner name full (archive_of n full archives none))
        archive_answered n a)

  unfoldable pub archive_replicas : Str → Str → Str → List Archive → List Str → Effect Event Bool
  archive_replicas owner name full archives [] = give true
  archive_replicas owner name full archives (n ∷ replicas) = do
    done ← archive_replica owner name full archives n
    others ← archive_replicas owner name full archives replicas
    give (done && others)

  -- MarkRepositoryDeleted, if that was not done yet.
  unfoldable pub mark_once : Option ℕ → Effect Event (Unit {0})
  mark_once (some t) = give tt
  mark_once none = do
    call (answers.mark_deleted r.now) (marked_deleted r.now)
    tell (audited (bytes "repo.deleted_on_primary"))

  -- deletedOnPrimary: whether every replica was dealt with, and how the conflicts' sync ended.
  unfoldable pub deleted_on_primary :
      RepositoryRecord → Str → Str → List Str → Effect Event (Bool × Answer (Unit {0}))
  deleted_on_primary rec owner name replicas = do
    mark_once rec.deleted_at
    archives ← call answers.read_archives archives_read
    complete ← archive_replicas owner name rec.full_name archives replicas
    let checked = if complete then rec.id ∷ [] else []
    synced ← attempt (call (answers.sync_conflicts checked) (conflicts_synced checked))
    give (complete, synced)

  abbrev pub as_purged : Archive → Archive
  as_purged a = record a { state = purged }

  -- After the deletion of an archive: whether it is still left.
  unfoldable pub purge_answered : Archive → Answer Bool → Effect Event ℕ
  purge_answered a (failed e) = give 1
  purge_answered a (given b) = do
    save (as_purged a)
    tell (audited (bytes "repo.archive_deleted"))
    give 0

  unfoldable pub purge_one : Archive → Effect Event ℕ
  purge_one a = if is_purged a.state then give 0 else if not (is_due r a) then give 1 else (do
    deleted ← attempt (
        call (answers.delete_repo a.node r.archive_org a.archived_name)
          (repo_deleted a.node r.archive_org a.archived_name))
    purge_answered a deleted)

  -- How many archives are left.
  unfoldable pub purge_each : List Archive → Effect Event ℕ
  purge_each [] = give 0
  purge_each (a ∷ archives) = do
    one ← purge_one a
    others ← purge_each archives
    give (one + others)

  unfoldable pub purge_from : RepositoryRecord → List Archive → Effect Event Bool
  purge_from rec archives =
      if (length archives == 0) && is_recent r rec.deleted_at then give false else (do
        left ← purge_each archives
        give ((left == 0) && is_some rec.deleted_at && not (any_present rec.replicas)))

  -- purgeArchives: whether the repository can be forgotten.
  unfoldable pub purge_archives : RepositoryRecord → Effect Event Bool
  purge_archives rec = do
    archives ← call answers.read_archives archives_read
    purge_from rec archives
