-- ===== src/Replication/Rename.antt =====
-- internal/replication/rename.go: a copy gets the name and the owner that the repository has on its
-- primary. What the API answers is a parameter; the log and the texts of errors are left out.
pub mod Safety
mod Tests
use forge_sync.Prelude.{
  not, ◌&&◌, ℕ, Bool, true, false, List, [], ◌∷◌, Str, bytes, str_eq, cut, equal_fold, Option, none,
  some, or_default, if◌then◌else◌,
}
use forge_sync.Records.{Replica}
use forge_sync.Prelude.Effects.{Answer, given, failed, Effect, ◌>>=◌, ◌>>◌, give, call, tell, fail}

-- pendingRename: the copy's name if it still has to be renamed, of the repository's name.
unfoldable pub pending_rename : Str → Str → List Replica → Str
pending_rename full node [] = []
pending_rename full node (c ∷ copies) =
    let rest = pending_rename full node copies in
    if str_eq c.node node
      && c.present
      && not (str_eq c.full_name [])
      && not (equal_fold c.full_name full)
    then c.full_name
    else rest

pub data Event : Type 0 where
  -- Of a repository on a node, by its owner and its name.
  repo_asked : Str → Str → Str → Event
  org_asked : Str → Str → Event
  -- ensureUser, of a person on a node.
  user_ensured : Str → Str → Event
  -- The repository's new name, and the owner that it moves to.
  repo_renamed : Str → Str → Str → Str → Event
  repo_moved : Str → Str → Str → Str → Event
  audited : Event

abbrev pub History : Type 0
History = List Event

pub record Answers : Type 0 where
  pub get_repo : Str → Str → Str → History → Answer Bool
  pub is_org : Str → Str → History → Answer Bool
  pub ensure_user : Str → Str → History → Answer (Unit {0})
  pub rename_repo : Str → Str → Str → Str → History → Answer (Unit {0})
  pub move_repo : Str → Str → Str → Str → History → Answer (Unit {0})

-- How it ended, where there was no error: a blocked rename waits for someone.
pub data Renamed : Type 0 where
  done blocked : Renamed

-- One rename: the node with whether its client is there, the primary, and the names.
pub record Task : Type 0 where
  pub node : Str
  pub has_api : Bool
  pub primary : Str
  pub old_owner : Str
  pub old_name : Str
  pub new_owner : Str
  pub new_name : Str

-- The task of a copy's full name and the repository's.
unfoldable pub task_of : Str → Bool → Str → Str → Str → Task
task_of node has_api primary old full = record {
  node = node;
  has_api = has_api;
  primary = primary;
  old_owner = (cut b'/' old).0;
  old_name = or_default [] (cut b'/' old).1;
  new_owner = (cut b'/' full).0;
  new_name = or_default [] (cut b'/' full).1;
}

unfoldable pub is_same_owner : Task → Bool
is_same_owner t = equal_fold t.old_owner t.new_owner

module _ (answers : Answers) (t : Task) where
  abbrev pub ask : Str → Str → Effect Event Bool
  ask owner name = call (answers.get_repo t.node owner name) (repo_asked t.node owner name)

  abbrev pub ask_org : Str → Effect Event Bool
  ask_org n = call (answers.is_org n t.new_owner) (org_asked n t.new_owner)

  -- Renamed but not moved yet, from an earlier attempt.
  unfoldable pub ask_mid : Bool → Effect Event Bool
  ask_mid has_old =
      if not (is_same_owner t) && not has_old then ask t.old_owner t.new_name else give false

  unfoldable pub ready_owner : Bool → Effect Event Bool
  ready_owner true = ask_org t.node
  ready_owner false = do
    call (answers.ensure_user t.new_owner t.node) (user_ensured t.new_owner t.node)
    give true

  -- Whether the new owner is on the node, or can be made.
  unfoldable pub owner_ready : Effect Event Bool
  owner_ready = if is_same_owner t then give true else (do org ← ask_org t.primary; ready_owner org)

  unfoldable pub rename_name : Bool → Effect Event (Unit {0})
  rename_name has_old =
      if has_old && not (equal_fold t.old_name t.new_name)
      then call (answers.rename_repo t.node t.old_owner t.old_name t.new_name)
          (repo_renamed t.node t.old_owner t.old_name t.new_name)
      else give tt

  unfoldable pub arrived : Bool → Effect Event (Unit {0})
  arrived true = give tt
  arrived false = fail (bytes "waiting for acceptance")

  unfoldable pub move_owner : Effect Event (Unit {0})
  move_owner = if is_same_owner t then give tt else (do
    call (answers.move_repo t.node t.old_owner t.new_name t.new_owner)
        (repo_moved t.node t.old_owner t.new_name t.new_owner)
    there ← ask t.new_owner t.new_name
    arrived there)

  unfoldable pub rename_ready : Bool → Bool → Effect Event Renamed
  rename_ready has_old false = give blocked
  rename_ready has_old true = do rename_name has_old; move_owner; tell audited; give done

  -- The switch, and what follows it.
  unfoldable pub rename_found : Bool → Bool → Bool → Effect Event Renamed
  rename_found has_old has_new has_mid =
      if has_old && has_new
      then give blocked
      else if has_new
      then give done
      else if not has_old && not has_mid
      then give done
      else (do ready ← owner_ready; rename_ready has_old ready)

  -- renameOn.
  unfoldable pub rename_on : Effect Event Renamed
  rename_on = if not t.has_api then give blocked else (do
    has_old ← ask t.old_owner t.old_name
    has_new ← ask t.new_owner t.new_name
    has_mid ← ask_mid has_old
    rename_found has_old has_new has_mid)
