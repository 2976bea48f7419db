-- ===== src/Webhook.antt =====
-- internal/webhook/dispatch.go, Changed: what a reported change sets off. The store, the scanner, the
-- replicators and the rules for primaries are parameters; the log is left out.
pub mod Safety
use forge_sync.Prelude.{
  ◌&&◌, ◌||◌, not, ℕ, Bool, true, false, List, [], ◌∷◌, Str, bytes, str_eq, if◌then◌else◌,
}
use forge_sync.Prelude.Effects.{
  Answer, given, failed, Effect, ◌>>=◌, ◌>>◌, give, call, tell, attempt, fail,
}

pub record Change : Type 0 where
  pub node : Str
  pub repository : Str
  pub event : Str

pub data Event : Type 0 where
  id_asked : Str → Event
  previous_asked : Str → Str → Event
  scanned : Str → Event
  assigned : Event
  -- Of the issues, and of the repository.
  issues_triggered : Str → Event
  triggered : Str → Event

abbrev pub History : Type 0
History = List Event

-- The parts that are there, and what they answer. No id and no previous name are empty texts.
pub record Dispatcher : Type 0 where
  pub repository_id : Str → History → Answer Str
  pub previous_name : Str → Str → History → Answer Str
  pub has_replicator : Bool
  pub has_issues : Bool
  pub has_assign : Bool
  pub assign : History → Answer (Unit {0})

-- IssueEvents.
unfoldable pub is_issue_event : Str → Bool
is_issue_event e = str_eq e (bytes "issues") || str_eq e (bytes "issue_comment")

module _ (d : Dispatcher) (c : Change) where
  abbrev pub ask_id : Effect Event Str
  ask_id = call (d.repository_id c.repository) (id_asked c.repository)

  unfoldable pub trigger_issues : Str → Effect Event (Unit {0})
  trigger_issues id =
      if not (str_eq id []) && d.has_issues then tell (issues_triggered id) else give tt

  unfoldable pub trigger_repo : Str → Effect Event (Unit {0})
  trigger_repo id = if d.has_replicator then tell (triggered id) else give tt

  -- The other name that the node's repository has in the inventory is looked at too.
  unfoldable pub scan_previous : Answer Str → Effect Event (Unit {0})
  scan_previous (failed e) = give tt
  scan_previous (given prev) = if str_eq prev [] then give tt else tell (scanned prev)

  unfoldable pub assign_primaries : Effect Event (Unit {0})
  assign_primaries =
      if d.has_assign then (do attempt (call d.assign assigned); give tt) else give tt

  unfoldable pub trigger_found : Answer Str → Effect Event (Unit {0})
  trigger_found (failed e) = give tt
  trigger_found (given id) = if str_eq id [] then give tt else trigger_repo id

  unfoldable pub look_first : Effect Event (Unit {0})
  look_first = do
    tell (scanned c.repository)
    prev ← attempt (call (d.previous_name c.node c.repository) (previous_asked c.node c.repository))
    scan_previous prev
    assign_primaries
    id ← attempt ask_id
    trigger_found id

  unfoldable pub changed_known : Answer Str → Effect Event (Unit {0})
  changed_known (failed e) = give tt
  changed_known (given id) =
      if is_issue_event c.event
      then trigger_issues id
      else if str_eq id [] || str_eq c.event (bytes "repository")
      then look_first
      else trigger_repo id

  -- Changed.
  unfoldable pub changed : Effect Event (Unit {0})
  changed = do id ← attempt ask_id; changed_known id
