-- ===== src/Health/Monitor.antt =====
-- internal/health/monitor.go: the statuses of all nodes, and what is recorded of them
-- (internal/store/store.go, RecordNodeStatus). What the checks, the uplink's probe and the clock
-- give is passed in. The subscribers' notifications are not modelled.
pub mod Laws
use forge_sync.Prelude.{
  ℕ, ◌-◌, Bool, true, false, ◌&&◌, ◌||◌, not, ltb, length, any, List, [], ◌∷◌, ◌++◌, Str, Option,
  none, some, or_default, if◌then◌else◌,
}
use forge_sync.Prelude.Map
use forge_sync.Prelude.Map.{Map}
use forge_sync.Health.{State, unknown, healthy, Status, Result, is_healthy, next, is_same_state}

pub record Options : Type 0 where
  pub interval : ℕ
  pub threshold : ℕ
  -- Whether there is an uplink to ask.
  pub uplink : Bool

pub record Monitor : Type 0 where
  pub targets : List Str
  pub status : Map Status
  pub uplink_up : Bool
  pub uplink_asked : ℕ
  pub uplink_known : Bool

-- The status of a node that nothing is known of.
unfoldable pub blank : Str → Status
blank node = record {
  node = node;
  state = unknown;
  version = [];
  last_checked = 0;
  last_seen = none;
  failing_since = none;
  consecutive_failures = 0;
  last_error = none;
}

unfoldable pub fill : List Str → Map Status → Map Status
fill [] status = status
fill (t ∷ ts) status = fill ts (Map.insert t (blank t) status)

-- NewMonitor.
unfoldable pub new_monitor : List Str → Monitor
new_monitor targets = record {
  targets = targets;
  status = fill targets [];
  uplink_up = false;
  uplink_asked = 0;
  uplink_known = false;
}

-- Restore, of states that are valid; a name that is not a node's is passed over.
unfoldable pub restore_one : Str → State → Option Status → Map Status → Map Status
restore_one name state none status = status
restore_one name state (some s) status = Map.insert name (record s { state = state }) status

unfoldable pub restore_each : List (Str × State) → Map Status → Map Status
restore_each [] status = status
restore_each ((name, state) ∷ states) status =
    restore_each states (restore_one name state (Map.lookup name status) status)

unfoldable pub restore : List (Str × State) → Monitor → Monitor
restore states m = record m { status = restore_each states m.status }

unfoldable pub any_healthy : Map Status → Bool
any_healthy [] = false
any_healthy ((n, s) ∷ status) = is_healthy s.state || any_healthy status

unfoldable pub all_quiet : Monitor → Bool
all_quiet m =
    if ltb (length m.status) (length m.targets)
    then false
    else if any_healthy m.status
    then false
    else ltb 0 (length m.status)

-- What goes to the database: a node's status with the state it is said to come from, or that the
-- uplink is lost or back.
pub data Event : Type 0 where
  node_status : Status → State → Event
  uplink_status : Bool → Event

-- What a check meets: the times at which the clock is read, what the probe would say, whether the
-- context still runs, and whether RecordNodeStatus stores the node's status.
pub record Moment : Type 0 where
  pub checked : ℕ
  pub fresh_at : ℕ
  pub asked : ℕ
  pub probe : Bool
  pub alive : Bool
  pub stored : Bool

unfoldable pub bool_eq : Bool → Bool → Bool
bool_eq true b = b
bool_eq false b = not b

-- uplinkIsUp.
unfoldable pub uplink_is_up : Options → Moment → Monitor → Bool × Monitor × List Event
uplink_is_up o w m =
    if m.uplink_known && ltb (w.fresh_at - m.uplink_asked) o.interval
    then (m.uplink_up, m, [])
    else (
      w.probe,
      record m { uplink_up = w.probe; uplink_asked = w.asked; uplink_known = true },
      (if (not m.uplink_known || not (bool_eq m.uplink_up w.probe)) && w.alive
          then uplink_status w.probe ∷ []
          else []),
    )

-- UplinkUp.
unfoldable pub uplink_seems_up : Monitor → Bool
uplink_seems_up m = not m.uplink_known || m.uplink_up

-- The status goes to the database while the context runs; where storing it fails, that is logged.
unfoldable pub recorded : Moment → Status → State → List Event
recorded w s prev = if w.alive && w.stored then node_status s prev ∷ [] else []

-- What follows `m.status[t.Name] = s`.
unfoldable pub after_check : Options → Moment → Status → State → Monitor → Monitor × List Event
after_check o w s prev m =
    if not (is_healthy s.state) && (o.uplink && all_quiet m)
    then (let (up, m', events) = uplink_is_up o w m in
        if up then (m', events ++ recorded w s prev) else (m', events))
    else (m, recorded w s prev)

-- CheckOnce, for the node's result.
unfoldable pub check_once : Options → Moment → Str → Result → Monitor → Monitor × List Event
check_once o w node r m =
    let prev = or_default (blank []) (Map.lookup node m.status) in
    let s = next prev r o.threshold w.checked in
    after_check o w s prev.state (record m { status = Map.insert node s m.status })

-- node_state_transitions: a row for each recorded status whose state is new.
unfoldable pub transition : Event → List (Str × State × State)
transition (node_status s prev) =
    if is_same_state s.state prev then [] else (s.node, prev, s.state) ∷ []
transition (uplink_status up) = []

unfoldable pub transitions : List Event → List (Str × State × State)
transitions [] = []
transitions (e ∷ events) = transition e ++ transitions events
