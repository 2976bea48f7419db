-- ===== src/Health/Monitor/Laws.antt =====
-- internal/health/monitor.go: which checks are recorded, and what the history then says.
use forge_sync.Prelude.{
  str_eq_iff, str_eq_refl, ◌+◌, distinct, inr, subst, inl, suc, ◌≡◌, refl, sym, ap, ◌∙◌, Bool, true,
  false, ◌&&◌, not, List, [], ◌∷◌, ◌++◌, Str, contains, length, or_default, arith, if◌then◌else◌,
  Bool-cases,
}
use mathlib.Core.List.{append-nil, append_assoc}
use mathlib.Core.List.{append-nil, append_assoc}
use forge_sync.Prelude.Map
use forge_sync.Prelude.Map.{contains-keys-insert, Map, lookup-insert_self}
use forge_sync.Health.{State, Status, Result, is_healthy, is_same_state, next}
use forge_sync.Health.Monitor.{
  new_monitor, fill, any_healthy, Options, Monitor, Moment, Event, node_status, uplink_status,
  blank, all_quiet, uplink_is_up, recorded, after_check, check_once, transition, transitions,
}

-- The statuses that go to the database.
unfoldable pub statuses : List Event → List Status
statuses [] = []
statuses (node_status s prev ∷ events) = s ∷ statuses events
statuses (uplink_status up ∷ events) = statuses events

-- The node's status, and the monitor, once the result has been taken in.
abbrev pub prior : Str → Monitor → Status
prior node m = or_default (blank []) (Map.lookup node m.status)

abbrev pub taken : Options → Moment → Str → Result → Monitor → Status
taken o w node r m = next (prior node m) r o.threshold w.checked

abbrev pub seen : Options → Moment → Str → Result → Monitor → Monitor
seen o w node r m = record m { status = Map.insert node (taken o w node r m) m.status }

-- The node is not well, every node is quiet, and the uplink does not answer.
abbrev pub fault_here : Options → Moment → Str → Result → Monitor → Bool
fault_here o w node r m =
    not (is_healthy (taken o w node r m).state)
    && ((o.uplink && all_quiet (seen o w node r m)) && not (uplink_is_up o w (seen o w node r m)).0)

uplink_statuses : (o : Options) (w : Moment) (m : Monitor) → statuses (uplink_is_up o w m).2 ≡ []
unfolding uplink_is_up statuses
uplink_statuses o w m = ground arith

uplink_transitions :
    (o : Options) (w : Moment) (m : Monitor) → transitions (uplink_is_up o w m).2 ≡ []
unfolding uplink_is_up transitions transition
uplink_transitions o w m = ground arith

statuses-append : (xs ys : List Event) → statuses (xs ++ ys) ≡ statuses xs ++ statuses ys
unfolding statuses
statuses-append [] ys = refl
statuses-append (node_status s prev ∷ xs) ys = ap (λ l. s ∷ l) (statuses-append xs ys)
statuses-append (uplink_status up ∷ xs) ys = statuses-append xs ys

statuses-recorded :
    (w : Moment) (s : Status) (prev : State)
    → statuses (recorded w s prev) ≡ (if w.alive && w.stored then s ∷ [] else [])
unfolding recorded statuses
statuses-recorded w s prev = ground arith

-- A check records the node's new status, once, while the context runs and the database stores it, and
-- records none if the node
-- is not well, all nodes are quiet, and there is an uplink to ask which does not answer.
pub check_once-statuses :
    (o : Options) (w : Moment) (node : Str) (r : Result) (m : Monitor)
    → statuses (check_once o w node r m).1 ≡ (
        if fault_here o w node r m
        then []
        else if w.alive && w.stored
        then taken o w node r m ∷ []
        else [])
unfolding check_once after_check statuses
check_once-statuses o w node r m =
    let s = taken o w node r m in
    let m' = seen o w node r m in
    ground (
      arith,
      uplink_statuses o w m',
      statuses-recorded w s (prior node m).state,
      statuses-append (uplink_is_up o w m').2 (recorded w s (prior node m).state),
    )

transitions-append :
    (xs ys : List Event) → transitions (xs ++ ys) ≡ transitions xs ++ transitions ys
unfolding transitions
transitions-append [] ys = refl
transitions-append (e ∷ xs) ys =
    ap (λ l. transition e ++ l) (transitions-append xs ys)
    ∙ sym (append_assoc (transition e) (transitions xs) (transitions ys))

-- The row that a recorded status gives.
abbrev pub row : Status → State → List (Str × State × State)
row s prev = if is_same_state s.state prev then [] else (s.node, prev, s.state) ∷ []

transitions-recorded :
    (w : Moment) (s : Status) (prev : State)
    → transitions (recorded w s prev) ≡ (if w.alive && w.stored then row s prev else [])
unfolding recorded transitions transition
transitions-recorded w s prev = ground (arith, append-nil (row s prev))

check_once-transitions :
    (o : Options) (w : Moment) (node : Str) (r : Result) (m : Monitor)
    → transitions (check_once o w node r m).1 ≡ (
        if fault_here o w node r m
        then []
        else if w.alive && w.stored
        then row (taken o w node r m) (prior node m).state
        else [])
unfolding check_once after_check
check_once-transitions o w node r m =
    let s = taken o w node r m in
    let m' = seen o w node r m in
    ground (
      arith,
      uplink_transitions o w m',
      transitions-recorded w s (prior node m).state,
      transitions-append (uplink_is_up o w m').2 (recorded w s (prior node m).state),
    )

uplink_status_kept :
    (o : Options) (w : Moment) (m : Monitor) → (uplink_is_up o w m).1.status ≡ m.status
unfolding uplink_is_up
uplink_status_kept o w m = ground arith

check_once-status :
    (o : Options) (w : Moment) (node : Str) (r : Result) (m : Monitor)
    → (check_once o w node r m).0.status ≡ Map.insert node (taken o w node r m) m.status
unfolding check_once after_check
check_once-status o w node r m = ground (arith, uplink_status_kept o w (seen o w node r m))

pub prior-check_once :
    (o : Options) (w : Moment) (node : Str) (r : Result) (m : Monitor)
    → prior node (check_once o w node r m).0 ≡ taken o w node r m
prior-check_once o w node r m =
    rw (check_once-status o w node r m)
      (ap (or_default (blank [])) (lookup-insert_self node (taken o w node r m) m.status))

is_same_state_refl : (x : State) → is_same_state x x ≡ true
unfolding is_same_state
is_same_state_refl x = ground arith

state_of_same : (x y : State) → is_same_state x y ≡ true → x ≡ y
unfolding is_same_state
state_of_same x y h = ground arith

-- If a check of a node falls to a fault at the controller's end, and the next check finds the node
-- in the state that the first one found, the two checks record no transition.
pub outage_unrecorded :
    (o : Options) (w w' : Moment) (node : Str) (r r' : Result) (m : Monitor)
    → fault_here o w node r m ≡ true
    → (taken o w' node r' (check_once o w node r m).0).state ≡ (taken o w node r m).state
    → transitions (check_once o w node r m).1
        ++ transitions (check_once o w' node r' (check_once o w node r m).0).1
      ≡ []
outage_unrecorded o w w' node r r' m fault same = ground (
  arith,
  check_once-transitions o w node r m,
  check_once-transitions o w' node r' (check_once o w node r m).0,
  prior-check_once o w node r m,
  is_same_state_refl (taken o w node r m).state,
)

-- A history that leads from one state to another without a gap.
abbrev pub Leads : State → List (Str × State × State) → State → Type 0
Leads x [] y = x ≡ y
Leads x ((n, a, b) ∷ rows) y = (a ≡ x) × Leads b rows y

-- Checks of one node, one after the other.
unfoldable pub check_all : Options → Str → List (Moment × Result) → Monitor → Monitor × List Event
check_all o node [] m = (m, [])
check_all o node ((w, r) ∷ checks) m =
    let (m', events) = check_once o w node r m in
    let (last, more) = check_all o node checks m' in (last, events ++ more)

abbrev pub stored_all : List (Moment × Result) → Bool
stored_all [] = true
stored_all ((w, r) ∷ checks) = (w.alive && w.stored) && stored_all checks

Leads-row :
    (s : Status) (prev end : State) (rows : List (Str × State × State))
    → Leads s.state rows end
    → Leads prev (row s prev ++ rows) end
Leads-row s prev end rows h = elim (Bool-cases (is_same_state s.state prev)) [
  | inl same ↦ rw same (subst (λ x. Leads x rows end) (state_of_same s.state prev same) h)
  | inr new ↦ rw new (refl, h)
]

-- With no uplink to ask, while the context runs, and if the database stores every status that it is
-- given, the transitions recorded over any checks of a node lead without a gap from its state
-- before them to its state after them.
pub check_all-Leads :
    (o : Options) (node : Str) (checks : List (Moment × Result)) (m : Monitor)
    → o.uplink ≡ false
    → stored_all checks ≡ true
    → Leads
        (prior node m).state
        (transitions (check_all o node checks m).1)
        (prior node (check_all o node checks m).0).state
unfolding check_all
check_all-Leads o node [] m off alive = unfold transitions in refl
check_all-Leads o node ((w, r) ∷ checks) m off alive =
    let m' = (check_once o w node r m).0 in
    let now : transitions (check_once o w node r m).1
        ≡ row (taken o w node r m) (prior node m).state =
      ground (arith, check_once-transitions o w node r m) in
    rw (transitions-append (check_once o w node r m).1 (check_all o node checks m').1, now)
      (Leads-row (taken o w node r m) (prior node m).state _ _ (
        subst
          (λ (s : Status).
            Leads s.state (transitions (check_all o node checks m').1)
              (prior node (check_all o node checks m').0).state)
          (prior-check_once o w node r m) (check_all-Leads o node checks m' off (ground arith))))

length-insert_new :
    (k : Str) (v : Status) (m : Map Status)
    → contains k (Map.keys m) ≡ false
    → length (Map.insert k v m) ≡ suc (length m)
unfolding Map.insert Map.keys contains
length-insert_new k v [] h = refl
length-insert_new k v ((j, w) ∷ m) h = ground (arith, length-insert_new k v m)

any_healthy-insert_new :
    (k : Str) (m : Map Status)
    → contains k (Map.keys m) ≡ false
    → any_healthy (Map.insert k (blank k) m) ≡ any_healthy m
unfolding Map.insert Map.keys contains any_healthy blank is_healthy
any_healthy-insert_new k [] h = refl
any_healthy-insert_new k ((j, w) ∷ m) h = ground (arith, any_healthy-insert_new k m)

-- Filling in nodes that are not there adds one status for each, none of them healthy.
fill_new :
    (ts : List Str) (m : Map Status)
    → distinct ts ≡ true
    → ((k : Str) → contains k ts ≡ true → contains k (Map.keys m) ≡ false)
    → (length (fill ts m) ≡ length ts + length m) × (any_healthy (fill ts m) ≡ any_healthy m)
unfolding fill distinct
fill_new [] m d fresh = (omega arith, refl)
fill_new (t ∷ ts) m d fresh =
    let new : contains t (Map.keys m) ≡ false =
      fresh t (unfold contains in ground (arith, str_eq_refl t)) in
    let (l, a) = fill_new ts (Map.insert t (blank t) m) (ground arith) (λ k h.
      unfold contains in
      ground (arith, fresh k, contains-keys-insert t k (blank t) m, str_eq_iff t k)) in
    (omega (arith, l, length-insert_new t (blank t) m new), a ∙ any_healthy-insert_new t m new)

-- A monitor that has just been made, for one or more nodes of different names, counts all of them
-- as quiet.
pub new_monitor-all_quiet :
    (t : Str) (ts : List Str) → distinct (t ∷ ts) ≡ true → all_quiet (new_monitor (t ∷ ts)) ≡ true
unfolding all_quiet new_monitor
new_monitor-all_quiet t ts d =
    let (l, a) = fill_new (t ∷ ts) [] d (λ k h. unfold Map.keys contains in refl) in
    let none_healthy : any_healthy (fill (t ∷ ts) []) ≡ false = a ∙ unfold any_healthy in refl in
    ground (arith, l, none_healthy)
