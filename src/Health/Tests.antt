-- ===== src/Health/Tests.antt =====
-- Runs of internal/health on one node, and its theorems at them.
use forge_sync.Health.Monitor.Laws.{
  check_all-Leads, outage_unrecorded, check_all, prior, Leads, stored_all, taken, fault_here,
}
use forge_sync.Health.Next.{passed}
use forge_sync.Prelude.{
  length, ◌+◌, leb, if◌then◌else◌, ◌&&◌, ◌++◌, not, ℕ, true, false, distinct, all, is_some, ◌≡◌,
  refl, List, [], ◌∷◌, Str, bytes, none, some,
}
use forge_sync.Prelude.Map
use forge_sync.Prelude.Map.{Map}
use forge_sync.Health.{
  leb, not, call_failed, ℕ, is_healthy, true, false, Status, Result, next, unreachable, suspect,
  healthy, unknown,
}
use forge_sync.Health.Monitor.{
  check_once, all_quiet, transitions, Options, Monitor, Moment, new_monitor, blank,
}

abbrev silent : Result
silent = record {
  reachable = false;
  forgejo_ok = false;
  auth_ok = false;
  version = [];
  err = some (call_failed (bytes "timeout"));
}

abbrev fine : Result
fine = record {
  reachable = true;
  forgejo_ok = true;
  auth_ok = true;
  version = bytes "11.0";
  err = none;
}

abbrev se : Str
se = bytes "se"

abbrev three_silent : List (Result × ℕ)
three_silent = (silent, 2) ∷ (silent, 3) ∷ []

all-silent : all (λ (x : Result × ℕ). not (x.0).reachable) ((silent, 1) ∷ three_silent) ≡ true
unfolding all
all-silent = refl

none_passed : all (λ (x : Result × ℕ). not (passed (x.0))) ((silent, 1) ∷ three_silent) ≡ true
unfolding all
none_passed = refl

blank_well : (blank se).failing_since ≡ none
unfolding blank
blank_well = refl

-- Two nodes, with an uplink to ask.
abbrev asking : Options
asking = record { interval = 30; threshold = 3; uplink = true }

abbrev not_asking : Options
not_asking = record { interval = 30; threshold = 3; uplink = false }

abbrev offline : Moment
offline = record {
  checked = 100;
  fresh_at = 100;
  asked = 101;
  probe = false;
  alive = true;
  stored = true;
}

abbrev online : Moment
online = record {
  checked = 200;
  fresh_at = 200;
  asked = 201;
  probe = true;
  alive = true;
  stored = true;
}

-- A node that was healthy, alone.
abbrev was_healthy : Monitor
was_healthy = record {
  targets = se ∷ [];
  status =
      (
        se,
        record {
          node = se;
          state = healthy;
          version = [];
          last_checked = 1;
          last_seen = some 1;
          failing_since = none;
          consecutive_failures = 0;
          last_error = none;
        },
      )
      ∷ [];
  uplink_up = false;
  uplink_asked = 0;
  uplink_known = false;
}

fault : fault_here asking offline se silent was_healthy ≡ true
unfolding is_healthy next forge_sync.Health.contacted Map.lookup forge_sync.Prelude.str_eq all_quiet
    Map.insert forge_sync.Health.Monitor.any_healthy forge_sync.Health.Monitor.uplink_is_up
fault = refl

still_silent :
    (taken asking online se silent (check_once asking offline se silent was_healthy).0).state
    ≡ (taken asking offline se silent was_healthy).state
unfolding check_once forge_sync.Health.Monitor.after_check is_healthy next
    forge_sync.Health.contacted Map.lookup forge_sync.Prelude.str_eq all_quiet Map.insert
    forge_sync.Health.Monitor.any_healthy forge_sync.Health.Monitor.uplink_is_up
still_silent = refl

outage_unrecorded_example :
    transitions (check_once asking offline se silent was_healthy).1
      ++ transitions
          (check_once asking online se silent (check_once asking offline se silent was_healthy).0).1
    ≡ []
outage_unrecorded_example =
    outage_unrecorded asking offline online se silent silent was_healthy fault still_silent

abbrev two_checks : List (Moment × Result)
two_checks = (offline, silent) ∷ (online, fine) ∷ []

not_asking_off : not_asking.uplink ≡ false
not_asking_off = refl

both_stored : stored_all two_checks ≡ true
both_stored = refl

check_all-Leads_example :
    Leads
      (prior se was_healthy).state
      (transitions (check_all not_asking se two_checks was_healthy).1)
      (prior se (check_all not_asking se two_checks was_healthy).0).state
check_all-Leads_example =
    check_all-Leads not_asking se two_checks was_healthy not_asking_off both_stored

names_distinct : distinct (se ∷ bytes "dk" ∷ []) ≡ true
unfolding distinct forge_sync.Prelude.contains forge_sync.Prelude.str_eq
names_distinct = refl
