-- ===== src/Health.antt =====
-- internal/health/health.go: what ForgeSync believes about one node. Times are numbers, and an
-- error stands for its text.
pub mod Next
pub mod Check
pub mod Monitor
mod Tests
use forge_sync.Prelude.{
  ℕ, ◌+◌, Bool, true, false, ◌&&◌, not, leb, List, [], ◌∷◌, Str, Option, none, some, if◌then◌else◌,
}

pub data State : Type 0 where
  unknown healthy degraded suspect unreachable auth_error : State

pub data CheckError : Type 0 where
  call_failed : Str → CheckError
  bad_healthz : Str → CheckError
  wrong_account : Str → Str → CheckError
  not_admin : Str → CheckError

pub record Status : Type 0 where
  pub node : Str
  pub state : State
  pub version : Str
  pub last_checked : ℕ
  pub last_seen : Option ℕ
  pub failing_since : Option ℕ
  pub consecutive_failures : ℕ
  pub last_error : Option CheckError

pub record Result : Type 0 where
  pub reachable : Bool
  pub forgejo_ok : Bool
  pub auth_ok : Bool
  pub version : Str
  pub err : Option CheckError

unfoldable pub is_healthy : State → Bool
is_healthy healthy = true
is_healthy _ = false

-- `==` on states.
unfoldable pub is_same_state : State → State → Bool
is_same_state unknown unknown = true
is_same_state healthy healthy = true
is_same_state degraded degraded = true
is_same_state suspect suspect = true
is_same_state unreachable unreachable = true
is_same_state auth_error auth_error = true
is_same_state _ _ = false

-- A version that was read replaces the one there was.
unfoldable pub new_version : Str → Str → Str
new_version old [] = old
new_version old (c ∷ v) = c ∷ v

-- The last switch of Next.
unfoldable pub since : State → Option ℕ → ℕ → Option ℕ
since healthy f now = none
since _ none now = some now
since _ (some t) now = some t

-- Next, without the last switch.
unfoldable pub contacted : Status → Result → ℕ → ℕ → Status
contacted s r threshold now =
    if not r.reachable
    then record s {
      state = if leb threshold (s.consecutive_failures + 1) then unreachable else suspect;
      last_checked = now;
      consecutive_failures = s.consecutive_failures + 1;
      last_error = r.err;
    }
    else record s {
      state = if not r.auth_ok then auth_error else if not r.forgejo_ok then degraded else healthy;
      version = new_version s.version r.version;
      last_checked = now;
      last_seen = some now;
      consecutive_failures = 0;
      last_error = r.err;
    }

unfoldable pub next : Status → Result → ℕ → ℕ → Status
next prev r threshold now =
    let s = contacted prev r threshold now in
    record s { failing_since = since s.state s.failing_since now }
