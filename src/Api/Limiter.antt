-- ===== src/Api/Limiter.antt =====
-- internal/api/session.go, loginLimiter: failed sign-ins per client address in a fixed window. Each
-- method runs under the limiter's lock, so it is one step. Times are numbers.
pub mod Refines
mod Tests
use forge_sync.Prelude.{
  ◌-◌, suc, ◌+◌, ℕ, Bool, true, false, List, [], ◌∷◌, Str, leb, Option, none, some, if◌then◌else◌,
}
use forge_sync.Prelude.Map
use forge_sync.Prelude.Map.{Map}

pub record Window : Type 0 where
  pub start : ℕ
  pub failures : ℕ

-- loginLimiter, without its clock.
pub record Limiter : Type 0 where
  pub max : ℕ
  pub window : ℕ
  pub m : Map Window

-- newLoginLimiter.
unfoldable pub new_login_limiter : ℕ → ℕ → Limiter
new_login_limiter max window = record { max = max; window = window; m = [] }

-- The window has run out.
unfoldable pub has_run_out : Limiter → ℕ → Window → Bool
has_run_out l now w = leb (w.start + l.window) now

-- What is left of a window, and what comes of a limiter and an answer.
unfoldable pub blocked_by : Limiter → ℕ → Str → Option Window → (Bool × ℕ) × Limiter
blocked_by l now addr none = ((false, 0), l)
blocked_by l now addr (some w) =
    if has_run_out l now w
    then ((false, 0), record l { m = Map.delete addr l.m })
    else ((leb l.max w.failures, (w.start + l.window) - now), l)

-- Blocked: whether the address has used up its failures, and when it may retry.
unfoldable pub blocked : Limiter → ℕ → Str → (Bool × ℕ) × Limiter
blocked l now addr = blocked_by l now addr (Map.lookup addr l.m)

-- One address in the loop of Fail.
unfoldable pub forget_one : Limiter → ℕ → Str → Option Window → Map Window → Map Window
forget_one l now k none m = m
forget_one l now k (some v) m = if has_run_out l now v then Map.delete k m else m

unfoldable pub forget_each : Limiter → ℕ → List Str → Map Window → Map Window
forget_each l now [] m = m
forget_each l now (k ∷ ks) m = forget_each l now ks (forget_one l now k (Map.lookup k m) m)

unfoldable pub one_more : ℕ → Option Window → Window
one_more now none = record { start = now; failures = 1 }
one_more now (some w) = record w { failures = suc w.failures }

-- Fail.
unfoldable pub fail : Limiter → ℕ → Str → Limiter
fail l now addr =
    let m = forget_each l now (Map.keys l.m) l.m in
    record l { m = Map.insert addr (one_more now (Map.lookup addr m)) m }

-- Reset.
unfoldable pub reset : Limiter → Str → Limiter
reset l addr = record l { m = Map.delete addr l.m }

-- The calls, at their times.
pub data Call : Type 0 where
  asked : ℕ → Str → Call
  failed_at : ℕ → Str → Call
  signed_in : ℕ → Str → Call

unfoldable pub after_call : Call → Limiter → Limiter
after_call (asked now addr) l = (blocked l now addr).1
after_call (failed_at now addr) l = fail l now addr
after_call (signed_in now addr) l = reset l addr

unfoldable pub after_calls : List Call → Limiter → Limiter
after_calls [] l = l
after_calls (c ∷ cs) l = after_calls cs (after_call c l)
