-- ===== src/Api/Limiter/Tests.antt =====
-- Runs of internal/api/session.go and auth.go, and their theorems at them.
use forge_sync.Prelude.{some, refl, false, [], true, ◌∷◌, arith, none, bytes, ◌≤◌, ◌≡◌, List}
use forge_sync.Prelude.Map
use forge_sync.Prelude.Effects.{given}
use forge_sync.Api.Limiter.{
  some, false, [], after_call, true, none, blocked_by, List, after_calls, failed_at, asked,
  signed_in, new_login_limiter, blocked, Call, Window,
}
use forge_sync.Api.Limiter.Refines.{
  time_of, blocked-own_calls, in_order, end_of, is_used_up, own_calls,
}
use forge_sync.Api.SignIn.{create_sessions, create_session, Server, Request}
use forge_sync.Api.SignIn.Bounds.{create_sessions-bounded}

-- Two failures from a, with one from b that makes the first window of a go, are not two in a row.
abbrev three_calls : List Call
three_calls = failed_at 0 (bytes "a") ∷ failed_at 6 (bytes "b") ∷ failed_at 7 (bytes "a") ∷ []

three_in_order : in_order 0 three_calls ≡ true
unfolding in_order forge_sync.Api.Limiter.Refines.time_of
three_in_order = refl

three_end : end_of 0 three_calls ≤ 8
unfolding end_of time_of
three_end = omega arith

blocked-own_calls_example :
    ((blocked (after_calls three_calls (new_login_limiter 2 5)) 8 (bytes "a")).0).0
    ≡ is_used_up 2 5 8 (own_calls 5 (bytes "a") three_calls none)
blocked-own_calls_example = blocked-own_calls 2 5 three_calls 8 (bytes "a") three_in_order three_end

used_up_run :
    ((blocked
      (after_calls (failed_at 6 (bytes "a") ∷ failed_at 7 (bytes "a") ∷ []) (new_login_limiter 2 5))
      8
      (bytes "a")).0)
    ≡ (true, 3)
unfolding blocked blocked_by after_calls after_call new_login_limiter Map.lookup
    forge_sync.Api.Limiter.fail Map.insert forge_sync.Api.Limiter.forget_each Map.keys
    forge_sync.Api.Limiter.forget_one forge_sync.Prelude.str_eq forge_sync.Api.Limiter.has_run_out
    forge_sync.Api.Limiter.one_more
used_up_run = refl

abbrev wrong_password : Server × Request
wrong_password = (
  record {
    check_password = λ u p. given none;
    is_role = λ r. true;
    token_allowed = false;
    token_valid = λ t. false;
    set_cookie = given tt;
  },
  record {
    csrf_header = bytes "1";
    addr = bytes "a";
    credentials = some (record { username = bytes "ada"; password = bytes "x"; token = [] });
    asked_at = 1;
    checked_at = 2;
  },
)

wrong_twice :
    Map.lookup
      (bytes "a")
      (create_sessions (wrong_password ∷ wrong_password ∷ []) (new_login_limiter 1 5)).m
    ≡ some (record { start = 2; failures = 1 })
unfolding create_sessions create_session Map.lookup forge_sync.Prelude.str_eq
    forge_sync.Api.SignIn.not_blocked blocked blocked_by new_login_limiter
    forge_sync.Api.SignIn.sign_in forge_sync.Api.SignIn.password_checked forge_sync.Api.Limiter.fail
    Map.insert forge_sync.Api.Limiter.forget_each Map.keys forge_sync.Api.Limiter.has_run_out
    forge_sync.Api.Limiter.one_more
wrong_twice = refl

create_sessions-bounded_example : 1 ≤ 1
create_sessions-bounded_example =
    create_sessions-bounded 1 5 (wrong_password ∷ wrong_password ∷ []) (bytes "a")
      (record { start = 2; failures = 1 }) (omega arith) wrong_twice
