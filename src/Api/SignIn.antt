-- ===== src/Api/SignIn.antt =====
-- internal/api/auth.go, createSession: signing in with a password or the admin token. JSON, the
-- database's check of a password, the token and the cookie are parameters; what is logged and audited
-- is left out, and so are the texts of the answers.
pub mod Bounds
use forge_sync.Prelude.{
  ◌+◌, ℕ, Bool, true, false, ◌||◌, not, List, [], ◌∷◌, Str, str_eq, Option, none, some,
  if◌then◌else◌,
}
use forge_sync.Prelude.Effects.{Answer, given, failed}
use forge_sync.Api.Limiter.{Limiter, blocked, fail, reset}

-- The names and the password or token that a body asks with.
pub record Credentials : Type 0 where
  pub username : Str
  pub password : Str
  pub token : Str

-- A request, at its time, with when its credentials have been checked. A body that cannot be read or
-- is no JSON has no credentials.
pub record Request : Type 0 where
  pub csrf_header : Str
  pub addr : Str
  pub credentials : Option Credentials
  pub asked_at : ℕ
  pub checked_at : ℕ

-- What the rest of the server says of one request. An account's role may be unknown to it.
pub record Server : Type 0 where
  pub check_password : Str → Str → Answer (Option Str)
  pub is_role : Str → Bool
  pub token_allowed : Bool
  pub token_valid : Str → Bool
  pub set_cookie : Answer (Unit {0})

pub data Outcome : Type 0 where
  signed_in : Outcome
  -- The HTTP statuses 400, 401, 403 and 500.
  bad_request unauthorized forbidden server_error : Outcome
  -- 429, with when to try again.
  too_many : ℕ → Outcome

unfoldable pub started : Answer (Unit {0}) → Outcome
started (failed e) = server_error
started (given u) = signed_in

-- signInWithPassword, by what the database answers.
unfoldable pub password_checked :
    Server → Request → Answer (Option Str) → Limiter → Outcome × Limiter
password_checked s q (failed e) l = (server_error, l)
password_checked s q (given none) l = (unauthorized, fail l q.checked_at q.addr)
password_checked s q (given (some role)) l =
    (if s.is_role role then started s.set_cookie else forbidden, reset l q.addr)

unfoldable pub sign_in_with_token : Server → Request → Str → Limiter → Outcome × Limiter
sign_in_with_token s q token l =
    if not s.token_allowed
    then (forbidden, l)
    else if not (s.token_valid token)
    then (unauthorized, fail l q.checked_at q.addr)
    else (started s.set_cookie, reset l q.addr)

unfoldable pub sign_in : Server → Request → Option Credentials → Limiter → Outcome × Limiter
sign_in s q none l = (bad_request, l)
sign_in s q (some c) l =
    if not (str_eq c.username []) || not (str_eq c.password [])
    then password_checked s q (s.check_password c.username c.password) l
    else sign_in_with_token s q c.token l

unfoldable pub not_blocked : Server → Request → (Bool × ℕ) × Limiter → Outcome × Limiter
not_blocked s q ((is_blocked, retry), l) =
    if is_blocked then (too_many (retry + 1), l) else sign_in s q q.credentials l

-- createSession.
unfoldable pub create_session : Server → Request → Limiter → Outcome × Limiter
create_session s q l =
    if str_eq q.csrf_header []
    then (forbidden, l)
    else not_blocked s q (blocked l q.asked_at q.addr)

-- Requests one after another, each with what the server says of it.
unfoldable pub create_sessions : List (Server × Request) → Limiter → Limiter
create_sessions [] l = l
create_sessions ((s, q) ∷ qs) l = create_sessions qs ((create_session s q l).1)
