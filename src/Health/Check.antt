-- ===== src/Health/Check.antt =====
-- internal/health/monitor.go, `check`: one round of checks, from what the node answers. The three
-- calls of internal/forgejo/client.go are parameters: each gives a value, an answer of Forgejo's
-- that is an error (with its HTTP status), or no answer.
use forge_sync.Prelude.{
  [], ℕ, ◌≡◌, Bool, true, false, ◌&&◌, ◌||◌, not, Str, bytes, str_eq, Option, none, some, arith,
  if◌then◌else◌,
}
use forge_sync.Health.{[], CheckError, call_failed, bad_healthz, wrong_account, not_admin, Result}

pub data Reply {ℓ} (A : Type ℓ) : Type ℓ where
  answered : A → Reply A
  refused : ℕ → Str → Reply A
  lost : Str → Reply A

pub record User : Type 0 where
  pub login : Str
  pub is_admin : Bool

unfoldable pub read_version : Reply Str → Str
read_version (answered v) = v
read_version (refused code e) = []
read_version (lost e) = []

-- `if r.Err == nil { r.Err = err }`
unfoldable pub first_error : Option CheckError → Str → Option CheckError
first_error none e = some (call_failed e)
first_error (some x) e = some x

-- The switch on CurrentUser's answer. An authentication error is an answer of Forgejo's too.
unfoldable pub check_user : Str → Reply User → Result → Result
check_user service_user (answered u) r =
    if not (str_eq u.login service_user)
    then record r { err = some (wrong_account u.login service_user) }
    else if not u.is_admin
    then record r { err = some (not_admin service_user) }
    else record r { auth_ok = true }
check_user service_user (refused code e) r = record r { err = first_error r.err e }
check_user service_user (lost e) r = record r { err = first_error r.err e; reachable = false }

-- What follows the health endpoint's answer.
unfoldable pub check_rest : Str → Reply Str → Reply User → Bool → Option CheckError → Result
check_rest service_user version user forgejo_ok err = check_user service_user user (record {
  reachable = true;
  forgejo_ok = forgejo_ok;
  auth_ok = false;
  version = read_version version;
  err = err;
})

unfoldable pub healthz_ok : Str → Bool
healthz_ok status = str_eq status (bytes "pass") || str_eq status (bytes "warn")

unfoldable pub check : Str → Reply Str → Reply Str → Reply User → Result
check service_user (answered status) version user =
    check_rest service_user version user (healthz_ok status)
      (if healthz_ok status then none else some (bad_healthz status))
check service_user (refused code e) version user =
    check_rest service_user version user false (some (call_failed e))
check service_user (lost e) version user = record {
  reachable = false;
  forgejo_ok = false;
  auth_ok = false;
  version = [];
  err = some (call_failed e);
}

-- The health endpoint passes or warns, and the token is the service account's, a site admin.
unfoldable pub sound : Str → Reply Str → Reply User → Bool
sound service_user (answered status) (answered u) =
    healthz_ok status && (str_eq u.login service_user && u.is_admin)
sound service_user (answered status) (refused code e) = false
sound service_user (answered status) (lost e) = false
sound service_user (refused code e) user = false
sound service_user (lost e) user = false

-- A check finds the node reachable, the token good and Forgejo well, all three, exactly when the
-- health endpoint answers "pass" or "warn" and the token belongs to the service account and is a
-- site admin's.
pub check-sound :
    (service_user : Str) (healthz version : Reply Str) (user : Reply User)
    → ((check service_user healthz version user).reachable
        && ((check service_user healthz version user).auth_ok
            && (check service_user healthz version user).forgejo_ok))
      ≡ sound service_user healthz user
unfolding check check_rest check_user sound
check-sound service_user (answered status) version (answered u) = ground arith
check-sound service_user (answered status) version (refused code e) = ground arith
check-sound service_user (answered status) version (lost e) = ground arith
check-sound service_user (refused code x) version (answered u) = ground arith
check-sound service_user (refused code x) version (refused c e) = ground arith
check-sound service_user (refused code x) version (lost e) = ground arith
check-sound service_user (lost e) version user = ground arith

abbrev pub no_error : Option CheckError → Bool
no_error none = true
no_error (some e) = false

-- A check reports no error exactly when nothing is wrong.
pub check-err :
    (service_user : Str) (healthz version : Reply Str) (user : Reply User)
    → no_error (check service_user healthz version user).err ≡ sound service_user healthz user
unfolding check check_rest check_user sound first_error
check-err service_user (answered status) version (answered u) = ground arith
check-err service_user (answered status) version (refused code e) = ground arith
check-err service_user (answered status) version (lost e) = ground arith
check-err service_user (refused code x) version (answered u) = ground arith
check-err service_user (refused code x) version (refused c e) = ground arith
check-err service_user (refused code x) version (lost e) = ground arith
check-err service_user (lost e) version user = ground arith
