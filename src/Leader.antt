-- ===== src/Leader.antt =====
-- internal/store/leadership.go and internal/leader/elector.go: the lease in the database, and one
-- controller's side of the election. Times are numbers; Go's zero time is 0.
pub mod System
pub mod Invariant
pub mod Writes
pub mod Late
pub mod Exclusion
mod Tests
use forge_sync.Prelude.{
  ℕ, ◌+◌, ◌-◌, ◌*◌, Bool, true, false, ◌&&◌, ◌||◌, not, ltb, leb, ◌==◌, [], Str, str_eq, Option,
  none, some, if◌then◌else◌,
}
use Prim.Native.Nat.{◌/◌}

pub record Lease : Type 0 where
  pub holder : Str
  pub name : Str
  pub url : Str
  pub acquired_at : ℕ
  pub renewed_at : ℕ
  pub expires_at : ℕ
  pub now : ℕ

-- The one row of the table `leadership`.
pub record Row : Type 0 where
  pub holder : Str
  pub name : Str
  pub url : Str
  pub acquired_at : ℕ
  pub renewed_at : ℕ
  pub expires_at : ℕ

unfoldable pub held : Lease → Bool
held l = not (str_eq l.holder []) && ltb l.now l.expires_at

-- For.
unfoldable pub remaining : Lease → ℕ
unfolding held
remaining l = if held l then l.expires_at - l.now else 0

abbrev pub lease_of : Row → ℕ → Lease
lease_of r now = record {
  holder = r.holder;
  name = r.name;
  url = r.url;
  acquired_at = r.acquired_at;
  renewed_at = r.renewed_at;
  expires_at = r.expires_at;
  now = now;
}

-- Leadership.
unfoldable pub leadership : ℕ → Option Row → Lease
leadership now none = record {
  holder = [];
  name = [];
  url = [];
  acquired_at = 0;
  renewed_at = 0;
  expires_at = 0;
  now = now;
}
leadership now (some r) = lease_of r now

abbrev pub taken_row : Str → Str → Str → ℕ → ℕ → ℕ → Row
taken_row holder name url ttl now acquired = record {
  holder = holder;
  name = name;
  url = url;
  acquired_at = acquired;
  renewed_at = now;
  expires_at = now + ttl;
}

-- AcquireLease's statement: the row that it returns, if it wrote one.
unfoldable pub upsert : Str → Str → Str → ℕ → ℕ → Option Row → Option Row
upsert holder name url ttl now none = some (taken_row holder name url ttl now now)
upsert holder name url ttl now (some r) =
    if str_eq r.holder holder || leb r.expires_at now
    then some
        (taken_row holder name url ttl now (if str_eq r.holder holder then r.acquired_at else now))
    else none

-- ReleaseLease.
unfoldable pub release_lease : Str → ℕ → Option Row → Option Row
release_lease holder now none = none
release_lease holder now (some r) =
    if str_eq r.holder holder then some (record r { expires_at = now }) else some r

pub record Timings : Type 0 where
  pub ttl : ℕ
  pub renew : ℕ

-- New's defaults, in nanoseconds.
unfoldable pub defaults : Timings → Timings
defaults o =
    let ttl = if o.ttl == 0 then 15000000000 else o.ttl in
    let renew = if o.renew == 0 || leb ttl o.renew then ttl / 3 else o.renew in
    record { ttl = ttl; renew = renew }

-- What a controller last saw of the leadership.
pub record Seen : Type 0 where
  pub name : Str
  pub url : Str
  pub since : ℕ
  pub error : Str

pub record Elector : Type 0 where
  pub until : ℕ
  pub quiet : ℕ
  pub state : Seen

abbrev pub nobody : Seen
nobody = record { name = []; url = []; since = 0; error = [] }

abbrev pub new_elector : Elector
new_elector = record { until = 0; quiet = 0; state = nobody }

-- Leading, by the controller's own clock.
unfoldable pub leading : Elector → ℕ → Bool
leading e now = ltb now e.until

-- once: whether this controller takes part, having perhaps just handed over.
unfoldable pub takes_part : Elector → ℕ → Bool
takes_part e now = not (ltb now e.quiet)

-- once: the database couldn't be reached.
unfoldable pub failed : Elector → Str → Elector
failed e err = record e { state = record e.state { error = err } }

-- once: a lease has come back for a request that was sent at `sent`.
unfoldable pub answered : Str → ℕ → Lease → Elector → Elector
answered holder sent lease e =
    let mine = str_eq lease.holder holder && held lease in
    record e {
      until = if mine then sent + remaining lease else 0;
      state =
          if held lease
          then record { name = lease.name; url = lease.url; since = lease.acquired_at; error = [] }
          else nobody;
    }

-- handOver, up to the release.
unfoldable pub hand_over : Timings → ℕ → Elector → Elector
hand_over o now e =
    let quiet = if ltb o.ttl (2 * o.renew) then o.ttl else 2 * o.renew in
    record e { until = 0; quiet = now + quiet }

-- stepDown, up to the release, for a controller that leads.
unfoldable pub step_down : Elector → Elector
step_down e = record e { until = 0 }
