-- ===== src/Leader/System.antt =====
-- The controllers of an installation and their database, as interleavings. Each controller runs
-- `once` of internal/leader/elector.go, handOver and stepDown one after the other, and each call of
-- the database is a step of its own, which may fail or be answered late. Where a controller gives up
-- on a call that writes, the database may run its statement at any time after, or never. Clocks
-- differ by a constant for each controller, and run alike.
use forge_sync.Prelude.{
  zero, ℕ, suc, ◌+◌, Bool, ◌&&◌, List, [], ◌∷◌, Str, str_eq, Option, none, some, if◌then◌else◌,
}
use forge_sync.Leader.{
  Lease, Row, Timings, Elector, new_elector, leading, takes_part, failed, answered, hand_over,
  step_down, upsert, leadership, release_lease,
}

-- Where a controller is between two statements of the database.
pub data Phase : Type 0 where
  -- Not in `once`.
  idle : Phase
  -- AcquireLease has been sent, at this time of the controller's clock.
  asking : ℕ → Phase
  -- Its statement wrote nothing: Leadership is read next.
  reading : ℕ → Phase
  -- The answer is on its way back.
  replying : ℕ → Lease → Phase
  -- ReleaseLease has been sent.
  releasing : Phase

pub record Controller : Type 0 where
  pub elector : Elector
  pub phase : Phase

-- What is fixed: each controller's timings, its name and address, and the clocks' offsets.
pub record Setup : Type 0 where
  pub timings : Str → Timings
  pub name : Str → Str
  pub url : Str → Str
  pub skew : Str → ℕ
  pub database_skew : ℕ

-- A statement whose controller has given up on it.
pub data Late : Type 0 where
  late_acquire : Str → Late
  late_release : Str → Late

pub record System : Type 0 where
  pub clock : ℕ
  pub row : Option Row
  pub controller : Str → Controller
  pub late : List Late

pub data Move : Type 0 where
  tick : Move
  -- A controller sends its request.
  send : Str → Move
  -- The database runs AcquireLease's statement, and then Leadership's.
  run_upsert : Str → Move
  run_read : Str → Move
  -- The call fails or times out, before or after the database ran it.
  lose : Str → Str → Move
  -- The answer arrives; the flag is what Yield says.
  receive : Str → Bool → Move
  -- The controller stops.
  stop : Str → Move
  -- The database runs ReleaseLease.
  run_release : Str → Move
  -- The database runs one of the statements whose controllers have given up on them.
  run_late : ℕ → Move

abbrev pub local : Setup → System → Str → ℕ
local u s c = s.clock + u.skew c

abbrev pub database : Setup → System → ℕ
database u s = s.clock + u.database_skew

unfoldable pub put : Str → Controller → System → System
put c k s = record s { controller = λ d. if str_eq c d then k else s.controller d }

abbrev pub in_phase : Phase → Controller → Controller
in_phase p k = record k { phase = p }

-- An answer has been taken in: a leader that yields goes on to the release.
unfoldable pub after_answer : Timings → ℕ → Bool → Elector → Controller
after_answer o now yields e =
    if leading e now && yields
    then record { elector = hand_over o now e; phase = releasing }
    else record { elector = e; phase = idle }

unfoldable pub do_send : Setup → Str → Phase → System → System
do_send u c idle s =
    if takes_part (s.controller c).elector (local u s c)
    then put c (in_phase (asking (local u s c)) (s.controller c)) s
    else s
do_send u c _ s = s

unfoldable pub do_upsert_row : Setup → Str → ℕ → Option Row → System → System
do_upsert_row u c sent none s = put c (in_phase (reading sent) (s.controller c)) s
do_upsert_row u c sent (some r) s =
    record (put c (in_phase (replying sent (leadership (database u s) (some r))) (s.controller c))
      s) { row = some r }

unfoldable pub do_upsert : Setup → Str → Phase → System → System
do_upsert u c (asking sent) s =
    do_upsert_row u c sent (upsert c (u.name c) (u.url c) (u.timings c).ttl (database u s) s.row) s
do_upsert u c _ s = s

unfoldable pub do_read : Setup → Str → Phase → System → System
do_read u c (reading sent) s =
    put c (in_phase (replying sent (leadership (database u s) s.row)) (s.controller c)) s
do_read u c _ s = s

abbrev pub left_behind : Late → System → System
left_behind l s = record s { late = l ∷ s.late }

abbrev pub give_up : Str → Str → System → System
give_up c err s = put c (record { elector = failed (s.controller c).elector err; phase = idle }) s

unfoldable pub do_lose : Str → Str → Phase → System → System
do_lose c err idle s = s
do_lose c err releasing s = left_behind (late_release c) (put c (in_phase idle (s.controller c)) s)
do_lose c err (asking sent) s = left_behind (late_acquire c) (give_up c err s)
do_lose c err _ s = give_up c err s

unfoldable pub do_receive : Setup → Str → Bool → Phase → System → System
do_receive u c yields (replying sent l) s =
    put c
      (after_answer (u.timings c) (local u s c) yields (answered c sent l (s.controller c).elector))
      s
do_receive u c yields _ s = s

unfoldable pub do_stop : Setup → Str → Phase → System → System
do_stop u c idle s =
    if leading (s.controller c).elector (local u s c)
    then put c (record { elector = step_down (s.controller c).elector; phase = releasing }) s
    else s
do_stop u c _ s = s

unfoldable pub do_release : Setup → Str → Phase → System → System
do_release u c releasing s = record (put c (in_phase idle (s.controller c)) s) {
  row = release_lease c (database u s) s.row;
}
do_release u c _ s = s

-- The row after AcquireLease's statement, by the row that it wrote, if it wrote one.
unfoldable pub written : Option Row → Option Row → Option Row
written none row = row
written (some r) row = some r

-- What a late statement leaves in the database; nobody reads its answer.
unfoldable pub late_row : Setup → Late → System → Option Row
late_row u (late_acquire c) s =
    written (upsert c (u.name c) (u.url c) (u.timings c).ttl (database u s) s.row) s.row
late_row u (late_release c) s = release_lease c (database u s) s.row

unfoldable pub late_at : ℕ → List Late → Option Late
late_at n [] = none
late_at zero (l ∷ late) = some l
late_at (suc n) (l ∷ late) = late_at n late

unfoldable pub without_late : ℕ → List Late → List Late
without_late n [] = []
without_late zero (l ∷ late) = late
without_late (suc n) (l ∷ late) = l ∷ without_late n late

unfoldable pub do_late : Setup → ℕ → Option Late → System → System
do_late u n none s = s
do_late u n (some l) s = record s { row = late_row u l s; late = without_late n s.late }

unfoldable pub step : Setup → Move → System → System
step u tick s = record s { clock = suc s.clock }
step u (send c) s = do_send u c (s.controller c).phase s
step u (run_upsert c) s = do_upsert u c (s.controller c).phase s
step u (run_read c) s = do_read u c (s.controller c).phase s
step u (lose c err) s = do_lose c err (s.controller c).phase s
step u (receive c yields) s = do_receive u c yields (s.controller c).phase s
step u (stop c) s = do_stop u c (s.controller c).phase s
step u (run_release c) s = do_release u c (s.controller c).phase s
step u (run_late n) s = do_late u n (late_at n s.late) s

unfoldable pub run : Setup → List Move → System → System
run u [] s = s
run u (m ∷ ms) s = run u ms (step u m s)

-- Every controller has just started, and the database knows of no leader.
abbrev pub start : System
start = record {
  clock = 0;
  row = none;
  controller = λ c. record { elector = new_elector; phase = idle };
  late = [];
}
