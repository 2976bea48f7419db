-- ===== src/Leader/Tests.antt =====
-- Runs of two controllers, and the theorems of Exclusion at them.
use forge_sync.Leader.Late.{has_answer, is_out, is_harmless, is_timely, all_timely}
use forge_sync.Prelude.{
  str_eq, ◌+◌, true, false, if◌then◌else◌, ◌≡◌, refl, List, [], ◌∷◌, Str, bytes,
}
use forge_sync.Leader.{
  failed, leading, takes_part, upsert, leadership, held, remaining, answered, hand_over,
  release_lease, str_eq, true, false, Timings,
}
use forge_sync.Leader.System.{
  written, without_late, late_at, late_row, do_late, do_lose, run_late, lose, step, put, do_send,
  do_upsert, do_upsert_row, after_answer, do_receive, do_read, do_release, Setup, Move, tick, send,
  run_upsert, run_read, receive, stop, run_release, run, start,
}
use forge_sync.Leader.Exclusion.{leads, leading_unique, leading-row, RowHolds}

abbrev pair : Setup
pair = record {
  timings = λ c. record { ttl = 3; renew = 1 };
  name = λ c. c;
  url = λ c. [];
  skew = λ c. if str_eq c (bytes "a") then 5 else 9;
  database_skew = 2;
}

abbrev a : Str
a = bytes "a"

abbrev b : Str
b = bytes "b"

-- The first controller takes the lease, and the second asks for it in vain.
abbrev first_leads : List Move
first_leads =
    tick
    ∷ send a
    ∷ send b
    ∷ run_upsert a
    ∷ run_upsert b
    ∷ tick
    ∷ receive a false
    ∷ run_read b
    ∷ receive b false
    ∷ []

first_leads_run : leads pair first_leads a ≡ true
unfolding leading run step put do_send takes_part do_upsert do_upsert_row upsert leadership held
    remaining answered after_answer do_receive do_read do_release release_lease hand_over str_eq
first_leads_run = refl

second_waits : leads pair first_leads b ≡ false
unfolding forge_sync.Leader.leading run forge_sync.Leader.System.step
    forge_sync.Leader.System.do_receive forge_sync.Leader.System.do_read
    forge_sync.Leader.System.do_upsert forge_sync.Leader.System.do_send forge_sync.Leader.takes_part
    str_eq forge_sync.Leader.System.put forge_sync.Leader.System.do_upsert_row
    forge_sync.Leader.upsert forge_sync.Leader.System.after_answer forge_sync.Leader.answered
    forge_sync.Leader.leadership
second_waits = refl

-- The first controller hands over, and the second takes the lease.
abbrev handed_over : List Move
handed_over =
    tick
    ∷ send a
    ∷ run_upsert a
    ∷ receive a true
    ∷ send b
    ∷ run_release a
    ∷ run_upsert b
    ∷ receive b false
    ∷ []

second_leads : leads pair handed_over b ≡ true
unfolding leading run step put do_send takes_part do_upsert do_upsert_row upsert leadership held
    remaining answered after_answer do_receive do_read do_release release_lease hand_over str_eq
second_leads = refl

-- The first controller hands over and gives up on its release, which the database runs when the
-- second one has taken the lease.
abbrev late_and_timely : List Move
late_and_timely =
    tick
    ∷ send a
    ∷ run_upsert a
    ∷ receive a true
    ∷ lose a []
    ∷ tick
    ∷ tick
    ∷ tick
    ∷ send b
    ∷ run_upsert b
    ∷ run_late 0
    ∷ receive b false
    ∷ []

late_run_timely : all_timely pair late_and_timely start ≡ true
unfolding leading run step put do_send takes_part do_upsert do_upsert_row upsert leadership held
    remaining answered after_answer do_receive do_read do_release release_lease hand_over str_eq
    do_lose do_late late_row late_at without_late written failed all_timely is_timely is_harmless
    is_out has_answer
late_run_timely = refl

late_run_leads : leads pair late_and_timely b ≡ true
unfolding leading run step put do_send takes_part do_upsert do_upsert_row upsert leadership held
    remaining answered after_answer do_receive do_read do_release release_lease hand_over str_eq
    do_lose do_late late_row late_at without_late written failed all_timely is_timely is_harmless
    is_out has_answer
late_run_leads = refl

-- The first controller leads again when its earlier release runs, so that the second one takes the
-- lease: both lead.
abbrev late_and_untimely : List Move
late_and_untimely =
    tick
    ∷ send a
    ∷ run_upsert a
    ∷ receive a true
    ∷ lose a []
    ∷ tick
    ∷ tick
    ∷ send a
    ∷ run_upsert a
    ∷ receive a false
    ∷ run_late 0
    ∷ send b
    ∷ run_upsert b
    ∷ receive b false
    ∷ []

untimely_run :
    (all_timely pair late_and_untimely start ≡ false)
    × (leads pair late_and_untimely a ≡ true)
    × (leads pair late_and_untimely b ≡ true)
unfolding leading run step put do_send takes_part do_upsert do_upsert_row upsert leadership held
    remaining answered after_answer do_receive do_read do_release release_lease hand_over str_eq
    do_lose do_late late_row late_at without_late written failed all_timely is_timely is_harmless
    is_out has_answer
untimely_run = (refl, refl, refl)

leading_unique_example : b ≡ b
leading_unique_example =
    leading_unique pair late_and_timely b b late_run_timely late_run_leads late_run_leads

leading-row_example :
    RowHolds pair
      (run pair late_and_timely start).row
      b
      ((run pair late_and_timely start).clock + pair.database_skew)
leading-row_example = leading-row pair late_and_timely b late_run_timely late_run_leads
