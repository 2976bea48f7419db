-- ===== src/Leader/Late.antt =====
-- Statements that the database runs after their controllers have given up on them. One that
-- acquires the lease keeps the invariant; one that releases it does so while its controller neither
-- leads nor has an answer on its way.
use forge_sync.Leader.Writes.{
  release-Inv, PhaseOk-released, Covered-released, upsert-Inv, RowOk-released, upsert-MayWrite,
  taken-Inv, MayWrite,
}
use forge_sync.Leader.Invariant.{
  stop-Inv, receive-Inv, lose-Inv, read-Inv, send-Inv, Good, tick-Inv, dropped-Inv, Inv, PhaseOk,
}
use forge_sync.Leader.{
  str_eq, release_lease, some, true, not, false, Row, Option, Bool, Str, leading,
}
use forge_sync.Leader.System.{
  run_release, stop, receive, lose, run_read, run_upsert, releasing, idle, send, without_late,
  late_release, replying, late_acquire, reading, late_at, asking, run_late, Late, late_row, do_late,
  System, Phase, written, Setup, Move, step, run, tick,
}
use forge_sync.Prelude.{
  inr, str_eq_iff, subst, str_eq, Bool-cases, refl, inl, none, [], ◌&&◌, ◌+◌, ◌∷◌, ◌≤◌, true, not,
  false, Option, Bool, Str, ◌≡◌, List, ℕ, arith,
}

module _ (u : Setup) where
  written-Inv :
      (s : System) (c : Str) (o : Option Row)
      → Inv u s
      → MayWrite u s c o
      → Inv u (record s { row = written o s.row })
  unfolding written
  written-Inv s c none h may = record { row_ok = h.row_ok; good = h.good }
  written-Inv s c (some r) h may = taken-Inv u s c r h may

  -- No answer is on its way, and the controller does not lead by its own clock.
  unfoldable pub has_answer : Phase → Bool
  has_answer idle = false
  has_answer (asking sent) = false
  has_answer (reading sent) = false
  has_answer (replying sent l) = true
  has_answer releasing = false

  unfoldable pub is_out : System → Str → Bool
  is_out s c =
      not (leading (s.controller c).elector (s.clock + u.skew c))
      && not (has_answer (s.controller c).phase)

  -- A statement that may run at this time without harm.
  unfoldable pub is_harmless : System → Option Late → Bool
  is_harmless s none = true
  is_harmless s (some (late_acquire c)) = true
  is_harmless s (some (late_release c)) = is_out s c

  PhaseOk-out :
      (clock : ℕ) (row later : Option Row) (c : Str) (v : ℕ) (p : Phase)
      → has_answer p ≡ false
      → PhaseOk u clock row c v p
      → PhaseOk u clock later c v p
  unfolding has_answer
  PhaseOk-out clock row later c v idle n h = tt
  PhaseOk-out clock row later c v (asking sent) n h = h
  PhaseOk-out clock row later c v (reading sent) n h = h
  PhaseOk-out clock row later c v (replying sent l) n h = cc
  PhaseOk-out clock row later c v releasing n h = h

  out-over :
      (s : System) (c : Str)
      → is_out s c ≡ true
      → (s.controller c).elector.until ≤ s.clock + u.skew c
  unfolding is_out leading
  out-over s c o = ground arith

  out-silent :
      (s : System) (c : Str) → is_out s c ≡ true → has_answer (s.controller c).phase ≡ false
  unfolding is_out
  out-silent s c o = ground arith

  released-Inv :
      (s : System) (c : Str)
      → is_out s c ≡ true
      → Inv u s
      → Inv u (record s { row = release_lease c (s.clock + u.database_skew) s.row })
  released-Inv s c out h =
      let row = release_lease c (s.clock + u.database_skew) s.row in
      let own : Good u s.clock row c (s.controller c) = (
        inl (out-over s c out),
        PhaseOk-out s.clock s.row row c (s.controller c).elector.until (s.controller c).phase
            (out-silent s c out) (h.good c).1,
      ) in
      record {
        row_ok = RowOk-released u s.clock s.row c h.row_ok;
        good = λ d. elim (Bool-cases (str_eq c d)) [
          | inl same ↦
              subst (λ x. Good u s.clock row x (s.controller x)) ((str_eq_iff c d).0 same) own
          | inr other ↦ (
            Covered-released u s.clock s.row c d (s.controller d).elector.until
                (s.clock + u.database_skew) other (h.good d).0,
            PhaseOk-released u s.clock s.row c d (s.controller d).elector.until
                (s.clock + u.database_skew) (s.controller d).phase other (h.good d).1,
          )
        ];
      }

  late-Inv :
      (s : System) (n : ℕ) (o : Option Late)
      → is_harmless s o ≡ true
      → Inv u s
      → Inv u (do_late u n o s)
  unfolding do_late late_row is_harmless
  late-Inv s n none ok h = h
  late-Inv s n (some (late_acquire c)) ok h =
      dropped-Inv u _ (without_late n s.late) (written-Inv s c _ h (upsert-MayWrite u s c _ refl))
  late-Inv s n (some (late_release c)) ok h =
      dropped-Inv u _ (without_late n s.late) (released-Inv s c ok h)

  -- A late release, if the move runs one, does no harm.
  unfoldable pub is_timely : Move → System → Bool
  is_timely (run_late n) s = is_harmless s (late_at n s.late)
  is_timely _ s = true

  -- Along the moves, every late release does no harm.
  unfoldable pub all_timely : List Move → System → Bool
  all_timely [] s = true
  all_timely (m ∷ ms) s = is_timely m s && all_timely ms (step u m s)

  step-Inv : (m : Move) (s : System) → is_timely m s ≡ true → Inv u s → Inv u (step u m s)
  unfolding step is_timely
  step-Inv tick s ok h = tick-Inv u s h
  step-Inv (send c) s ok h = send-Inv u s c (s.controller c).phase h
  step-Inv (run_upsert c) s ok h = upsert-Inv u s c (s.controller c).phase refl h
  step-Inv (run_read c) s ok h = read-Inv u s c (s.controller c).phase refl h
  step-Inv (lose c err) s ok h = lose-Inv u s c err (s.controller c).phase h
  step-Inv (receive c yields) s ok h = receive-Inv u s c yields (s.controller c).phase refl h
  step-Inv (stop c) s ok h = stop-Inv u s c (s.controller c).phase h
  step-Inv (run_release c) s ok h = release-Inv u s c (s.controller c).phase refl h
  step-Inv (run_late n) s ok h = late-Inv s n (late_at n s.late) ok h

  pub run-Inv :
      (ms : List Move) (s : System) → all_timely ms s ≡ true → Inv u s → Inv u (run u ms s)
  unfolding run all_timely
  run-Inv [] s ok h = h
  run-Inv (m ∷ ms) s ok h = run-Inv ms (step u m s) (ground arith) (step-Inv m s (ground arith) h)
