-- ===== src/Replication/Engine/Runs/Seen.antt =====
-- internal/replication/engine.go, RunRepo and Trigger: no change that asked for a run is missed.
use forge_sync.Replication.Engine.Runs.Single.{one_if, active-one, active}
use forge_sync.Prelude.{
  refl, leb→le, zero, ◌≤◌, suc, all, ℕ, leb, ◌≡◌, arith, Bool, true, false, ◌||◌, ◌&&◌, not, List,
  [], ◌∷◌,
}
use forge_sync.Replication.Engine.Runs.{
  usual, cancelled, forgotten, cancelled, run_called, trigger_called, at_rest, trigger,
  goroutine_moves, moves, move, Move, advance, is_forgotten, is_cancelled, Phase, entering, ready,
  passing, passed, reloading, Flags, usual, enter, leave, reload, phase_step, put,
}

-- A goroutine that passes begin after.
unfoldable pub is_due : Phase → Bool
is_due entering = true
is_due ready = true
is_due passing = false
is_due passed = false
is_due reloading = true

unfoldable pub any_due : List Phase → Bool
any_due [] = false
any_due (p ∷ ps) = is_due p || any_due ps

-- All changes were seen, or passes are to begin for them.
unfoldable pub is_kept : List Phase → Flags → Bool
is_kept ps f = leb f.changes f.seen || (f.again || any_due ps)

-- `again` is set only during a run.
unfoldable pub is_apt : Flags → Bool
is_apt f = not f.again || f.running

phase_step-is_kept :
    (p : Phase) (ps : List Phase) (f : Flags)
    → is_kept (p ∷ ps) f ≡ true
    → is_kept ((put (phase_step usual p f).0 ps)) ((phase_step usual p f).1) ≡ true
unfolding is_kept any_due is_due phase_step enter leave reload put is_cancelled is_forgotten
phase_step-is_kept entering ps f h = ground arith
phase_step-is_kept ready ps f h = ground arith
phase_step-is_kept passing ps f h = ground arith
phase_step-is_kept passed ps f h = ground arith
phase_step-is_kept reloading ps f h = ground arith

phase_step-is_apt :
    (p : Phase) (f : Flags) → is_apt f ≡ true → is_apt ((phase_step usual p f).1) ≡ true
unfolding is_apt phase_step enter leave reload is_cancelled is_forgotten
phase_step-is_apt entering f h = ground arith
phase_step-is_apt ready f h = ground arith
phase_step-is_apt passing f h = ground arith
phase_step-is_apt passed f h = ground arith
phase_step-is_apt reloading f h = ground arith

advance-is_kept :
    (i : ℕ) (ps : List Phase) (f : Flags)
    → is_kept ps f ≡ true
    → is_kept ((advance i usual ps f).0) ((advance i usual ps f).1) ≡ true
unfolding advance is_kept any_due
advance-is_kept i [] f h = h
advance-is_kept zero (p ∷ ps) f h = ground (arith, phase_step-is_kept p ps f)
advance-is_kept (suc i) (p ∷ ps) f h = ground (arith, advance-is_kept i ps f)

advance-is_apt :
    (i : ℕ) (ps : List Phase) (f : Flags)
    → is_apt f ≡ true
    → is_apt ((advance i usual ps f).1) ≡ true
unfolding advance
advance-is_apt i [] f h = h
advance-is_apt zero (p ∷ ps) f h = phase_step-is_apt p f h
advance-is_apt (suc i) (p ∷ ps) f h = advance-is_apt i ps f h

-- No goroutine's context is done, and the repository is not forgotten.
unfoldable pub is_usual : Move → Bool
is_usual trigger_called = true
is_usual run_called = true
is_usual (goroutine_moves i usual) = true
is_usual (goroutine_moves i cancelled) = false
is_usual (goroutine_moves i forgotten) = false

move-is_kept :
    (m : Move) (ps : List Phase) (f : Flags)
    → is_usual m ≡ true
    → (is_kept ps f && is_apt f) ≡ true
    → (is_kept ((move m (ps, f)).0) ((move m (ps, f)).1) && is_apt ((move m (ps, f)).1)) ≡ true
unfolding move trigger is_usual is_kept is_apt any_due is_due
move-is_kept trigger_called ps f u h = ground arith
move-is_kept run_called ps f u h = ground arith
move-is_kept (goroutine_moves i usual) ps f u h =
    ground (arith, advance-is_kept i ps f, advance-is_apt i ps f)
move-is_kept (goroutine_moves i cancelled) ps f u h = ground arith
move-is_kept (goroutine_moves i forgotten) ps f u h = ground arith

moves-is_kept :
    (ms : List Move) (ps : List Phase) (f : Flags)
    → all is_usual ms ≡ true
    → (is_kept ps f && is_apt f) ≡ true
    → (is_kept ((moves ms (ps, f)).0) ((moves ms (ps, f)).1) && is_apt ((moves ms (ps, f)).1))
      ≡ true
unfolding moves all
moves-is_kept [] ps f u h = h
moves-is_kept (m ∷ ms) ps f u h =
    ground (arith, moves-is_kept ms ((move m (ps, f)).0) ((move m (ps, f)).1), move-is_kept m ps f)

rest-changes :
    (ps : List Phase) (f : Flags)
    → (is_kept ps f && is_apt f) ≡ true
    → active ps ≡ one_if f.running
    → ps ≡ []
    → f.changes ≤ f.seen
unfolding is_kept is_apt active any_due
rest-changes [] f h a e = ground (arith, leb→le f.changes f.seen)
rest-changes (p ∷ ps) f h a e = ground arith

-- If no context is done and the repository is not forgotten, then once no goroutine is left, passes
-- have begun after each change that Trigger or RunRepo was called for, whatever the order of the
-- steps.
pub rest-seen :
    (ms : List Move)
    → all is_usual ms ≡ true
    → (moves ms at_rest).0 ≡ []
    → (moves ms at_rest).1.changes ≤ (moves ms at_rest).1.seen
unfolding is_kept is_apt any_due
rest-seen ms u e =
    rest-changes ((moves ms at_rest).0) ((moves ms at_rest).1)
      (moves-is_kept ms [] at_rest.1 u refl) (active-one ms) e
