-- ===== src/Replication/Engine/Runs/Single.antt =====
-- internal/replication/engine.go, RunRepo: one run of a repository at a time.
use forge_sync.Prelude.{
  zero, ℕ, suc, ◌+◌, ◌≤◌, ◌≡◌, refl, arith, Bool, true, false, List, [], ◌∷◌, if◌then◌else◌,
}
use forge_sync.Replication.Engine.Runs.{
  Phase, entering, ready, passing, passed, reloading, Flags, How, enter, leave, reload, phase_step,
  put, advance, trigger, Move, trigger_called, run_called, goroutine_moves, move, moves, at_rest,
}

-- A goroutine is past the first lock.
unfoldable pub is_active : Phase → Bool
is_active entering = false
is_active ready = true
is_active passing = true
is_active passed = true
is_active reloading = true

abbrev pub one_if : Bool → ℕ
one_if b = if b then 1 else 0

-- How many goroutines are past the first lock.
unfoldable pub active : List Phase → ℕ
active [] = 0
active (p ∷ ps) = one_if (is_active p) + active ps

phase_step-active :
    (how : How) (p : Phase) (ps : List Phase) (f : Flags)
    → one_if (is_active p) + active ps ≤ one_if f.running
    → active (put (phase_step how p f).0 ps) + one_if f.running
      ≡ (one_if (is_active p) + active ps) + one_if (phase_step how p f).1.running
unfolding phase_step enter leave reload put active is_active
phase_step-active how entering ps f h = ground arith
phase_step-active how ready ps f h = ground arith
phase_step-active how passing ps f h = ground arith
phase_step-active how passed ps f h = ground arith
phase_step-active how reloading ps f h = ground arith

advance-active :
    (i : ℕ) (how : How) (ps : List Phase) (f : Flags)
    → active ps ≤ one_if f.running
    → active (advance i how ps f).0 + one_if f.running
      ≡ active ps + one_if (advance i how ps f).1.running
unfolding advance active
advance-active i how [] f h = refl
advance-active zero how (p ∷ ps) f h = phase_step-active how p ps f h
advance-active (suc i) how (p ∷ ps) f h = ground (arith, advance-active i how ps f)

move-active :
    (m : Move) (ps : List Phase) (f : Flags)
    → active ps ≡ one_if f.running
    → active (move m (ps, f)).0 ≡ one_if (move m (ps, f)).1.running
unfolding move trigger active is_active
move-active trigger_called ps f h = ground arith
move-active run_called ps f h = ground arith
move-active (goroutine_moves i how) ps f h = ground (arith, advance-active i how ps f)

moves-active :
    (ms : List Move) (ps : List Phase) (f : Flags)
    → active ps ≡ one_if f.running
    → active (moves ms (ps, f)).0 ≡ one_if (moves ms (ps, f)).1.running
unfolding moves
moves-active [] ps f h = h
moves-active (m ∷ ms) ps f h =
    moves-active ms ((move m (ps, f)).0) ((move m (ps, f)).1) (move-active m ps f h)

-- Whatever triggers and calls of RunRepo there are, and in whatever order their goroutines take
-- their steps, with contexts done and repositories forgotten among them: the goroutines that are
-- past the first lock of RunRepo are one if running is set, and none if not.
pub active-one :
    (ms : List Move) → active (moves ms at_rest).0 ≡ one_if (moves ms at_rest).1.running
unfolding active
active-one ms = moves-active ms [] at_rest.1 refl
