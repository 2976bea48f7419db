-- ===== src/Replication/Engine/Runs.antt =====
-- internal/replication/engine.go, RunRepo with runPasses and Trigger: the runs of one repository, by
-- the engine's `running` and `again` and the goroutines that use them. A step is what happens while
-- the engine's mutex is held, or the begin or the end of the passes between; the goroutines' steps
-- come in any order. `changes` and `seen` are no part of the program: how many changes asked for a
-- run, and how many of them there were when passes last began.
pub mod Single
pub mod Seen
use forge_sync.Prelude.{
  ◌||◌, zero, not, ℕ, suc, Bool, true, false, List, [], ◌∷◌, ◌++◌, Option, none, some,
  if◌then◌else◌,
}

-- Where a goroutine stands: before RunRepo's first lock, before runPasses, in runPasses, after it,
-- and where it reads the repository's record again.
pub data Phase : Type 0 where
  entering ready passing passed reloading : Phase

pub record Flags : Type 0 where
  pub running : Bool
  pub again : Bool
  pub changes : ℕ
  pub seen : ℕ

-- How a goroutine moves on: as usual, with its context done, or with the repository forgotten.
pub data How : Type 0 where
  usual cancelled forgotten : How

-- RunRepo's first lock.
unfoldable pub enter : Flags → Option Phase × Flags
enter f =
    if f.running
    then (none, record f { again = true })
    else (some ready, record f { running = true })

-- The lock after runPasses.
unfoldable pub leave : Bool → Flags → Option Phase × Flags
leave done f =
    if not f.again || done
    then (none, record f { running = false; again = false })
    else (some reloading, record f { again = false })

-- The end of the loop's body.
unfoldable pub reload : Bool → Flags → Option Phase × Flags
reload gone f = if gone then (none, record f { running = false }) else (some ready, f)

unfoldable pub is_cancelled : How → Bool
is_cancelled usual = false
is_cancelled cancelled = true
is_cancelled forgotten = false

unfoldable pub is_forgotten : How → Bool
is_forgotten usual = false
is_forgotten cancelled = false
is_forgotten forgotten = true

-- One goroutine's next step; `none` where it ends.
unfoldable pub phase_step : How → Phase → Flags → Option Phase × Flags
phase_step how entering f = enter f
phase_step how ready f = (some passing, record f { seen = f.changes })
phase_step how passing f = (some passed, f)
phase_step how passed f = leave (is_cancelled how) f
phase_step how reloading f = reload (is_forgotten how) f

unfoldable pub put : Option Phase → List Phase → List Phase
put none ps = ps
put (some p) ps = p ∷ ps

-- The step of the goroutine at a place.
unfoldable pub advance : ℕ → How → List Phase → Flags → List Phase × Flags
advance i how [] f = ([], f)
advance zero how (p ∷ ps) f = let (o, g) = phase_step how p f in (put o ps, g)
advance (suc i) how (p ∷ ps) f = let (qs, g) = advance i how ps f in (p ∷ qs, g)

-- Trigger's lock, on a change: it starts a goroutine if none runs.
unfoldable pub trigger : List Phase → Flags → List Phase × Flags
trigger ps f =
    if f.running
    then (ps, record f { again = true; changes = suc f.changes })
    else (entering ∷ ps, record f { changes = suc f.changes })

pub data Move : Type 0 where
  trigger_called : Move
  -- A call of RunRepo that is not Trigger's.
  run_called : Move
  goroutine_moves : ℕ → How → Move

unfoldable pub move : Move → List Phase × Flags → List Phase × Flags
move trigger_called (ps, f) = trigger ps f
move run_called (ps, f) = (entering ∷ ps, record f { changes = suc f.changes })
move (goroutine_moves i how) (ps, f) = advance i how ps f

unfoldable pub moves : List Move → List Phase × Flags → List Phase × Flags
moves [] s = s
moves (m ∷ ms) s = moves ms (move m s)

abbrev pub at_rest : List Phase × Flags
at_rest = ([], record { running = false; again = false; changes = 0; seen = 0 })
