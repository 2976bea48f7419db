-- ===== src/Leader/Exclusion.antt =====
-- At most one controller leads, whatever the order of the controllers' and the database's steps.
use forge_sync.Leader.Invariant.{Backed, Inv}
use forge_sync.Leader.Late.{run-Inv, all_timely}
use forge_sync.Prelude.{
  List, ltb→lt, ◌∙◌, true, ◌<◌, List, sym, ℕ, ◌+◌, ◌≡◌, inl, inr, Bool, Str, Option, none, some,
  arith,
}
use forge_sync.Leader.{true, Row, leading}
use forge_sync.Leader.System.{Move, start, run, Setup, System}

module _ (u : Setup) where
  start-Inv : Inv u start
  start-Inv = record { row_ok = tt; good = λ c. (inl (omega arith), tt) }

  Backed-holder :
      (row : Option Row) (c d : Str) (v w : ℕ) → Backed u row c v → Backed u row d w → c ≡ d
  Backed-holder none c d v w h k = absurd h
  Backed-holder (some r) c d v w h k = sym h.0 ∙ k.0

  leading-Backed :
      (s : System) (c : Str)
      → Inv u s
      → leading (s.controller c).elector (s.clock + u.skew c) ≡ true
      → Backed u s.row c (s.controller c).elector.until
  unfolding leading
  leading-Backed s c h l = elim ((h.good c).0) [
    | inl over ↦
        absurd (omega (arith, ltb→lt (s.clock + u.skew c) (s.controller c).elector.until l))
    | inr backed ↦ backed
  ]

  -- After the moves the controller leads, by its own clock.
  abbrev pub leads : List Move → Str → Bool
  leads moves c =
      leading ((run u moves start).controller c).elector ((run u moves start).clock + u.skew c)

  -- In an installation of any number of controllers, after any sequence of clock ticks and of steps
  -- of the controllers and their database, statements that are run after their controllers gave up
  -- on them included, from a start in which nobody leads, and if a ReleaseLease that its controller
  -- has given up on is only run by the database while that controller neither leads nor has an
  -- answer on its way: if two controllers both lead by their own clocks, they are the same
  -- controller.
  pub leading_unique :
      (moves : List Move) (c d : Str)
      → all_timely u moves start ≡ true
      → leads moves c ≡ true
      → leads moves d ≡ true
      → c ≡ d
  leading_unique moves c d ok lc ld =
      let s = run u moves start in
      let h = run-Inv u moves start ok start-Inv in
      Backed-holder s.row c d _ _ (leading-Backed s c h lc) (leading-Backed s d h ld)

  -- The row that is in force is a leader's own.
  abbrev pub RowHolds : Option Row → Str → ℕ → Type 0
  RowHolds none c now = ⊥
  RowHolds (some r) c now = (r.holder ≡ c) × (now < r.expires_at)

  RowHolds-of :
      (row : Option Row) (c : Str) (clock v : ℕ)
      → clock + u.skew c < v
      → Backed u row c v
      → RowHolds row c (clock + u.database_skew)
  RowHolds-of none c clock v h b = b
  RowHolds-of (some r) c clock v h b = (b.0, omega arith)

  -- After any sequence of steps of the controllers and their database, statements that are run
  -- after their controllers gave up on them included, from a start in which nobody leads, and if a
  -- ReleaseLease that its controller has given up on is only run by the database while that
  -- controller neither leads nor has an answer on its way: while a controller leads by its own
  -- clock, the row in the database is its own and has not run out by the database's clock.
  pub leading-row :
      (moves : List Move) (c : Str)
      → all_timely u moves start ≡ true
      → leads moves c ≡ true
      → RowHolds (run u moves start).row c ((run u moves start).clock + u.database_skew)
  leading-row moves c ok lc =
      let s = run u moves start in
      RowHolds-of s.row c s.clock (s.controller c).elector.until
        (unfold leading in
          omega (arith, ltb→lt (s.clock + u.skew c) (s.controller c).elector.until lc))
        (leading-Backed s c (run-Inv u moves start ok start-Inv) lc)
