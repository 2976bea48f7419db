-- ===== src/Replication/Handoff/Safety.antt =====
-- What internal/replication/handoff.go does to replicas and to hand-off branches, and when.
use forge_sync.Replication.Handoff.Pushes.{
  says_closed, resets, reset_pushes, chose_primary, decide_state-pushes,
}
use forge_sync.Prelude.Map.{Map}
use forge_sync.Prelude.{
  ◌∙◌, false, ◌≤◌, ◌+◌, ℕ, List, [], ◌∷◌, Str, Option, none, some, if◌then◌else◌, ◌≡◌, refl, arith,
}
use forge_sync.Prelude.Map
use forge_sync.Replication.Handoff.{
  Handoff, HandoffState, open_state, merged, gone, kept_primary, expired,
}
use forge_sync.Replication.Handoff.Decisions.{
  apply_decisions, decide_each, History, decide_state, closed_at, decide_open, is_past, note,
  after_reset, reset_replicas, PullRequest, asked, Answers, Run, Desk,
}

module _ (answers : Answers) (r : Run) where
  pub decide-resets :
      (h : Handoff) (d : Desk)
      → resets (decide_state answers r h.state h d).1.history ≡ (
          if chose_primary answers r h d.history
          then reset_pushes answers r h.ref h.sha h.nodes (resets d.history)
          else resets d.history)
  unfolding chose_primary
  decide-resets h d = (decide_state-pushes answers r h.state h d).0

  -- Kept for the primary's version, until that time.
  abbrev pub KeptUntil : ℕ → Handoff → Type 0
  KeptUntil t h = (h.state ≡ kept_primary) × (h.backup_until ≡ some t)

  after_reset-kept :
      (h h2 : Handoff) (l : List Str) (d : Desk)
      → h.state ≡ open_state
      → (after_reset answers r h (l, d)).0 ≡ some h2
      → h2.state ≡ kept_primary
      → KeptUntil (r.now + r.backup_for) h2
  unfolding after_reset
  after_reset-kept h h2 [] d o e k = ground arith
  after_reset-kept h h2 (n ∷ left) d o e k = ground arith

  decide_open-kept :
      (h h2 : Handoff) (o : Option (Option PullRequest)) (d : Desk)
      → h.state ≡ open_state
      → (decide_open answers r h o d).0 ≡ some h2
      → h2.state ≡ kept_primary
      → KeptUntil (r.now + r.backup_for) h2
  unfolding decide_open
  decide_open-kept h h2 none d o e k = ground arith
  decide_open-kept h h2 (some none) d o e k = ground arith
  decide_open-kept h h2 (some (some pr)) d o e k =
      let h1 : Handoff = record h { decided_at = closed_at h.decided_at r.now } in
      ground (
        arith,
        after_reset-kept h1 h2 ((reset_replicas answers r h1 h.nodes d).0)
            ((reset_replicas answers r h1 h.nodes d).1) o,
      )

module _ (answers : Answers) where
  kept-quiet :
      (r : Run) (s : HandoffState) (h : Handoff) (d : Desk) (t : ℕ)
      → s ≡ kept_primary
      → h.backup_until ≡ some t
      → r.now ≤ t
      → decide_state answers r s h d ≡ (some h, d)
  unfolding decide_state is_past
  kept-quiet r open_state h d t s u l = ground arith
  kept-quiet r kept_primary h d t s u l = rw u ground arith
  kept-quiet r merged h d t s u l = refl
  kept-quiet r gone h d t s u l = refl
  kept-quiet r expired h d t s u l = refl

  decide_state-kept :
      (r : Run) (s : HandoffState) (h h2 : Handoff) (d : Desk)
      → s ≡ open_state
      → h.state ≡ open_state
      → (decide_state answers r s h d).0 ≡ some h2
      → h2.state ≡ kept_primary
      → KeptUntil answers r (r.now + r.backup_for) h2
  unfolding decide_state
  decide_state-kept r open_state h h2 d o ho e k =
      decide_open-kept answers r h h2 (answers.pull_request d.history h.pr_number)
        (note (asked h.pr_number) d) ho e k
  decide_state-kept r kept_primary h h2 d o ho e k = ground arith
  decide_state-kept r merged h h2 d o ho e k = ground arith
  decide_state-kept r gone h h2 d o ho e k = ground arith
  decide_state-kept r expired h h2 d o ho e k = ground arith

  -- When an open hand-off becomes kept for the primary's version, later runs leave it, its branch
  -- and all else as they are until BackupFor has passed since.
  pub backup-kept :
      (r later : Run) (h h2 : Handoff) (d d2 : Desk)
      → h.state ≡ open_state
      → (decide_state answers r h.state h d).0 ≡ some h2
      → h2.state ≡ kept_primary
      → later.now ≤ r.now + r.backup_for
      → decide_state answers later h2.state h2 d2 ≡ (some h2, d2)
  backup-kept r later h h2 d d2 o e k l =
      let (kept, until) = decide_state-kept r h.state h h2 d o o e k in
      kept-quiet later h2.state h2 d2 (r.now + r.backup_for) kept until l

module _ (answers : Answers) (r : Run) where
  chosen-never :
      (h : Handoff) (d : Desk)
      → says_closed (answers.pull_request d.history h.pr_number) ≡ false
      → resets (decide_state answers r h.state h d).1.history ≡ resets d.history
  unfolding chose_primary
  chosen-never h d c = ground (arith, decide-resets answers r h d)

  module _ (never : (es : History) (n : ℕ) → says_closed (answers.pull_request es n) ≡ false) where
    decide_each-resets :
        (hs : List Handoff) (d : Desk)
        → resets (decide_each answers r hs d).1.history ≡ resets d.history
    unfolding decide_each
    decide_each-resets [] d = refl
    decide_each-resets (h ∷ hs) d =
        decide_each-resets hs ((decide_state answers r h.state h d).1)
        ∙ chosen-never h d (never d.history h.pr_number)

    -- Where no pull request is ever found closed and not merged, applyDecisions pushes nothing to
    -- any replica, whatever hand-offs there are.
    pub apply_decisions-resets :
        (hs : List Handoff) (d : Desk)
        → resets (apply_decisions answers r hs d).1.history ≡ resets d.history
    unfolding apply_decisions
    apply_decisions-resets hs d = ground (arith, decide_each-resets hs d)
