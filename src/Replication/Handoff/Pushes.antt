-- ===== src/Replication/Handoff/Pushes.antt =====
-- internal/replication/handoff.go: the pushes that applyDecisions makes for one hand-off.
use forge_sync.Prelude.Map.{Map}
use forge_sync.Prelude.{
  Bool, false, ◌&&◌, not, List, [], ◌∷◌, Str, Option, none, some, if◌then◌else◌, ◌≡◌, refl, arith,
}
use forge_sync.Prelude.Map
use forge_sync.Replication.Plan.{Action}
use forge_sync.Replication.Handoff.{
  is_open, PushResult, Handoff, HandoffState, open_state, merged, gone, kept_primary, expired,
}
use forge_sync.Replication.Handoff.Decisions.{
  decide_state, closed_at, decide_open, is_past, delete_branch, note, branch_deletion, after_reset,
  reset_replicas, reset_node, reset_answered, delete_handoff_branch, branch_deleted, reset_action,
  PullRequest, asked, pushed, pushed_unguarded, saved, audited, reset_audited, commented, History,
  Answers, Run, Desk,
}

-- The pushes to replicas, the latest first.
unfoldable pub resets : History → List (Str × List Action)
resets [] = []
resets (asked n ∷ es) = resets es
resets (pushed l ∷ es) = resets es
resets (pushed_unguarded node l ∷ es) = (node, l) ∷ resets es
resets (saved h ∷ es) = resets es
resets (audited s h ∷ es) = resets es
resets (reset_audited s h ∷ es) = resets es
resets (commented n ∷ es) = resets es

-- The pushes to the primary, the latest first.
unfoldable pub primary_pushes : History → List (List Action)
primary_pushes [] = []
primary_pushes (asked n ∷ es) = primary_pushes es
primary_pushes (pushed l ∷ es) = l ∷ primary_pushes es
primary_pushes (pushed_unguarded node l ∷ es) = primary_pushes es
primary_pushes (saved h ∷ es) = primary_pushes es
primary_pushes (audited s h ∷ es) = primary_pushes es
primary_pushes (reset_audited s h ∷ es) = primary_pushes es
primary_pushes (commented n ∷ es) = primary_pushes es

-- The pull request was found, closed and not merged.
unfoldable pub says_closed : Option (Option PullRequest) → Bool
says_closed none = false
says_closed (some none) = false
says_closed (some (some pr)) = not pr.was_merged && pr.closed

unfoldable pub says_merged : Option (Option PullRequest) → Bool
says_merged none = false
says_merged (some none) = false
says_merged (some (some pr)) = pr.was_merged

module _ (answers : Answers) (r : Run) where
  -- The node is configured and healthy, and has no guard or one that could be lifted.
  abbrev pub takes_reset : Str → Str → Str → Bool
  takes_reset ref sha node = r.configured node && r.healthy node && answers.lifts_guard ref sha node

  -- One push of the hand-off's action to each of the nodes that can be reset, in their order, on top
  -- of earlier ones.
  unfoldable pub reset_pushes :
      Str → Str → List Str → List (Str × List Action) → List (Str × List Action)
  reset_pushes ref sha [] done = done
  reset_pushes ref sha (node ∷ nodes) done = reset_pushes ref sha nodes (
      if takes_reset ref sha node
      then (node, reset_action ref sha (Map.lookup ref r.primary_refs) ∷ []) ∷ done
      else done)

  branch_deleted-history :
      (h : Handoff) (o : Option (Map PushResult)) (d : Desk)
      → (branch_deleted h o d).history ≡ d.history
  unfolding branch_deleted
  branch_deleted-history h none d = refl
  branch_deleted-history h (some results) d = ground arith

  -- The deletion of a hand-off's branch, if it is there, on top of earlier pushes.
  unfoldable pub deletion_push : Str → Option Str → List (List Action) → List (List Action)
  deletion_push branch none done = done
  deletion_push branch (some cur) done = branch_deletion branch cur ∷ done

  delete_branch-pushes :
      (h : Handoff) (o : Option Str) (d : Desk)
      → (resets (delete_branch answers r h o d).history ≡ resets d.history)
        × (primary_pushes (delete_branch answers r h o d).history
            ≡ deletion_push h.branch o (primary_pushes d.history))
  unfolding delete_branch resets primary_pushes deletion_push
  delete_branch-pushes h none d = (refl, refl)
  delete_branch-pushes h (some cur) d =
      rw
        (branch_deleted-history h (answers.push d.history (branch_deletion h.branch cur))
          (note (pushed (branch_deletion h.branch cur)) d))
        (refl, refl)

  reset_answered-pushes :
      (h : Handoff) (node : Str) (o : Option (Map PushResult)) (d : Desk)
      → (resets (reset_answered h node o d).1.history ≡ resets d.history)
        × (primary_pushes (reset_answered h node o d).1.history ≡ primary_pushes d.history)
  unfolding reset_answered resets primary_pushes
  reset_answered-pushes h node none d = (refl, refl)
  reset_answered-pushes h node (some results) d = ground arith

  reset_node-pushes :
      (h : Handoff) (node : Str) (d : Desk)
      → (resets (reset_node answers r h node d).1.history ≡ (
          if takes_reset h.ref h.sha node
          then (node, reset_action h.ref h.sha (Map.lookup h.ref r.primary_refs) ∷ [])
            ∷ resets d.history
          else resets d.history))
        × (primary_pushes (reset_node answers r h node d).1.history ≡ primary_pushes d.history)
  unfolding reset_node resets primary_pushes
  reset_node-pushes h node d =
      let a = reset_action h.ref h.sha (Map.lookup h.ref r.primary_refs) ∷ [] in
      ground (
        arith,
        reset_answered-pushes h node (answers.push_unguarded d.history node a)
            (note (pushed_unguarded node a) d),
      )

  reset_replicas-pushes :
      (h : Handoff) (nodes : List Str) (d : Desk)
      → (resets (reset_replicas answers r h nodes d).1.history
          ≡ reset_pushes h.ref h.sha nodes (resets d.history))
        × (primary_pushes (reset_replicas answers r h nodes d).1.history ≡ primary_pushes d.history)
  unfolding reset_replicas reset_pushes
  reset_replicas-pushes h [] d = (refl, refl)
  reset_replicas-pushes h (node ∷ nodes) d = ground (
    arith,
    reset_replicas-pushes h nodes ((reset_node answers r h node d).1),
    reset_node-pushes h node d,
  )

  after_reset-pushes :
      (h : Handoff) (l : List Str) (d : Desk)
      → (resets (after_reset answers r h (l, d)).1.history ≡ resets d.history)
        × (primary_pushes (after_reset answers r h (l, d)).1.history ≡ primary_pushes d.history)
  unfolding after_reset resets primary_pushes
  after_reset-pushes h [] d = (refl, refl)
  after_reset-pushes h (n ∷ left) d = (refl, refl)

  -- Whether a hand-off's state and pull request say that its owner chose the primary's version.
  unfoldable pub chose_primary : Handoff → History → Bool
  chose_primary h before = is_open h.state && says_closed (answers.pull_request before h.pr_number)

  unfoldable pub done_in_state : Handoff → History → HandoffState → Bool
  done_in_state h before open_state = says_merged (answers.pull_request before h.pr_number)
  done_in_state h before kept_primary = is_past answers r h.backup_until
  done_in_state h before merged = false
  done_in_state h before gone = false
  done_in_state h before expired = false

  -- Whether its branch is of no more use: it was merged, or was kept for as long as it had to be.
  unfoldable pub is_done_with : Handoff → History → Bool
  is_done_with h before = done_in_state h before h.state

  decide_open-pushes :
      (h : Handoff) (o : Option (Option PullRequest)) (d : Desk)
      → (resets (decide_open answers r h o d).1.history ≡ (
          if says_closed o
          then reset_pushes h.ref h.sha h.nodes (resets d.history)
          else resets d.history))
        × (primary_pushes (decide_open answers r h o d).1.history ≡ (
            if says_merged o
            then deletion_push h.branch
                (Map.lookup h.branch d.handoff_refs)
                (primary_pushes d.history)
            else primary_pushes d.history))
  unfolding decide_open delete_handoff_branch resets primary_pushes says_closed says_merged
  decide_open-pushes h none d = (refl, refl)
  decide_open-pushes h (some none) d = (refl, refl)
  decide_open-pushes h (some (some pr)) d =
      let done : Handoff = record h { state = merged; decided_at = some r.now } in
      let h1 : Handoff = record h { decided_at = closed_at h.decided_at r.now } in
      ground (
        arith,
        delete_branch-pushes done (Map.lookup h.branch d.handoff_refs) d,
        reset_replicas-pushes h1 h.nodes d,
        after_reset-pushes h1 ((reset_replicas answers r h1 h.nodes d).0)
            ((reset_replicas answers r h1 h.nodes d).1),
      )

  pub decide_state-pushes :
      (s : HandoffState) (h : Handoff) (d : Desk)
      → (resets (decide_state answers r s h d).1.history ≡ (
          if is_open s && says_closed (answers.pull_request d.history h.pr_number)
          then reset_pushes h.ref h.sha h.nodes (resets d.history)
          else resets d.history))
        × (primary_pushes (decide_state answers r s h d).1.history ≡ (
            if done_in_state h d.history s
            then deletion_push h.branch
                (Map.lookup h.branch d.handoff_refs)
                (primary_pushes d.history)
            else primary_pushes d.history))
  unfolding decide_state done_in_state is_open resets primary_pushes delete_handoff_branch
  decide_state-pushes open_state h d =
      decide_open-pushes h (answers.pull_request d.history h.pr_number) (note (asked h.pr_number) d)
  decide_state-pushes kept_primary h d =
      ground (arith, delete_branch-pushes h (Map.lookup h.branch d.handoff_refs) d)
  decide_state-pushes merged h d = (refl, refl)
  decide_state-pushes gone h d = (refl, refl)
  decide_state-pushes expired h d = (refl, refl)
