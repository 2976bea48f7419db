-- ===== src/Replication/Plan/Outcome.antt =====
-- internal/replication/plan.go: each ref's own outcome, apart from the lists that Plan builds.
use mathlib.Core.List.{append-nil, append_assoc}
use forge_sync.Prelude.{◌≡◌, ap, ◌∙◌, List, [], ◌∷◌, ◌++◌, Str, Option, none, some, arith}
use forge_sync.Prelude.Map
use forge_sync.Replication.Plan.{
  Refs, Work, Ancestry, plan_branch, plan_change, plan_values, plan_ref, plan_refs, plan, union,
}

abbrev pub idle : Work
idle = record { actions = []; issues = [] }

-- One piece of work behind another.
abbrev pub then_do : Work → Work → Work
then_do v w = record { actions = v.actions ++ w.actions; issues = v.issues ++ w.issues }

module _ (is_ancestor : Ancestry) where
  plan_branch-then_do :
      (w : Work) (ref p r : Str) (b : Option Str)
      → plan_branch is_ancestor w ref p r b ≡ then_do w (plan_branch is_ancestor idle ref p r b)
  unfolding plan_branch
  plan_branch-then_do w ref p r b = ground (arith, append-nil w.actions, append-nil w.issues)

  plan_values-then_do :
      (w : Work) (ref : Str) (p r b : Option Str)
      → plan_values is_ancestor w ref p r b ≡ then_do w (plan_values is_ancestor idle ref p r b)
  unfolding plan_values plan_change
  plan_values-then_do w ref (some p) (some r) b =
      ground (arith, append-nil w.actions, append-nil w.issues, plan_branch-then_do w ref p r b)
  plan_values-then_do w ref (some p) none b = ground (arith, append-nil w.issues)
  plan_values-then_do w ref none (some r) (some b) =
      ground (arith, append-nil w.actions, append-nil w.issues)
  plan_values-then_do w ref none (some r) none = ground (arith, append-nil w.actions)
  plan_values-then_do w ref none none b = ground (arith, append-nil w.actions, append-nil w.issues)

  module _ (primary replica base : Refs) where
    -- What Plan does about one ref.
    abbrev pub work_for : Str → Work
    work_for ref =
        plan_values is_ancestor idle ref (Map.lookup ref primary) (Map.lookup ref replica)
          (Map.lookup ref base)

    unfoldable pub works : List Str → Work
    works [] = idle
    works (ref ∷ refs) = then_do (work_for ref) (works refs)

    plan_refs-works :
        (w : Work) (refs : List Str)
        → plan_refs is_ancestor primary replica base w refs ≡ then_do w (works refs)
    unfolding plan_refs plan_ref works
    plan_refs-works w [] = ground (arith, append-nil w.actions, append-nil w.issues)
    plan_refs-works w (ref ∷ refs) =
        let x = work_for ref in
        plan_refs-works (plan_ref is_ancestor primary replica base w ref) refs
        ∙ ap (λ v. then_do v (works refs))
            (plan_values-then_do w ref (Map.lookup ref primary) (Map.lookup ref replica)
              (Map.lookup ref base))
        ∙ ground (
          arith,
          append_assoc w.actions x.actions (works refs).actions,
          append_assoc w.issues x.issues (works refs).issues,
        )

    pub plan-works : plan is_ancestor primary replica base ≡ works (union primary replica base)
    unfolding plan
    plan-works = plan_refs-works idle (union primary replica base)
