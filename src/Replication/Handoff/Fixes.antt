-- ===== src/Replication/Handoff/Fixes.antt =====
-- internal/replication/handoff.go, autoFix, of the issues that internal/replication/plan.go finds on
-- a replica.
use forge_sync.Prelude.{Str, ◌≡◌, refl, arith, true, List, [], ◌∷◌, none, some, All}
use forge_sync.Prelude.Map
use forge_sync.Replication.Plan.{
  replica_ahead, diverged, primary_rewrote, replica_changed, replica_extra, replica_changed,
  primary_rewrote, diverged, replica_ahead, Issue, IssueKind, Refs, Action, ActionKind, create,
  fast_forward, delete, reset, Ancestry, plan,
}
use forge_sync.Replication.Plan.Safety.{Holds, HoldsIssue, plan-holds}
use forge_sync.Replication.Handoff.{Issue, IssueKind, fixes, fix}

module _ (is_ancestor : Ancestry) (primary replica base : Refs) where
  -- The action takes nothing from the primary, and brings it what the replica has.
  abbrev pub Gains : ActionKind → Str → Str → Str → Type 0
  Gains create ref e t =
      (Map.lookup ref primary ≡ none) × (Map.lookup ref replica ≡ some t) × (e ≡ [])
  Gains fast_forward ref e t =
      (Map.lookup ref primary ≡ some e)
      × (Map.lookup ref replica ≡ some t)
      × (is_ancestor e t ≡ (true, true))
  Gains delete ref e t = ⊥
  Gains reset ref e t = ⊥

  abbrev pub GainsAction : Action → Type 0
  GainsAction a = Gains a.kind a.ref a.expected a.target

  fix-gains :
      (k : IssueKind) (is : Issue) (rest : List Action)
      → Holds is_ancestor primary replica base k is.ref is.primary is.replica
      → All GainsAction rest
      → All GainsAction (fix k is rest)
  unfolding fix
  fix-gains replica_ahead is rest h a = ((h.0, h.1, h.2), a)
  fix-gains diverged is rest h a = a
  fix-gains primary_rewrote is rest h a = a
  fix-gains replica_changed is rest h a = a
  fix-gains replica_extra is rest h a = ((h.0, h.1, refl), a)

  fixes-gains :
      (l : List Issue)
      → All (HoldsIssue is_ancestor primary replica base) l
      → All GainsAction (fixes l)
  unfolding fixes
  fixes-gains [] h = ground arith
  fixes-gains (is ∷ l) (h, hs) = fix-gains is.kind is (fixes l) h (fixes-gains l hs)

  -- Every action that autoFix pushes to the primary, of the issues that Plan found, creates a ref
  -- that the primary lacked, with the replica's value, or moves a branch from the primary's value
  -- to the replica's, of which Git has said that the first is an ancestor of the second.
  pub fixes-lossless : All GainsAction (fixes (plan is_ancestor primary replica base).issues)
  fixes-lossless =
      fixes-gains ((plan is_ancestor primary replica base).issues)
        (plan-holds is_ancestor primary replica base)
