-- ===== src/Replication/Plan/Safety.antt =====
-- internal/replication/plan.go: Plan's actions lose nothing, its issues say what is so, and every
-- difference is either acted on or reported, once.
use forge_sync.Replication.Plan.Refs.{contains-union, distinct-union}
use forge_sync.Prelude.{
  refl, ◌∙◌, distinct, contains, ◌≡◌, ◌≢◌, ℕ, ◌+◌, Bool, true, false, List, [], ◌∷◌, ◌++◌, Str,
  str_eq, str_eq_iff, Option, none, some, arith, if◌then◌else◌, All,
}
use forge_sync.Prelude.Map
use forge_sync.Replication.Plan.{
  union, plan, Refs, ActionKind, create, fast_forward, delete, reset, Action, IssueKind,
  replica_ahead, diverged, primary_rewrote, replica_changed, replica_extra, Issue, Work, Ancestry,
  is_tag, unchanged, plan_branch, plan_change, plan_values,
}
use forge_sync.Replication.Plan.Outcome.{work_for, plan-works, works, idle}

All-append {ℓ κ} :
    {A : Type ℓ} (P : A → Type κ) (xs ys : List A) → All P xs → All P ys → All P (xs ++ ys)
All-append P [] ys h k = k
All-append P (x ∷ xs) ys h k = (h.0, All-append P xs ys h.1 k)

-- Both sides hold the same, or neither has the ref.
unfoldable pub same_value : Option Str → Option Str → Bool
same_value none none = true
same_value none (some r) = false
same_value (some p) none = false
same_value (some p) (some r) = str_eq p r

-- How often a ref is acted on or reported.
unfoldable pub acted : Str → List Action → ℕ
acted k [] = 0
acted k (a ∷ rest) = (if str_eq a.ref k then 1 else 0) + acted k rest

unfoldable pub reported : Str → List Issue → ℕ
reported k [] = 0
reported k (i ∷ rest) = (if str_eq i.ref k then 1 else 0) + reported k rest

abbrev pub times : Str → Work → ℕ
times k w = acted k w.actions + reported k w.issues

acted-append : (k : Str) (xs ys : List Action) → acted k (xs ++ ys) ≡ acted k xs + acted k ys
unfolding acted
acted-append k [] ys = omega arith
acted-append k (a ∷ xs) ys = omega (arith, acted-append k xs ys)

pub reported-append :
    (k : Str) (xs ys : List Issue) → reported k (xs ++ ys) ≡ reported k xs + reported k ys
unfolding reported
reported-append k [] ys = omega arith
reported-append k (a ∷ xs) ys = omega (arith, reported-append k xs ys)

module _ (is_ancestor : Ancestry) (primary replica base : Refs) where
  -- What makes an action lose nothing.
  abbrev pub Lossless : ActionKind → Str → Str → Str → Type 0
  Lossless create ref expected target =
      (Map.lookup ref replica ≡ none) × (expected ≡ []) × (Map.lookup ref primary ≡ some target)
  Lossless fast_forward ref expected target =
      (Map.lookup ref replica ≡ some expected)
      × (Map.lookup ref primary ≡ some target)
      × (is_tag ref ≡ false)
      × (is_ancestor expected target ≡ (true, true))
  Lossless delete ref expected target =
      (Map.lookup ref replica ≡ some expected)
      × (Map.lookup ref base ≡ some expected)
      × (Map.lookup ref primary ≡ none)
  Lossless reset ref expected target = ⊥

  abbrev pub LosslessAction : Action → Type 0
  LosslessAction a = Lossless a.kind a.ref a.expected a.target

  -- What an issue says.
  abbrev pub Holds : IssueKind → Str → Str → Str → Type 0
  Holds replica_ahead ref p r =
      (Map.lookup ref primary ≡ some p)
      × (Map.lookup ref replica ≡ some r)
      × (is_ancestor p r ≡ (true, true))
      × (is_ancestor r p ≢ (true, true))
  Holds diverged ref p r =
      (Map.lookup ref primary ≡ some p)
      × (Map.lookup ref replica ≡ some r)
      × (p ≢ r)
      × (is_ancestor r p ≢ (true, true))
  Holds primary_rewrote ref p r =
      (Map.lookup ref primary ≡ some p)
      × (Map.lookup ref replica ≡ some r)
      × (p ≢ r)
      × (Map.lookup ref base ≡ some r)
  Holds replica_changed ref p r =
      (Map.lookup ref primary ≢ some r)
      × (Map.lookup ref replica ≡ some r)
      × (Map.lookup ref base ≢ some r)
  Holds replica_extra ref p r =
      (Map.lookup ref primary ≡ none)
      × (Map.lookup ref replica ≡ some r)
      × (Map.lookup ref base ≡ none)

  abbrev pub HoldsIssue : Issue → Type 0
  HoldsIssue i = Holds i.kind i.ref i.primary i.replica

  work_for-lossless :
      (ref : Str) (p r b : Option Str)
      → Map.lookup ref primary ≡ p
      → Map.lookup ref replica ≡ r
      → Map.lookup ref base ≡ b
      → All LosslessAction (plan_values is_ancestor idle ref p r b).actions
  unfolding plan_values plan_change plan_branch unchanged
  work_for-lossless ref (some p) (some r) none hp hr hb = ground (arith, str_eq_iff p r)
  work_for-lossless ref (some p) (some r) (some b) hp hr hb = ground (arith, str_eq_iff p r)
  work_for-lossless ref (some p) none b hp hr hb = ground arith
  work_for-lossless ref none (some r) (some b) hp hr hb = ground (arith, str_eq_iff b r)
  work_for-lossless ref none (some r) none hp hr hb = ground arith
  work_for-lossless ref none none b hp hr hb = ground arith

  work_for-holds :
      (ref : Str) (p r b : Option Str)
      → Map.lookup ref primary ≡ p
      → Map.lookup ref replica ≡ r
      → Map.lookup ref base ≡ b
      → All HoldsIssue (plan_values is_ancestor idle ref p r b).issues
  unfolding plan_values plan_change plan_branch unchanged
  work_for-holds ref (some p) (some r) none hp hr hb = ground (arith, str_eq_iff p r)
  work_for-holds ref (some p) (some r) (some b) hp hr hb =
      ground (arith, str_eq_iff p r, str_eq_iff b r)
  work_for-holds ref (some p) none b hp hr hb = ground arith
  work_for-holds ref none (some r) (some b) hp hr hb = ground (arith, str_eq_iff b r)
  work_for-holds ref none (some r) none hp hr hb = ground arith
  work_for-holds ref none none b hp hr hb = ground arith

  works-lossless :
      (refs : List Str) → All LosslessAction (works is_ancestor primary replica base refs).actions
  unfolding works
  works-lossless [] = tt
  works-lossless (ref ∷ refs) =
      All-append LosslessAction (work_for is_ancestor primary replica base ref).actions
        (works is_ancestor primary replica base refs).actions
        (work_for-lossless ref _ _ _ refl refl refl) (works-lossless refs)

  works-holds :
      (refs : List Str) → All HoldsIssue (works is_ancestor primary replica base refs).issues
  unfolding works
  works-holds [] = tt
  works-holds (ref ∷ refs) =
      All-append HoldsIssue (work_for is_ancestor primary replica base ref).issues
        (works is_ancestor primary replica base refs).issues
        (work_for-holds ref _ _ _ refl refl refl) (works-holds refs)

  -- Every action of Plan loses nothing: a creation is of a ref that the replica lacks, a
  -- fast-forward is of a branch from the replica's value to the primary's with Git having said that
  -- the one is an ancestor of the other, a deletion is of a ref that the primary lacks and whose
  -- value on the replica is what was last written there, and there is no reset; each expects the
  -- value that the replica has.
  pub plan-lossless : All LosslessAction (plan is_ancestor primary replica base).actions
  plan-lossless =
      rw (plan-works is_ancestor primary replica base) (works-lossless (union primary replica base))

  -- Every issue of Plan says what is so: ahead means that the primary's value is an ancestor of the
  -- replica's and not the other way round; diverged that the values differ and the replica's is not
  -- shown to be an ancestor; rewritten that they differ and the replica has what was last written;
  -- changed that the replica has a value other than the primary's and than what was last written;
  -- extra that neither the primary nor the base has the ref.
  pub plan-holds : All HoldsIssue (plan is_ancestor primary replica base).issues
  plan-holds =
      rw (plan-works is_ancestor primary replica base) (works-holds (union primary replica base))

  -- One ref's work names that ref alone, once if its two values differ.
  pub times-values :
      (k ref : Str) (p r b : Option Str)
      → times k (plan_values is_ancestor idle ref p r b)
        ≡ (if str_eq ref k then (if same_value p r then 0 else 1) else 0)
  unfolding plan_values plan_change plan_branch same_value acted reported
  times-values k ref (some p) (some r) b = ground arith
  times-values k ref (some p) none b = ground arith
  times-values k ref none (some r) (some b) = ground arith
  times-values k ref none (some r) none = ground arith
  times-values k ref none none b = ground arith

  times-works :
      (k : Str) (refs : List Str)
      → distinct refs ≡ true
      → times k (works is_ancestor primary replica base refs) ≡ (
          if contains k refs
          then (if same_value (Map.lookup k primary) (Map.lookup k replica) then 0 else 1)
          else 0)
  unfolding works contains distinct
  times-works k [] d = unfold acted reported in refl
  times-works k (ref ∷ refs) d = ground (
    arith,
    times-works k refs,
    times-values k ref (Map.lookup ref primary) (Map.lookup ref replica) (Map.lookup ref base),
    acted-append k (work_for is_ancestor primary replica base ref).actions
        (works is_ancestor primary replica base refs).actions,
    reported-append k (work_for is_ancestor primary replica base ref).issues
        (works is_ancestor primary replica base refs).issues,
    str_eq_iff ref k,
  )

  -- A ref is named by exactly one action or issue of Plan if its values on the primary and on the
  -- replica differ, and by none if they are the same or both are absent.
  pub plan-times :
      (k : Str)
      → times k (plan is_ancestor primary replica base)
        ≡ (if same_value (Map.lookup k primary) (Map.lookup k replica) then 0 else 1)
  plan-times k = rw (plan-works is_ancestor primary replica base) (
      times-works k (union primary replica base) (distinct-union primary replica base)
      ∙ unfold same_value in ground (arith, contains-union k primary replica base))
