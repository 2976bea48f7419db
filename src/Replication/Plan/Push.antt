-- ===== src/Replication/Plan/Push.antt =====
-- internal/replication/plan.go with git.go's Push: what a replica holds after Plan's actions are
-- pushed. Git is not modelled; `leased` is the contract that Push's comments state: each ref succeeds
-- or fails on its own, and only succeeds if the remote still has Expected ("" for no such ref). What
-- else the remote refuses, by a hook or a branch's protection, is a parameter.
use forge_sync.Replication.Plan.Refs.{contains-union, distinct-union}
use forge_sync.Replication.Plan.Outcome.{plan-works, works, work_for, idle}
use forge_sync.Prelude.{
  ◌||◌, ◌&&◌, not, ◌∙◌, distinct, contains, str_eq_refl, ◌==◌, ◌≡◌, refl, ◌⊎◌, inl, inr, Bool, true,
  false, List, [], ◌∷◌, ◌++◌, Str, str_eq, str_eq_iff, Option, none, some, arith, if◌then◌else◌,
  All,
}
use forge_sync.Prelude.Map
use forge_sync.Prelude.Map.{lookup-insert, lookup-delete}
use forge_sync.Replication.Plan.{
  union, Refs, ActionKind, create, fast_forward, delete, reset, Action, Ancestry, plan, plan_values,
  plan_change, plan_branch,
}
use forge_sync.Replication.Plan.Safety.{
  times-values, reported-append, reported, Lossless, LosslessAction, plan-lossless,
}

-- The remote still has what the lease expects.
unfoldable pub still : Option Str → Str → Bool
still none e = str_eq [] e
still (some v) e = str_eq v e

unfoldable pub written : ActionKind → Str → Str → Refs → Refs
written create ref target m = Map.insert ref target m
written fast_forward ref target m = Map.insert ref target m
written delete ref target m = Map.delete ref m
written reset ref target m = Map.insert ref target m

module _ (accepts : Action → Bool) where
  -- One ref's update on a remote that may refuse it.
  unfoldable pub leased : Action → Refs → Refs
  leased a m =
      if accepts a && still (Map.lookup a.ref m) a.expected
      then written a.kind a.ref a.target m
      else m

  unfoldable pub pushed : List Action → Refs → Refs
  pushed [] m = m
  pushed (a ∷ rest) m = pushed rest (leased a m)

  -- No update of the ref is refused.
  unfoldable pub accepted : Str → List Action → Bool
  accepted k [] = true
  accepted k (a ∷ rest) = (not (str_eq a.ref k) || accepts a) && accepted k rest

-- No commit id is empty.
abbrev pub NonEmpty : Refs → Type 0
NonEmpty m = (k : Str) → Map.lookup k m ≡ some [] → ⊥

-- A test for it.
unfoldable pub no_empty : Refs → Bool
no_empty [] = true
no_empty ((j, []) ∷ m) = false
no_empty ((j, c ∷ v) ∷ m) = no_empty m

pub NonEmpty-entries : (m : Refs) → no_empty m ≡ true → NonEmpty m
unfolding no_empty Map.lookup
NonEmpty-entries [] h k e = cc
NonEmpty-entries ((j, []) ∷ m) h k e = cc
NonEmpty-entries ((j, c ∷ v) ∷ m) h k e = ground (arith, NonEmpty-entries m h k)

written-other :
    (kind : ActionKind) (ref target k : Str) (m : Refs)
    → str_eq ref k ≡ false
    → Map.lookup k (written kind ref target m) ≡ Map.lookup k m
unfolding written
written-other create ref target k m h = ground (arith, lookup-insert ref k target m)
written-other fast_forward ref target k m h = ground (arith, lookup-insert ref k target m)
written-other delete ref target k m h = ground (arith, lookup-delete ref k m)
written-other reset ref target k m h = ground (arith, lookup-insert ref k target m)

still-cases : (o : Option Str) (e : Str) → still o e ≡ true → (o ≡ some e) ⊎ ((o ≡ none) × (e ≡ []))
unfolding still
still-cases none e h = inr (refl, ground (arith, str_eq_iff [] e))
still-cases (some v) e h = inl (ground (arith, str_eq_iff v e))

module _ (accepts : Action → Bool) (is_ancestor : Ancestry) (primary replica base : Refs)
    (ids : NonEmpty replica) where
  -- A lease that holds means that the remote has what Plan saw.
  lease_snapshot :
      (kind : ActionKind) (ref expected target : Str) (now : Refs)
      → NonEmpty now
      → Lossless is_ancestor primary replica base kind ref expected target
      → still (Map.lookup ref now) expected ≡ true
      → Map.lookup ref now ≡ Map.lookup ref replica
  lease_snapshot create ref expected target now n safe h =
      ground (arith, still-cases (Map.lookup ref now) expected h, n ref)
  lease_snapshot fast_forward ref expected target now n safe h =
      ground (arith, still-cases (Map.lookup ref now) expected h, ids ref)
  lease_snapshot delete ref expected target now n safe h =
      ground (arith, still-cases (Map.lookup ref now) expected h, ids ref)
  lease_snapshot reset ref expected target now n safe h = absurd safe

  -- Where the remote no longer has what Plan saw, an update leaves its value alone.
  leased-keeps :
      (a : Action) (k : Str) (now : Refs)
      → NonEmpty now
      → LosslessAction is_ancestor primary replica base a
      → (Map.lookup k (leased accepts a now) ≡ Map.lookup k now)
        ⊎ (Map.lookup k now ≡ Map.lookup k replica)
  unfolding leased
  leased-keeps a k now n safe = ground (
    arith,
    lease_snapshot a.kind a.ref a.expected a.target now n safe,
    written-other a.kind a.ref a.target k now,
    str_eq_iff a.ref k,
  )

  leased-NonEmpty :
      (a : Action) (now : Refs)
      → NonEmpty primary
      → NonEmpty now
      → LosslessAction is_ancestor primary replica base a
      → NonEmpty (leased accepts a now)
  unfolding leased
  leased-NonEmpty a now p n safe k h =
      ground (arith, written-NonEmpty a.kind a.ref a.expected a.target now k p n safe, n k)
    where
      written-NonEmpty :
          (kind : ActionKind) (ref expected target : Str) (now : Refs) (k : Str)
          → NonEmpty primary
          → NonEmpty now
          → Lossless is_ancestor primary replica base kind ref expected target
          → Map.lookup k (written kind ref target now) ≡ some []
          → ⊥
      written-NonEmpty create ref expected target now k p n safe h =
          unfold written in ground (arith, lookup-insert ref k target now, p ref, n k)
      written-NonEmpty fast_forward ref expected target now k p n safe h =
          unfold written in ground (arith, lookup-insert ref k target now, p ref, n k)
      written-NonEmpty delete ref expected target now k p n safe h =
          unfold written in ground (arith, lookup-delete ref k now, n k)
      written-NonEmpty reset ref expected target now k p n safe h = absurd safe

  pushed-keeps :
      (l : List Action) (k : Str) (now : Refs)
      → NonEmpty primary
      → NonEmpty now
      → All (LosslessAction is_ancestor primary replica base) l
      → (Map.lookup k (pushed accepts l now) ≡ Map.lookup k now)
        ⊎ (Map.lookup k now ≡ Map.lookup k replica)
  unfolding pushed
  pushed-keeps [] k now p n safe = inl refl
  pushed-keeps (a ∷ l) k now p n safe = ground (
    arith,
    leased-keeps a k now n safe.0,
    pushed-keeps l k (leased accepts a now) p (leased-NonEmpty a now p n safe.0) safe.1,
  )

  -- Where neither the primary nor the replica, as Plan saw it, nor the remote now has an empty
  -- commit id: whatever the remote holds when Plan's actions are pushed with their leases, and
  -- whichever of the pushes it refuses, each ref keeps the remote's value, or the remote's value
  -- was the one that Plan had seen on the replica.
  pub pushed-plan_race :
      (k : Str) (now : Refs)
      → NonEmpty primary
      → NonEmpty now
      → (Map.lookup k (pushed accepts (plan is_ancestor primary replica base).actions now)
          ≡ Map.lookup k now)
        ⊎ (Map.lookup k now ≡ Map.lookup k replica)
  pushed-plan_race k now p n =
      pushed-keeps (plan is_ancestor primary replica base).actions k now p n
        (plan-lossless is_ancestor primary replica base)

module _ (accepts : Action → Bool) where
  pushed-append :
      (xs ys : List Action) (m : Refs)
      → pushed accepts (xs ++ ys) m ≡ pushed accepts ys (pushed accepts xs m)
  unfolding pushed
  pushed-append [] ys m = refl
  pushed-append (a ∷ xs) ys m = pushed-append xs ys (leased accepts a m)

  accepted-append :
      (k : Str) (xs ys : List Action)
      → accepted accepts k (xs ++ ys) ≡ (accepted accepts k xs && accepted accepts k ys)
  unfolding accepted
  accepted-append k [] ys = refl
  accepted-append k (a ∷ xs) ys = ground (arith, accepted-append k xs ys)

module _ (accepts : Action → Bool) (is_ancestor : Ancestry) (primary replica base : Refs) where
  pushed-values :
      (k ref : Str) (p r b : Option Str) (m : Refs)
      → Map.lookup ref m ≡ r
      → Map.lookup k (pushed accepts (plan_values is_ancestor idle ref p r b).actions m) ≡ (
          if str_eq ref k
          then (if (0 == reported k (plan_values is_ancestor idle ref p r b).issues)
                && accepted accepts k (plan_values is_ancestor idle ref p r b).actions
              then p
              else r)
          else Map.lookup k m)
  unfolding plan_values plan_change plan_branch pushed leased accepted still written reported
  pushed-values k ref (some p) (some r) b m e =
      ground (arith, str_eq_iff p r, str_eq_iff ref k, str_eq_refl r, lookup-insert ref k p m)
  pushed-values k ref (some p) none b m e =
      ground (arith, str_eq_iff ref k, str_eq_refl [], lookup-insert ref k p m)
  pushed-values k ref none (some r) (some b) m e =
      ground (arith, str_eq_iff ref k, str_eq_iff b r, str_eq_refl r, lookup-delete ref k m)
  pushed-values k ref none (some r) none m e = ground (arith, str_eq_iff ref k)
  pushed-values k ref none none b m e = ground (arith, str_eq_iff ref k)

  -- What a ref's own work leaves on the replica.
  abbrev result : Str → Option Str
  result k =
      if (0 == reported k (work_for is_ancestor primary replica base k).issues)
        && accepted accepts k (work_for is_ancestor primary replica base k).actions
      then Map.lookup k primary
      else Map.lookup k replica

  pushed-works :
      (k : Str) (refs : List Str) (m : Refs)
      → distinct refs ≡ true
      → ((j : Str) → contains j refs ≡ true → Map.lookup j m ≡ Map.lookup j replica)
      → Map.lookup k (pushed accepts (works is_ancestor primary replica base refs).actions m)
        ≡ (if contains k refs then result k else Map.lookup k m)
  unfolding works contains distinct
  pushed-works k [] m d same = unfold pushed in refl
  pushed-works k (ref ∷ refs) m d same =
      let w = work_for is_ancestor primary replica base ref in
      let here : Map.lookup ref m ≡ Map.lookup ref replica =
        same ref (ground (arith, str_eq_refl ref)) in
      let step = λ (j : Str).
        pushed-values j ref (Map.lookup ref primary) (Map.lookup ref replica) (Map.lookup ref base)
          m here in
      let rest =
        pushed-works k refs (pushed accepts w.actions m) (ground arith)
          (λ j h. step j ∙ ground (arith, same j, str_eq_iff ref j)) in
      rw (pushed-append accepts w.actions (works is_ancestor primary replica base refs).actions m)
        (rest ∙ ground (arith, step k, str_eq_iff ref k))

  reported-works :
      (k : Str) (refs : List Str)
      → distinct refs ≡ true
      → reported k (works is_ancestor primary replica base refs).issues ≡ (
          if contains k refs
          then reported k (work_for is_ancestor primary replica base k).issues
          else 0)
  unfolding works contains distinct
  reported-works k [] d = unfold reported in refl
  reported-works k (ref ∷ refs) d = ground (
    arith,
    reported-works k refs,
    reported-append k (work_for is_ancestor primary replica base ref).issues
        (works is_ancestor primary replica base refs).issues,
    times-values is_ancestor primary replica base k ref (Map.lookup ref primary)
        (Map.lookup ref replica) (Map.lookup ref base),
    str_eq_iff ref k,
  )

  accepted-values :
      (k ref : Str) (p r b : Option Str)
      → str_eq ref k ≡ false
      → accepted accepts k (plan_values is_ancestor idle ref p r b).actions ≡ true
  unfolding plan_values plan_change plan_branch accepted
  accepted-values k ref (some p) (some r) b h = ground arith
  accepted-values k ref (some p) none b h = ground arith
  accepted-values k ref none (some r) (some b) h = ground arith
  accepted-values k ref none (some r) none h = ground arith
  accepted-values k ref none none b h = ground arith

  accepted-works :
      (k : Str) (refs : List Str)
      → distinct refs ≡ true
      → accepted accepts k (works is_ancestor primary replica base refs).actions ≡ (
          if contains k refs
          then accepted accepts k (work_for is_ancestor primary replica base k).actions
          else true)
  unfolding works contains distinct
  accepted-works k [] d = unfold accepted in refl
  accepted-works k (ref ∷ refs) d = ground (
    arith,
    accepted-works k refs,
    accepted-append accepts k (work_for is_ancestor primary replica base ref).actions
        (works is_ancestor primary replica base refs).actions,
    accepted-values k ref (Map.lookup ref primary) (Map.lookup ref replica) (Map.lookup ref base),
    str_eq_iff ref k,
  )

  -- If the replica still is as Plan saw it when the actions are pushed, and each push is made on
  -- its own if its lease holds and the replica does not refuse it: each ref that no issue names and
  -- of which no push is refused then has on the replica the primary's value, or is absent as there,
  -- and each other ref has the value that the replica had.
  pub pushed-plan :
      (k : Str)
      → Map.lookup k (pushed accepts (plan is_ancestor primary replica base).actions replica) ≡ (
          if (0 == reported k (plan is_ancestor primary replica base).issues)
            && accepted accepts k (plan is_ancestor primary replica base).actions
          then Map.lookup k primary
          else Map.lookup k replica)
  pushed-plan k =
      let refs = union primary replica base in
      rw (plan-works is_ancestor primary replica base) (
        pushed-works k refs replica (distinct-union primary replica base) (λ j h. refl)
        ∙ ground (
          arith,
          reported-works k refs (distinct-union primary replica base),
          accepted-works k refs (distinct-union primary replica base),
          contains-union k primary replica base,
        ))
