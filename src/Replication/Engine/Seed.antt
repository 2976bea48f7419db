-- ===== src/Replication/Engine/Seed.antt =====
-- internal/replication/engine.go, seedPrimary: a repository copied to its primary from the node
-- where it was created first.
pub mod Source
use forge_sync.Prelude.{
  ◌≡◌, Bool, true, false, ◌&&◌, ◌||◌, not, ltb, keep, ℕ, List, [], ◌∷◌, Str, str_eq, bytes, Option,
  none, some, if◌then◌else◌, is_some,
}
use forge_sync.Prelude.Map
use forge_sync.Prelude.Map.{Map}
use forge_sync.Records.{Replica}
use forge_sync.Replication.Plan.{
  Refs, Action, ActionKind, create, fast_forward, delete, reset, Ancestry, plan,
}
use forge_sync.Replication.Handoff.{PushResult, result_of}
use forge_sync.Prelude.Effects.{Answer, given, failed}
use forge_sync.Replication.Engine.{
  Listing, listed, not_there, unreadable, Created, made, blocked, refused,
}

-- The copy was created before the other one.
unfoldable pub is_before : Option ℕ → Option ℕ → Bool
is_before (some t) (some u) = ltb t u
is_before (some t) none = false
is_before none u = false

unfoldable pub is_create : Action → Bool
is_create a = elim a.kind [ create ↦ true | fast_forward ↦ false | delete ↦ false | reset ↦ false ]

-- How seedPrimary ends.
pub data Seeded : Type 0 where
  no_source : Seeded
  nothing_to_copy : Seeded
  copied : List Action → Seeded
  not_made : Created → Seeded
  stopped : Str → Seeded
  rejected_ref : Str → Str → Seeded

-- The first created ref that the primary refused.
unfoldable pub first_refused : Map PushResult → List Action → Option Action
first_refused results [] = none
first_refused results (a ∷ actions) =
    if not (result_of a.ref results).ok then some a else first_refused results actions

module _ (healthy configured : Str → Bool) (primary : Str) where
  unfoldable pub can_seed : Replica → Bool
  can_seed r =
      r.present
      && not r.mirror
      && not (str_eq r.node primary)
      && healthy r.node
      && is_some r.forgejo_created

  unfoldable pub better : Option Replica → Replica → Bool
  better none r = true
  better (some src) r = is_before r.forgejo_created src.forgejo_created

  -- One turn of the loop over the replicas.
  unfoldable pub pick : Option Replica → Replica → Option Replica
  pick src r =
      if not (can_seed r) then src else if configured r.node && better src r then some r else src

  -- The loop over the replicas.
  unfoldable pub source_from : Option Replica → List Replica → Option Replica
  source_from src [] = src
  source_from src (r ∷ replicas) = source_from (pick src r) replicas

-- What the calls of one run of seedPrimary answer.
pub record SeedCalls : Type 0 where
  pub created : Created
  pub source_refs : Listing
  pub fetch : Option Str
  pub primary_refs : Listing
  pub push : List Action → Answer (Map PushResult)

module _ (is_ancestor : Ancestry) (c : SeedCalls) where
  -- The creations among what Plan gives.
  unfoldable pub creations : Refs → Refs → List Action
  creations source primary = keep is_create (plan is_ancestor source primary []).actions

  unfoldable pub seed_refused : List Action → Option Action → Map PushResult → Seeded
  seed_refused creates none results = copied creates
  seed_refused creates (some a) results = rejected_ref a.ref (result_of a.ref results).reason

  unfoldable pub seed_pushed : List Action → Answer (Map PushResult) → Seeded
  seed_pushed creates (failed e) = stopped e
  seed_pushed creates (given results) = seed_refused creates (first_refused results creates) results

  unfoldable pub seed_onto : Refs → Listing → Seeded
  seed_onto source not_there = stopped (bytes "repository not found")
  seed_onto source (unreadable e) = stopped e
  seed_onto source (listed primary) =
      seed_pushed (creations source primary) (c.push (creations source primary))

  unfoldable pub seed_fetched : Refs → Option Str → Seeded
  seed_fetched source (some e) = stopped e
  seed_fetched source none = seed_onto source c.primary_refs

  unfoldable pub seed_from : Listing → Seeded
  seed_from not_there = stopped (bytes "repository not found")
  seed_from (unreadable e) = stopped e
  seed_from (listed []) = nothing_to_copy
  seed_from (listed (x ∷ source)) = seed_fetched (x ∷ source) c.fetch

  unfoldable pub seed_made : Created → Seeded
  seed_made made = seed_from c.source_refs
  seed_made (blocked e) = not_made (blocked e)
  seed_made (refused e) = not_made (refused e)

  -- seedPrimary, by the copy to start from.
  unfoldable pub seed_primary : Option Replica → Seeded
  seed_primary none = no_source
  seed_primary (some src) = seed_made c.created
