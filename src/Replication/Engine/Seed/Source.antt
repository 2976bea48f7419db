-- ===== src/Replication/Engine/Seed/Source.antt =====
-- internal/replication/engine.go, seedPrimary: which copy is the source.
use forge_sync.Prelude.{
  ◌||◌, [], not, ◌∷◌, List, Bool, true, false, ◌&&◌, leb, Str, Option, none, some, or_default,
}
use forge_sync.Records.{Replica}
use forge_sync.Replication.Engine.Seed.{can_seed}

-- A copy is there, and was created no later than the other.
unfoldable pub at_most : Option Replica → Replica → Bool
at_most none r = false
at_most (some src) r = leb (or_default 0 src.forgejo_created) (or_default 0 r.forgejo_created)

module _ (healthy configured : Str → Bool) (primary : Str) where
  -- A copy that may be the source: present, no mirror, with its time of creation known, on another
  -- node than the primary that is healthy and configured.
  unfoldable pub is_candidate : Replica → Bool
  is_candidate r = can_seed healthy configured primary r && configured r.node

  unfoldable pub is_sound : Option Replica → Bool
  is_sound none = true
  is_sound (some src) = is_candidate src

  -- The candidates of a list were created no earlier than the copy.
  unfoldable pub is_earliest : Option Replica → List Replica → Bool
  is_earliest src [] = true
  is_earliest src (r ∷ l) = (not (is_candidate r) || at_most src r) && is_earliest src l
