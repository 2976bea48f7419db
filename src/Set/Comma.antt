-- ===== src/Set/Comma.antt =====
-- internal/set/set.go: a member with a comma in it, as the name of an attachment may have.
use forge_sync.Prelude.{◌≡◌, Bool, true, false, Str, distinct, contains, arith, some}
use forge_sync.Prelude.Map
use forge_sync.Prelude.Map.{Map, has}
use forge_sync.Set.{at, decide, from}
use forge_sync.Set.Members.{none_have_at}
use forge_sync.Set.Decide.{decide-add, decide-remove}
use forge_sync.Set.Text.{comma_free, from-comma}

-- A member with a comma in it, that one node has and another lacks, is not removed at the first and
-- is added at the second, whatever text is recorded as the base, where no node is named twice.
pub comma-undone :
    (e n k base : Str) (have : Map (Map Bool)) (set other : Map Bool)
    → distinct (Map.keys have) ≡ true
    → comma_free e ≡ false
    → Map.lookup n have ≡ some set
    → has e set ≡ true
    → Map.lookup k have ≡ some other
    → has e other ≡ false
    → (contains e (at n (decide have (from base)).remove) ≡ false)
      × (contains e (at k (decide have (from base)).add) ≡ true)
comma-undone e n k base have set other names comma here held there gone = (
  ground (arith, decide-remove e n have (from base) set names here, from-comma e base comma),
  ground (
    arith,
    decide-add e k have (from base) other names there,
    from-comma e base comma,
    none_have_at e n set have here,
  ),
)
