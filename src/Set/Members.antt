-- ===== src/Set/Members.antt =====
-- internal/set/set.go: which names Members lists, and which nodes have a member.
use forge_sync.Prelude.{
  ◌≡◌, refl, Bool, true, false, ◌||◌, not, List, [], ◌∷◌, Str, str_eq_iff, contains, distinct,
  length, ltb, is_some, arith, some,
}
use forge_sync.Prelude.Map
use forge_sync.Prelude.Map.{Map, has, contains-keys, distinct-keys-insert, lookup-insert}
use forge_sync.Prelude.Sort.{contains-sort}
use forge_sync.Set.{mark, mark_sets, members, nodes_with, nodes_without, all_have, none_have}

-- Some node has an entry, of either value, for the member.
unfoldable pub listed : Str → Map (Map Bool) → Bool
listed e [] = false
listed e ((n, set) ∷ have) = is_some (Map.lookup e set) || listed e have

pub lookup-mark :
    (e : Str) (es : List Str) (out : Map Bool)
    → is_some (Map.lookup e (mark es out)) ≡ (contains e es || is_some (Map.lookup e out))
unfolding mark contains
lookup-mark e [] out = refl
lookup-mark e (j ∷ es) out =
    ground (arith, lookup-mark e es (Map.insert j true out), lookup-insert j e true out)

lookup-mark_sets :
    (e : Str) (have : Map (Map Bool)) (seen : Map Bool)
    → is_some (Map.lookup e (mark_sets have seen)) ≡ (listed e have || is_some (Map.lookup e seen))
unfolding mark_sets listed
lookup-mark_sets e [] seen = refl
lookup-mark_sets e ((n, set) ∷ have) seen = ground (
  arith,
  lookup-mark_sets e have (mark (Map.keys set) seen),
  lookup-mark e (Map.keys set) seen,
  contains-keys e set,
)

-- Members lists exactly the entries of the base and of the nodes' sets.
pub contains-members :
    (e : Str) (have : Map (Map Bool)) (base : Map Bool)
    → contains e (members have base) ≡ (listed e have || is_some (Map.lookup e base))
unfolding members Map.lookup
contains-members e have base = ground (
  arith,
  contains-sort e (Map.keys (mark_sets have (mark (Map.keys base) []))),
  contains-keys e (mark_sets have (mark (Map.keys base) [])),
  lookup-mark_sets e have (mark (Map.keys base) []),
  lookup-mark e (Map.keys base) [],
  contains-keys e base,
)

-- What is true in a set is an entry of it.
has-lookup : (e : Str) (set : Map Bool) → has e set ≡ true → is_some (Map.lookup e set) ≡ true
unfolding has
has-lookup e set h = ground arith

pub has-members_base :
    (e : Str) (have : Map (Map Bool)) (base : Map Bool)
    → has e base ≡ true
    → contains e (members have base) ≡ true
has-members_base e have base h = ground (arith, contains-members e have base, has-lookup e base h)

listed_of_held : (e : Str) (have : Map (Map Bool)) → none_have e have ≡ false → listed e have ≡ true
unfolding none_have listed
listed_of_held e [] h = cc
listed_of_held e ((n, set) ∷ have) h = ground (arith, listed_of_held e have, has-lookup e set)

pub has-members_held :
    (e : Str) (have : Map (Map Bool)) (base : Map Bool)
    → none_have e have ≡ false
    → contains e (members have base) ≡ true
has-members_held e have base h =
    ground (arith, contains-members e have base, listed_of_held e have h)

-- The lists of nodes, as tests.
pub nodes_with-none :
    (e : Str) (have : Map (Map Bool)) → ltb 0 (length (nodes_with e have)) ≡ not (none_have e have)
unfolding nodes_with none_have
nodes_with-none e [] = refl
nodes_with-none e ((n, set) ∷ have) = ground (arith, nodes_with-none e have)

pub nodes_without-all :
    (e : Str) (have : Map (Map Bool))
    → ltb 0 (length (nodes_without e have)) ≡ not (all_have e have)
unfolding nodes_without all_have
nodes_without-all e [] = refl
nodes_without-all e ((n, set) ∷ have) = ground (arith, nodes_without-all e have)

nodes_with_known :
    (e n : Str) (have : Map (Map Bool))
    → contains n (nodes_with e have) ≡ true
    → contains n (Map.keys have) ≡ true
unfolding nodes_with contains Map.keys
nodes_with_known e n [] h = h
nodes_with_known e n ((m, set) ∷ have) h = ground (arith, nodes_with_known e n have)

nodes_without_known :
    (e n : Str) (have : Map (Map Bool))
    → contains n (nodes_without e have) ≡ true
    → contains n (Map.keys have) ≡ true
unfolding nodes_without contains Map.keys
nodes_without_known e n [] h = h
nodes_without_known e n ((m, set) ∷ have) h = ground (arith, nodes_without_known e n have)

module _ (e n : Str) (set : Map Bool) where
  pub contains-nodes_with :
      (have : Map (Map Bool))
      → distinct (Map.keys have) ≡ true
      → Map.lookup n have ≡ some set
      → contains n (nodes_with e have) ≡ has e set
  unfolding nodes_with contains Map.keys Map.lookup distinct
  contains-nodes_with [] d h = cc
  contains-nodes_with ((m, s) ∷ have) d h =
      ground (arith, contains-nodes_with have, nodes_with_known e n have, str_eq_iff m n)

  pub contains-nodes_without :
      (have : Map (Map Bool))
      → distinct (Map.keys have) ≡ true
      → Map.lookup n have ≡ some set
      → contains n (nodes_without e have) ≡ not (has e set)
  unfolding nodes_without contains Map.keys Map.lookup distinct
  contains-nodes_without [] d h = cc
  contains-nodes_without ((m, s) ∷ have) d h =
      ground (arith, contains-nodes_without have, nodes_without_known e n have, str_eq_iff m n)

  pub none_have_at :
      (have : Map (Map Bool))
      → Map.lookup n have ≡ some set
      → none_have e have ≡ true
      → has e set ≡ false
  unfolding none_have Map.lookup
  none_have_at [] h a = cc
  none_have_at ((m, s) ∷ have) h a = ground (arith, none_have_at have)

  pub all_have_at :
      (have : Map (Map Bool))
      → Map.lookup n have ≡ some set
      → all_have e have ≡ true
      → has e set ≡ true
  unfolding all_have Map.lookup
  all_have_at [] h a = cc
  all_have_at ((m, s) ∷ have) h a = ground (arith, all_have_at have)

-- A map that is built by inserting has no key twice.
pub distinct-keys-mark :
    (es : List Str) (out : Map Bool)
    → distinct (Map.keys out) ≡ true
    → distinct (Map.keys (mark es out)) ≡ true
unfolding mark
distinct-keys-mark [] out d = d
distinct-keys-mark (e ∷ es) out d =
    distinct-keys-mark es (Map.insert e true out) (distinct-keys-insert e true out d)
