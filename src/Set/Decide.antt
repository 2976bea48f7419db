-- ===== src/Set/Decide.antt =====
-- internal/set/set.go: what Decide tells each node to add and to take away.
use forge_sync.Prelude.{
  false, none, ◌≡◌, refl, Bool, true, ◌&&◌, ◌||◌, not, List, [], ◌∷◌, ◌++◌, Str, str_eq, str_eq_iff,
  contains, contains-append, distinct, arith, some,
}
use forge_sync.Prelude.Map
use forge_sync.Prelude.Map.{Map, has, lookup-insert}
use forge_sync.Prelude.Sort.{contains-sort}
use forge_sync.Set.{
  Plan, at, append_each, nodes_with, nodes_without, decide_member, decide_members, members,
  sort_each, decide, all_have, none_have,
}
use forge_sync.Set.Members.{
  has-members_base, has-members_held, nodes_with-none, nodes_without-all, contains-nodes_with,
  contains-nodes_without,
}

contains-append_each :
    (k n e : Str) (ns : List Str) (m : Map (List Str))
    → contains k (at n (append_each ns e m))
      ≡ (contains k (at n m) || (contains n ns && str_eq e k))
unfolding append_each at contains
contains-append_each k n e [] m = ground arith
contains-append_each k n e (j ∷ ns) m = ground (
  arith,
  contains-append_each k n e ns (Map.insert j (at j m ++ e ∷ []) m),
  lookup-insert j n (at j m ++ e ∷ []) m,
  contains-append k (at j m) (e ∷ []),
  str_eq_iff j n,
)

module _ (k n : Str) (have : Map (Map Bool)) (base : Map Bool) where
  -- What one round of the loop adds to the list of the node.
  adds : Str → Bool
  adds e = not (has e base) && not (none_have e have) && contains n (nodes_without e have)

  removes : Str → Bool
  removes e = has e base && not (all_have e have) && contains n (nodes_with e have)

  decide_member-add :
      (e : Str) (p : Plan)
      → contains k (at n (decide_member have base e p).add)
        ≡ (contains k (at n p.add) || (adds e && str_eq e k))
  unfolding decide_member adds
  decide_member-add e p = ground (
    arith,
    contains-append_each k n e (nodes_without e have) p.add,
    nodes_with-none e have,
    nodes_without-all e have,
  )

  decide_member-remove :
      (e : Str) (p : Plan)
      → contains k (at n (decide_member have base e p).remove)
        ≡ (contains k (at n p.remove) || (removes e && str_eq e k))
  unfolding decide_member removes
  decide_member-remove e p = ground (
    arith,
    contains-append_each k n e (nodes_with e have) p.remove,
    nodes_with-none e have,
    nodes_without-all e have,
  )

  decide_members-add :
      (es : List Str) (p : Plan)
      → contains k (at n (decide_members have base es p).add)
        ≡ (contains k (at n p.add) || (contains k es && adds k))
  unfolding decide_members contains
  decide_members-add [] p = ground arith
  decide_members-add (e ∷ es) p = ground (
    arith,
    decide_members-add es (decide_member have base e p),
    decide_member-add e p,
    str_eq_iff e k,
  )

  decide_members-remove :
      (es : List Str) (p : Plan)
      → contains k (at n (decide_members have base es p).remove)
        ≡ (contains k (at n p.remove) || (contains k es && removes k))
  unfolding decide_members contains
  decide_members-remove [] p = ground arith
  decide_members-remove (e ∷ es) p = ground (
    arith,
    decide_members-remove es (decide_member have base e p),
    decide_member-remove e p,
    str_eq_iff e k,
  )

contains-sort_each :
    (k n : Str) (m : Map (List Str)) → contains k (at n (sort_each m)) ≡ contains k (at n m)
unfolding sort_each at contains Map.lookup
contains-sort_each k n [] = refl
contains-sort_each k n ((j, l) ∷ m) = ground (arith, contains-sort_each k n m, contains-sort k l)

module _ (e n : Str) (have : Map (Map Bool)) (base set : Map Bool)
    (names : distinct (Map.keys have) ≡ true) (copy : Map.lookup n have ≡ some set) where
  -- For a node with a set, where no node is named twice: Decide tells it to add a member exactly
  -- when the base lacks the member, the node lacks it, and some node has it.
  pub decide-add :
      contains e (at n (decide have base).add)
      ≡ (not (has e base) && (not (has e set) && not (none_have e have)))
  unfolding decide adds at contains Map.lookup
  decide-add = ground (
    arith,
    contains-sort_each e n
        (decide_members have base (members have base) (record { add = []; remove = [] })).add,
    decide_members-add e n have base (members have base) (record { add = []; remove = [] }),
    has-members_held e have base,
    contains-nodes_without e n set have,
  )

  -- For a node with a set, where no node is named twice: Decide tells it to remove a member exactly
  -- when the base has the member, the node has it, and some node lacks it.
  pub decide-remove :
      contains e (at n (decide have base).remove)
      ≡ (has e base && (has e set && not (all_have e have)))
  unfolding decide removes at contains Map.lookup
  decide-remove = ground (
    arith,
    contains-sort_each e n
        (decide_members have base (members have base) (record { add = []; remove = [] })).remove,
    decide_members-remove e n have base (members have base) (record { add = []; remove = [] }),
    has-members_base e have base,
    contains-nodes_with e n set have,
  )

nodes_without_unknown :
    (e n : Str) (have : Map (Map Bool))
    → Map.lookup n have ≡ none
    → contains n (nodes_without e have) ≡ false
unfolding nodes_without contains Map.lookup
nodes_without_unknown e n [] h = refl
nodes_without_unknown e n ((m, s) ∷ have) h =
    ground (arith, nodes_without_unknown e n have, str_eq_iff m n)

nodes_with_unknown :
    (e n : Str) (have : Map (Map Bool))
    → Map.lookup n have ≡ none
    → contains n (nodes_with e have) ≡ false
unfolding nodes_with contains Map.lookup
nodes_with_unknown e n [] h = refl
nodes_with_unknown e n ((m, s) ∷ have) h =
    ground (arith, nodes_with_unknown e n have, str_eq_iff m n)

-- A node without a set is told nothing.
module _ (e n : Str) (have : Map (Map Bool)) (base : Map Bool)
    (copy : Map.lookup n have ≡ none) where
  pub decide-add_unknown : contains e (at n (decide have base).add) ≡ false
  unfolding decide adds at contains Map.lookup
  decide-add_unknown = ground (
    arith,
    contains-sort_each e n
        (decide_members have base (members have base) (record { add = []; remove = [] })).add,
    decide_members-add e n have base (members have base) (record { add = []; remove = [] }),
    nodes_without_unknown e n have,
  )

  pub decide-remove_unknown : contains e (at n (decide have base).remove) ≡ false
  unfolding decide removes at contains Map.lookup
  decide-remove_unknown = ground (
    arith,
    contains-sort_each e n
        (decide_members have base (members have base) (record { add = []; remove = [] })).remove,
    decide_members-remove e n have base (members have base) (record { add = []; remove = [] }),
    nodes_with_unknown e n have,
  )
