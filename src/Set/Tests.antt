-- ===== src/Set/Tests.antt =====
-- Runs of internal/set/set.go on small sets, and its theorems at them.
use forge_sync.Set.Decide.{decide-remove}
use forge_sync.Set.Comma.{comma-undone}
use forge_sync.Set.Text.{is_member, comma_free}
use forge_sync.Set.Settle.{has-from-settle, settles, AllProper}
use forge_sync.Set.Converge.{Moved-refl, agreed, Moved}
use forge_sync.Prelude.{
  ne_of_str_eq, str_eq_iff, ◌&&◌, contains_of_all, arith, not, ◌≢◌, all, Str, contains, some,
  distinct, ◌≡◌, refl, keep, Bool, true, false, [], ◌∷◌, bytes, str_eq,
}
use forge_sync.Prelude.Map
use forge_sync.Prelude.Map.{Map, has}
use forge_sync.Prelude.Sort.{sort}
use forge_sync.Set.{
  value, from, decide, settle, settled, at, members, join, present, mark, split, sort_each,
  decide_members, mark_sets, decide_member, nodes_with, nodes_without, append_each, settle_members,
  settle_member, all_have, none_have,
}

-- Two nodes; the base has "b" and "c", the first node lost "c" and gained "a".
abbrev two_nodes : Map (Map Bool)
two_nodes =
    (bytes "se", (bytes "a", true) ∷ (bytes "b", true) ∷ [])
    ∷ (bytes "dk", (bytes "c", true) ∷ (bytes "b", true) ∷ [])
    ∷ []

abbrev two_base : Map Bool
two_base = (bytes "b", true) ∷ (bytes "c", true) ∷ []

value_run : value ((bytes "b", true) ∷ (bytes "x", false) ∷ (bytes "a", true) ∷ []) ≡ bytes "a,b"
unfolding value sort join present keep Map.keys has str_eq
value_run = refl

from_run : from (bytes "a,b") ≡ (bytes "a", true) ∷ (bytes "b", true) ∷ []
unfolding from Map.insert mark split str_eq
from_run = refl

decide_run :
    decide two_nodes two_base
    ≡ record { add = (bytes "dk", bytes "a" ∷ []) ∷ []; remove = (bytes "dk", bytes "c" ∷ []) ∷ [] }
unfolding decide members sort_each decide_members sort Map.keys mark_sets mark Map.insert str_eq
    decide_member has nodes_without nodes_with append_each at
decide_run = refl

settle_run : settle two_nodes two_base ≡ bytes "b,c"
unfolding settle value join sort present keep Map.keys settled settle_members members mark_sets mark
    Map.insert str_eq settle_member all_have none_have has Map.lookup
settle_run = refl

two_nodes-distinct : distinct (Map.keys two_nodes) ≡ true
unfolding distinct Map.keys contains str_eq
two_nodes-distinct = refl

-- What the second node has.
abbrev dk_set : Map Bool
dk_set = (bytes "c", true) ∷ (bytes "b", true) ∷ []

dk_copy : Map.lookup (bytes "dk") two_nodes ≡ some dk_set
unfolding Map.lookup str_eq
dk_copy = refl

decide-remove_example :
    contains (bytes "c") (at (bytes "dk") (decide two_nodes two_base).remove)
    ≡ (has (bytes "c") two_base && (has (bytes "c") dk_set && not (all_have (bytes "c") two_nodes)))
decide-remove_example =
    decide-remove (bytes "c") (bytes "dk") two_nodes two_base dk_set two_nodes-distinct dk_copy

-- Every write of the round failed.
unmoved : Moved (agreed two_nodes two_base) two_nodes two_nodes
unmoved = Moved-refl (agreed two_nodes two_base) two_nodes

still_to_remove :
    contains (bytes "c") (at (bytes "dk") (decide two_nodes (settled two_nodes two_base)).remove)
    ≡ true
unfolding contains at decide sort_each decide_members sort members Map.keys mark_sets mark
    Map.insert str_eq settled settle_members settle_member all_have none_have has Map.lookup
    decide_member nodes_with nodes_without append_each
still_to_remove = refl

still_to_add :
    contains (bytes "a") (at (bytes "dk") (decide two_nodes (settled two_nodes two_base)).add)
    ≡ true
unfolding contains at decide sort_each decide_members sort members Map.keys mark_sets mark
    Map.insert str_eq settled settle_members settle_member all_have none_have has Map.lookup
    decide_member nodes_with nodes_without append_each
still_to_add = refl

-- Both nodes have what is agreed.
abbrev alike : Map Bool
alike = (bytes "a", true) ∷ (bytes "b", true) ∷ []

abbrev same_nodes : Map (Map Bool)
same_nodes = (bytes "se", alike) ∷ (bytes "dk", alike) ∷ []

same_nodes_done :
    (n : Str) (t : Map Bool) → Map.lookup n same_nodes ≡ some t → (e : Str) → has e t ≡ has e alike
unfolding Map.lookup
same_nodes_done n t h e = ground arith

same_nodes-distinct : distinct (Map.keys same_nodes) ≡ true
unfolding distinct Map.keys contains str_eq
same_nodes-distinct = refl

same_copy : Map.lookup (bytes "dk") same_nodes ≡ some alike
unfolding Map.lookup str_eq
same_copy = refl

two_proper_all : all is_member (members two_nodes two_base) ≡ true
unfolding all members sort Map.keys mark_sets mark Map.insert str_eq is_member
two_proper_all = refl

two_proper : AllProper two_nodes two_base
two_proper k h = contains_of_all is_member k (members two_nodes two_base) two_proper_all h

has-from-settle_example :
    has (bytes "a") (from (settle two_nodes two_base)) ≡ settles two_nodes two_base (bytes "a")
has-from-settle_example = has-from-settle (bytes "a") two_nodes two_base two_proper

-- The same set, visited in the other order and with an entry that is false.
abbrev alike_again : Map Bool
alike_again = (bytes "b", true) ∷ (bytes "z", false) ∷ (bytes "a", true) ∷ []

alike-distinct : distinct (Map.keys alike) ≡ true
unfolding distinct Map.keys contains str_eq
alike-distinct = refl

alike_again-distinct : distinct (Map.keys alike_again) ≡ true
unfolding distinct Map.keys contains str_eq
alike_again-distinct = refl

a_is_not_b : bytes "a" ≢ bytes "b"
a_is_not_b = ne_of_str_eq (bytes "a") (bytes "b") (unfold str_eq in refl)

a_is_not_z : bytes "a" ≢ bytes "z"
a_is_not_z = ne_of_str_eq (bytes "a") (bytes "z") (unfold str_eq in refl)

b_is_not_z : bytes "b" ≢ bytes "z"
b_is_not_z = ne_of_str_eq (bytes "b") (bytes "z") (unfold str_eq in refl)

alike_same : (e : Str) → has e alike ≡ has e alike_again
unfolding has Map.lookup
alike_same e = ground (
  arith,
  str_eq_iff (bytes "a") e,
  str_eq_iff (bytes "b") e,
  str_eq_iff (bytes "z") e,
  a_is_not_b,
  a_is_not_z,
  b_is_not_z,
)

-- An attachment with a comma in its name, taken away on the second node.
abbrev comma_name : Str
comma_name = bytes "7:a,b.png"

abbrev comma_nodes : Map (Map Bool)
comma_nodes = (bytes "se", (comma_name, true) ∷ []) ∷ (bytes "dk", []) ∷ []

comma_nodes-distinct : distinct (Map.keys comma_nodes) ≡ true
unfolding distinct Map.keys contains str_eq
comma_nodes-distinct = refl

comma_name_lem : comma_free comma_name ≡ false
unfolding comma_free
comma_name_lem = refl

comma_se : Map.lookup (bytes "se") comma_nodes ≡ some ((comma_name, true) ∷ [])
unfolding Map.lookup str_eq
comma_se = refl

comma_held : has comma_name ((comma_name, true) ∷ []) ≡ true
unfolding has str_eq
comma_held = refl

comma_dk : Map.lookup (bytes "dk") comma_nodes ≡ some []
unfolding Map.lookup str_eq
comma_dk = refl

comma_gone : has comma_name [] ≡ false
unfolding has
comma_gone = refl

comma-undone_example :
    (contains comma_name (at (bytes "se") (decide comma_nodes (from comma_name)).remove) ≡ false)
    × (contains comma_name (at (bytes "dk") (decide comma_nodes (from comma_name)).add) ≡ true)
comma-undone_example =
    comma-undone comma_name (bytes "se") (bytes "dk") comma_name comma_nodes
      ((comma_name, true) ∷ []) [] comma_nodes-distinct comma_name_lem comma_se comma_held comma_dk
      comma_gone
