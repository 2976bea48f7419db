-- ===== src/Set.antt =====
-- internal/set/set.go: merging what is a set rather than a single value. A `map[string]bool` is a
-- map to Booleans, whose entries may be false; the nodes' sets are a map from node to set.
pub mod Text
pub mod Members
pub mod Decide
pub mod Settle
pub mod Converge
pub mod Writes
pub mod Again
pub mod Once
pub mod Comma
mod Tests
use forge_sync.Prelude.{
  ℕ, Bool, true, false, ◌&&◌, not, List, [], ◌∷◌, ◌++◌, Str, ◌==◌, ltb, keep, length, or_default,
  if◌then◌else◌,
}
use forge_sync.Prelude.Map
use forge_sync.Prelude.Map.{Map, has}
use forge_sync.Prelude.Sort.{sort}

-- strings.Join(parts, ",").
unfoldable pub join : List Str → Str
join [] = []
join (p ∷ []) = p
join (p ∷ q ∷ r) = p ++ (b',' ∷ join (q ∷ r))

-- A byte in front of the first part.
unfoldable pub onto_first : ℕ → List Str → List Str
onto_first c [] = (c ∷ []) ∷ []
onto_first c (p ∷ ps) = (c ∷ p) ∷ ps

-- strings.Split(value, ",").
unfoldable pub split_commas : Str → List Str
unfolding onto_first
split_commas [] = [] ∷ []
split_commas (c ∷ s) =
    let rest = split_commas s in if c == b',' then [] ∷ rest else onto_first c rest

-- Split.
unfoldable pub split : Str → List Str
unfolding split_commas
split [] = []
split (c ∷ s) = split_commas (c ∷ s)

-- The members that are there, in the order of the entries.
unfoldable pub present : Map Bool → List Str
present set = keep (λ e. has e set) (Map.keys set)

-- Value.
unfoldable pub value : Map Bool → Str
value set = join (sort (present set))

-- `out[e] = true` for each of the names.
unfoldable pub mark : List Str → Map Bool → Map Bool
mark [] out = out
mark (e ∷ es) out = mark es (Map.insert e true out)

-- From.
unfoldable pub from : Str → Map Bool
from value = mark (split value) []

pub record Plan : Type 0 where
  pub add : Map (List Str)
  pub remove : Map (List Str)

-- The nodes whose set has the member, and those whose set has not.
unfoldable pub nodes_with : Str → Map (Map Bool) → List Str
nodes_with e [] = []
nodes_with e ((n, set) ∷ have) =
    let rest = nodes_with e have in if has e set then n ∷ rest else rest

unfoldable pub nodes_without : Str → Map (Map Bool) → List Str
nodes_without e [] = []
nodes_without e ((n, set) ∷ have) =
    let rest = nodes_without e have in if has e set then rest else n ∷ rest

-- What a plan holds for a node.
unfoldable pub at : Str → Map (List Str) → List Str
at n m = or_default [] (Map.lookup n m)

-- `m[n] = append(m[n], e)` for each of the nodes.
unfoldable pub append_each : List Str → Str → Map (List Str) → Map (List Str)
append_each [] e m = m
append_each (n ∷ ns) e m = append_each ns e (Map.insert n (at n m ++ e ∷ []) m)

-- The body of Decide's loop, for one member.
unfoldable pub decide_member : Map (Map Bool) → Map Bool → Str → Plan → Plan
decide_member have base e p =
    if has e base && ltb 0 (length (nodes_without e have))
    then record p { remove = append_each (nodes_with e have) e p.remove }
    else if not (has e base) && ltb 0 (length (nodes_with e have))
    then record p { add = append_each (nodes_without e have) e p.add }
    else p

unfoldable pub decide_members : Map (Map Bool) → Map Bool → List Str → Plan → Plan
decide_members have base [] p = p
decide_members have base (e ∷ es) p = decide_members have base es (decide_member have base e p)

-- `seen[e] = true` for every entry of every node's set.
unfoldable pub mark_sets : Map (Map Bool) → Map Bool → Map Bool
mark_sets [] seen = seen
mark_sets ((n, set) ∷ have) seen = mark_sets have (mark (Map.keys set) seen)

-- Members.
unfoldable pub members : Map (Map Bool) → Map Bool → List Str
members have base = sort (Map.keys (mark_sets have (mark (Map.keys base) [])))

-- `sort.Strings` of every entry.
unfoldable pub sort_each : Map (List Str) → Map (List Str)
sort_each [] = []
sort_each ((n, l) ∷ m) = (n, sort l) ∷ sort_each m

-- Decide.
unfoldable pub decide : Map (Map Bool) → Map Bool → Plan
decide have base =
    let p = decide_members have base (members have base) (record { add = []; remove = [] }) in
    record { add = sort_each p.add; remove = sort_each p.remove }

-- The flags `all` and `none` of Settle's inner loop.
unfoldable pub all_have : Str → Map (Map Bool) → Bool
all_have e [] = true
all_have e ((n, set) ∷ have) = has e set && all_have e have

unfoldable pub none_have : Str → Map (Map Bool) → Bool
none_have e [] = true
none_have e ((n, set) ∷ have) = not (has e set) && none_have e have

-- The body of Settle's loop, for one member.
unfoldable pub settle_member : Map (Map Bool) → Map Bool → Str → Map Bool → Map Bool
settle_member have base e out =
    if ltb 0 (length have) && all_have e have
    then Map.insert e true out
    else if ltb 0 (length have) && none_have e have
    then out
    else if has e base
    then Map.insert e true out
    else out

unfoldable pub settle_members : Map (Map Bool) → Map Bool → List Str → Map Bool → Map Bool
settle_members have base [] out = out
settle_members have base (e ∷ es) out = settle_members have base es (settle_member have base e out)

-- The map that Settle builds, and Settle.
unfoldable pub settled : Map (Map Bool) → Map Bool → Map Bool
settled have base = settle_members have base (members have base) []

unfoldable pub settle : Map (Map Bool) → Map Bool → Str
settle have base = value (settled have base)
