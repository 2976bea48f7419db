-- ===== src/Issues/Reactions/Tests.antt =====
-- Runs of internal/issues/reactions.go, and its theorems at them.
use forge_sync.Issues.Reactions.Kept.{Fails}
use forge_sync.Prelude.Sort.{sort}
use forge_sync.Prelude.{
  ◌↔◌, cut, keep, contains, refl, str_eq, ◌≡◌, ◌∷◌, if◌then◌else◌, true, Str, bytes,
  contains_of_all, All, [], all, distinct, List, some, Bool,
}
use forge_sync.Prelude.Map
use forge_sync.Prelude.Map.{has, Map}
use forge_sync.Set.{
  join, present, value, none_have, all_have, settle_member, settle_members, settled, split,
  append_each, nodes_without, nodes_with, sort_each, mark, decide_member, mark_sets, decide_members,
  from, settle, members, decide, at,
}
use forge_sync.Set.Settle.{AllProper}
use forge_sync.Set.Text.{is_member}
use forge_sync.Set.Writes.{set_member, write_member, Told}
use forge_sync.Issues.Reactions.Laws.{sync_reactions-Allowed, sync_reactions-retry, Allowed}
use forge_sync.Issues.Reactions.{
  write_member, cut, who, act_answered, act_on, ensure_answered, failed, add_ensured, str_eq,
  mark_reaction, react, true, mark_reactions, react_each, Str, given, bytes, [], reaction_set,
  react_nodes, List, some, Bool, sync_reactions, Answers, acted, ensured, incomplete,
}

-- Ada's reaction is on se only; dk can't be written to.
abbrev on_se : Map (Map Bool)
on_se = (bytes "se", (bytes "ada:heart", true) ∷ []) ∷ (bytes "dk", []) ∷ []

abbrev dk_down : Answers
dk_down = record {
  ensure_user = some (λ login n h. given tt);
  act = λ n login content add h. if str_eq n (bytes "dk") then failed (bytes "down") else given tt;
}

abbrev both : List Str
both = bytes "se" ∷ bytes "dk" ∷ []

failed_run : sync_reactions dk_down both [] on_se [] ≡ (
  given (on_se, []),
  incomplete
      ∷ acted (bytes "dk") (bytes "ada") (bytes "heart") true
      ∷ ensured (bytes "ada") (bytes "dk")
      ∷ [],
)
unfolding sync_reactions react_nodes react_each react add_ensured ensure_answered act_on
    act_answered who from settle decide decide_members decide_member members mark_sets mark
    sort_each nodes_with nodes_without append_each at split settled settle_members settle_member
    all_have none_have value present join keep contains has sort str_eq Map.keys Map.insert
    Map.lookup Map.delete cut write_member set_member
failed_run = refl

reaction_set_run :
    reaction_set (
      record { login = bytes "ada"; content = bytes "heart" }
      ∷ record { login = []; content = bytes "eyes" }
      ∷ [])
    ≡ (bytes "ada:heart", true) ∷ []
unfolding reaction_set mark_reactions mark_reaction str_eq Map.insert
reaction_set_run = refl

on_se-distinct : distinct (Map.keys on_se) ≡ true
unfolding distinct Map.keys contains str_eq
on_se-distinct = refl

on_se_proper_all : all is_member (members on_se (from [])) ≡ true
unfolding all members sort Map.keys mark_sets mark Map.insert str_eq is_member from decide
    decide_members decide_member sort_each nodes_with nodes_without append_each at split settle
    settled settle_members settle_member all_have none_have value present join keep contains has
    Map.lookup Map.delete
on_se_proper_all = refl

on_se_proper : AllProper on_se (from [])
on_se_proper k h = contains_of_all is_member k (members on_se (from [])) on_se_proper_all h

dk-Told : Told on_se (from []) (bytes "dk") (bytes "ada:heart") true
unfolding from decide at decide_members decide_member members mark_sets mark sort_each nodes_with
    nodes_without append_each split settle settled settle_members settle_member all_have none_have
    value present join keep contains has sort str_eq Map.keys Map.insert Map.lookup Map.delete
dk-Told = refl

dk-Fails : Fails dk_down (bytes "dk") (bytes "ada:heart") true
unfolding str_eq who
dk-Fails h = (bytes "down", refl)

sync_reactions-Allowed_example :
    All
      (Allowed dk_down on_se (from []) on_se-distinct)
      ((sync_reactions dk_down both [] on_se []).1)
sync_reactions-Allowed_example = sync_reactions-Allowed dk_down both [] on_se on_se-distinct

sync_reactions-retry_example :
    Told on_se (from []) (bytes "dk") (bytes "ada:heart") true
    ↔ Told on_se (from []) (bytes "dk") (bytes "ada:heart") true
sync_reactions-retry_example =
    sync_reactions-retry dk_down both [] on_se on_se-distinct []
      (incomplete
        ∷ acted (bytes "dk") (bytes "ada") (bytes "heart") true
        ∷ ensured (bytes "ada") (bytes "dk")
        ∷ [])
      on_se [] (bytes "dk") (bytes "ada:heart") true failed_run on_se_proper dk-Fails
