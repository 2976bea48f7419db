-- ===== src/Issues/Reactions.antt =====
-- internal/issues/reactions.go: people's reactions to one issue or comment, merged member by member.
-- Who is made known on a node and what a node takes is a parameter; the log is left out.
mod Kept
pub mod Laws
mod Tests
use forge_sync.Prelude.{
  ◌&&◌, not, ℕ, Bool, true, false, List, [], ◌∷◌, ◌++◌, Str, bytes, str_eq, cut, Option, none, some,
  or_default, if◌then◌else◌,
}
use forge_sync.Prelude.Effects.{
  Answer, given, failed, Effect, ◌>>=◌, ◌>>◌, give, call, tell, attempt,
}
use forge_sync.Prelude.Map
use forge_sync.Prelude.Map.{Map}
use forge_sync.Set.{Plan, at, decide, from, settle}
use forge_sync.Set.Writes.{write_member}

-- forgejo.Reaction: the person's login and the emoji.
pub record Reaction : Type 0 where
  pub login : Str
  pub content : Str

unfoldable pub mark_reaction : Reaction → Map Bool → Map Bool
mark_reaction x out =
    if not (str_eq x.login []) && not (str_eq x.content [])
    then Map.insert (x.login ++ b':' ∷ x.content) true out
    else out

unfoldable pub mark_reactions : List Reaction → Map Bool → Map Bool
mark_reactions [] out = out
mark_reactions (x ∷ rs) out = mark_reactions rs (mark_reaction x out)

-- reactionSet.
unfoldable pub reaction_set : List Reaction → Map Bool
reaction_set rs = mark_reactions rs []

-- who: the person and the emoji of a member.
unfoldable pub who : Str → Str × Str
who element = let (login, content) = cut b':' element in (login, or_default [] content)

pub data Event : Type 0 where
  -- EnsureUser: a person, on a node.
  ensured : Str → Str → Event
  -- The reactor: on a node, a person's emoji, to be added or not.
  acted : Str → Str → Str → Bool → Event
  incomplete : Event

abbrev pub History : Type 0
History = List Event

pub record Answers : Type 0 where
  -- EnsureUser may not be set.
  pub ensure_user : Option (Str → Str → History → Answer (Unit {0}))
  pub act : Str → Str → Str → Bool → History → Answer (Unit {0})

module _ (answers : Answers) where
  -- What the nodes have after the write.
  unfoldable pub act_answered :
      Str → Str → Bool → Map (Map Bool) → Answer (Unit {0}) → Effect Event (Map (Map Bool))
  act_answered n e add have (failed x) = do tell incomplete; give have
  act_answered n e add have (given u) = give (write_member n e add have)

  unfoldable pub act_on : Str → Str → Bool → Map (Map Bool) → Effect Event (Map (Map Bool))
  act_on n e add have = do
    o ← attempt (call (answers.act n (who e).0 (who e).1 add) (acted n (who e).0 (who e).1 add))
    act_answered n e add have o

  unfoldable pub ensure_answered :
      Str → Str → Map (Map Bool) → Answer (Unit {0}) → Effect Event (Map (Map Bool))
  ensure_answered n e have (failed x) = do tell incomplete; give have
  ensure_answered n e have (given u) = act_on n e true have

  unfoldable pub add_ensured :
      Option (Str → Str → History → Answer (Unit {0}))
      → Str
      → Str
      → Map (Map Bool)
      → Effect Event (Map (Map Bool))
  add_ensured none n e have = act_on n e true have
  add_ensured (some ensure) n e have = do
    o ← attempt (call (ensure (who e).0 n) (ensured (who e).0 n))
    ensure_answered n e have o

  -- react.
  unfoldable pub react : Str → Str → Bool → Map (Map Bool) → Effect Event (Map (Map Bool))
  react n e add have =
      if add then add_ensured answers.ensure_user n e have else act_on n e false have

  unfoldable pub react_each : Str → Bool → List Str → Map (Map Bool) → Effect Event (Map (Map Bool))
  react_each n add [] have = give have
  react_each n add (e ∷ es) have = do next ← react n e add have; react_each n add es next

  unfoldable pub react_nodes : Plan → List Str → Map (Map Bool) → Effect Event (Map (Map Bool))
  react_nodes plan [] have = give have
  react_nodes plan (n ∷ nodes) have = do
    added ← react_each n true (at n plan.add) have
    removed ← react_each n false (at n plan.remove) added
    react_nodes plan nodes removed

  -- syncReactions: what the nodes have after it, and the new base.
  unfoldable pub sync_reactions :
      List Str → Str → Map (Map Bool) → Effect Event (Map (Map Bool) × Str)
  sync_reactions nodes base have = do
    after ← react_nodes (decide have (from base)) nodes have
    give (after, settle after (from base))
