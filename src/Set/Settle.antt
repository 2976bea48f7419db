-- ===== src/Set/Settle.antt =====
-- internal/set/set.go: the base after a round of writes.
use forge_sync.Prelude.{
  ◌≡◌, sym, ◌∙◌, Bool, true, false, ◌&&◌, ◌||◌, List, [], ◌∷◌, Str, str_eq, str_eq_iff, contains,
  length, ltb, arith, if◌then◌else◌,
}
use forge_sync.Prelude.Map
use forge_sync.Prelude.Map.{Map, has}
use forge_sync.Set.{
  members, settle_member, settle_members, settled, settle, all_have, none_have, from,
}
use forge_sync.Set.Members.{has-members_base, has-members_held}
use forge_sync.Set.Text.{has-insert, from-value_lem, is_member}

-- What Settle says of one member.
abbrev pub settles : Map (Map Bool) → Map Bool → Str → Bool
settles have base e =
    if ltb 0 (length have) && all_have e have
    then true
    else if ltb 0 (length have) && none_have e have
    then false
    else has e base

has-settle_member :
    (k e : Str) (have : Map (Map Bool)) (base out : Map Bool)
    → has k (settle_member have base e out) ≡ (has k out || (str_eq e k && settles have base e))
unfolding settle_member
has-settle_member k e have base out = ground (arith, has-insert e k true out)

has-settle_members :
    (k : Str) (have : Map (Map Bool)) (base : Map Bool) (es : List Str) (out : Map Bool)
    → has k (settle_members have base es out)
      ≡ (has k out || (contains k es && settles have base k))
unfolding settle_members contains
has-settle_members k have base [] out = ground arith
has-settle_members k have base (e ∷ es) out =
    has-settle_members k have base es (settle_member have base e out)
    ∙ ground (arith, has-settle_member k e have base out, str_eq_iff e k)

all_not_none :
    (e : Str) (have : Map (Map Bool))
    → (ltb 0 (length have) && all_have e have) ≡ true
    → none_have e have ≡ false
unfolding all_have none_have
all_not_none e [] h = cc
all_not_none e ((n, s) ∷ have) h = ground arith

settles_known :
    (e : Str) (have : Map (Map Bool)) (base : Map Bool)
    → settles have base e ≡ true
    → contains e (members have base) ≡ true
settles_known e have base h =
    ground (arith, all_not_none e have, has-members_base e have base, has-members_held e have base)

-- A member is in the map that Settle builds when there are nodes and all have it, or when the
-- base has it and it is not so that there are nodes and none has it.
pub has-settled :
    (e : Str) (have : Map (Map Bool)) (base : Map Bool)
    → has e (settled have base) ≡ settles have base e
unfolding settled
has-settled e have base =
    has-settle_members e have base (members have base) []
    ∙ unfold has Map.lookup in ground (arith, settles_known e have base)

-- The names that the base and the nodes hold, and so those that Settle can write, fit in the text.
abbrev pub AllProper : Map (Map Bool) → Map Bool → Type 0
AllProper have base = (k : Str) → contains k (members have base) ≡ true → is_member k ≡ true

-- If every member that the base or a node knows is not empty and has no comma, the base that Settle
-- writes as text reads back as: the members that all nodes have, where there are nodes, and of the
-- others those of the old base that some node has, or all of the old base's where there is no node.
pub has-from-settle :
    (e : Str) (have : Map (Map Bool)) (base : Map Bool)
    → AllProper have base
    → has e (from (settle have base)) ≡ settles have base e
unfolding settle
has-from-settle e have base proper =
    from-value_lem e (settled have base)
      (λ k h. proper k (settles_known k have base (sym (has-settled k have base) ∙ h)))
    ∙ has-settled e have base
