-- ===== src/Set/Converge.antt =====
-- internal/set/set.go: what rounds of Decide, writes and Settle come to.
use forge_sync.Prelude.{
  inl, ◌≡◌, refl, subst, ap, or_default, ◌∙◌, ◌⊎◌, Bool, true, false, not, [], ◌∷◌, Str, str_eq_iff,
  str_eq_refl, contains, distinct, length, ltb, arith, if◌then◌else◌, Option, none, some,
}
use forge_sync.Prelude.Map
use forge_sync.Prelude.Map.{Map, has, contains-keys, lookup-insert, lookup-delete}
use forge_sync.Set.{at, decide, settled, all_have, none_have}
use forge_sync.Set.Members.{all_have_at, none_have_at}
use forge_sync.Set.Decide.{decide-add, decide-remove}
use forge_sync.Set.Settle.{has-settled}

-- The set that every node should have: what the base has stays unless it is gone somewhere, and
-- what the base lacks comes if it is somewhere.
abbrev pub agreed : Map (Map Bool) → Map Bool → Str → Bool
agreed have base e = if has e base then all_have e have else not (none_have e have)

-- A round of writes took some nodes' members to what is agreed, and left the others as they were.
abbrev pub MovedAt : (Str → Bool) → Option (Map Bool) → Option (Map Bool) → Type 0
MovedAt want none none = Unit
MovedAt want (some s) (some t) = (e : Str) → (has e t ≡ has e s) ⊎ (has e t ≡ want e)
MovedAt want none (some t) = ⊥
MovedAt want (some s) none = ⊥

abbrev pub Moved : (Str → Bool) → Map (Map Bool) → Map (Map Bool) → Type 0
Moved want have after = (n : Str) → MovedAt want (Map.lookup n have) (Map.lookup n after)

-- The quantifiers over the nodes, by what a look-up gives.
lookup_tail :
    (n m : Str) (s t : Map Bool) (have : Map (Map Bool))
    → distinct (Map.keys ((m, t) ∷ have)) ≡ true
    → Map.lookup n have ≡ some s
    → Map.lookup n ((m, t) ∷ have) ≡ some s
unfolding Map.lookup Map.keys distinct
lookup_tail n m s t have d h = ground (arith, contains-keys n have, str_eq_iff m n)

pub all_have_of :
    (e : Str) (have : Map (Map Bool))
    → distinct (Map.keys have) ≡ true
    → ((n : Str) (s : Map Bool) → Map.lookup n have ≡ some s → has e s ≡ true)
    → all_have e have ≡ true
unfolding all_have
all_have_of e [] d h = refl
all_have_of e ((m, t) ∷ have) d h =
    let head : has e t ≡ true = h m t (unfold Map.lookup in ground (arith, str_eq_refl m)) in
    let rest : all_have e have ≡ true =
      all_have_of e have (unfold Map.keys distinct in ground arith)
        (λ n s k. h n s (lookup_tail n m s t have d k)) in
    ground arith

pub none_have_of :
    (e : Str) (have : Map (Map Bool))
    → distinct (Map.keys have) ≡ true
    → ((n : Str) (s : Map Bool) → Map.lookup n have ≡ some s → has e s ≡ false)
    → none_have e have ≡ true
unfolding none_have
none_have_of e [] d h = refl
none_have_of e ((m, t) ∷ have) d h =
    let head : has e t ≡ false = h m t (unfold Map.lookup in ground (arith, str_eq_refl m)) in
    let rest : none_have e have ≡ true =
      none_have_of e have (unfold Map.keys distinct in ground arith)
        (λ n s k. h n s (lookup_tail n m s t have d k)) in
    ground arith

lookup_nonempty :
    (n : Str) (have : Map (Map Bool)) (s : Map Bool)
    → Map.lookup n have ≡ some s
    → ltb 0 (length have) ≡ true
unfolding Map.lookup
lookup_nonempty n [] s h = cc
lookup_nonempty n ((m, t) ∷ have) s h = ground arith

MovedAt-refl : (want : Str → Bool) (o : Option (Map Bool)) → MovedAt want o o
MovedAt-refl want none = tt
MovedAt-refl want (some s) = λ e. inl refl

-- A round of which no write was made.
pub Moved-refl : (want : Str → Bool) (have : Map (Map Bool)) → Moved want have have
Moved-refl want have n = MovedAt-refl want (Map.lookup n have)

-- A node in the later map stood in the earlier one, with each member as it was or as wanted.
moved_at :
    (want : Str → Bool) (o o' : Option (Map Bool)) (t : Map Bool)
    → MovedAt want o o'
    → o' ≡ some t
    → (s : Map Bool) × (o ≡ some s) × ((e : Str) → (has e t ≡ has e s) ⊎ (has e t ≡ want e))
moved_at want none none t m h = cc
moved_at want none (some u) t m h = absurd m
moved_at want (some s) none t m h = cc
moved_at want (some s) (some u) t m h = (
  s,
  refl,
  subst (λ v. (e : Str) → (has e v ≡ has e s) ⊎ (has e v ≡ want e)) (ap (or_default u) h) m,
)

module _ (have after : Map (Map Bool)) (base : Map Bool) (later : distinct (Map.keys after) ≡ true)
    (moved : Moved (agreed have base) have after) where
  all_have-moved :
      (e : Str) → agreed have base e ≡ true → all_have e have ≡ true → all_have e after ≡ true
  all_have-moved e w a = all_have_of e after later λ n t k.
      let (s, was, m) =
        moved_at (agreed have base) (Map.lookup n have) (Map.lookup n after) t (moved n) k in
      ground (arith, m e, all_have_at e n s have was)

  none_have-moved :
      (e : Str) → agreed have base e ≡ false → none_have e have ≡ true → none_have e after ≡ true
  none_have-moved e w a = none_have_of e after later λ n t k.
      let (s, was, m) =
        moved_at (agreed have base) (Map.lookup n have) (Map.lookup n after) t (moved n) k in
      ground (arith, m e, none_have_at e n s have was)

-- A node that still has something to do in the next round had the same to do in this one: what a
-- failed write left half done is tried again, and is never read as someone's change.
module _ (have after : Map (Map Bool)) (base : Map Bool) (names : distinct (Map.keys have) ≡ true)
    (later : distinct (Map.keys after) ≡ true) (moved : Moved (agreed have base) have after)
    (e n : Str) (t : Map Bool) (copy : Map.lookup n after ≡ some t) where
  -- If no node is named twice, and a round of writes left each member of each node as it was or
  -- took it to what the base and the nodes' sets agree on, then what a node is told to remove in
  -- the next round, with the base that was settled in between, it was told to remove in this one.
  pub decide-retry_remove :
      contains e (at n (decide after (settled after base)).remove) ≡ true
      → contains e (at n (decide have base).remove) ≡ true
  decide-retry_remove h =
      let (s, was, m) =
        moved_at (agreed have base) (Map.lookup n have) (Map.lookup n after) t (moved n) copy in
      ground (
        arith,
        decide-remove e n after (settled after base) t later copy,
        decide-remove e n have base s names was,
        has-settled e after base,
        m e,
        all_have-moved have after base later moved e,
        none_have_at e n t after copy,
      )

  -- If no node is named twice, and a round of writes left each member of each node as it was or
  -- took it to what the base and the nodes' sets agree on, then what a node is told to add in the
  -- next round, with the base that was settled in between, it was told to add in this one.
  pub decide-retry_add :
      contains e (at n (decide after (settled after base)).add) ≡ true
      → contains e (at n (decide have base).add) ≡ true
  decide-retry_add h =
      let (s, was, m) =
        moved_at (agreed have base) (Map.lookup n have) (Map.lookup n after) t (moved n) copy in
      ground (
        arith,
        decide-add e n after (settled after base) t later copy,
        decide-add e n have base s names was,
        has-settled e after base,
        m e,
        none_have-moved have after base later moved e,
        all_have_at e n t after copy,
      )

-- Once every node has what is agreed, the next round has nothing to do.
module _ (after : Map (Map Bool)) (base : Map Bool) (want : Str → Bool)
    (later : distinct (Map.keys after) ≡ true)
    (done : (n : Str) (t : Map Bool) → Map.lookup n after ≡ some t → (e : Str) → has e t ≡ want e)
    (e n : Str) (t : Map Bool) (copy : Map.lookup n after ≡ some t) where
  nonempty : ltb 0 (length after) ≡ true
  nonempty = lookup_nonempty n after t copy

  all_want : want e ≡ true → all_have e after ≡ true
  all_want w = all_have_of e after later (λ k u c. done k u c e ∙ w)

  none_want : want e ≡ false → none_have e after ≡ true
  none_want w = none_have_of e after later (λ k u c. done k u c e ∙ w)

  pub settled-want : has e (settled after base) ≡ want e
  settled-want = ground (
    arith,
    has-settled e after base,
    nonempty,
    all_want,
    none_want,
    done n t copy e,
    none_have_at e n t after copy,
    all_have_at e n t after copy,
  )

  -- If no node is named twice and all nodes have the same members, then after the base has been
  -- settled no node is told to add or to remove any member, whatever the base was.
  pub decide-quiet :
      (contains e (at n (decide after (settled after base)).add) ≡ false)
      × (contains e (at n (decide after (settled after base)).remove) ≡ false)
  decide-quiet = (
    ground (
      arith,
      decide-add e n after (settled after base) t later copy,
      settled-want,
      none_want,
      done n t copy e,
    ),
    ground (
      arith,
      decide-remove e n after (settled after base) t later copy,
      settled-want,
      all_want,
      done n t copy e,
    ),
  )
