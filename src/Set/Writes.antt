-- ===== src/Set/Writes.antt =====
-- Writes of single members on nodes, as a plan of internal/set/set.go asks for them: what a round of
-- them that may fail at any place leaves for the next round.
use forge_sync.Set.Settle.{has-settled, has-from-settle, AllProper}
use forge_sync.Set.Decide.{decide-remove, decide-remove_unknown, decide-add, decide-add_unknown}
use forge_sync.Prelude.{
  not, refl, false, str_eq_iff, subst, inr, Option-cases, inl, Bool-cases, arith, some, none,
  str_eq, if◌then◌else◌, Option, is_some, [], true, distinct, ◌≡◌, or_default, contains, Str, Bool,
}
use forge_sync.Prelude.Map
use forge_sync.Prelude.Map.{
  distinct-keys-insert, lookup-delete, lookup-insert, lookup-insert_self, Map, has,
}
use forge_sync.Set.{settled, settle, all_have, from, none_have, Str, Bool, at, decide}
use forge_sync.Set.Converge.{decide-retry_remove, decide-retry_add, Moved, MovedAt, agreed}

-- What a node is told to do with a member.
abbrev pub Told : Map (Map Bool) → Map Bool → Str → Str → Bool → Type 0
Told have base n e true = contains e (at n (decide have base).add) ≡ true
Told have base n e false = contains e (at n (decide have base).remove) ≡ true

-- `have[n][e] = true` and `delete(have[n], e)`, after `have[n]` was made where there was none.
unfoldable pub set_member : Bool → Str → Map Bool → Map Bool
set_member true e s = Map.insert e true s
set_member false e s = Map.delete e s

unfoldable pub write_member : Str → Str → Bool → Map (Map Bool) → Map (Map Bool)
write_member n e add have = Map.insert n (set_member add e (or_default [] (Map.lookup n have))) have

pub has-set_member :
    (add : Bool) (e k : Str) (s : Map Bool)
    → has k (set_member add e s) ≡ (if str_eq e k then add else has k s)
unfolding set_member has
has-set_member true e k s = ground (arith, lookup-insert e k true s)
has-set_member false e k s = ground (arith, lookup-delete e k s)

module _ (have : Map (Map Bool)) (base : Map Bool) (names : distinct (Map.keys have) ≡ true) where
  -- What is asked for is what is agreed, at a node with a set.
  pub Told-agreed :
      (n e : Str) (add : Bool)
      → Told have base n e add
      → (agreed have base e ≡ add) × (is_some (Map.lookup n have) ≡ true)
  Told-agreed n e true t = elim (Option-cases (Map.lookup n have)) [
    | inl m ↦ absurd (unknown m)
    | inr (s, m) ↦ (ground (arith, decide-add e n have base s names m), rw m refl)
  ]
    where
      unknown : Map.lookup n have ≡ none → ⊥
      unknown m = ground (arith, decide-add_unknown e n have base m)
  Told-agreed n e false t = elim (Option-cases (Map.lookup n have)) [
    | inl m ↦ absurd (unknown m)
    | inr (s, m) ↦ (ground (arith, decide-remove e n have base s names m), rw m refl)
  ]
    where
      unknown : Map.lookup n have ≡ none → ⊥
      unknown m = ground (arith, decide-remove_unknown e n have base m)

  -- The state of a round: some members moved, and no node stands twice.
  abbrev pub Round : Map (Map Bool) → Type 0
  Round after = Moved (agreed have base) have after × (distinct (Map.keys after) ≡ true)

  MovedAt-write :
      (e : Str) (add : Bool) (o p : Option (Map Bool))
      → agreed have base e ≡ add
      → is_some o ≡ true
      → MovedAt (agreed have base) o p
      → MovedAt (agreed have base) o (some (set_member add e (or_default [] p)))
  MovedAt-write e add (some s) (some t) a k m = λ j. elim (Bool-cases (str_eq e j)) [
    | inl q ↦ inr (ground (arith, has-set_member add e j t, str_eq_iff e j))
    | inr q ↦ elim (m j) [
      | inl same ↦ inl (ground (arith, has-set_member add e j t))
      | inr new ↦ inr (ground (arith, has-set_member add e j t))
    ]
  ]
  MovedAt-write e add (some s) none a k m = absurd m
  MovedAt-write e add none p a k m = cc

  pub Round-write :
      (n e : Str) (add : Bool) (after : Map (Map Bool))
      → Told have base n e add
      → Round after
      → Round (write_member n e add after)
  unfolding write_member
  Round-write n e add after t (moved, later) =
      let told = Told-agreed n e add t in
      (λ j. moved_to told j, distinct-keys-insert n v after later)
    where
      v : Map Bool
      v = set_member add e (or_default [] (Map.lookup n after))

      at_n :
          (agreed have base e ≡ add) × (is_some (Map.lookup n have) ≡ true)
          → MovedAt (agreed have base) (Map.lookup n have) (Map.lookup n (Map.insert n v after))
      at_n told =
          rw (lookup-insert_self n v after) (
            MovedAt-write e add (Map.lookup n have) (Map.lookup n after) (told.0) (told.1)
              (moved n))

      moved_to :
          (agreed have base e ≡ add) × (is_some (Map.lookup n have) ≡ true)
          → (j : Str)
          → MovedAt (agreed have base) (Map.lookup j have) (Map.lookup j (Map.insert n v after))
      moved_to told j = elim (Bool-cases (str_eq n j)) [
        | inl q ↦
            subst
              (λ i.
                MovedAt (agreed have base) (Map.lookup i have)
                  (Map.lookup i (Map.insert n v after)))
              ((str_eq_iff n j).0 q) (at_n told)
        | inr q ↦ rw (lookup-insert n j v after) (rw q (moved j))
      ]

  -- What a node is told in the next round, with the base settled and kept as text, it was told in
  -- this one.
  pub Round-retry :
      (n e : Str) (add : Bool) (after : Map (Map Bool))
      → Round after
      → AllProper after base
      → Told after (from (settle after base)) n e add
      → Told have base n e add
  Round-retry n e true after (moved, later) proper t = elim (Option-cases (Map.lookup n after)) [
    | inl m ↦ absurd (unknown m)
    | inr (s, m) ↦ decide-retry_add have after base names later moved e n s m (again s m)
  ]
    where
      unknown : Map.lookup n after ≡ none → ⊥
      unknown m = ground (arith, decide-add_unknown e n after (from (settle after base)) m)

      again :
          (s : Map Bool) → Map.lookup n after ≡ some s → Told after (settled after base) n e true
      again s m = ground (
        arith,
        decide-add e n after (from (settle after base)) s later m,
        decide-add e n after (settled after base) s later m,
        has-from-settle e after base proper,
        has-settled e after base,
      )
  Round-retry n e false after (moved, later) proper t = elim (Option-cases (Map.lookup n after)) [
    | inl m ↦ absurd (unknown m)
    | inr (s, m) ↦ decide-retry_remove have after base names later moved e n s m (again s m)
  ]
    where
      unknown : Map.lookup n after ≡ none → ⊥
      unknown m = ground (arith, decide-remove_unknown e n after (from (settle after base)) m)

      again :
          (s : Map Bool) → Map.lookup n after ≡ some s → Told after (settled after base) n e false
      again s m = ground (
        arith,
        decide-remove e n after (from (settle after base)) s later m,
        decide-remove e n after (settled after base) s later m,
        has-from-settle e after base proper,
        has-settled e after base,
      )

  -- A member goes to a node that lacks it, and comes off one that has it, where the base says the
  -- opposite of the change and some node has changed.
  abbrev pub IsWanted : Str → Str → Bool → Type 0
  IsWanted n e add =
      (s : Map Bool) × (Map.lookup n have ≡ some s)
      × (has e s ≡ not add)
      × (has e base ≡ not add)
      × ((if add then none_have e have else all_have e have) ≡ false)

  pub Told-IsWanted : (n e : Str) (add : Bool) → Told have base n e add → IsWanted n e add
  Told-IsWanted n e true t = elim (Option-cases (Map.lookup n have)) [
    | inl m ↦ absurd (unknown m)
    | inr (s, m) ↦ (s, m, lacks s m, lacked s m, held s m)
  ]
    where
      unknown : Map.lookup n have ≡ none → ⊥
      unknown m = ground (arith, decide-add_unknown e n have base m)

      lacks : (s : Map Bool) → Map.lookup n have ≡ some s → has e s ≡ false
      lacks s m = ground (arith, decide-add e n have base s names m)

      lacked : (s : Map Bool) → Map.lookup n have ≡ some s → has e base ≡ false
      lacked s m = ground (arith, decide-add e n have base s names m)

      held : (s : Map Bool) → Map.lookup n have ≡ some s → none_have e have ≡ false
      held s m = ground (arith, decide-add e n have base s names m)
  Told-IsWanted n e false t = elim (Option-cases (Map.lookup n have)) [
    | inl m ↦ absurd (unknown m)
    | inr (s, m) ↦ (s, m, holds s m, held s m, lacked s m)
  ]
    where
      unknown : Map.lookup n have ≡ none → ⊥
      unknown m = ground (arith, decide-remove_unknown e n have base m)

      holds : (s : Map Bool) → Map.lookup n have ≡ some s → has e s ≡ true
      holds s m = ground (arith, decide-remove e n have base s names m)

      held : (s : Map Bool) → Map.lookup n have ≡ some s → has e base ≡ true
      held s m = ground (arith, decide-remove e n have base s names m)

      lacked : (s : Map Bool) → Map.lookup n have ≡ some s → all_have e have ≡ false
      lacked s m = ground (arith, decide-remove e n have base s names m)
