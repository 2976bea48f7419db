-- ===== src/Set/Once.antt =====
-- internal/set/set.go: Decide tells a node to remove a member once.
use forge_sync.Set.Members.{distinct-keys-mark}
use forge_sync.Prelude.Sort.{distinct-sort, sort}
use forge_sync.Prelude.{
  inr, inl, str_eq_iff, refl, str_eq, contains-append, str_eq_refl, Bool-cases, [], ◌++◌, ◌∷◌,
  arith, if◌then◌else◌, false, true, ◌≡◌, List, Bool, contains, Str, distinct,
}
use forge_sync.Set.{
  mark, members, decide, decide_members, decide_member, sort, sort_each, Str, mark_sets, at,
  nodes_with, append_each, Plan,
}
use forge_sync.Prelude.Map
use forge_sync.Prelude.Map.{lookup-insert, Map}

distinct-snoc :
    (l : List Str) (e : Str)
    → distinct l ≡ true
    → contains e l ≡ false
    → distinct (l ++ e ∷ []) ≡ true
unfolding distinct contains
distinct-snoc [] e d c = refl
distinct-snoc (x ∷ l) e d c =
    ground (arith, distinct-snoc l e, contains-append x l (e ∷ []), str_eq_iff x e, str_eq_iff e x)

at-append_each :
    (n e : Str) (ns : List Str) (m : Map (List Str))
    → distinct ns ≡ true
    → at n (append_each ns e m) ≡ (if contains n ns then at n m ++ e ∷ [] else at n m)
unfolding append_each at contains distinct
at-append_each n e [] m d = refl
at-append_each n e (j ∷ ns) m d = ground (
  arith,
  at-append_each n e ns (Map.insert j (at j m ++ e ∷ []) m),
  lookup-insert j n (at j m ++ e ∷ []) m,
  str_eq_iff j n,
)

nodes_with-known :
    (k e : Str) (have : Map (Map Bool))
    → contains k (nodes_with e have) ≡ true
    → contains k (Map.keys have) ≡ true
unfolding nodes_with contains Map.keys
nodes_with-known k e [] h = h
nodes_with-known k e ((n, s) ∷ have) h = ground (arith, nodes_with-known k e have)

distinct-nodes_with :
    (e : Str) (have : Map (Map Bool))
    → distinct (Map.keys have) ≡ true
    → distinct (nodes_with e have) ≡ true
unfolding nodes_with distinct Map.keys
distinct-nodes_with e [] d = refl
distinct-nodes_with e ((n, s) ∷ have) d =
    ground (arith, distinct-nodes_with e have, nodes_with-known n e have)

at-sort_each : (n : Str) (m : Map (List Str)) → at n (sort_each m) ≡ sort (at n m)
unfolding at sort_each Map.lookup sort
at-sort_each n [] = refl
at-sort_each n ((j, l) ∷ m) = elim (Bool-cases (str_eq j n)) [
  | inl q ↦ rw q refl
  | inr q ↦ rw q (at-sort_each n m)
]

distinct-keys-mark_sets :
    (have : Map (Map Bool)) (seen : Map Bool)
    → distinct (Map.keys seen) ≡ true
    → distinct (Map.keys (mark_sets have seen)) ≡ true
unfolding mark_sets
distinct-keys-mark_sets [] seen d = d
distinct-keys-mark_sets ((n, s) ∷ have) seen d =
    distinct-keys-mark_sets have (mark (Map.keys s) seen) (distinct-keys-mark (Map.keys s) seen d)

module _ (n : Str) (have : Map (Map Bool)) (base : Map Bool)
    (names : distinct (Map.keys have) ≡ true) where
  decide_member-once :
      (e : Str) (p : Plan)
      → distinct (at n p.remove) ≡ true
      → contains e (at n p.remove) ≡ false
      → distinct (at n (decide_member have base e p).remove) ≡ true
  unfolding decide_member
  decide_member-once e p d c = ground (
    arith,
    at-append_each n e (nodes_with e have) p.remove,
    distinct-nodes_with e have names,
    distinct-snoc (at n p.remove) e d c,
  )

  decide_member-other :
      (e k : Str) (p : Plan)
      → str_eq e k ≡ false
      → contains k (at n (decide_member have base e p).remove) ≡ contains k (at n p.remove)
  unfolding decide_member contains
  decide_member-other e k p o = ground (
    arith,
    at-append_each n e (nodes_with e have) p.remove,
    distinct-nodes_with e have names,
    contains-append k (at n p.remove) (e ∷ []),
  )

  decide_members-once :
      (es : List Str) (p : Plan)
      → distinct es ≡ true
      → distinct (at n p.remove) ≡ true
      → ((e : Str) → contains e es ≡ true → contains e (at n p.remove) ≡ false)
      → distinct (at n (decide_members have base es p).remove) ≡ true
  unfolding decide_members distinct contains
  decide_members-once [] p d a new = a
  decide_members-once (e ∷ es) p d a new =
      decide_members-once es (decide_member have base e p) (ground arith)
        (decide_member-once e p a (new e (ground (arith, str_eq_refl e))))
        (λ k c.
          ground (arith, decide_member-other e k p, new k (ground (arith, c)), str_eq_iff e k))

  -- Where no node is named twice, no node is told twice to remove a member.
  pub decide-once : distinct (at n (decide have base).remove) ≡ true
  unfolding decide members
  decide-once =
      rw
        (at-sort_each n
          (decide_members have base (members have base) (record { add = []; remove = [] })).remove)
        (distinct-sort _ (
          decide_members-once (members have base) (record { add = []; remove = [] })
            (distinct-sort _ (
              distinct-keys-mark_sets have (mark (Map.keys base) [])
                (distinct-keys-mark (Map.keys base) [] (unfold distinct Map.keys in refl))))
            (unfold at Map.lookup distinct in refl) (λ e c. unfold at Map.lookup contains in refl)))
