-- ===== src/Replication/Handoff/Opening/Safety.antt =====
-- internal/replication/handoff.go, handOff: what it pushes to the primary.
use forge_sync.Replication.Handoff.Opening.Listed.{
  hand_off_version-Listed, is_listed, start_listed, StateListed, AllListed, free_name-starts,
  is_found,
}
use forge_sync.Prelude.Sort.{sort, str_le}
use forge_sync.Prelude.{
  ap, or_default, not, str_eq_refl, if◌then◌else◌, All, str_eq_iff, none, inr, refl, inl, ◌&&◌,
  Option, ◌⊎◌, arith, false, [], ◌++◌, str_eq, some, ◌∷◌, any, true, Bool, ℕ, ◌≡◌, List, Str,
  starts_with,
}
use forge_sync.Prelude.Map
use forge_sync.Prelude.Map.{Map}
use forge_sync.Prelude.Effects.{
  Keeps->>=_of, tell, ◌>>◌, give, ◌>>=◌, attempt, Keeps, Keeps->>=, Keeps->>, Keeps-give,
  Keeps-call, Keeps-tell, Keeps-attempt, Keeps-if, Keeps-if_of, Answer, given, failed,
}
use forge_sync.Replication.Plan.{Refs, Action, create, delete, fast_forward}
use forge_sync.Replication.Handoff.{
  union_two, sort, same_set, List, Str, starts_with, Handoff, handoff_prefix, is_open, PushResult,
}
use forge_sync.Replication.Handoff.Opening.{
  str_le, hand_off, hand_off_each, sort_versions, insert_version, group_each, add_to_group,
  hand_off_version, not_joined, not_extended, put_first, push_one, extension, is_extended, removal,
  join_handoff, extend_handoff, extended, open_handoff, open_as, branch_pushed, pull_opened,
  creation, handoff_recorded, pull_again, decision_makers, owners_of, Answers, Run, Event, pushed,
  org_asked, pull_made, recorded, saved, commented, audited, Divergence, Version,
}

-- What may be pushed to the primary: a new branch among the hand-off branches, at a value found on a
-- replica; its removal, if it still has that value; and the branch of an open hand-off that is
-- listed, moved from the value handed off to a value that was found for its ref and contains it.
abbrev pub AllowedPush : Answers → List Divergence → List Handoff → Action → Type 0
AllowedPush answers found start a =
    (branch : Str) × (ref : Str) × (sha : Str) × (is_found found ref sha ≡ true)
    × ((starts_with handoff_prefix branch ≡ true)
          × ((a ≡ record { kind = create; ref = branch; expected = []; target = sha })
              ⊎ (a ≡ record { kind = delete; ref = branch; expected = sha; target = [] }))
        ⊎ ((h : Handoff) × (is_listed found start h ≡ true)
            × (is_open h.state ≡ true)
            × (h.ref ≡ ref)
            × (h.branch ≡ branch)
            × (answers.is_ancestor h.sha sha ≡ some true)
            × (a ≡ record { kind = fast_forward; ref = branch; expected = h.sha; target = sha })))

abbrev pub Allowed : Answers → List Divergence → List Handoff → Event → Type 0
Allowed answers found start (pushed a) = AllowedPush answers found start a
Allowed answers found start (org_asked o) = Unit
Allowed answers found start (pull_made head base l) = Unit
Allowed answers found start (recorded h) = Unit
Allowed answers found start (saved h) = Unit
Allowed answers found start (commented n) = Unit
Allowed answers found start (audited ref) = Unit

module _ (answers : Answers) (r : Run) (found : List Divergence) (start : List Handoff) where
  owners_of-Keeps : (b : Bool) → Keeps (Allowed answers found start) (owners_of answers r b)
  unfolding owners_of
  owners_of-Keeps true = search (Keeps-call, tt)
  owners_of-Keeps false = search (Keeps-give)

  decision_makers-Keeps : Keeps (Allowed answers found start) (decision_makers answers r)
  unfolding decision_makers
  decision_makers-Keeps = search (Keeps->>=, Keeps-call, owners_of-Keeps, tt)

  pull_again-Keeps :
      (head base : Str) (assignees : List Str) (o : Answer (ℕ × Str))
      → Keeps (Allowed answers found start) (pull_again answers r head base assignees o)
  unfolding pull_again
  pull_again-Keeps head base assignees (given pr) = search (Keeps-give)
  pull_again-Keeps head base [] (failed e) = search (Keeps-give)
  pull_again-Keeps head base (a ∷ assignees) (failed e) = search (Keeps-attempt, Keeps-call, tt)

  handoff_recorded-Keeps :
      (refs : Refs) (h : Handoff) (o : Answer (Unit {0}))
      → Keeps (Allowed answers found start) (handoff_recorded answers r refs h o)
  unfolding handoff_recorded
  handoff_recorded-Keeps refs h (failed e) = search (Keeps-give)
  handoff_recorded-Keeps refs h (given u) = search (Keeps->>, Keeps-tell, Keeps-give)

  module _ (refs : Refs) (ref sha : Str) (nodes : List Str)
      (seen : is_found found ref sha ≡ true) where
    pull_opened-Keeps :
        (later : Refs) (full : Str) (o : Answer (ℕ × Str))
        → starts_with handoff_prefix full ≡ true
        → Keeps (Allowed answers found start) (pull_opened answers r later ref sha nodes full o)
    unfolding pull_opened
    pull_opened-Keeps later full (failed e) p =
        let may : AllowedPush answers found start (removal full sha) =
          (full, ref, sha, seen, inl (p, inr refl)) in
        Keeps->> (Allowed answers found start) (attempt (push_one answers r (removal full sha)))
          (give (none, Map.delete full later)) (search (Keeps-attempt, Keeps-call, may))
          (search (Keeps-give))
    pull_opened-Keeps later full (given pr) p =
        search (Keeps->>=, Keeps-attempt, Keeps-call, handoff_recorded-Keeps, tt)

    branch_pushed-Keeps :
        (full : Str) (o : Answer (Map PushResult))
        → starts_with handoff_prefix full ≡ true
        → Keeps (Allowed answers found start) (branch_pushed answers r refs ref sha nodes full o)
    unfolding branch_pushed
    branch_pushed-Keeps full (failed e) p = search (Keeps-give)
    branch_pushed-Keeps full (given results) p =
        search
          (
            Keeps-if, Keeps->>=, Keeps-attempt, Keeps-call, Keeps-give, decision_makers-Keeps,
            pull_again-Keeps, pull_opened-Keeps, p, tt,
          )
          depth 14

    open_as-Keeps :
        (name : Option Str)
        → ((full : Str) → name ≡ some full → starts_with handoff_prefix full ≡ true)
        → Keeps (Allowed answers found start) (open_as answers r refs ref sha nodes name)
    unfolding open_as
    open_as-Keeps none p = search (Keeps-give)
    open_as-Keeps (some full) p =
        let may : AllowedPush answers found start (creation full sha) =
          (full, ref, sha, seen, inl (p full refl, inl refl)) in
        Keeps->>= (Allowed answers found start) (attempt (push_one answers r (creation full sha)))
          (branch_pushed answers r refs ref sha nodes full)
          (search (Keeps-attempt, Keeps-call, may)) (λ o. branch_pushed-Keeps full o (p full refl))

    open_handoff-Keeps :
        Keeps (Allowed answers found start) (open_handoff answers r refs ref sha nodes)
    unfolding open_handoff
    open_handoff-Keeps = open_as-Keeps _ (free_name-starts refs ref nodes)

    extended-Keeps :
        (h : Handoff) (hs : List Handoff) (o : Answer (Map PushResult))
        → Keeps (Allowed answers found start) (extended answers r h hs sha o)
    unfolding extended
    extended-Keeps h hs (failed e) = search (Keeps-give)
    extended-Keeps h hs (given results) =
        search (Keeps-if, Keeps->>, Keeps-tell, Keeps-give, tt) depth 12

    extend_handoff-Keeps :
        (hs : List Handoff)
        → AllListed answers r found start hs
        → Keeps (Allowed answers found start) (extend_handoff answers r refs ref sha nodes hs)
    unfolding extend_handoff is_extended
    extend_handoff-Keeps [] a = search (Keeps-give)
    extend_handoff-Keeps (h ∷ hs) (l, a) =
        Keeps-if_of (Allowed answers found start) (is_extended answers r refs ref sha nodes h)
          (do o ← attempt (push_one answers r (extension h sha)); extended answers r h hs sha o)
          (do x ← extend_handoff answers r refs ref sha nodes hs; give (put_first h x))
          (λ b.
            Keeps->>= (Allowed answers found start) (attempt (push_one answers r (extension h sha)))
              (extended answers r h hs sha) (search (Keeps-attempt, Keeps-call, may b))
              (extended-Keeps h hs))
          (λ b. search (Keeps->>=, Keeps-give, extend_handoff-Keeps hs a))
      where
        known : (o : Option Bool) → or_default false o ≡ true → o ≡ some true
        known none e = cc
        known (some x) e = ap some e

        may :
            is_extended answers r refs ref sha nodes h ≡ true
            → AllowedPush answers found start (extension h sha)
        may b = (
          h.branch,
          ref,
          sha,
          seen,
          inr (
            h,
            l,
            ground arith,
            ground (arith, str_eq_iff h.ref ref),
            refl,
            known (answers.is_ancestor h.sha sha) (ground arith),
            refl,
          ),
        )

    join_handoff-Keeps :
        (hs : List Handoff)
        → Keeps (Allowed answers found start) (join_handoff answers r ref sha nodes hs)
    unfolding join_handoff
    join_handoff-Keeps [] = search (Keeps-give)
    join_handoff-Keeps (h ∷ hs) =
        Keeps-if (Allowed answers found start)
          (is_open h.state && str_eq h.ref ref && str_eq h.sha sha)
          (if same_set h.nodes nodes then give (some (h ∷ hs)) else (do
            tell (saved (record h { nodes = union_two h.nodes nodes }))
            give (some (record h { nodes = union_two h.nodes nodes } ∷ hs))))
          (do x ← join_handoff answers r ref sha nodes hs; give (put_first h x))
          (search (Keeps-if, Keeps->>, Keeps-tell, Keeps-give, tt) depth 12)
          (search (Keeps->>=, Keeps-give, join_handoff-Keeps hs))

    not_extended-Keeps :
        (hs : List Handoff) (o : Option (List Handoff))
        → Keeps (Allowed answers found start) (not_extended answers r refs ref sha nodes hs o)
    unfolding not_extended
    not_extended-Keeps hs (some changed) = search (Keeps-give)
    not_extended-Keeps hs none = search (Keeps->>=, Keeps-give, open_handoff-Keeps)

    not_joined-Keeps :
        (hs : List Handoff) (o : Option (List Handoff))
        → AllListed answers r found start hs
        → Keeps (Allowed answers found start) (not_joined answers r refs ref sha nodes hs o)
    unfolding not_joined
    not_joined-Keeps hs (some changed) a = search (Keeps-give)
    not_joined-Keeps hs none a =
        Keeps->>= (Allowed answers found start) (extend_handoff answers r refs ref sha nodes hs)
          (not_extended answers r refs ref sha nodes hs) (extend_handoff-Keeps hs a)
          (not_extended-Keeps hs)

    hand_off_version-Keeps :
        (hs : List Handoff)
        → AllListed answers r found start hs
        → Keeps (Allowed answers found start) (hand_off_version answers r refs ref sha nodes hs)
    unfolding hand_off_version
    hand_off_version-Keeps hs a =
        Keeps->>= (Allowed answers found start) (join_handoff answers r ref sha nodes hs)
          (not_joined answers r refs ref sha nodes hs) (join_handoff-Keeps hs)
          (λ x. not_joined-Keeps hs x a)

-- The versions are of differences that were found.
module _ (P : Str → Str → Type 0) where
  add_to_group-All :
      (d : Divergence) (vs : List Version)
      → P d.ref d.replica
      → All (λ v. P v.ref v.sha) vs
      → All (λ v. P v.ref v.sha) (add_to_group d vs)
  unfolding add_to_group
  add_to_group-All d [] p a = (p, tt)
  add_to_group-All d (v ∷ vs) p (q, a) =
      split_on (str_eq v.ref d.ref && str_eq v.sha d.replica) (add_to_group d vs)
        (add_to_group-All d vs p a)
    where
      split_on :
          (b : Bool) (rest : List Version)
          → All (λ w. P w.ref w.sha) rest
          → All
              (λ w. P w.ref w.sha)
              (if b then record v { nodes = v.nodes ++ d.node ∷ [] } ∷ vs else v ∷ rest)
      split_on true rest x = (q, a)
      split_on false rest x = (q, x)

  group_each-All :
      (found : List Divergence) (vs : List Version)
      → All (λ d. P d.ref d.replica) found
      → All (λ v. P v.ref v.sha) vs
      → All (λ v. P v.ref v.sha) (group_each found vs)
  unfolding group_each
  group_each-All [] vs f a = a
  group_each-All (d ∷ found) vs (p, f) a =
      group_each-All found (add_to_group d vs) f (add_to_group-All d vs p a)

  insert_version-All :
      (v : Version) (vs : List Version)
      → P v.ref v.sha
      → All (λ w. P w.ref w.sha) vs
      → All (λ w. P w.ref w.sha) (insert_version v vs)
  unfolding insert_version
  insert_version-All v [] p a = (p, tt)
  insert_version-All v (w ∷ vs) p (q, a) =
      split_on (str_le (v.ref ++ v.sha) (w.ref ++ w.sha)) (insert_version v vs)
        (insert_version-All v vs p a)
    where
      split_on :
          (b : Bool) (rest : List Version)
          → All (λ x. P x.ref x.sha) rest
          → All (λ x. P x.ref x.sha) (if b then v ∷ w ∷ vs else w ∷ rest)
      split_on true rest x = (p, (q, a))
      split_on false rest x = (q, x)

  sort_versions-All :
      (vs : List Version)
      → All (λ v. P v.ref v.sha) vs
      → All (λ v. P v.ref v.sha) (sort_versions vs)
  unfolding sort_versions
  sort_versions-All [] a = tt
  sort_versions-All (v ∷ vs) (p, a) =
      insert_version-All v (sort_versions vs) p (sort_versions-All vs a)

found_among :
    (all l : List Divergence)
    → ((ref sha : Str) → is_found l ref sha ≡ true → is_found all ref sha ≡ true)
    → All (λ d. is_found all d.ref d.replica ≡ true) l
unfolding is_found any
found_among all [] h = tt
found_among all (d ∷ l) h = (
  h d.ref d.replica (ground (arith, str_eq_refl d.ref, str_eq_refl d.replica)),
  found_among all l (λ ref sha e. h ref sha (ground (arith, e))),
)

module _ (answers : Answers) (r : Run) (found : List Divergence) (start : List Handoff) where
  hand_off_each-Keeps :
      (vs : List Version) (s : List Handoff × Refs)
      → All (λ v. is_found found v.ref v.sha ≡ true) vs
      → StateListed answers r found start s
      → Keeps (Allowed answers found start) (hand_off_each answers r vs s)
  unfolding hand_off_each
  hand_off_each-Keeps [] s p a = search (Keeps-give)
  hand_off_each-Keeps (v ∷ vs) s (p, q) a =
      Keeps->>=_of (StateListed answers r found start) (Allowed answers found start)
        (hand_off_version answers r s.1 v.ref v.sha (sort v.nodes) s.0) (hand_off_each answers r vs)
        (hand_off_version-Listed answers r found start s.1 v.ref v.sha (sort v.nodes) p s.0 a)
        (hand_off_version-Keeps answers r found start s.1 v.ref v.sha (sort v.nodes) p s.0 a)
        (λ next k. hand_off_each-Keeps vs next q k)

  hand_off-Keeps :
      (refs : Refs) → Keeps (Allowed answers found start) (hand_off answers r refs start found)
  unfolding hand_off
  hand_off-Keeps refs =
      Keeps-if (Allowed answers found start) (not r.has_api) (give (start, refs))
        (hand_off_each answers r (sort_versions (group_each found [])) (start, refs))
        (search (Keeps-give))
        (hand_off_each-Keeps (sort_versions (group_each found [])) (start, refs) versions
          (start_listed found [] start))
    where
      versions : All (λ v. is_found found v.ref v.sha ≡ true) (sort_versions (group_each found []))
      versions =
          sort_versions-All (λ ref sha. is_found found ref sha ≡ true) (group_each found [])
            (group_each-All (λ ref sha. is_found found ref sha ≡ true) found []
              (found_among found found (λ ref sha e. e)) tt)

  -- Whatever the calls answer, each action that handOff pushes to the primary is one of these: the
  -- creation of a branch among the hand-off branches at a value that was found on a replica; the
  -- removal of such a branch, if it still has that value; or the move of an open hand-off's own
  -- branch, from the value handed off, to a value that was found on a replica for the same ref and
  -- that contains it, where that hand-off is one of those given, moved to a found value at most, or
  -- has a branch among the hand-off branches and a value found for its ref.
  pub hand_off-Allowed :
      (refs : Refs) → All (Allowed answers found start) ((hand_off answers r refs start found []).1)
  hand_off-Allowed refs = (hand_off-Keeps refs).keeps [] tt
