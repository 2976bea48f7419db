-- ===== src/Issues/Reactions/Laws.antt =====
-- internal/issues/reactions.go: what syncReactions calls and leaves.
use forge_sync.Set.Again.{value_at-write_member, Round-again, value_at}
use forge_sync.Issues.Reactions.Kept.{
  Fails, AllTold-tail, react_nodes-Kept, AllTold-head, Acted, AllTold,
}
use forge_sync.Set.Settle.{AllProper}
use forge_sync.Set.Converge.{agreed, Moved-refl}
use forge_sync.Prelude.{
  inr, inl, ◌&&◌, str_eq, Bool-cases, or_default, ◌∙◌, ap, sym, not, ◌↔◌, none, refl, subst,
  str_eq_iff, [], Option, arith, false, ◌∷◌, All, true, ◌≡◌, Str, distinct, List, Bool,
}
use forge_sync.Prelude.Map
use forge_sync.Prelude.Map.{has, Map}
use forge_sync.Prelude.Effects.{
  call, Keeps-call, attempt, Keeps-attempt, Keeps-tell, Keeps->>, ◌>>=◌, Keeps->>=, give,
  Returns-give, Keeps-give, Returns, Keeps, Returns->>=_of,
}
use forge_sync.Set.{at, decide, from, settle}
use forge_sync.Set.Writes.{
  Told-agreed, Told, Told-IsWanted, IsWanted, Round, Round-write, Round-retry, write_member,
}
use forge_sync.Issues.Reactions.{
  str_eq, or_default, not, call, attempt, some, failed, [], Option, Answer, given, give,
  ensure_answered, act_answered, sync_reactions, react_nodes, react_each, react, add_ensured,
  act_on, true, Str, List, Bool, Event, ensured, acted, incomplete, who, Answers, History,
}

module _ (answers : Answers) (have : Map (Map Bool)) (base : Map Bool)
    (names : distinct (Map.keys have) ≡ true) where
  -- A reaction is written as the person that the member names.
  abbrev pub Allowed : Event → Type 0
  Allowed (acted n login content add) =
      (e : Str) × (who e ≡ (login, content)) × IsWanted have base names n e add
  Allowed (ensured login n) = Unit
  Allowed incomplete = Unit

  module _ (n e : Str) where
    act_on-Keeps :
        (add : Bool) (now : Map (Map Bool))
        → Told have base n e add
        → Keeps Allowed (act_on answers n e add now)
    unfolding act_on act_answered
    act_on-Keeps add now t =
        let m : IsWanted have base names n e add = Told-IsWanted have base names n e add t in
        Keeps->>= Allowed
          (attempt (call (answers.act n (who e).0 (who e).1 add) (acted n (who e).0 (who e).1 add)))
          (act_answered answers n e add now)
          (Keeps-attempt Allowed
            (call (answers.act n (who e).0 (who e).1 add) (acted n (who e).0 (who e).1 add))
            (Keeps-call Allowed (answers.act n (who e).0 (who e).1 add)
              (acted n (who e).0 (who e).1 add) (e, refl, m)))
          answered
      where
        answered : (o : Answer (Unit {0})) → Keeps Allowed (act_answered answers n e add now o)
        answered (failed x) = search (Keeps->>, Keeps-tell, Keeps-give, tt)
        answered (given u) = search (Keeps-give)

    add_ensured-Keeps :
        (o : Option (Str → Str → History → Answer (Unit {0}))) (now : Map (Map Bool))
        → Told have base n e true
        → Keeps Allowed (add_ensured answers o n e now)
    unfolding add_ensured ensure_answered
    add_ensured-Keeps none now t = act_on-Keeps true now t
    add_ensured-Keeps (some f) now t = search (Keeps->>=, Keeps-attempt, Keeps-call, answered, tt)
      where
        answered : (o : Answer (Unit {0})) → Keeps Allowed (ensure_answered answers n e now o)
        answered (failed x) = search (Keeps->>, Keeps-tell, Keeps-give, tt)
        answered (given u) = act_on-Keeps true now t

    react-Keeps :
        (add : Bool) (now : Map (Map Bool))
        → Told have base n e add
        → Keeps Allowed (react answers n e add now)
    unfolding react
    react-Keeps true now t = add_ensured-Keeps answers.ensure_user now t
    react-Keeps false now t = act_on-Keeps false now t

  react_each-Keeps :
      (n : Str) (add : Bool) (es : List Str) (now : Map (Map Bool))
      → AllTold have base n add es
      → Keeps Allowed (react_each answers n add es now)
  unfolding react_each
  react_each-Keeps n add [] now t = search (Keeps-give)
  react_each-Keeps n add (e ∷ es) now t =
      Keeps->>= Allowed (react answers n e add now) (react_each answers n add es)
        (react-Keeps n e add now (AllTold-head have base n e add es t))
        (λ next. react_each-Keeps n add es next (AllTold-tail have base n e add es t))

  -- A round over the nodes.
  react_nodes-Keeps :
      (nodes : List Str) (now : Map (Map Bool))
      → Keeps Allowed (react_nodes answers (decide have base) nodes now)
  unfolding react_nodes
  react_nodes-Keeps [] now = Keeps-give Allowed now
  react_nodes-Keeps (n ∷ nodes) now =
      Keeps->>= Allowed (react_each answers n true (at n (decide have base).add) now)
        (λ added. do
          removed ← react_each answers n false (at n (decide have base).remove) added
          react_nodes answers (decide have base) nodes removed)
        (react_each-Keeps n true (at n (decide have base).add) now (λ e t. t))
        (λ added.
          Keeps->>= Allowed (react_each answers n false (at n (decide have base).remove) added)
            (react_nodes answers (decide have base) nodes)
            (react_each-Keeps n false (at n (decide have base).remove) added (λ e t. t))
            (react_nodes-Keeps nodes))

module _ (answers : Answers) (nodes : List Str) (base : Str) (have : Map (Map Bool))
    (names : distinct (Map.keys have) ≡ true) where
  -- Where no node is named twice: each reaction that syncReactions writes on a node is a member,
  -- split into its person and its emoji, that the node lacks, the base lacks and some node has, for
  -- an addition, and that the node has, the base has and some node lacks, for a removal.
  pub sync_reactions-Allowed :
      All (Allowed answers have (from base) names) ((sync_reactions answers nodes base have []).1)
  unfolding sync_reactions
  sync_reactions-Allowed =
      (Keeps->>= (Allowed answers have (from base) names)
          (react_nodes answers (decide have (from base)) nodes have)
          (λ after. give (after, settle after (from base)))
          (react_nodes-Keeps answers have (from base) names nodes have)
          (λ after.
            Keeps-give (Allowed answers have (from base) names)
              (after, settle after (from base)))).keeps
        [] tt

  -- What comes of a run is a round of writes, with the base settled on it, and keeps what each
  -- write that worked keeps.
  Settled : (Map (Map Bool) → Type 0) → Map (Map Bool) × Str → Type 0
  Settled I (after, text) =
      Round have (from base) names after × (text ≡ settle after (from base)) × I after

  sync_reactions-Settled :
      (I : Map (Map Bool) → Type 0)
      → ((n e : Str) (add : Bool) (now : Map (Map Bool)) (u : Unit {0})
          → Told have (from base) n e add
          → Acted answers n e add (given u)
          → I now
          → I (write_member n e add now))
      → I have
      → Returns (Settled I) (sync_reactions answers nodes base have)
  unfolding sync_reactions Settled
  sync_reactions-Settled I kept i =
      Returns->>=_of (λ now. Round have (from base) names now × I now) (Settled I)
        (react_nodes answers (decide have (from base)) nodes have)
        (λ after. give (after, settle after (from base)))
        (react_nodes-Kept answers have (from base) (λ now. Round have (from base) names now × I now)
          (λ n e add now u t a k.
            (Round-write have (from base) names n e add now t (k.0), kept n e add now u t a (k.1)))
          nodes have ((Moved-refl (agreed have (from base)) have, names), i))
        (λ after k. Returns-give (Settled I) (after, settle after (from base)) (k.0, refl, k.1))

  given-failed : (u : Unit {0}) (x : Str) → ◌≡◌ {A = Answer (Unit {0})} (given u) (failed x) → ⊥
  given-failed u x k = cc

  -- A write other than the one that fails leaves the member as it was.
  failing-kept :
      (n e : Str) (add : Bool)
      → Told have (from base) n e add
      → Fails answers n e add
      → (m f : Str) (sub : Bool) (now : Map (Map Bool)) (u : Unit {0})
      → Told have (from base) m f sub
      → Acted answers m f sub (given u)
      → value_at n e now ≡ not add
      → value_at n e (write_member m f sub now) ≡ not add
  failing-kept n e add t fails m f sub now u s (h, a) k =
      elim (Bool-cases (str_eq m n && str_eq f e)) [
        | inl q ↦ absurd (never (ground (arith, str_eq_iff m n)) (ground (arith, str_eq_iff f e)))
        | inr q ↦ ground (arith, value_at-write_member n e m f sub now)
      ]
    where
      never : m ≡ n → f ≡ e → ⊥
      never p q =
          let same : sub ≡ add =
            sym (Told-agreed have (from base) names m f sub s).0
            ∙ ap (agreed have (from base)) q
            ∙ (Told-agreed have (from base) names n e add t).0 in
          let (x, b) = fails h in
          given-failed u x (
            sym a
            ∙ ap (λ i. answers.act i (who f).0 (who f).1 sub h) p
            ∙ ap (λ i. answers.act n (who i).0 (who i).1 sub h) q
            ∙ ap (λ i. answers.act n (who e).0 (who e).1 i h) same
            ∙ b)

  Told-value_at :
      (n e : Str) (add : Bool) → Told have (from base) n e add → value_at n e have ≡ not add
  Told-value_at n e add t =
      let (s, was, lacks, lacked, held) = Told-IsWanted have (from base) names n e add t in
      ap (λ o. has e (or_default [] o)) was ∙ lacks

  -- Where no node is named twice and after the run no member has a comma or is empty: a write to a
  -- node that fails whenever it is made is what the next run would be told to make, with the base
  -- that this run returns and the sets as this run left them, if and only if this run was told to
  -- make it. So a write that fails is tried again, and is not read as someone's change; the other
  -- calls may fail at any place.
  pub sync_reactions-retry :
      (h h2 : History) (after : Map (Map Bool)) (text n e : Str) (add : Bool)
      → sync_reactions answers nodes base have h ≡ (given (after, text), h2)
      → AllProper after (from base)
      → Fails answers n e add
      → Told have (from base) n e add ↔ Told after (from text) n e add
  unfolding Settled
  sync_reactions-retry h h2 after text n e add o proper fails = (
    λ t.
        let (r, same, left) =
          (sync_reactions-Settled (λ now. value_at n e now ≡ not add) (failing-kept n e add t fails)
              (Told-value_at n e add t)).returns
            (after, text) h h2 o in
        subst (λ x. Told after (from x) n e add) (sym same)
          (Round-again have after (from base) names r n e add proper t left),
    λ t.
        let (r, same, left) =
          (sync_reactions-Settled (λ now. Unit) (λ m f sub now u s a k. tt) tt).returns
            (after, text) h h2 o in
        Round-retry have (from base) names n e add after r proper
          (subst (λ x. Told after (from x) n e add) same t),
  )
