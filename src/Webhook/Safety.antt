-- ===== src/Webhook/Safety.antt =====
-- internal/webhook/dispatch.go: what Changed replicates.
use forge_sync.Prelude.{
  if◌then◌else◌, bytes, arith, ◌||◌, ◌&&◌, ◌∷◌, not, [], All, false, List, true, str_eq, ◌≡◌, Str,
}
use forge_sync.Prelude.Effects.{
  ◌>>◌, call, ◌>>=◌, give, tell, attempt, Returns, Keeps, Keeps->>=_of, Keeps-if_of, Keeps-if,
  Keeps->>=, Keeps->>, Keeps-give, Keeps-tell, Keeps-call, Keeps-attempt, Answer, given, failed,
}
use forge_sync.Webhook.{
  is_issue_event, ask_id, changed, changed_known, look_first, assign_primaries, scan_previous,
  trigger_found, trigger_repo, trigger_issues, Str, Dispatcher, Change, Event, id_asked,
  previous_asked, scanned, assigned, issues_triggered, triggered,
}

-- The store has said that the changed repository has this id.
abbrev pub Known : Dispatcher → Change → Str → Type 0
Known d c id =
    (str_eq id [] ≡ false) × ((h : List Event) × (d.repository_id c.repository h ≡ given id))

-- What is replicated, repository or issues, is the one that changed, as the store knows it.
abbrev pub Allowed : Dispatcher → Change → Event → Type 0
Allowed d c (issues_triggered id) = (is_issue_event c.event ≡ true) × Known d c id
Allowed d c (triggered id) = (is_issue_event c.event ≡ false) × Known d c id
Allowed d c (id_asked n) = Unit
Allowed d c (previous_asked n r) = Unit
Allowed d c (scanned n) = Unit
Allowed d c assigned = Unit

module _ (d : Dispatcher) (c : Change) where
  -- What the store answered at some time.
  abbrev Answered : Answer Str → Type 0
  Answered o = (h : List Event) × (d.repository_id c.repository h ≡ o)

  ask_id-Answered : Returns Answered (attempt (ask_id d c))
  ask_id-Answered = record {
    returns = λ b h h2 e.
        (h, given-inj (d.repository_id c.repository h) b (id_asked c.repository ∷ h) h2 e);
  }
    where
      given-inj :
          (o b : Answer Str) (h h2 : List Event)
          → ◌≡◌ {A = Answer (Answer Str) × List Event} (given o, h) (given b, h2)
          → o ≡ b
      given-inj o b h h2 e = cc

  ask_id-Keeps : Keeps (Allowed d c) (attempt (ask_id d c))
  ask_id-Keeps = search (Keeps-attempt, Keeps-call, tt)

  trigger_issues-Keeps :
      (id : Str)
      → is_issue_event c.event ≡ true
      → Answered (given id)
      → Keeps (Allowed d c) (trigger_issues d c id)
  unfolding trigger_issues
  trigger_issues-Keeps id i (h, a) =
      Keeps-if_of (Allowed d c) (not (str_eq id []) && d.has_issues) (tell (issues_triggered id))
        (give tt) (λ b. Keeps-tell (Allowed d c) (issues_triggered id) (i, (some_id b, (h, a))))
        (λ b. Keeps-give (Allowed d c) tt)
    where
      some_id : (not (str_eq id []) && d.has_issues) ≡ true → str_eq id [] ≡ false
      some_id b = ground (arith, b)

  trigger_repo-Keeps :
      (id : Str)
      → is_issue_event c.event ≡ false
      → Known d c id
      → Keeps (Allowed d c) (trigger_repo d c id)
  unfolding trigger_repo
  trigger_repo-Keeps id i (s, (h, a)) =
      Keeps-if (Allowed d c) d.has_replicator (tell (triggered id)) (give tt)
        (Keeps-tell (Allowed d c) (triggered id) (i, (s, (h, a)))) (Keeps-give (Allowed d c) tt)

  trigger_found-Keeps :
      (o : Answer Str)
      → is_issue_event c.event ≡ false
      → Answered o
      → Keeps (Allowed d c) (trigger_found d c o)
  unfolding trigger_found
  trigger_found-Keeps (failed e) i a = search (Keeps-give)
  trigger_found-Keeps (given id) i a =
      Keeps-if_of (Allowed d c) (str_eq id []) (give tt) (trigger_repo d c id)
        (λ b. Keeps-give (Allowed d c) tt) (λ b. trigger_repo-Keeps id i (b, a))

  scan_previous-Keeps : (o : Answer Str) → Keeps (Allowed d c) (scan_previous d c o)
  unfolding scan_previous
  scan_previous-Keeps (failed e) = search (Keeps-give)
  scan_previous-Keeps (given prev) = search (Keeps-if, Keeps-give, Keeps-tell, tt)

  assign_primaries-Keeps : Keeps (Allowed d c) (assign_primaries d c)
  unfolding assign_primaries
  assign_primaries-Keeps = search (Keeps-if, Keeps->>, Keeps-attempt, Keeps-call, Keeps-give, tt)

  look_first-Keeps : is_issue_event c.event ≡ false → Keeps (Allowed d c) (look_first d c)
  unfolding look_first
  look_first-Keeps i =
      Keeps->> (Allowed d c) (tell (scanned c.repository))
        (do
          prev ←
              attempt
                (call (d.previous_name c.node c.repository) (previous_asked c.node c.repository))
          scan_previous d c prev
          assign_primaries d c
          id ← attempt (ask_id d c)
          trigger_found d c id)
        (search (Keeps-tell, tt))
        (Keeps->>= (Allowed d c)
          (attempt
            (call (d.previous_name c.node c.repository) (previous_asked c.node c.repository)))
          (λ prev. do
            scan_previous d c prev
            assign_primaries d c
            id ← attempt (ask_id d c)
            trigger_found d c id)
          (search (Keeps-attempt, Keeps-call, tt))
          (λ prev.
            Keeps->> (Allowed d c) (scan_previous d c prev)
              (do assign_primaries d c; id ← attempt (ask_id d c); trigger_found d c id)
              (scan_previous-Keeps prev)
              (Keeps->> (Allowed d c) (assign_primaries d c)
                (do id ← attempt (ask_id d c); trigger_found d c id) assign_primaries-Keeps
                (Keeps->>=_of Answered (Allowed d c) (attempt (ask_id d c)) (trigger_found d c)
                  ask_id-Answered ask_id-Keeps (λ o a. trigger_found-Keeps o i a)))))

  changed_known-Keeps : (o : Answer Str) → Answered o → Keeps (Allowed d c) (changed_known d c o)
  unfolding changed_known
  changed_known-Keeps (failed e) a = search (Keeps-give)
  changed_known-Keeps (given id) a =
      Keeps-if_of (Allowed d c) (is_issue_event c.event) (trigger_issues d c id)
        (if str_eq id [] || str_eq c.event (bytes "repository")
          then look_first d c
          else trigger_repo d c id)
        (λ i. trigger_issues-Keeps id i a)
        (λ i.
          Keeps-if_of (Allowed d c) (str_eq id [] || str_eq c.event (bytes "repository"))
            (look_first d c) (trigger_repo d c id) (λ b. look_first-Keeps i)
            (λ b. trigger_repo-Keeps id i (some_id b, a)))
    where
      some_id : (str_eq id [] || str_eq c.event (bytes "repository")) ≡ false → str_eq id [] ≡ false
      some_id b = ground (arith, b)

  -- Whatever is answered, Changed replicates only what the store has said to be the changed
  -- repository: its issues for an event of issues, and itself for any other.
  pub changed-Allowed : All (Allowed d c) ((changed d c []).1)
  unfolding changed
  changed-Allowed =
      (Keeps->>=_of Answered (Allowed d c) (attempt (ask_id d c)) (changed_known d c)
          ask_id-Answered ask_id-Keeps changed_known-Keeps).keeps
        [] tt
