-- ===== src/Issues/Reactions/Kept.antt =====
-- internal/issues/reactions.go: what each write that worked keeps, syncReactions keeps.
use forge_sync.Set.{at, decide}
use forge_sync.Set.Writes.{write_member, Told}
use forge_sync.Prelude.{
  none, Option, false, [], str_eq_refl, str_eq_iff, arith, true, ◌∷◌, ◌≡◌, List, Str, contains,
  Bool,
}
use forge_sync.Prelude.Effects.{
  Returns->>=, call, attempt, give, ◌>>=◌, tell, Returns->>, Returns->>=_of, Returns, Returns-give,
}
use forge_sync.Issues.Reactions.{
  ensured, acted, some, call, Option, attempt, give, false, incomplete, tell, at, decide, failed,
  add_ensured, ensure_answered, act_answered, react_nodes, react_each, react, act_on, write_member,
  who, given, Answer, Answers, History, Event,
}
use forge_sync.Prelude.Map.{Map}

-- A list of members that the node is told of.
abbrev pub AllTold : Map (Map Bool) → Map Bool → Str → Bool → List Str → Type 0
AllTold have base n add es = (e : Str) → contains e es ≡ true → Told have base n e add

pub AllTold-tail :
    (have : Map (Map Bool)) (base : Map Bool) (n e : Str) (add : Bool) (es : List Str)
    → AllTold have base n add (e ∷ es)
    → AllTold have base n add es
unfolding contains
AllTold-tail have base n e add es t j c = t j (ground (arith, str_eq_iff e j))

pub AllTold-head :
    (have : Map (Map Bool)) (base : Map Bool) (n e : Str) (add : Bool) (es : List Str)
    → AllTold have base n add (e ∷ es)
    → Told have base n e add
unfolding contains
AllTold-head have base n e add es t = t e (ground (arith, str_eq_refl e))

-- What the reactor answers at some time.
abbrev pub Acted : Answers → Str → Str → Bool → Answer (Unit {0}) → Type 0
Acted answers n e add o = (h : History) × (answers.act n (who e).0 (who e).1 add h ≡ o)

-- Each time that the member is to be written on the node, that fails.
abbrev pub Fails : Answers → Str → Str → Bool → Type 0
Fails answers n e add =
    (h : History) → (x : Str) × (answers.act n (who e).0 (who e).1 add h ≡ failed x)

asked_at :
    (f : History → Answer (Unit {0})) (ev : Event) (o : Answer (Unit {0})) (h h2 : History)
    → ◌≡◌ {A = Answer (Answer (Unit {0})) × History} (given (f h), ev ∷ h) (given o, h2)
    → f h ≡ o
asked_at f ev o h h2 k = cc

module _ (answers : Answers) (have : Map (Map Bool)) (base : Map Bool) (I : Map (Map Bool) → Type 0)
    (kept : (n e : Str) (add : Bool) (now : Map (Map Bool)) (u : Unit {0})
      → Told have base n e add
      → Acted answers n e add (given u)
      → I now
      → I (write_member n e add now)) where
  act_on-Kept :
      (n e : Str) (add : Bool) (now : Map (Map Bool))
      → Told have base n e add
      → I now
      → Returns I (act_on answers n e add now)
  unfolding act_on act_answered
  act_on-Kept n e add now t i =
      Returns->>=_of (Acted answers n e add) I
        (attempt (call (answers.act n (who e).0 (who e).1 add) (acted n (who e).0 (who e).1 add)))
        (act_answered answers n e add now)
        (record {
          returns = λ o h h2 k. (
            h,
            asked_at (answers.act n (who e).0 (who e).1 add) (acted n (who e).0 (who e).1 add) o h
                h2 k,
          );
        })
        answered
    where
      answered :
          (o : Answer (Unit {0}))
          → Acted answers n e add o
          → Returns I (act_answered answers n e add now o)
      answered (failed x) a = Returns->> I (tell incomplete) (give now) (Returns-give I now i)
      answered (given u) a = Returns-give I (write_member n e add now) (kept n e add now u t a i)

  react-Kept :
      (n e : Str) (add : Bool) (now : Map (Map Bool))
      → Told have base n e add
      → I now
      → Returns I (react answers n e add now)
  unfolding react ensure_answered add_ensured
  react-Kept n e false now t i = act_on-Kept n e false now t i
  react-Kept n e true now t i = ensured_first answers.ensure_user
    where
      answered : (o : Answer (Unit {0})) → Returns I (ensure_answered answers n e now o)
      answered (failed x) = Returns->> I (tell incomplete) (give now) (Returns-give I now i)
      answered (given u) = act_on-Kept n e true now t i

      ensured_first :
          (o : Option (Str → Str → History → Answer (Unit {0})))
          → Returns I (add_ensured answers o n e now)
      ensured_first none = act_on-Kept n e true now t i
      ensured_first (some f) =
          Returns->>= I (attempt (call (f (who e).0 n) (ensured (who e).0 n)))
            (ensure_answered answers n e now) answered

  react_each-Kept :
      (n : Str) (add : Bool) (es : List Str) (now : Map (Map Bool))
      → AllTold have base n add es
      → I now
      → Returns I (react_each answers n add es now)
  unfolding react_each
  react_each-Kept n add [] now t i = Returns-give I now i
  react_each-Kept n add (e ∷ es) now t i =
      Returns->>=_of I I (react answers n e add now) (react_each answers n add es)
        (react-Kept n e add now (AllTold-head have base n e add es t) i)
        (λ next k. react_each-Kept n add es next (AllTold-tail have base n e add es t) k)

  pub react_nodes-Kept :
      (nodes : List Str) (now : Map (Map Bool))
      → I now
      → Returns I (react_nodes answers (decide have base) nodes now)
  unfolding react_nodes
  react_nodes-Kept [] now i = Returns-give I now i
  react_nodes-Kept (n ∷ nodes) now i =
      Returns->>=_of I I (react_each answers n true (at n (decide have base).add) now)
        (λ added. do
          removed ← react_each answers n false (at n (decide have base).remove) added
          react_nodes answers (decide have base) nodes removed)
        (react_each-Kept n true (at n (decide have base).add) now (λ e t. t) i)
        (λ added k.
          Returns->>=_of I I (react_each answers n false (at n (decide have base).remove) added)
            (react_nodes answers (decide have base) nodes)
            (react_each-Kept n false (at n (decide have base).remove) added (λ e t. t) k)
            (react_nodes-Kept nodes))
