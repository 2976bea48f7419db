-- ===== src/Replication/Engine/Base.antt =====
-- internal/replication/engine.go, replicate: what is recorded as being on a replica.
use forge_sync.Prelude.Map.{contains-keys, lookup-delete, distinct-keys-insert, lookup-insert, Map}
use forge_sync.Prelude.{
  refl, ap, ◌∙◌, none, Bool-cases, Option, str_eq_iff, is_some, if◌then◌else◌, distinct, ◌≡◌, inl,
  inr, arith, true, ◌&&◌, ◌||◌, List, [], ◌∷◌, Str, str_eq, some, or_default,
}
use forge_sync.Prelude.Map
use forge_sync.Replication.Plan.{Refs, Action}
use forge_sync.Replication.Handoff.{PushResult, result_of}
use forge_sync.Replication.Engine.{
  is_delete, keep_synced, drop_gone, Tally, tally, tally_one, next_tally,
}

-- A ref that the primary has, and the replica too at the same value, is known at that value; else it
-- is known as before.
unfoldable pub known_of : Option Str → Option Str → Option Str → Option Str
known_of none there before = before
known_of (some p) there before = if str_eq (or_default [] there) p then some p else before

-- Before the pushes: a ref that neither the primary nor the replica has is no longer known.
unfoldable pub known_before : Option Str → Option Str → Option Str → Option Str
known_before none none before = none
known_before none (some r) before = before
known_before (some p) there before = known_of (some p) there before

-- What the last push of the ref that succeeded has left of it: the value that it was pushed to, or
-- nothing where it was deleted; else what was known.
unfoldable pub left_of : Map PushResult → Str → List Action → Option Str → Option Str
left_of results k [] known = known
left_of results k (a ∷ actions) known = left_of results k actions (
    if str_eq a.ref k && (result_of k results).ok
    then (if is_delete a then none else some a.target)
    else known)

keep_synced-known :
    (r primary next : Refs) (k : Str)
    → distinct (Map.keys primary) ≡ true
    → Map.lookup k (keep_synced r primary next)
      ≡ known_of (Map.lookup k primary) (Map.lookup k r) (Map.lookup k next)
unfolding keep_synced known_of Map.lookup Map.keys distinct
keep_synced-known r [] next k d = refl
keep_synced-known r ((ref, p) ∷ primary) next k d =
    let rest =
      keep_synced-known r primary
        (if str_eq (or_default [] (Map.lookup ref r)) p then Map.insert ref p next else next) k
        (ground arith) in
    elim (Bool-cases (str_eq ref k)) [
      | inl e ↦
          ground
            (arith, rest, contains-keys k primary, str_eq_iff ref k, lookup-insert ref k p next)
      | inr e ↦ ground (arith, rest, lookup-insert ref k p next)
    ]

drop_gone-known :
    (p r next : Refs) (k : Str)
    → distinct (Map.keys next) ≡ true
    → Map.lookup k (drop_gone p r next)
      ≡ (if is_some (Map.lookup k p) || is_some (Map.lookup k r) then Map.lookup k next else none)
unfolding drop_gone Map.lookup Map.keys distinct
drop_gone-known p r [] k d = ground arith
drop_gone-known p r ((ref, x) ∷ next) k d =
    ground (arith, drop_gone-known p r next k, str_eq_iff ref k, contains-keys k next)

tally_one-known :
    (results : Map PushResult) (a : Action) (t : Tally) (k : Str)
    → Map.lookup k (tally_one a (result_of a.ref results) t).next ≡ (
        if str_eq a.ref k && (result_of k results).ok
        then (if is_delete a then none else some a.target)
        else Map.lookup k t.next)
unfolding tally_one
tally_one-known results a t k =
    ground (
      arith,
      lookup-insert a.ref k a.target t.next,
      lookup-delete a.ref k t.next,
      str_eq_iff a.ref k,
    )

tally-known :
    (results : Map PushResult) (actions : List Action) (t : Tally) (k : Str)
    → Map.lookup k (tally results actions t).next ≡ left_of results k actions (Map.lookup k t.next)
unfolding tally left_of
tally-known results [] t k = refl
tally-known results (a ∷ actions) t k =
    tally-known results actions (tally_one a (result_of a.ref results) t) k
    ∙ ap (left_of results k actions) (tally_one-known results a t k)

keep_synced-distinct :
    (r primary next : Refs)
    → distinct (Map.keys next) ≡ true
    → distinct (Map.keys (keep_synced r primary next)) ≡ true
unfolding keep_synced
keep_synced-distinct r [] next d = d
keep_synced-distinct r ((ref, p) ∷ primary) next d =
    keep_synced-distinct r primary
      (if str_eq (or_default [] (Map.lookup ref r)) p then Map.insert ref p next else next)
      (ground (arith, distinct-keys-insert ref p next))

known_of-before :
    (p r before : Option Str)
    → (if is_some p || is_some r then known_of p r before else none) ≡ known_before p r before
unfolding known_before known_of
known_of-before none none before = refl
known_of-before none (some r) before = refl
known_of-before (some p) r before = refl

-- Where neither the primary's refs nor the old record name a ref twice, what replicate records for
-- a ref is: what the last of the pushes of the ref that succeeded left, which is the value pushed
-- to or, for a deletion, nothing; if none succeeded, the primary's value where the replica has it
-- too, else what was recorded before, and nothing where neither the primary nor the replica has the
-- ref. A push that failed changes nothing in the record.
pub next_tally-known :
    (p r base : Refs) (results : Map PushResult) (actions : List Action) (k : Str)
    → distinct (Map.keys p) ≡ true
    → distinct (Map.keys base) ≡ true
    → Map.lookup k (next_tally p r base results actions).next
      ≡ left_of results k actions
          (known_before (Map.lookup k p) (Map.lookup k r) (Map.lookup k base))
unfolding next_tally
next_tally-known p r base results actions k dp db =
    tally-known results actions
      (record { failed = []; updated = 0; next = drop_gone p r (keep_synced r p base) }) k
    ∙ ap (left_of results k actions) (
        drop_gone-known p r (keep_synced r p base) k (keep_synced-distinct r p base db)
        ∙ rw (keep_synced-known r p base k dp)
            (known_of-before (Map.lookup k p) (Map.lookup k r) (Map.lookup k base)))
