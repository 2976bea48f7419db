-- ===== src/Set/Again.antt =====
-- internal/set/set.go: a member that a round of writes has left as it was on a node is asked for
-- again in the next round.
use forge_sync.Set.Decide.{decide-remove, decide-add}
use forge_sync.Set.Members.{all_have_at, none_have_at}
use forge_sync.Set.{settle, from, all_have, none_have}
use forge_sync.Set.Settle.{has-from-settle, AllProper}
use forge_sync.Set.Converge.{all_have_of, none_have_of, agreed, Moved, MovedAt}
use forge_sync.Set.Writes.{Told-IsWanted, has-set_member, set_member, Told, Round, write_member}
use forge_sync.Prelude.{
  inr, str_eq_iff, refl, none, not, arith, ap, inl, false, subst, Bool-cases, ◌⊎◌, ◌&&◌, some,
  str_eq, true, if◌then◌else◌, [], distinct, Option, ◌≡◌, or_default, Bool, Str,
}
use forge_sync.Prelude.Map
use forge_sync.Prelude.Map.{lookup-insert, Map, has}

-- Whether a node has a member.
abbrev pub value_at : Str → Str → Map (Map Bool) → Bool
value_at n e have = has e (or_default [] (Map.lookup n have))

pub value_at-write_member :
    (n e m f : Str) (add : Bool) (have : Map (Map Bool))
    → value_at n e (write_member m f add have)
      ≡ (if str_eq m n && str_eq f e then add else value_at n e have)
unfolding write_member
value_at-write_member n e m f add have = elim (Bool-cases (str_eq m n)) [
  | inl q ↦ ground (
    arith,
    lookup-insert m n (set_member add f (or_default [] (Map.lookup m have))) have,
    has-set_member add f e (or_default [] (Map.lookup m have)),
    str_eq_iff m n,
  )
  | inr q ↦
      ground (arith, lookup-insert m n (set_member add f (or_default [] (Map.lookup m have))) have)
]

-- A node that had a set has one after the round.
moved_to :
    (want : Str → Bool) (o o' : Option (Map Bool)) (s : Map Bool)
    → MovedAt want o o'
    → o ≡ some s
    → (t : Map Bool) × (o' ≡ some t) × ((e : Str) → (has e t ≡ has e s) ⊎ (has e t ≡ want e))
moved_to want none o' s m h = cc
moved_to want (some r) none s m h = absurd m
moved_to want (some r) (some t) s m h = (
  t,
  refl,
  subst (λ v. (e : Str) → (has e t ≡ has e v) ⊎ (has e t ≡ want e)) (ap (or_default r) h) m,
)

module _ (have after : Map (Map Bool)) (base : Map Bool) (names : distinct (Map.keys have) ≡ true)
    (moved : Moved (agreed have base) have after) (e : Str) where
  none_had : agreed have base e ≡ true → none_have e after ≡ true → none_have e have ≡ true
  none_had w a = none_have_of e have names λ n s k.
      let (t, is_, m) =
        moved_to (agreed have base) (Map.lookup n have) (Map.lookup n after) s (moved n) k in
      ground (arith, m e, none_have_at e n t after is_)

  all_had : agreed have base e ≡ false → all_have e after ≡ true → all_have e have ≡ true
  all_had w a = all_have_of e have names λ n s k.
      let (t, is_, m) =
        moved_to (agreed have base) (Map.lookup n have) (Map.lookup n after) s (moved n) k in
      ground (arith, m e, all_have_at e n t after is_)

module _ (have after : Map (Map Bool)) (base : Map Bool) (names : distinct (Map.keys have) ≡ true)
    (round : Round have base names after) (n e : Str) where
  -- A write that the round has not made is asked for in the next one, with the base settled and
  -- kept as text.
  pub Round-again :
      (add : Bool)
      → AllProper after base
      → Told have base n e add
      → value_at n e after ≡ not add
      → Told after (from (settle after base)) n e add
  Round-again true proper told left =
      let (moved, later) = round in
      let (s, was, lacks, lacked, held) = Told-IsWanted have base names n e true told in
      let (t, is_, m) =
        moved_to (agreed have base) (Map.lookup n have) (Map.lookup n after) s (moved n) was in
      ground (
        arith,
        decide-add e n after (from (settle after base)) t later is_,
        has-from-settle e after base proper,
        all_have_at e n t after is_,
        none_had have after base names moved e,
      )
  Round-again false proper told left =
      let (moved, later) = round in
      let (s, was, holds, held, lacked) = Told-IsWanted have base names n e false told in
      let (t, is_, m) =
        moved_to (agreed have base) (Map.lookup n have) (Map.lookup n after) s (moved n) was in
      ground (
        arith,
        decide-remove e n after (from (settle after base)) t later is_,
        has-from-settle e after base proper,
        none_have_at e n t after is_,
        all_had have after base names moved e,
      )
