-- ===== src/Set/Text.antt =====
-- internal/set/set.go: the base as text. Value writes what From reads back, in one canonical form.
use forge_sync.Prelude.{
  ℕ, inl, inr, Bool-cases, contains_of_all, ◌≡◌, refl, sym, ap, ◌∙◌, Bool, true, false, ◌&&◌, ◌||◌,
  not, List, [], ◌∷◌, ◌++◌, Str, str_eq, contains, contains-keep, distinct, distinct-keep, all,
  all_of_contains, arith, if◌then◌else◌, ◌==◌,
}
use forge_sync.Prelude.Map
use forge_sync.Prelude.Map.{Map, has, contains-keys, lookup-insert}
use forge_sync.Prelude.Sort.{sort, contains-sort, sort-canonical}
use forge_sync.Set.{onto_first, join, split_commas, split, present, value, mark, from}

unfoldable pub comma_free : Str → Bool
comma_free [] = true
comma_free (c ∷ s) = not (c == b',') && comma_free s

-- A member that the text form can hold: not empty, and without a comma.
unfoldable pub is_member : Str → Bool
unfolding comma_free
is_member [] = false
is_member (c ∷ s) = comma_free (c ∷ s)

split_commas-one : (p : Str) → comma_free p ≡ true → split_commas p ≡ p ∷ []
unfolding split_commas comma_free
split_commas-one [] h = refl
split_commas-one (c ∷ p) h = ground (arith, split_commas-one p)

split_commas-append :
    (p s : Str) → comma_free p ≡ true → split_commas (p ++ (b',' ∷ s)) ≡ p ∷ split_commas s
unfolding split_commas comma_free
split_commas-append [] s h = ground arith
split_commas-append (c ∷ p) s h = ground (arith, split_commas-append p s)

comma_free_of_member : (p : Str) → is_member p ≡ true → comma_free p ≡ true
unfolding is_member comma_free
comma_free_of_member [] h = refl
comma_free_of_member (c ∷ p) h = h

split_commas-join :
    (p : Str) (ps : List Str)
    → all is_member (p ∷ ps) ≡ true
    → split_commas (join (p ∷ ps)) ≡ p ∷ ps
unfolding join all
split_commas-join p [] h = split_commas-one p (comma_free_of_member p (ground arith))
split_commas-join p (q ∷ ps) h =
    split_commas-append p (join (q ∷ ps)) (comma_free_of_member p (ground arith))
    ∙ ap (λ r. p ∷ r) (split_commas-join q ps (ground arith))

split-join : (ps : List Str) → all is_member ps ≡ true → split (join ps) ≡ ps
unfolding split join
split-join [] h = refl
split-join ([] ∷ []) h = unfold all is_member in cc
split-join ([] ∷ q ∷ ps) h = unfold all is_member in cc
split-join ((c ∷ p) ∷ []) h = split_commas-join (c ∷ p) [] h
split-join ((c ∷ p) ∷ q ∷ ps) h = split_commas-join (c ∷ p) (q ∷ ps) h

pub has-insert :
    (k j : Str) (b : Bool) (m : Map Bool)
    → has j (Map.insert k b m) ≡ (if str_eq k j then b else has j m)
unfolding has
has-insert k j b m = ground (arith, lookup-insert k j b m)

pub has-mark :
    (e : Str) (es : List Str) (out : Map Bool) → has e (mark es out) ≡ (contains e es || has e out)
unfolding mark contains
has-mark e [] out = refl
has-mark e (j ∷ es) out =
    ground (arith, has-mark e es (Map.insert j true out), has-insert j e true out)

pub contains-present : (e : Str) (s : Map Bool) → contains e (present s) ≡ has e s
unfolding present has
contains-present e s =
    ground (arith, contains-keep (λ k. has k s) e (Map.keys s), contains-keys e s)

members_proper :
    (s : Map Bool)
    → ((k : Str) → has k s ≡ true → is_member k ≡ true)
    → all is_member (sort (present s)) ≡ true
members_proper s proper =
    all_of_contains is_member (sort (present s))
      (λ k h. proper k (sym (contains-sort k (present s) ∙ contains-present k s) ∙ h))

has-mark_empty : (e : Str) (es : List Str) → has e (mark es []) ≡ contains e es
unfolding has Map.lookup
has-mark_empty e es = ground (arith, has-mark e es [])

pub from-value_lem :
    (e : Str) (s : Map Bool)
    → ((k : Str) → has k s ≡ true → is_member k ≡ true)
    → has e (from (value s)) ≡ has e s
unfolding from value
from-value_lem e s proper =
    rw (split-join (sort (present s)) (members_proper s proper))
      (has-mark_empty e (sort (present s)) ∙ contains-sort e (present s) ∙ contains-present e s)

-- Two maps without a repeated key in which the same members are true give the same text, whatever
-- the order of their entries and whatever entries are false.
pub value-canonical :
    (s t : Map Bool)
    → distinct (Map.keys s) ≡ true
    → distinct (Map.keys t) ≡ true
    → ((e : Str) → has e s ≡ has e t)
    → value s ≡ value t
unfolding value present
value-canonical s t d e same = ap join (
    sort-canonical (present s) (present t) (distinct-keep (λ k. has k s) (Map.keys s) d)
      (distinct-keep (λ k. has k t) (Map.keys t) e)
      (λ k. contains-present k s ∙ same k ∙ sym (contains-present k t)))

all-onto_first :
    (c : ℕ) (l : List Str)
    → (c == b',') ≡ false
    → all comma_free l ≡ true
    → all comma_free (onto_first c l) ≡ true
unfolding all comma_free onto_first
all-onto_first c [] n h = ground arith
all-onto_first c (p ∷ l) n h = ground arith

all-comma_free_step :
    (c : ℕ) (l : List Str)
    → all comma_free l ≡ true
    → all comma_free (if c == b',' then [] ∷ l else onto_first c l) ≡ true
all-comma_free_step c l h = elim (Bool-cases (c == b',')) [
  | inl comma ↦ rw comma (unfold all comma_free in h)
  | inr other ↦ rw other (all-onto_first c l other h)
]

split_commas-comma_free : (v : Str) → all comma_free (split_commas v) ≡ true
unfolding split_commas
split_commas-comma_free [] = unfold all comma_free in refl
split_commas-comma_free (c ∷ v) = all-comma_free_step c (split_commas v) (split_commas-comma_free v)

split-comma_free : (v : Str) → all comma_free (split v) ≡ true
unfolding split
split-comma_free [] = unfold all in refl
split-comma_free (c ∷ v) = split_commas-comma_free (c ∷ v)

-- No text gives a set with a member that has a comma in it.
pub from-comma : (e v : Str) → comma_free e ≡ false → has e (from v) ≡ false
unfolding from
from-comma e v h =
    ground (
      arith,
      has-mark_empty e (split v),
      contains_of_all comma_free e (split v) (split-comma_free v),
    )
