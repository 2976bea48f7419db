-- ===== src/Prelude/Sort.antt =====
-- sort.Strings: the names in the order of their bytes.
use mathlib.Core.Path.{◌≡◌, refl, sym, ◌∙◌}
use mathlib.Core.Bool.{Bool, true, false, ◌&&◌, ◌||◌}
use mathlib.Core.List.{List, [], ◌∷◌}
use native.Mathlib.Omega.{arith}
use forge_sync.Prelude.Tests.{◌==◌, ltb, if◌then◌else◌}
use forge_sync.Prelude.Bytes.{Str, str_eq, str_eq_iff, str_eq_refl}
use forge_sync.Prelude.Lists.{contains, distinct, all, contains_of_all}

-- a <= b, byte by byte.
unfoldable pub str_le : Str → Str → Bool
str_le [] t = true
str_le (a ∷ s) [] = false
str_le (a ∷ s) (b ∷ t) = ltb a b || (a == b && str_le s t)

unfoldable pub sorted_insert : Str → List Str → List Str
sorted_insert x [] = x ∷ []
sorted_insert x (y ∷ l) = if str_le x y then x ∷ y ∷ l else y ∷ sorted_insert x l

unfoldable pub sort : List Str → List Str
unfolding sorted_insert str_le
sort [] = []
sort (x ∷ l) = sorted_insert x (sort l)

contains-sorted_insert :
    (k x : Str) (l : List Str) → contains k (sorted_insert x l) ≡ (str_eq x k || contains k l)
unfolding sorted_insert contains
contains-sorted_insert k x [] = refl
contains-sorted_insert k x (y ∷ l) = ground (arith, contains-sorted_insert k x l)

pub contains-sort : (k : Str) (l : List Str) → contains k (sort l) ≡ contains k l
unfolding sort contains
contains-sort k [] = refl
contains-sort k (x ∷ l) = ground (arith, contains-sorted_insert k x (sort l), contains-sort k l)

distinct-sorted_insert :
    (x : Str) (l : List Str)
    → contains x l ≡ false
    → distinct l ≡ true
    → distinct (sorted_insert x l) ≡ true
unfolding sorted_insert contains distinct
distinct-sorted_insert x [] new d = refl
distinct-sorted_insert x (y ∷ l) new d = ground (
  arith,
  distinct-sorted_insert x l,
  contains-sorted_insert y x l,
  str_eq_iff x y,
  str_eq_iff y x,
)

pub distinct-sort : (l : List Str) → distinct l ≡ true → distinct (sort l) ≡ true
unfolding sort distinct
distinct-sort [] d = refl
distinct-sort (x ∷ l) d =
    distinct-sorted_insert x (sort l) (ground (arith, contains-sort x l))
      (distinct-sort l (ground arith))

str_le_total : (s t : Str) → (str_le s t || str_le t s) ≡ true
unfolding str_le
str_le_total [] t = refl
str_le_total (a ∷ s) [] = refl
str_le_total (a ∷ s) (b ∷ t) = ground (arith, str_le_total s t)

str_le_trans : (s t u : Str) → str_le s t ≡ true → str_le t u ≡ true → str_le s u ≡ true
unfolding str_le
str_le_trans [] t u h k = refl
str_le_trans (a ∷ s) [] u h k = cc
str_le_trans (a ∷ s) (b ∷ t) [] h k = cc
str_le_trans (a ∷ s) (b ∷ t) (c ∷ u) h k = ground (arith, str_le_trans s t u)

str_le_antisym : (s t : Str) → str_le s t ≡ true → str_le t s ≡ true → s ≡ t
unfolding str_le
str_le_antisym [] [] h k = refl
str_le_antisym [] (b ∷ t) h k = cc
str_le_antisym (a ∷ s) [] h k = cc
str_le_antisym (a ∷ s) (b ∷ t) h k = ground (arith, str_le_antisym s t)

-- Every name is at most those behind it.
unfoldable pub is_sorted : List Str → Bool
unfolding all
is_sorted [] = true
is_sorted (x ∷ l) = all (str_le x) l && is_sorted l

all-sorted_insert :
    (x y : Str) (l : List Str)
    → str_le x y ≡ true
    → all (str_le x) l ≡ true
    → all (str_le x) (sorted_insert y l) ≡ true
unfolding all sorted_insert
all-sorted_insert x y [] h a = ground arith
all-sorted_insert x y (z ∷ l) h a = ground (arith, all-sorted_insert x y l)

all_le_trans :
    (x y : Str) (l : List Str)
    → str_le x y ≡ true
    → all (str_le y) l ≡ true
    → all (str_le x) l ≡ true
unfolding all
all_le_trans x y [] h a = refl
all_le_trans x y (z ∷ l) h a = ground (arith, all_le_trans x y l, str_le_trans x y z)

sorted_insert-is_sorted :
    (x : Str) (l : List Str) → is_sorted l ≡ true → is_sorted (sorted_insert x l) ≡ true
unfolding is_sorted sorted_insert
sorted_insert-is_sorted x [] h = refl
sorted_insert-is_sorted x (y ∷ l) h = ground (
  arith,
  sorted_insert-is_sorted x l,
  str_le_total x y,
  all_le_trans x y l,
  all-sorted_insert y x l,
)

pub sort-is_sorted : (l : List Str) → is_sorted (sort l) ≡ true
unfolding sort is_sorted
sort-is_sorted [] = refl
sort-is_sorted (x ∷ l) = sorted_insert-is_sorted x (sort l) (sort-is_sorted l)

-- The first name of one list is the first of the other.
first_le :
    (x y : Str) (r : List Str)
    → is_sorted (y ∷ r) ≡ true
    → contains x (y ∷ r) ≡ true
    → str_le y x ≡ true
unfolding is_sorted contains
first_le x y r s h =
    ground (arith, contains_of_all (str_le y) x r, str_eq_iff y x, str_le_total y y)

-- Two sorted lists without repetition that hold the same names are equal.
pub sorted_unique :
    (l r : List Str)
    → is_sorted l ≡ true
    → is_sorted r ≡ true
    → distinct l ≡ true
    → distinct r ≡ true
    → ((k : Str) → contains k l ≡ contains k r)
    → l ≡ r
unfolding is_sorted contains distinct
sorted_unique [] [] _ _ _ _ same = refl
sorted_unique [] (y ∷ r) _ _ _ _ same = ground (arith, same y, str_eq_refl y)
sorted_unique (x ∷ l) [] _ _ _ _ same = ground (arith, same x, str_eq_refl x)
sorted_unique (x ∷ l) (y ∷ r) a b c d same =
    let first : x ≡ y =
      str_le_antisym x y (first_le y x l a (ground (arith, same y, str_eq_refl y)))
        (first_le x y r b (ground (arith, same x, str_eq_refl x))) in
    let rest : l ≡ r =
      sorted_unique l r (ground arith) (ground arith) (ground arith) (ground arith)
        (λ k. ground (arith, same k, str_eq_iff x k, str_eq_iff y k)) in
    ground arith

-- Lists of different order sort alike.
pub sort-canonical :
    (l r : List Str)
    → distinct l ≡ true
    → distinct r ≡ true
    → ((k : Str) → contains k l ≡ contains k r)
    → sort l ≡ sort r
sort-canonical l r d e same =
    sorted_unique (sort l) (sort r) (sort-is_sorted l) (sort-is_sorted r) (distinct-sort l d)
      (distinct-sort r e) (λ k. contains-sort k l ∙ same k ∙ sym (contains-sort k r))

-- Sorted by a key.
module _ {A : Type 0} (key : A → Str) where
  unfoldable pub insert_by : A → List A → List A
  insert_by a [] = a ∷ []
  insert_by a (b ∷ l) = if str_le (key a) (key b) then a ∷ b ∷ l else b ∷ insert_by a l

  unfoldable pub sort_by : List A → List A
  sort_by [] = []
  sort_by (a ∷ l) = insert_by a (sort_by l)
