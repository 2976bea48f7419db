-- ===== src/Prelude/Lists.antt =====
-- Lists measured by native numbers, lists of names, and Boolean quantifiers over lists.
use Prim.Native.Nat.{ℕ, suc, ◌+◌}
use mathlib.Core.Path.{◌≡◌, refl}
use mathlib.Core.Bool.{Bool, true, false, ◌&&◌, ◌||◌, not}
use mathlib.Core.List.{List, [], ◌∷◌, ◌++◌}
use native.Mathlib.Omega.{arith}
use forge_sync.Prelude.Tests.{if◌then◌else◌}
use forge_sync.Prelude.Bytes.{Str, str_eq, str_eq_iff, str_eq_refl}

module _ {ℓ} {A : Type ℓ} where
  abbrev pub length : List A → ℕ
  length [] = 0
  length (x ∷ xs) = suc (length xs)

  pub length-append : (xs ys : List A) → length (xs ++ ys) ≡ length xs + length ys
  length-append [] ys = omega arith
  length-append (x ∷ xs) ys = omega (arith, length-append xs ys)

  -- Some element passes the test.
  unfoldable pub any : (A → Bool) → List A → Bool
  any p [] = false
  any p (x ∷ xs) = p x || any p xs

  -- Every element passes the test.
  unfoldable pub all : (A → Bool) → List A → Bool
  all p [] = true
  all p (x ∷ xs) = p x && all p xs

  pub all-append : (p : A → Bool) (xs ys : List A) → all p (xs ++ ys) ≡ (all p xs && all p ys)
  unfolding all
  all-append p [] ys = refl
  all-append p (x ∷ xs) ys = ground (arith, all-append p xs ys)

  -- The elements that pass the test.
  unfoldable pub keep : (A → Bool) → List A → List A
  keep p [] = []
  keep p (x ∷ xs) = let rest = keep p xs in if p x then x ∷ rest else rest

  abbrev pub All {κ} : (A → Type κ) → List A → Type κ
  All P [] = Unit
  All P (x ∷ xs) = P x × All P xs

-- A name stands in a list of names.
unfoldable pub contains : Str → List Str → Bool
contains k [] = false
contains k (j ∷ l) = str_eq j k || contains k l

pub contains-append :
    (k : Str) (l r : List Str) → contains k (l ++ r) ≡ (contains k l || contains k r)
unfolding contains
contains-append k [] r = refl
contains-append k (j ∷ l) r = ground (arith, contains-append k l r)

-- No name stands twice.
unfoldable pub distinct : List Str → Bool
distinct [] = true
distinct (j ∷ l) = not (contains j l) && distinct l

pub contains-keep :
    (p : Str → Bool) (k : Str) (l : List Str) → contains k (keep p l) ≡ (contains k l && p k)
unfolding contains keep
contains-keep p k [] = refl
contains-keep p k (j ∷ l) = ground (arith, contains-keep p k l, str_eq_iff j k)

pub distinct-keep : (p : Str → Bool) (l : List Str) → distinct l ≡ true → distinct (keep p l) ≡ true
unfolding distinct keep
distinct-keep p [] h = refl
distinct-keep p (j ∷ l) h = ground (arith, distinct-keep p l, contains-keep p j l)

-- What holds of every name in the list.
pub all_of_contains :
    (p : Str → Bool) (l : List Str)
    → ((k : Str) → contains k l ≡ true → p k ≡ true)
    → all p l ≡ true
unfolding all contains
all_of_contains p [] h = refl
all_of_contains p (j ∷ l) h =
    let head : p j ≡ true = h j (ground (arith, str_eq_refl j)) in
    let rest : all p l ≡ true = all_of_contains p l (λ k m. h k (ground arith)) in ground arith

pub contains_of_all :
    (p : Str → Bool) (k : Str) (l : List Str) → all p l ≡ true → contains k l ≡ true → p k ≡ true
unfolding all contains
contains_of_all p k [] a h = cc
contains_of_all p k (j ∷ l) a h = ground (arith, contains_of_all p k l, str_eq_iff j k)
