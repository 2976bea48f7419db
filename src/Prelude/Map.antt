-- ===== src/Prelude/Map.antt =====
-- Go maps with string keys, as association lists. A key that stands twice is read at its first
-- place; `distinct (keys m)` holds of every map that the code builds. Go's order of iteration is
-- not determined, so statements are about every order of the entries.
use mathlib.Core.Path.{◌≡◌, refl}
use mathlib.Core.Bool.{Bool, true, ◌||◌, false}
use mathlib.Core.Option.{Option, none, some}
use mathlib.Core.List.{List, [], ◌∷◌}
use native.Mathlib.Omega.{arith}
use forge_sync.Prelude.Tests.{if◌then◌else◌, is_some, or_default}
use forge_sync.Prelude.Bytes.{Str, str_eq, str_eq_iff, str_eq_refl}
use forge_sync.Prelude.Lists.{contains, distinct}

abbrev pub Map {ℓ} : Type ℓ → Type ℓ
Map V = List (Str × V)

module _ {ℓ} {V : Type ℓ} where
  -- v, ok := m[k]
  unfoldable pub lookup : Str → Map V → Option V
  lookup k [] = none
  lookup k ((j, v) ∷ m) = if str_eq j k then some v else lookup k m

  -- m[k] = v
  unfoldable pub insert : Str → V → Map V → Map V
  insert k v [] = (k, v) ∷ []
  insert k v ((j, w) ∷ m) = if str_eq j k then (k, v) ∷ m else (j, w) ∷ insert k v m

  -- delete(m, k)
  unfoldable pub delete : Str → Map V → Map V
  delete k [] = []
  delete k ((j, w) ∷ m) = let rest = delete k m in if str_eq j k then rest else (j, w) ∷ rest

  unfoldable pub keys : Map V → List Str
  keys [] = []
  keys ((j, w) ∷ m) = j ∷ keys m

  pub lookup-insert :
      (k j : Str) (v : V) (m : Map V)
      → lookup j (insert k v m) ≡ (if str_eq k j then some v else lookup j m)
  unfolding lookup insert
  lookup-insert k j v [] = refl
  lookup-insert k j v ((i, w) ∷ m) =
      ground (arith, str_eq_iff k j, str_eq_iff i k, str_eq_iff i j, lookup-insert k j v m)

  pub lookup-insert_self : (k : Str) (v : V) (m : Map V) → lookup k (insert k v m) ≡ some v
  lookup-insert_self k v m = simp (lookup-insert, str_eq_refl)

  pub lookup-delete :
      (k j : Str) (m : Map V) → lookup j (delete k m) ≡ (if str_eq k j then none else lookup j m)
  unfolding lookup delete
  lookup-delete k j [] = ground arith
  lookup-delete k j ((i, w) ∷ m) =
      ground (arith, str_eq_iff k j, str_eq_iff i k, str_eq_iff i j, lookup-delete k j m)

  -- The keys are the names at which there is a value.
  pub contains-keys : (k : Str) (m : Map V) → contains k (keys m) ≡ is_some (lookup k m)
  unfolding contains keys lookup
  contains-keys k [] = refl
  contains-keys k ((j, w) ∷ m) = ground (arith, contains-keys k m)

  pub contains-keys-insert :
      (k j : Str) (v : V) (m : Map V)
      → contains j (keys (insert k v m)) ≡ (str_eq k j || contains j (keys m))
  unfolding keys insert contains
  contains-keys-insert k j v [] = refl
  contains-keys-insert k j v ((i, w) ∷ m) =
      ground (arith, contains-keys-insert k j v m, str_eq_iff i k, str_eq_iff i j, str_eq_iff k j)

  -- Writing to a map leaves every key at one place.
  pub distinct-keys-insert :
      (k : Str) (v : V) (m : Map V)
      → distinct (keys m) ≡ true
      → distinct (keys (insert k v m)) ≡ true
  unfolding keys insert distinct contains
  distinct-keys-insert k v [] d = refl
  distinct-keys-insert k v ((i, w) ∷ m) d = ground (
    arith,
    distinct-keys-insert k v m,
    contains-keys-insert k i v m,
    str_eq_iff i k,
    str_eq_iff k i,
  )

-- m[k] of a map[string]bool: false where there is no entry.
unfoldable pub has : Str → Map Bool → Bool
unfolding lookup
has k m = or_default false (lookup k m)
