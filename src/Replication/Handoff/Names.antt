-- ===== src/Replication/Handoff/Names.antt =====
-- internal/replication/handoff.go, openHandoff: the search for a branch name that is free.
use forge_sync.Prelude.{
  ap, inr, ◌∙◌, str_eq_refl, refl, inl, sym, str_eq_iff, zero, Option-cases, ◌≤◌, arith,
  if◌then◌else◌, format_int, or_default, some, ◌<◌, false, true, [], suc, none, ◌∷◌, not, ◌≢◌, ◌≡◌,
  ◌++◌, List, Option, ℕ, Bool, length, str_eq, distinct, contains, Str,
}
use forge_sync.Prelude.Map
use forge_sync.Prelude.Text.{digits_of-format_int, digits_of}
use forge_sync.Replication.Plan.{Refs}

-- handoffRefs[full] != "".
unfoldable pub is_taken : Refs → Str → Bool
is_taken refs full = not (str_eq (or_default [] (Map.lookup full refs)) [])

unfoldable pub numbered : Str → ℕ → Str
numbered base n = base ++ b'-' ∷ format_int n

-- The loop, on fuel: the name to be tried, and the number of the one after it.
unfoldable pub search_name : Refs → Str → ℕ → ℕ → Str → Option Str
search_name refs base zero n full = none
search_name refs base (suc k) n full =
    let rest = search_name refs base k (suc n) (numbered base n) in
    if is_taken refs full then rest else some full

-- The first name that is free: one turn more than there are names suffices.
unfoldable pub free_name : Refs → Str → Option Str
free_name refs base = search_name refs base (suc (length refs)) 2 base

-- The names with numbers, so many from a number on.
numbers : Str → ℕ → ℕ → List Str
numbers base zero n = []
numbers base (suc k) n = numbered base n ∷ numbers base k (suc n)

-- No more different names than there are in a list that has them all.
without : Str → List Str → List Str
without k [] = []
without k (j ∷ l) = if str_eq j k then l else j ∷ without k l

length-without :
    (k : Str) (l : List Str) → contains k l ≡ true → length l ≡ suc (length (without k l))
unfolding without contains
length-without k [] h = cc
length-without k (j ∷ l) h = ground (arith, length-without k l)

contains-without :
    (k j : Str) (l : List Str)
    → str_eq k j ≡ false
    → contains j l ≡ true
    → contains j (without k l) ≡ true
unfolding without contains
contains-without k j [] d h = cc
contains-without k j (i ∷ l) d h =
    ground (arith, contains-without k j l, str_eq_iff i k, str_eq_iff i j, str_eq_iff k j)

length_of_distinct :
    (ks l : List Str)
    → distinct ks ≡ true
    → ((j : Str) → contains j ks ≡ true → contains j l ≡ true)
    → length ks ≤ length l
unfolding distinct contains
length_of_distinct [] l d h = omega arith
length_of_distinct (k ∷ ks) l d h =
    let here : contains k l ≡ true = h k (ground (arith, str_eq_refl k)) in
    let rest : length ks ≤ length (without k l) =
      length_of_distinct ks (without k l) (ground arith)
        (λ j c. contains-without k j l (other j c) (h j (ground arith))) in
    omega (arith, length-without k l here, rest)
  where
    other : (j : Str) → contains j ks ≡ true → str_eq k j ≡ false
    other j c = ground (arith, str_eq_iff k j)

str_eq-append : (b s t : Str) → str_eq (b ++ s) (b ++ t) ≡ str_eq s t
unfolding str_eq
str_eq-append [] s t = refl
str_eq-append (c ∷ b) s t = ground (arith, str_eq-append b s t)

str_eq-longer : (b t : Str) (c : ℕ) → str_eq (b ++ c ∷ t) b ≡ false
unfolding str_eq
str_eq-longer [] t c = refl
str_eq-longer (d ∷ b) t c = ground (arith, str_eq-longer b t c)

-- Different numbers give different names.
numbered-injective :
    (base : Str) (m n : ℕ) → str_eq (numbered base m) (numbered base n) ≡ true → m ≡ n
unfolding numbered
numbered-injective base m n h =
    let tails : str_eq (b'-' ∷ format_int m) (b'-' ∷ format_int n) ≡ true =
      sym (str_eq-append base (b'-' ∷ format_int m) (b'-' ∷ format_int n)) ∙ h in
    let same : format_int m ≡ format_int n =
      (str_eq_iff (format_int m) (format_int n)).0 (unfold str_eq in ground (arith, tails)) in
    ap (or_default 0) (sym (digits_of-format_int m) ∙ ap digits_of same ∙ digits_of-format_int n)

contains-numbers_lower :
    (base : Str) (m k n : ℕ) → m < n → contains (numbered base m) (numbers base k n) ≡ false
unfolding contains numbers
contains-numbers_lower base m zero n h = refl
contains-numbers_lower base m (suc k) n h =
    ground (arith, contains-numbers_lower base m k (suc n), numbered-injective base n m)

distinct-numbers : (base : Str) (k n : ℕ) → distinct (numbers base k n) ≡ true
unfolding distinct numbers
distinct-numbers base zero n = refl
distinct-numbers base (suc k) n =
    ground (arith, distinct-numbers base k (suc n), contains-numbers_lower base n k (suc n))

contains-numbers_base : (base : Str) (k n : ℕ) → contains base (numbers base k n) ≡ false
unfolding contains numbers numbered
contains-numbers_base base zero n = refl
contains-numbers_base base (suc k) n =
    ground (arith, contains-numbers_base base k (suc n), str_eq-longer base (format_int n) b'-')

-- Where the search gives nothing, every name that it tried is taken.
search_name-none :
    (refs : Refs) (base : Str) (k n : ℕ) (full j : Str)
    → search_name refs base (suc k) n full ≡ none
    → contains j (full ∷ numbers base k n) ≡ true
    → is_taken refs j ≡ true
unfolding search_name contains numbers
search_name-none refs base zero n full j e c = ground (arith, str_eq_iff full j)
search_name-none refs base (suc k) n full j e c =
    ground (arith, str_eq_iff full j, search_name-none refs base k (suc n) (numbered base n) j)

search_name-some :
    (refs : Refs) (base : Str) (k n : ℕ) (full found : Str)
    → search_name refs base k n full ≡ some found
    → is_taken refs found ≡ false
unfolding search_name
search_name-some refs base zero n full found e = cc
search_name-some refs base (suc k) n full found e =
    ground (arith, search_name-some refs base k (suc n) (numbered base n) found)

taken-contains :
    (refs : Refs) (j : Str) → is_taken refs j ≡ true → contains j (Map.keys refs) ≡ true
unfolding is_taken
taken-contains refs j h = ground (arith, Map.contains-keys j refs, str_eq_refl [])

length-keys : (refs : Refs) → length (Map.keys refs) ≡ length refs
unfolding Map.keys
length-keys [] = refl
length-keys ((k, v) ∷ refs) = ground (arith, length-keys refs)

length-numbers : (base : Str) (k n : ℕ) → length (numbers base k n) ≡ k
unfolding numbers
length-numbers base zero n = refl
length-numbers base (suc k) n = ground (arith, length-numbers base k (suc n))

free_name-some : (refs : Refs) (base : Str) → free_name refs base ≢ none
unfolding free_name
free_name-some refs base e =
    let all_taken : length (base ∷ numbers base (length refs) 2) ≤ length (Map.keys refs) =
      length_of_distinct (base ∷ numbers base (length refs) 2) (Map.keys refs)
        (unfold distinct in
          ground (
            arith,
            distinct-numbers base (length refs) 2,
            contains-numbers_base base (length refs) 2,
          ))
        (λ j c. taken-contains refs j (search_name-none refs base (length refs) 2 base j e c)) in
    omega (arith, all_taken, length-keys refs, length-numbers base (length refs) 2)

-- openHandoff's search for a branch name ends: among one more name than there are hand-off branches
-- it finds one, and that one is not taken.
pub free_name-total :
    (refs : Refs) (base : Str)
    → (full : Str) × (free_name refs base ≡ some full) × (is_taken refs full ≡ false)
unfolding free_name
free_name-total refs base = elim (Option-cases (free_name refs base)) [
  | inl e ↦ absurd (free_name-some refs base e)
  | inr (full, e) ↦ (full, e, search_name-some refs base (suc (length refs)) 2 base full e)
]
