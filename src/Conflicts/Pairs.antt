-- ===== src/Conflicts/Pairs.antt =====
-- internal/conflicts/detector.go: what comparing pairs of copies gives.
use forge_sync.Records.{RepositoryRecord}
use forge_sync.Prelude.{
  leb, str_eq_refl, str_eq_iff, ltb, length, if◌then◌else◌, inr, inl, Bool-cases, str_eq, any, Str,
  all, ℕ, ◌≡◌, refl, arith, Bool, true, false, ◌&&◌, ◌||◌, not, List, [], ◌∷◌, Option, none, some,
}
use forge_sync.Conflicts.{
  has_commits, has_commits_not_in, relation_of, RepositoryRecord, check_sides, check_pairs,
  diverged, branch_mismatch, all_same, ltb, length, all_equal, FoundConflict, ConflictKind,
  Compared, relation_between, compare_pairs, compare_with, compared, str_eq, is_diverged, Str,
  Relation, Side,
}

-- The relation says that the heads have each commits that the other lacks.
unfoldable pub says_diverged : Option Relation → Bool
says_diverged none = false
says_diverged (some rel) = is_diverged rel

-- The relation says that one head contains the other.
unfoldable pub says_behind : Option Relation → Bool
says_behind none = false
says_behind (some rel) = not (is_diverged rel)

-- The node answers that the other head has commits which its own lacks, or that it has not got it.
unfoldable pub says_more : Option (ℕ × Bool) → Bool
says_more none = false
says_more (some (n, found)) = not found || ltb 0 n

-- The node has both heads, and answers that the other one has no commit which its own lacks.
unfoldable pub says_no_more : Option (ℕ × Bool) → Bool
says_no_more none = false
says_no_more (some (n, found)) = found && leb n 0

relation_of-says :
    (x y : Option (ℕ × Bool))
    → (says_diverged (relation_of (has_commits x) (has_commits y)) ≡ (says_more y && says_more x))
      × (says_behind (relation_of (has_commits x) (has_commits y))
          ≡ ((says_no_more y && says_more x) || (says_no_more x && says_more y)))
unfolding relation_of has_commits says_diverged says_behind says_more says_no_more is_diverged
relation_of-says none y = ground arith
relation_of-says (some (n, found)) none = ground arith
relation_of-says (some (n, found)) (some (k, there)) = ground arith

relation_of-unasked :
    (y : Option Bool)
    → (says_diverged (relation_of none y) ≡ false) × (says_behind (relation_of none y) ≡ false)
unfolding relation_of says_diverged says_behind
relation_of-unasked y = (refl, refl)

relation_of-unanswered :
    (x : Option Bool)
    → (says_diverged (relation_of x none) ≡ false) × (says_behind (relation_of x none) ≡ false)
unfolding relation_of says_diverged says_behind
relation_of-unanswered none = (refl, refl)
relation_of-unanswered (some true) = (refl, refl)
relation_of-unanswered (some false) = (refl, refl)

-- A test of all pairs.
unfoldable pub all_pairs : (Side → Side → Bool) → List Side → Bool
all_pairs p [] = true
all_pairs p (a ∷ sides) = all (p a) sides && all_pairs p sides

module _ (clients : Str → Bool) (commits_ahead : Str → Str → Str → Str → Option (ℕ × Bool)) where
  -- What the first side's node answers of the commits that the second head has and the first lacks.
  abbrev pub ahead : Str → Side → Side → Option (ℕ × Bool)
  ahead repo a b = commits_ahead a.node repo a.head b.head

  -- The heads differ, and both nodes answer that the other head has commits which their own lacks.
  unfoldable pub diverges : Str → Side → Side → Bool
  diverges repo a b =
      not (str_eq a.head b.head)
      && (clients a.node && clients b.node)
      && says_more (ahead repo a b)
      && says_more (ahead repo b a)

  -- One side's node answers that the other head has no commit which its own lacks, and the other
  -- one's node answers that this head has some.
  unfoldable pub contains_other : Str → Side → Side → Bool
  contains_other repo a b = says_no_more (ahead repo a b) && says_more (ahead repo b a)

  -- The heads are the same, or one contains the other by what both nodes answer.
  unfoldable pub in_line : Str → Side → Side → Bool
  in_line repo a b =
      str_eq a.head b.head
      || ((clients a.node && clients b.node)
          && (contains_other repo a b || contains_other repo b a))

  relation_between-says :
      (repo : Str) (a b : Side)
      → (says_diverged (relation_between clients commits_ahead repo a b) ≡ (
          (clients a.node && clients b.node)
          && says_more (ahead repo a b)
          && says_more (ahead repo b a)))
        × (says_behind (relation_between clients commits_ahead repo a b) ≡ (
            (clients a.node && clients b.node)
            && (contains_other repo a b || contains_other repo b a)))
  unfolding relation_between has_commits_not_in contains_other
  relation_between-says repo a b = elim (Bool-cases (clients a.node)) [
    | inl x ↦ elim (Bool-cases (clients b.node)) [
      | inl y ↦ rw (x, y) (relation_of-says (ahead repo b a) (ahead repo a b))
      | inr y ↦ rw (x, y) (relation_of-unasked (has_commits (ahead repo a b)))
    ]
    | inr x ↦ rw x (
        relation_of-unanswered (has_commits_not_in clients commits_ahead b.node repo b.head a.head))
  ]

  unfoldable pub any_diverging : Str → List Side → Bool
  any_diverging repo [] = false
  any_diverging repo (a ∷ sides) = any (diverges repo a) sides || any_diverging repo sides

  compared-diverged :
      (a b : Side) (o : Option Relation) (c : Compared)
      → (compared a b o c).diverged ≡ (says_diverged o || c.diverged)
  unfolding compared says_diverged
  compared-diverged a b none c = refl
  compared-diverged a b (some rel) c = refl

  compare_with-diverged :
      (repo : Str) (a : Side) (sides : List Side) (c : Compared)
      → (compare_with clients commits_ahead repo a sides c).diverged
        ≡ (any (diverges repo a) sides || c.diverged)
  unfolding compare_with diverges any
  compare_with-diverged repo a [] c = refl
  compare_with-diverged repo a (b ∷ sides) c = elim (Bool-cases (str_eq a.head b.head)) [
    | inl e ↦ rw e ground (arith, compare_with-diverged repo a sides c)
    | inr e ↦ rw e ground (
      arith,
      relation_between-says repo a b,
      compare_with-diverged repo a sides
          (compared a b (relation_between clients commits_ahead repo a b) c),
      compared-diverged a b (relation_between clients commits_ahead repo a b) c,
    )
  ]

  compare_pairs-diverged :
      (repo : Str) (sides : List Side) (c : Compared)
      → (compare_pairs clients commits_ahead repo sides c).diverged
        ≡ (any_diverging repo sides || c.diverged)
  unfolding compare_pairs any_diverging
  compare_pairs-diverged repo [] c = refl
  compare_pairs-diverged repo (a ∷ sides) c = ground (
    arith,
    compare_pairs-diverged repo sides (compare_with clients commits_ahead repo a sides c),
    compare_with-diverged repo a sides c,
  )

  compared-conclusive :
      (a b : Side) (o : Option Relation) (c : Compared)
      → (compared a b o c).conclusive ≡ true
      → ((says_behind o || says_diverged o) ≡ true) × (c.conclusive ≡ true)
  unfolding compared says_diverged says_behind
  compared-conclusive a b none c h = cc
  compared-conclusive a b (some rel) c h = ground (arith)

  compare_with-in_line :
      (repo : Str) (a : Side) (sides : List Side) (c : Compared)
      → (compare_with clients commits_ahead repo a sides c).conclusive ≡ true
      → any (diverges repo a) sides ≡ false
      → (all (in_line repo a) sides ≡ true) × (c.conclusive ≡ true)
  unfolding compare_with diverges in_line any all
  compare_with-in_line repo a [] c h d = (refl, h)
  compare_with-in_line repo a (b ∷ sides) c h d = elim (Bool-cases (str_eq a.head b.head)) [
    | inl e ↦ ground (arith, compare_with-in_line repo a sides c)
    | inr e ↦ ground (
      arith,
      relation_between-says repo a b,
      compare_with-in_line repo a sides
          (compared a b (relation_between clients commits_ahead repo a b) c),
      compared-conclusive a b (relation_between clients commits_ahead repo a b) c,
    )
  ]

  compare_pairs-in_line :
      (repo : Str) (sides : List Side) (c : Compared)
      → (compare_pairs clients commits_ahead repo sides c).conclusive ≡ true
      → any_diverging repo sides ≡ false
      → (all_pairs (in_line repo) sides ≡ true) × (c.conclusive ≡ true)
  unfolding compare_pairs any_diverging all_pairs
  compare_pairs-in_line repo [] c h d = (refl, h)
  compare_pairs-in_line repo (a ∷ sides) c h d = ground (
    arith,
    compare_pairs-in_line repo sides (compare_with clients commits_ahead repo a sides c),
    compare_with-in_line repo a sides c,
  )

-- The kinds of conflict that there are to report between sides.
unfoldable pub verdict : List Side → Bool → List ConflictKind
verdict sides diverging =
    if ltb (length sides) 2
    then []
    else if not (all_same (λ s. s.branch) sides)
    then branch_mismatch ∷ []
    else if diverging
    then diverged ∷ []
    else []

unfoldable pub kinds : List FoundConflict → List ConflictKind
kinds [] = []
kinds (c ∷ found) = c.kind ∷ kinds found

module _ (clients : Str → Bool) (commits_ahead : Str → Str → Str → Str → Option (ℕ × Bool)) where
  equal_head-in_line :
      (repo : Str) (a : Side) (sides : List Side) (k : Str)
      → str_eq a.head k ≡ true
      → all_equal (λ s. s.head) k sides ≡ true
      → (any (diverges clients commits_ahead repo a) sides ≡ false)
        × (all (in_line clients commits_ahead repo a) sides ≡ true)
  unfolding any all all_equal diverges in_line
  equal_head-in_line repo a [] k e h = (refl, refl)
  equal_head-in_line repo a (b ∷ sides) k e h = ground (
    arith,
    str_eq_iff a.head k,
    str_eq_iff b.head k,
    str_eq_iff a.head b.head,
    equal_head-in_line repo a sides k e,
  )

  equal_heads-in_line :
      (repo : Str) (sides : List Side) (k : Str)
      → all_equal (λ s. s.head) k sides ≡ true
      → (any_diverging clients commits_ahead repo sides ≡ false)
        × (all_pairs (in_line clients commits_ahead repo) sides ≡ true)
  unfolding any_diverging all_pairs all_equal
  equal_heads-in_line repo [] k h = (refl, refl)
  equal_heads-in_line repo (a ∷ sides) k h =
      ground (arith, equal_head-in_line repo a sides k, equal_heads-in_line repo sides k)

  same_heads-in_line :
      (repo : Str) (sides : List Side)
      → all_same (λ s. s.head) sides ≡ true
      → (any_diverging clients commits_ahead repo sides ≡ false)
        × (all_pairs (in_line clients commits_ahead repo) sides ≡ true)
  unfolding all_same any_diverging all_pairs
  same_heads-in_line repo [] h = (refl, refl)
  same_heads-in_line repo (a ∷ sides) h = ground (
    arith,
    equal_head-in_line repo a sides a.head (str_eq_refl a.head) h,
    equal_heads-in_line repo sides a.head h,
  )

  check_pairs-kinds :
      (rec : RepositoryRecord) (branch : Str) (sides : List Side) (c : Compared)
      → kinds ((check_pairs clients commits_ahead rec branch sides c).0)
        ≡ (if c.diverged then diverged ∷ [] else [])
  unfolding kinds check_pairs
  check_pairs-kinds rec branch sides c = ground (arith)

  pub check_sides-kinds :
      (rec : RepositoryRecord) (sides : List Side) (conclusive : Bool)
      → kinds ((check_sides clients commits_ahead rec sides conclusive).0)
        ≡ verdict sides (any_diverging clients commits_ahead rec.full_name sides)
  unfolding kinds check_sides verdict
  check_sides-kinds rec [] conclusive = refl
  check_sides-kinds rec (s ∷ []) conclusive = refl
  check_sides-kinds rec (s ∷ t ∷ sides) conclusive =
      let start : Compared = record { relations = []; diverged = false; conclusive = conclusive } in
      ground (
        arith,
        same_heads-in_line rec.full_name (s ∷ t ∷ sides),
        check_pairs-kinds rec s.branch (s ∷ t ∷ sides)
            (compare_pairs clients commits_ahead rec.full_name (s ∷ t ∷ sides) start),
        compare_pairs-diverged clients commits_ahead rec.full_name (s ∷ t ∷ sides) start,
      )

  check_pairs-in_line :
      (rec : RepositoryRecord) (branch : Str) (sides : List Side) (c : Compared)
      → check_pairs clients commits_ahead rec branch sides c ≡ ([], true)
      → (c.diverged ≡ false) × (c.conclusive ≡ true)
  unfolding check_pairs
  check_pairs-in_line rec branch sides c h = ground (arith)

  pub check_sides-in_line :
      (rec : RepositoryRecord) (sides : List Side) (conclusive : Bool)
      → check_sides clients commits_ahead rec sides conclusive ≡ ([], true)
      → (conclusive ≡ true)
        × (all_same (λ s. s.branch) sides ≡ true)
        × (all_pairs (in_line clients commits_ahead rec.full_name) sides ≡ true)
  unfolding check_sides all_same all_equal all_pairs all
  check_sides-in_line rec [] conclusive h = ground (arith)
  check_sides-in_line rec (s ∷ []) conclusive h = ground (arith)
  check_sides-in_line rec (s ∷ t ∷ sides) conclusive h =
      let start : Compared = record { relations = []; diverged = false; conclusive = conclusive } in
      ground (
        arith,
        same_heads-in_line rec.full_name (s ∷ t ∷ sides),
        check_pairs-in_line rec s.branch (s ∷ t ∷ sides)
            (compare_pairs clients commits_ahead rec.full_name (s ∷ t ∷ sides) start),
        compare_pairs-diverged clients commits_ahead rec.full_name (s ∷ t ∷ sides) start,
        compare_pairs-in_line clients commits_ahead rec.full_name (s ∷ t ∷ sides) start,
      )
