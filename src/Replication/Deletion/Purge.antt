-- ===== src/Replication/Deletion/Purge.antt =====
-- internal/replication/deletion.go: which archives purgeArchives deletes, when it lets the
-- repository be forgotten, and for how long an archive is kept.
use forge_sync.Records.{RepositoryRecord}
use forge_sync.Prelude.{
  ◌⊎◌, none, leb, some, Option, refl, ℕ, str_eq_refl, arith, ◌+◌, not, false, All, ◌==◌, [], length,
  ◌∷◌, inr, inl, is_some, Bool-cases, ◌≡◌, Bool, true, ◌&&◌, any, List, Str, str_eq,
}
use forge_sync.Prelude.Effects.{
  >>=-eq-given, ◌>>=◌, give, Keeps-attempt, call, attempt, Keeps->>=, Answer, given, failed, Keeps,
  Keeps-give, Keeps-call, Keeps-tell, Keeps->>,
}
use forge_sync.Replication.Deletion.{
  is_over, is_archived, History, any_present, is_recent, purge_archives, RepositoryRecord,
  purge_from, is_purged, purge_each, purge_one, repo_asked, repo_renamed, repo_moved, repo_frozen,
  org_asked, org_created, archive_saved, archives_read, marked_deleted, replica_recorded,
  conflicts_synced, audited, replica_recorded, marked_deleted, archive_saved, org_created,
  org_asked, repo_frozen, repo_moved, repo_renamed, repo_asked, Archive, Event, repo_deleted,
  Answers, Run, is_due, purge_answered,
}

-- There is a time, and it has come.
unfoldable pub has_come : ℕ → Option ℕ → Bool
has_come now none = false
has_come now (some t) = leb t now

-- What an archive must be for its copy to be deleted.
unfoldable pub may_go : Run → Archive → Bool
may_go r a =
    has_come r.now a.delete_after
    && is_archived a.state
    && r.healthy a.node
    && r.has_api a.node
    && r.configured a.node

is_due-may_go : (r : Run) (a : Archive) → is_due r a ≡ true → may_go r a ≡ true
unfolding is_due may_go is_over has_come
is_due-may_go r a d = by_time a.delete_after refl
  where
    by_time : (o : Option ℕ) → a.delete_after ≡ o → may_go r a ≡ true
    by_time none e = ground (arith, d, e)
    by_time (some t) e = ground (arith, d, e)

-- An archive that stands for the deleted copy, and may go.
unfoldable pub allows : Run → Str → Str → Archive → Bool
allows r n name a = str_eq a.node n && str_eq a.archived_name name && may_go r a

-- A deletion is of a copy in the archive organization that one of the archives, due by then, stands
-- for.
abbrev pub Allowed : Run → List Archive → Event → Type 0
Allowed r archives (repo_deleted n owner name) =
    (owner ≡ r.archive_org) × (any (allows r n name) archives ≡ true)
Allowed r archives (repo_asked n owner name) = Unit
Allowed r archives (repo_renamed n owner name to) = Unit
Allowed r archives (repo_moved n owner name org) = Unit
Allowed r archives (repo_frozen n owner name) = Unit
Allowed r archives (org_asked n) = Unit
Allowed r archives (org_created n) = Unit
Allowed r archives (archive_saved a) = Unit
Allowed r archives archives_read = Unit
Allowed r archives (marked_deleted t) = Unit
Allowed r archives (replica_recorded n x) = Unit
Allowed r archives (conflicts_synced ids) = Unit
Allowed r archives (audited s) = Unit

module _ (answers : Answers) (r : Run) (whole : List Archive) where
  purge_answered-Keeps :
      (a : Archive) (o : Answer Bool) → Keeps (Allowed r whole) (purge_answered answers r a o)
  unfolding purge_answered
  purge_answered-Keeps a (failed e) = Keeps-give (Allowed r whole) 1
  purge_answered-Keeps a (given b) = search (Keeps-give, Keeps->>, Keeps-call, Keeps-tell, tt)

  purge_one-Keeps :
      (a : Archive)
      → (is_due r a ≡ true → any (allows r a.node a.archived_name) whole ≡ true)
      → Keeps (Allowed r whole) (purge_one answers r a)
  unfolding purge_one
  purge_one-Keeps a h = elim (Bool-cases (is_purged a.state)) [
    | inl e ↦ rw e (Keeps-give (Allowed r whole) 0)
    | inr e ↦ rw e (elim (Bool-cases (is_due r a)) [
      | inl d ↦ rw d (
          Keeps->>= (Allowed r whole)
            (attempt (
              call (answers.delete_repo a.node r.archive_org a.archived_name)
                (repo_deleted a.node r.archive_org a.archived_name)))
            (purge_answered answers r a) (search (Keeps-attempt, Keeps-call, h d))
            (purge_answered-Keeps a))
      | inr d ↦ rw d (Keeps-give (Allowed r whole) 1)
    ])
  ]

  -- The archives are among the whole list, as far as deletions go.
  purge_each-Keeps :
      (archives : List Archive)
      → ((n name : Str)
          → any (allows r n name) archives ≡ true
          → any (allows r n name) whole ≡ true)
      → Keeps (Allowed r whole) (purge_each answers r archives)
  unfolding purge_each any allows
  purge_each-Keeps [] h = Keeps-give (Allowed r whole) 0
  purge_each-Keeps (a ∷ archives) h =
      Keeps->>= (Allowed r whole) (purge_one answers r a)
        (λ one. purge_each answers r archives >>= λ others. give (one + others))
        (purge_one-Keeps a (λ d.
          h a.node a.archived_name
            (ground (arith, is_due-may_go r a d, str_eq_refl a.node, str_eq_refl a.archived_name))))
        (λ one.
          Keeps->>= (Allowed r whole) (purge_each answers r archives)
            (λ others. give (one + others))
            (purge_each-Keeps archives (λ n name k. h n name (ground arith)))
            (λ others. Keeps-give (Allowed r whole) (one + others)))

  purge_from-Keeps :
      (rec : RepositoryRecord) → Keeps (Allowed r whole) (purge_from answers r rec whole)
  unfolding purge_from
  purge_from-Keeps rec = elim (Bool-cases ((length whole == 0) && is_recent r rec.deleted_at)) [
    | inl e ↦ rw e (Keeps-give (Allowed r whole) false)
    | inr e ↦ rw e (
        Keeps->>= (Allowed r whole) (purge_each answers r whole)
          (λ left. give ((left == 0) && is_some rec.deleted_at && not (any_present rec.replicas)))
          (purge_each-Keeps whole (λ n name k. k))
          (λ left.
            Keeps-give (Allowed r whole)
              ((left == 0) && is_some rec.deleted_at && not (any_present rec.replicas))))
  ]

-- Nothing was called before the archives are read.
module _ (answers : Answers) (r : Run) (rec : RepositoryRecord) (archives : List Archive) where
  -- Where the store's list of archives is given, each deletion that purgeArchives asks for is of
  -- the archive organization's copy of an archive in that list, which is marked as archived, whose
  -- time is over, and whose node is configured, has a client and is healthy.
  pub purge_archives-Allowed :
      answers.read_archives [] ≡ given archives
      → All (Allowed r archives) ((purge_archives answers r rec []).1)
  unfolding purge_archives
  purge_archives-Allowed e =
      rw e ((purge_from-Keeps answers r archives rec).keeps (archives_read ∷ []) (tt, tt))

module _ (answers : Answers) (r : Run) where
  -- An archive was purged before; or it may go, and its node answered the deletion of its copy.
  abbrev pub IsGone : Archive → Type 0
  IsGone a =
      (is_purged a.state ≡ true)
      ⊎ ((may_go r a ≡ true)
          × (b : Bool) × (h : History) × (answers.delete_repo a.node r.archive_org a.archived_name h
              ≡ given b))

  purge_answered-given :
      (a : Archive) (o : Answer Bool) (n : ℕ) (h h2 : History)
      → purge_answered answers r a o h ≡ (given n, h2)
      → n ≡ 0
      → (b : Bool) × (o ≡ given b)
  unfolding purge_answered
  purge_answered-given a (given b) n h h2 e z = (b, refl)
  purge_answered-given a (failed x) n h h2 e z = absurd (kept e)
    where
      kept : ◌≡◌ {A = Answer ℕ × History} (given 1, h) (given n, h2) → ⊥
      kept k = ground (arith, k)

  purge_one-IsGone :
      (a : Archive) (n : ℕ) (h h2 : History)
      → purge_one answers r a h ≡ (given n, h2)
      → n ≡ 0
      → IsGone a
  unfolding purge_one
  purge_one-IsGone a n h h2 e z = elim (Bool-cases (is_purged a.state)) [
    | inl p ↦ inl p
    | inr p ↦ elim (Bool-cases (is_due r a)) [
      | inl d ↦
          (let (b, o) = purge_answered-given a _ n _ h2 (rw (p, d) at e) z in
            inr (is_due-may_go r a d, b, h, o))
      | inr d ↦ absurd (kept (rw (p, d) at e))
    ]
  ]
    where
      kept : ◌≡◌ {A = Answer ℕ × History} (given 1, h) (given n, h2) → ⊥
      kept k = ground (arith, k)

  purge_each-IsGone :
      (archives : List Archive) (n : ℕ) (h h2 : History)
      → purge_each answers r archives h ≡ (given n, h2)
      → n ≡ 0
      → All IsGone archives
  unfolding purge_each
  purge_each-IsGone [] n h h2 e z = tt
  purge_each-IsGone (a ∷ archives) n h h2 e z =
      let (one, h1, e1, k1) =
        >>=-eq-given (purge_one answers r a)
          (λ one. purge_each answers r archives >>= λ others. give (one + others)) n h h2 e in
      let (others, h3, e2, k2) =
        >>=-eq-given (purge_each answers r archives) (λ others. give (one + others)) n h1 h2 k1 in
      let sum : (one ≡ 0) × (others ≡ 0) = ground (arith, k2) in
      (purge_one-IsGone a one h h1 e1 (sum.0), purge_each-IsGone archives others h1 h3 e2 (sum.1))

  -- Nothing of the repository is left.
  abbrev pub IsForgettable : RepositoryRecord → List Archive → Type 0
  IsForgettable rec archives =
      ((is_some rec.deleted_at && not (any_present rec.replicas)) ≡ true) × All IsGone archives

  purge_from-IsForgettable :
      (rec : RepositoryRecord) (archives : List Archive) (h h2 : History)
      → purge_from answers r rec archives h ≡ (given true, h2)
      → IsForgettable rec archives
  unfolding purge_from
  purge_from-IsForgettable rec archives h h2 e =
      elim (Bool-cases ((length archives == 0) && is_recent r rec.deleted_at)) [
        | inl x ↦ absurd (not_false (rw x at e))
        | inr x ↦
            (let (left, h1, e1, k1) =
                >>=-eq-given (purge_each answers r archives)
                  (λ left.
                    give ((left == 0) && is_some rec.deleted_at && not (any_present rec.replicas)))
                  true h h2 (rw x at e) in
              let last : (left ≡ 0)
                  × ((is_some rec.deleted_at && not (any_present rec.replicas)) ≡ true) =
                ground (arith, k1) in
              (last.1, purge_each-IsGone archives left h h1 e1 (last.0)))
      ]
    where
      not_false : ◌≡◌ {A = Answer Bool × History} (given false, h) (given true, h2) → ⊥
      not_false k = cc

  -- If purgeArchives says that the repository can be forgotten, then it was marked as deleted on
  -- its primary, the inventory sees no copy of it, and each of its archives was purged before, or
  -- was due and its node answers the deletion of its copy without an error.
  pub purge_archives-IsForgettable :
      (rec : RepositoryRecord) (archives : List Archive) (h h2 : History)
      → answers.read_archives h ≡ given archives
      → purge_archives answers r rec h ≡ (given true, h2)
      → IsForgettable rec archives
  unfolding purge_archives
  purge_archives-IsForgettable rec archives h h2 a e =
      purge_from-IsForgettable rec archives (archives_read ∷ h) h2 (rw a at e)
