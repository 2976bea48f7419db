-- ===== src/Replication/Deletion/Archives.antt =====
-- internal/replication/deletion.go: what archiveOn leaves, and the name that it gives.
use forge_sync.Prelude.{
  sym, subst, length-append, ℕ, suc, zero, ◌+◌, ◌-◌, ◌<◌, ◌≤◌, ◌≡◌, refl, arith, length, [], ◌∷◌,
  ◌++◌, Str, bytes, Option, none, some, false,
}
use forge_sync.Prelude.Effects.{given, Returns, Returns-give, Returns->>=, Returns->>, Returns-if}
use forge_sync.Replication.Deletion.{
  is_archived, is_over, Archive, renamed, archived, Answers, Run, archive_on, finish_archive,
  start_archive, is_due, archive_name, first_bytes, History,
}

-- An archive that is kept for as long as BackupFor says.
abbrev pub KeptFull : Run → Option Archive → Type 0
KeptFull r none = Unit
KeptFull r (some a) = (a.state ≡ archived) × (a.delete_after ≡ some (r.now + r.backup_for))

-- There is no archive yet, or one whose move was not finished.
abbrev pub NotDone : Option Archive → Type 0
NotDone none = Unit
NotDone (some a) = a.state ≡ renamed

module _ (answers : Answers) (r : Run) where
  finish_archive-KeptFull :
      (owner : Str) (a : Archive) → Returns (KeptFull r) (finish_archive answers r renamed owner a)
  unfolding finish_archive
  finish_archive-KeptFull owner a = search (Returns-give, Returns->>=, Returns->>) depth 12

  archive_on-KeptFull :
      (n owner name full : Str) (prior : Option Archive)
      → NotDone prior
      → Returns (KeptFull r) (archive_on answers r n owner name full prior)
  unfolding archive_on start_archive
  archive_on-KeptFull n owner name full (some a) d =
      subst (λ s. Returns (KeptFull r) (finish_archive answers r s owner a)) (sym d)
        (finish_archive-KeptFull owner a)
  archive_on-KeptFull n owner name full none d =
      search (Returns-give, Returns->>=, Returns->>, Returns-if, finish_archive-KeptFull owner)
        depth 12

  -- An archive that archiveOn has just finished, of a copy that was none before or was only
  -- renamed, is not due for deletion at any time before the backup period has passed.
  pub archive_on-is_due :
      (n owner name full : Str) (prior : Option Archive) (later : Run) (a : Archive)
      (h h2 : History)
      → NotDone prior
      → archive_on answers r n owner name full prior h ≡ (given (some a), h2)
      → later.now < r.now + r.backup_for
      → is_due later a ≡ false
  unfolding is_due is_over is_archived
  archive_on-is_due n owner name full prior later a h h2 d e l =
      let (s, t) = (archive_on-KeptFull n owner name full prior d).returns (some a) h h2 e in
      ground (arith, s, t)

length-first_bytes : (n : ℕ) (s : Str) → n ≤ length s → length (first_bytes n s) ≡ n
unfolding first_bytes
length-first_bytes zero s h = refl
length-first_bytes (suc n) [] h = omega arith
length-first_bytes (suc n) (c ∷ s) h = omega (arith, length-first_bytes n s)

-- A name for the archive has at most 100 bytes, where the time as text has at most 98.
pub length-archive_name :
    (owner name stamp : Str) → length stamp ≤ 98 → length (archive_name owner name stamp) ≤ 100
unfolding archive_name
length-archive_name owner name stamp h =
    let base = owner ++ (bytes "--" ++ name) in
    let suffix = bytes "--" ++ stamp in
    ground (
      arith,
      length-append (first_bytes (100 - length suffix) base) suffix,
      length-append base suffix,
      length-first_bytes (100 - length suffix) base,
      length-append (bytes "--") stamp,
    )
