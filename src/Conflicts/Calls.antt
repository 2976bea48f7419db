-- ===== src/Conflicts/Calls.antt =====
-- internal/conflicts/detector.go, Run: what the calls of SyncConflicts may open and clear.
use forge_sync.Records.{RepositoryRecord}
use forge_sync.Prelude.{
  if◌then◌else◌, all-append, keep, ◌≡◌, refl, arith, Bool, true, false, ◌&&◌, ◌||◌, not, List, [],
  ◌∷◌, Str, str_eq, all,
}
use forge_sync.Conflicts.{
  no_scopes, sync_calls, SyncCall, scopes, scoped, Scopes, is_mismatch, RepositoryRecord, keep,
  ConflictKind, diverged, branch_mismatch, FoundConflict,
}

-- The call owns the conflicts over commits.
unfoldable pub owns_diverged : List ConflictKind → Bool
owns_diverged [] = false
owns_diverged (diverged ∷ kinds) = true
owns_diverged (branch_mismatch ∷ kinds) = owns_diverged kinds

all-keep : (l : List FoundConflict) → all is_mismatch (keep is_mismatch l) ≡ true
unfolding all keep
all-keep [] = refl
all-keep (c ∷ l) = ground (arith, all-keep l)

module _ (checks : RepositoryRecord → List FoundConflict × Bool) (test : Str → Bool) where
  -- The test holds for the ids of the repositories without a primary.
  unfoldable pub tested : List RepositoryRecord → Bool
  tested [] = true
  tested (rec ∷ recs) = (not (str_eq rec.primary_node []) || test rec.id) && tested recs

  unfoldable scopes_kept : Scopes → Bool
  scopes_kept s = all test s.checked && all is_mismatch s.found_primaried

  scoped-scopes_kept :
      (rec : RepositoryRecord) (c : List FoundConflict × Bool) (s : Scopes)
      → scopes_kept s ≡ true
      → (not (str_eq rec.primary_node []) || test rec.id) ≡ true
      → scopes_kept (scoped true rec c s) ≡ true
  unfolding scoped scopes_kept all
  scoped-scopes_kept rec (f, conclusive) s h t = ground (
    arith,
    all-keep f,
    all-append test s.checked (rec.id ∷ []),
    all-append test s.checked [],
    all-append is_mismatch s.found_primaried (keep is_mismatch f),
  )

  scopes-scopes_kept :
      (recs : List RepositoryRecord) (s : Scopes)
      → scopes_kept s ≡ true
      → tested recs ≡ true
      → scopes_kept (scopes true checks recs s) ≡ true
  unfolding scopes tested
  scopes-scopes_kept [] s h t = h
  scopes-scopes_kept (rec ∷ recs) s h t = ground (
    arith,
    scopes-scopes_kept recs (scoped true rec (checks rec) s),
    scoped-scopes_kept rec (checks rec) s,
  )

  -- The call clears conflicts over commits only in repositories that pass the test; a call that
  -- does not own those brings none.
  unfoldable pub call_kept : SyncCall → Bool
  call_kept call =
      if owns_diverged call.kinds then all test call.checked else all is_mismatch call.found

  -- Where replication owns the repositories with a primary: a test that the ids of all repositories
  -- without a primary pass is passed by every repository that Run lets the store clear a diverged
  -- conflict of, and the call that does not own those conflicts brings only differences of the
  -- default branch.
  pub sync_calls-kept :
      (recs : List RepositoryRecord)
      → tested recs ≡ true
      → all call_kept (sync_calls true (scopes true checks recs no_scopes)) ≡ true
  unfolding sync_calls call_kept owns_diverged all scopes_kept
  sync_calls-kept recs t = ground (arith, scopes-scopes_kept recs no_scopes refl t)
