-- ===== src/Health/Next.antt =====
-- internal/health/health.go: one result, and runs of results.
use forge_sync.Prelude.{
  ℕ, ◌+◌, ◌≡◌, Bool, true, false, ◌&&◌, not, leb, List, [], ◌∷◌, Option, none, some, is_some, arith,
  if◌then◌else◌, length, all,
}
use forge_sync.Health.{
  State, suspect, unreachable, Status, Result, is_healthy, since, contacted, next,
}

-- The results of a node's checks, each with its time, oldest first.
unfoldable pub after : Status → ℕ → List (Result × ℕ) → Status
after s threshold [] = s
after s threshold ((r, now) ∷ rest) = after (next s r threshold now) threshold rest

-- A check that found nothing wrong.
abbrev pub passed : Result → Bool
passed r = r.reachable && (r.auth_ok && r.forgejo_ok)

pub next-is_healthy :
    (s : Status) (r : Result) (threshold now : ℕ)
    → is_healthy (next s r threshold now).state ≡ passed r
unfolding next contacted is_healthy
next-is_healthy s r threshold now = ground arith

since-is_some : (x : State) (f : Option ℕ) (now : ℕ) → is_some (since x f now) ≡ not (is_healthy x)
unfolding since is_healthy
since-is_some x f now = ground arith

pub next-failing_since :
    (s : Status) (r : Result) (threshold now : ℕ)
    → is_some (next s r threshold now).failing_since ≡ not (passed r)
unfolding next
next-failing_since s r threshold now = ground (
  arith,
  since-is_some (contacted s r threshold now).state (contacted s r threshold now).failing_since now,
  next-is_healthy s r threshold now,
)

unreachable_step :
    (s : Status) (r : Result) (threshold now : ℕ)
    → r.reachable ≡ false
    → ((next s r threshold now).consecutive_failures ≡ s.consecutive_failures + 1)
      × ((next s r threshold now).state
          ≡ (if leb threshold (s.consecutive_failures + 1) then unreachable else suspect))
unfolding next contacted
unreachable_step s r threshold now h = ground arith

-- After one or more failed contacts in a row the node is unreachable if the failures counted before
-- and these together reach the threshold, and suspect if not.
pub after-unreachable :
    (s : Status) (threshold : ℕ) (r : Result) (now : ℕ) (rest : List (Result × ℕ))
    → all (λ x. not (x.0).reachable) ((r, now) ∷ rest) ≡ true
    → (after s threshold ((r, now) ∷ rest)).state ≡ (
        if leb threshold (s.consecutive_failures + length ((r, now) ∷ rest))
        then unreachable
        else suspect)
unfolding after all
after-unreachable s threshold r now [] h = ground (arith, unreachable_step s r threshold now)
after-unreachable s threshold r now ((r', now') ∷ rest) h = ground (
  arith,
  unreachable_step s r threshold now,
  after-unreachable (next s r threshold now) threshold r' now' rest,
)

since_kept : (x : State) (t now : ℕ) → is_healthy x ≡ false → since x (some t) now ≡ some t
unfolding since is_healthy
since_kept x t now h = ground arith

next_keeps_since :
    (s : Status) (r : Result) (threshold now t : ℕ)
    → passed r ≡ false
    → s.failing_since ≡ some t
    → (next s r threshold now).failing_since ≡ some t
unfolding next contacted
next_keeps_since s r threshold now t h f = unfold since in ground arith

-- An outage is dated from its first failed check, however long it lasts.
after_keeps_since :
    (s : Status) (threshold t : ℕ) (rest : List (Result × ℕ))
    → all (λ x. not (passed (x.0))) rest ≡ true
    → s.failing_since ≡ some t
    → (after s threshold rest).failing_since ≡ some t
unfolding after all
after_keeps_since s threshold t [] h f = f
after_keeps_since s threshold t ((r, now) ∷ rest) h f =
    after_keeps_since (next s r threshold now) threshold t rest (ground arith)
      (next_keeps_since s r threshold now t (ground arith) f)

next_sets_since :
    (s : Status) (r : Result) (threshold now : ℕ)
    → passed r ≡ false
    → s.failing_since ≡ none
    → (next s r threshold now).failing_since ≡ some now
unfolding next contacted
next_sets_since s r threshold now h f = unfold since in ground arith

-- After a run of checks none of which passed, of a node that was not failing, it has been failing
-- since the time of the first of them.
pub after-failing_since :
    (s : Status) (threshold : ℕ) (r : Result) (now : ℕ) (rest : List (Result × ℕ))
    → all (λ x. not (passed (x.0))) ((r, now) ∷ rest) ≡ true
    → s.failing_since ≡ none
    → (after s threshold ((r, now) ∷ rest)).failing_since ≡ some now
unfolding after all
after-failing_since s threshold r now rest h f =
    after_keeps_since (next s r threshold now) threshold now rest (ground arith)
      (next_sets_since s r threshold now (ground arith) f)
