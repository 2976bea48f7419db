-- ===== src/Replication/Git.antt =====
-- internal/replication/git.go, Push: the arguments that git gets, and how its answer is read. Git
-- itself is not modelled, nor are lines longer than the scanner takes.
mod Tests
use forge_sync.Prelude.{
  cut, to_lower, ◌+◌, ◌&&◌, or_default, ltb, ℕ, ◌==◌, Bool, true, false, ◌||◌, not, List, [], ◌∷◌,
  ◌++◌, Str, bytes, has_part, Option, none, some, if◌then◌else◌, is_some,
}
use forge_sync.Prelude.Map
use forge_sync.Prelude.Map.{Map}
use forge_sync.Replication.Plan.{Action, ActionKind, create, fast_forward, delete, reset}
use forge_sync.Replication.Handoff.{PushResult}
use forge_sync.Replication.Engine.{is_delete}

-- The condition on the remote's value; no expected value means that the ref must not exist.
unfoldable pub lease_arg : Action → Str
lease_arg a = bytes "--force-with-lease=" ++ (a.ref ++ (bytes ":" ++ a.expected))

unfoldable pub spec_arg : Action → Str
spec_arg a = if is_delete a then bytes ":" ++ a.ref else a.target ++ (bytes ":" ++ a.ref)

unfoldable pub each_arg : (Action → Str) → List Action → List Str
each_arg f [] = []
each_arg f (a ∷ actions) = f a ∷ each_arg f actions

unfoldable pub push_args : Str → List Action → List Str
push_args url actions =
    bytes "push"
    ∷ bytes "--porcelain"
    ∷ bytes "--no-verify"
    ∷ (each_arg lease_arg actions ++ (url ∷ each_arg spec_arg actions))

-- A line without a carriage return at its end.
unfoldable pub trim_return : Str → Str
trim_return [] = []
trim_return (c ∷ []) = if c == 13 then [] else c ∷ []
trim_return (c ∷ d ∷ s) = c ∷ trim_return (d ∷ s)

-- The bytes up to the next newline put before the lines that follow; the last line only if it has
-- any.
unfoldable pub onto_line : ℕ → List Str → List Str
onto_line c [] = (c ∷ []) ∷ []
onto_line c (line ∷ lines) = (c ∷ line) ∷ lines

unfoldable pub split_lines : Str → List Str
split_lines [] = []
split_lines (c ∷ s) = let rest = split_lines s in if c == 10 then [] ∷ rest else onto_line c rest

unfoldable pub put_result : ℕ → Option Str → Option Str → Map PushResult → Map PushResult
put_result flag none reason results = results
put_result flag (some to) none results =
    Map.insert to (record { ok = not (flag == 33); reason = [] }) results
put_result flag (some to) (some reason) results =
    Map.insert to (record { ok = not (flag == 33); reason = if flag == 33 then reason else [] })
      results

-- One line: a flag, a tab, "<from>:<to>", and after another tab what git says of it.
unfoldable pub parse_line : Str → Map PushResult → Map PushResult
parse_line [] results = results
parse_line (flag ∷ []) results = results
parse_line (flag ∷ tab ∷ []) results = results
parse_line (flag ∷ tab ∷ c ∷ s) results =
    if not (tab == 9)
    then results
    else (let (refs, reason) = cut 9 (c ∷ s) in
        let (from, to) = cut 58 refs in put_result flag to reason results)

unfoldable pub parse_lines : List Str → Map PushResult → Map PushResult
parse_lines [] results = results
parse_lines (line ∷ lines) results = parse_lines lines (parse_line (trim_return line) results)

-- parsePorcelain.
unfoldable pub parse_porcelain : Str → Map PushResult
parse_porcelain out = parse_lines (split_lines out) []

-- A result for each action.
unfoldable pub fill_results : List Action → Map PushResult → Map PushResult
fill_results [] results = results
fill_results (a ∷ actions) results = fill_results actions (
    if is_some (Map.lookup a.ref results)
    then results
    else Map.insert a.ref (record { ok = false; reason = bytes "no result from git push" }) results)

-- notFound.
unfoldable pub not_found : Str → Bool
not_found stderr =
    let s = to_lower stderr in
    has_part (bytes "not found") s
    || (has_part (bytes "404") s
        || (has_part (bytes "does not exist") s
            || (has_part (bytes "returned error: 301") s
                || (has_part (bytes "returned error: 302") s
                    || (has_part (bytes "returned error: 307") s
                        || has_part (bytes "returned error: 308") s)))))

pub data PushError : Type 0 where
  repo_not_found : PushError
  push_failed : Str → PushError

pub data Pushed : Type 0 where
  per_ref : Map PushResult → Pushed
  push_error : PushError → Pushed

-- Push, by what git printed and the error it ended with.
unfoldable pub push_answer : List Action → Str → Str → Option Str → Pushed
push_answer [] out stderr err = per_ref []
push_answer (a ∷ actions) out stderr err = elim (parse_porcelain out) [
  | [] ↦
      (if not_found stderr
        then push_error repo_not_found
        else push_error (push_failed (or_default (bytes "git push reported nothing") err)))
  | r ∷ results ↦ per_ref (fill_results (a ∷ actions) (r ∷ results))
]
