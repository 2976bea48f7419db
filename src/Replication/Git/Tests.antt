-- ===== src/Replication/Git/Tests.antt =====
-- Runs of internal/replication/git.go.
use forge_sync.Prelude.{cut, ◌≡◌, refl, bytes, ◌++◌, [], ◌∷◌, false}
use forge_sync.Replication.Git.{
  parse_porcelain, parse_lines, split_lines, onto_line, trim_return, parse_line, put_result,
}
use forge_sync.Prelude.Map

rejected_main :
    parse_porcelain
      (bytes "!" ++ 9 ∷ (bytes "c1:refs/heads/main" ++ 9 ∷ bytes "[rejected] (stale info)"))
    ≡ (bytes "refs/heads/main", record { ok = false; reason = bytes "[rejected] (stale info)" })
      ∷ []
unfolding parse_porcelain parse_lines split_lines onto_line trim_return parse_line cut put_result
    Map.insert
rejected_main = refl
