-- ===== src/Records.antt =====
-- internal/store/repos.go: what the database remembers of a repository, as far as the modelled code
-- reads it. Times are numbers.
use forge_sync.Prelude.{ℕ, Bool, List, Str, Option}

pub record Replica : Type 0 where
  pub node : Str
  pub present : Bool
  pub mirror : Bool
  pub empty : Bool
  pub default_branch : Str
  pub head_sha : Str
  pub head_error : Str
  pub forgejo_created : Option ℕ
  pub full_name : Str
  pub last_seen_at : Option ℕ

pub record RepositoryRecord : Type 0 where
  pub id : Str
  pub full_name : Str
  pub primary_node : Str
  pub first_seen_at : ℕ
  pub deleted_at : Option ℕ
  pub replicas : List Replica

pub record NodeScan : Type 0 where
  pub node : Str
  pub ok : Bool
  pub last_success_at : Option ℕ
