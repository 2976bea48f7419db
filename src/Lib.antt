-- ===== src/Lib.antt =====
-- ForgeSync keeps the repositories of several Forgejo sites ("nodes") in sync. Each repository has a
-- primary node; the others are replicas of it. One controller of several leads and does the work.
-- Paths below are from the repository's root.
--
-- The parts, and where each is modelled:
-- * internal/leader/, internal/store/leadership.go -> Leader: the lease in the database (upsert,
--   release_lease) and one controller's view of it (leading); Leader.System is any number of
--   controllers with the messages between them and the database, in any order, late statements
--   included; Leader.Exclusion is about them. Each controller has a clock of its own, and all run at
--   the same speed.
-- * internal/replication/plan.go -> Replication.Plan: what to do on one replica, ref by ref. Git's
--   ancestry test is a parameter. Plan.Push says what a push with leases leaves on a remote.
-- * internal/replication/engine.go -> Replication.Engine: replicate and seedPrimary; Engine.Runs is
--   RunRepo and Trigger, a system of goroutines over the flags running and again.
-- * internal/replication/handoff.go -> Replication.Handoff: autoFix and, in Handoff.Decisions, what
--   becomes of the pull requests that owners decide on. Handoff.Opening is handOff, Handoff.Names its
--   search for a free name, Handoff.Defaults is fixDefaultBranches. A call's answer is a function of
--   the history of calls, which the functions pass along; Prelude.Effects has the steps of such code
--   and the rules to reason about them.
-- * internal/replication/git.go -> Replication.Git: the arguments of a push and the reading of its
--   answer. Running git is not modelled.
-- * internal/set/set.go -> Set: sets on several nodes merged by a base that is kept as text: Decide
--   (decide), Settle (settle), Value and From (value, from). Set.Converge is about rounds of both.
-- * internal/issues/merge.go -> Issues.Merge: one field's value merged.
-- * internal/replication/deletion.go -> Replication.Deletion: the archives of a repository that was
--   deleted on its primary, and their end.
-- * internal/replication/rename.go -> Replication.Rename: renameOn and pendingRename.
-- * internal/issues/items.go -> Issues.Items: one label or milestone (item). internal/issues/sync.go,
--   deletedOnPrimary -> Issues.Deleted.
-- * internal/issues/reactions.go -> Issues.Reactions, internal/issues/attachments.go ->
--   Issues.Attachments: members written as Set says; Set.Writes is what both leave for the next run.
-- * internal/api/session.go, auth.go -> Api.Limiter and Api.SignIn: the limit on failed sign-ins, and
--   createSession.
-- * internal/webhook/dispatch.go -> Webhook: what a reported change sets off.
-- * internal/inventory/compare.go -> Inventory: a repository's status across the nodes.
-- * internal/conflicts/detector.go -> Conflicts: what is reported and what may be cleared. It uses
--   Inventory's views, as the code does.
-- * internal/health/ -> Health: one check (Health.Check), the state machine of a node (next), and the
--   statuses of all nodes with what is recorded (Health.Monitor).
-- * internal/store/repos.go -> Records: the records that the others read.
-- Prelude has the shared names, tests on numbers, byte strings, lists, maps, sorting and
-- decimal numbers.
--
-- Conventions: a Go string is a list of bytes, a Go map an association list, written so that a key
-- stands at one place; where the order of a map's entries could matter, the theorem says that no key
-- stands twice. Times are natural numbers. An error is a constructor or `none`. Numbers are unbounded:
-- the program only counts with them, and sizes are below 2 ^ 63 where a theorem says so. All loops are
-- over lists but one, the search for a free branch name (free_name): its fuel is one more than the
-- number of hand-off branches, which is enough since its names all differ.
--
-- Not modelled: the transfer of data by git and HTTP, SQL, the Forgejo API, the log, and the parts of
-- the program that are not named above (issues themselves and comments, reviews, releases, metadata,
-- packages, the web interface, the command line). Where modelled code calls those, the answer is a
-- parameter.
pub mod Prelude
pub mod Set
pub mod Replication
pub mod Issues
pub mod Health
pub mod Leader
pub mod Records
pub mod Inventory
pub mod Api
pub mod Conflicts
pub mod Webhook
