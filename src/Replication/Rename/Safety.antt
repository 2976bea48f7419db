-- ===== src/Replication/Rename/Safety.antt =====
-- internal/replication/rename.go: what renameOn renames and moves.
use forge_sync.Prelude.{
  inr, [], inl, refl, All, subst, ap, ◌∙◌, arith, ◌&&◌, not, equal_fold, false, ◌⊎◌, List, Bool,
  ◌≡◌, true, Str,
}
use forge_sync.Prelude.Effects.{
  tell, ◌>>=◌, Returns-give, ◌>>◌, call, Keeps-fail, Keeps-if_of, Keeps-tell, Keeps->>=, give,
  Keeps->>, Keeps-give, Returns-if, Keeps-call, given, Keeps-if, Returns, Keeps, Returns-call,
  Keeps->>=_of,
}
use forge_sync.Replication.Rename.{
  blocked, done, rename_on, rename_found, arrived, is_same_owner, rename_ready, move_owner,
  rename_name, ready_owner, ask, owner_ready, ask_mid, Bool, true, Str, Answers, Task, Event,
  repo_asked, org_asked, user_ensured, repo_renamed, repo_moved, audited,
}

-- The node said, at some time, whether it has a repository.
abbrev pub Said : Answers → Task → Str → Str → Bool → Type 0
Said answers t owner name b = (h : List Event) × (answers.get_repo t.node owner name h ≡ given b)

-- The copy is there under its old name, or under its new name with the old owner.
abbrev pub HasCopy : Answers → Task → Type 0
HasCopy answers t =
    Said answers t t.old_owner t.old_name true
    ⊎ (Said answers t t.old_owner t.old_name false × Said answers t t.old_owner t.new_name true)

-- A rename is of a copy that is there to the repository's name, where the node has none of that name;
-- so is a move to the new owner, of what has the new name.
abbrev pub Allowed : Answers → Task → Event → Type 0
Allowed answers t (repo_renamed n owner name to) =
    (n ≡ t.node)
    × (owner ≡ t.old_owner)
    × (name ≡ t.old_name)
    × (to ≡ t.new_name)
    × Said answers t t.old_owner t.old_name true
    × Said answers t t.new_owner t.new_name false
Allowed answers t (repo_moved n owner name to) =
    (n ≡ t.node)
    × (owner ≡ t.old_owner)
    × (name ≡ t.new_name)
    × (to ≡ t.new_owner)
    × (equal_fold t.old_owner t.new_owner ≡ false)
    × HasCopy answers t
    × Said answers t t.new_owner t.new_name false
Allowed answers t (repo_asked n owner name) = Unit
Allowed answers t (org_asked n owner) = Unit
Allowed answers t (user_ensured owner n) = Unit
Allowed answers t audited = Unit

module _ (answers : Answers) (t : Task) where
  ask-Keeps : (owner name : Str) → Keeps (Allowed answers t) (ask answers t owner name)
  ask-Keeps owner name = search (Keeps-call, tt)

  ask-Said : (owner name : Str) → Returns (Said answers t owner name) (ask answers t owner name)
  ask-Said owner name =
      Returns-call (Said answers t owner name) (answers.get_repo t.node owner name)
        (repo_asked t.node owner name) (λ b h e. (h, e))

  -- What the search under the new name says.
  abbrev Mid : Bool → Bool → Type 0
  Mid has_old b = b ≡ true → has_old ≡ false → Said answers t t.old_owner t.new_name true

  ask_mid-Mid : (has_old : Bool) → Returns (Mid has_old) (ask_mid answers t has_old)
  unfolding ask_mid
  ask_mid-Mid has_old =
      Returns-if (Mid has_old) (not (is_same_owner t) && not has_old)
        (ask answers t t.old_owner t.new_name) (give false)
        (Returns-call (Mid has_old) (answers.get_repo t.node t.old_owner t.new_name)
          (repo_asked t.node t.old_owner t.new_name) (λ b h e q o. (h, e ∙ ap given q)))
        (Returns-give (Mid has_old) false (λ q o. absurd (not_true q)))
    where
      not_true : false ≡ true → ⊥
      not_true q = cc

  ask_mid-Keeps : (has_old : Bool) → Keeps (Allowed answers t) (ask_mid answers t has_old)
  unfolding ask_mid
  ask_mid-Keeps has_old = search (Keeps-if, Keeps-give, ask-Keeps)

  owner_ready-Keeps : Keeps (Allowed answers t) (owner_ready answers t)
  unfolding owner_ready ready_owner
  owner_ready-Keeps = search (Keeps-if, Keeps->>=, Keeps-give, Keeps-call, ready_owner-Keeps, tt)
    where
      ready_owner-Keeps : (b : Bool) → Keeps (Allowed answers t) (ready_owner answers t b)
      ready_owner-Keeps true = search (Keeps-call, tt)
      ready_owner-Keeps false = search (Keeps->>, Keeps-call, Keeps-give, tt)

  module _ (has_old : Bool) (old : Said answers t t.old_owner t.old_name has_old)
      (free : Said answers t t.new_owner t.new_name false) where
    rename_name-Keeps : Keeps (Allowed answers t) (rename_name answers t has_old)
    unfolding rename_name
    rename_name-Keeps =
        Keeps-if_of (Allowed answers t) (has_old && not (equal_fold t.old_name t.new_name))
          (call (answers.rename_repo t.node t.old_owner t.old_name t.new_name)
            (repo_renamed t.node t.old_owner t.old_name t.new_name))
          (give tt)
          (λ b.
            Keeps-call (Allowed answers t)
              (answers.rename_repo t.node t.old_owner t.old_name t.new_name)
              (repo_renamed t.node t.old_owner t.old_name t.new_name)
              (
                refl,
                refl,
                refl,
                refl,
                subst (Said answers t t.old_owner t.old_name) (there b) old,
                free,
              ))
          (λ b. Keeps-give (Allowed answers t) tt)
      where
        there : (has_old && not (equal_fold t.old_name t.new_name)) ≡ true → has_old ≡ true
        there b = ground (arith, b)

    move_owner-Keeps : HasCopy answers t → Keeps (Allowed answers t) (move_owner answers t)
    unfolding move_owner is_same_owner arrived
    move_owner-Keeps c =
        Keeps-if_of (Allowed answers t) (is_same_owner t) (give tt)
          (do
            call (answers.move_repo t.node t.old_owner t.new_name t.new_owner)
                (repo_moved t.node t.old_owner t.new_name t.new_owner)
            there ← ask answers t t.new_owner t.new_name
            arrived answers t there)
          (λ b. Keeps-give (Allowed answers t) tt) (λ b. moved (refl, refl, refl, refl, b, c, free))
      where
        arrived-Keeps : (b : Bool) → Keeps (Allowed answers t) (arrived answers t b)
        arrived-Keeps true = search (Keeps-give)
        arrived-Keeps false = search (Keeps-fail)

        moved :
            Allowed answers t (repo_moved t.node t.old_owner t.new_name t.new_owner)
            → Keeps (Allowed answers t) (do
              call
                  (answers.move_repo t.node t.old_owner t.new_name t.new_owner)
                  (repo_moved t.node t.old_owner t.new_name t.new_owner)
              there ← ask answers t t.new_owner t.new_name
              arrived answers t there)
        moved m = search (Keeps->>, Keeps->>=, Keeps-call, m, ask-Keeps, arrived-Keeps)

    rename_ready-Keeps :
        HasCopy answers t
        → (b : Bool) → Keeps (Allowed answers t) (rename_ready answers t has_old b)
    unfolding rename_ready
    rename_ready-Keeps c false = search (Keeps-give)
    rename_ready-Keeps c true =
        Keeps->> (Allowed answers t) (rename_name answers t has_old)
          (do move_owner answers t; tell audited; give done) rename_name-Keeps
          (Keeps->> (Allowed answers t) (move_owner answers t) (do tell audited; give done)
            (move_owner-Keeps c) (search (Keeps->>, Keeps-tell, Keeps-give, tt)))

  rename_found-Keeps :
      (has_old has_new has_mid : Bool)
      → Said answers t t.old_owner t.old_name has_old
      → Said answers t t.new_owner t.new_name has_new
      → Mid has_old has_mid
      → Keeps (Allowed answers t) (rename_found answers t has_old has_new has_mid)
  unfolding rename_found
  rename_found-Keeps has_old true has_mid old new mid = search (Keeps-if, Keeps-give)
  rename_found-Keeps true false has_mid old new mid =
      search (Keeps->>=, owner_ready-Keeps, rename_ready-Keeps true old new (inl old))
  rename_found-Keeps false false true old new mid =
      search
        (Keeps->>=, owner_ready-Keeps, rename_ready-Keeps false old new (inr (old, mid refl refl)))
  rename_found-Keeps false false false old new mid = search (Keeps-give)

  rename_on-Keeps : Keeps (Allowed answers t) (rename_on answers t)
  unfolding rename_on
  rename_on-Keeps =
      Keeps-if (Allowed answers t) (not t.has_api) (give blocked)
        (do
          has_old ← ask answers t t.old_owner t.old_name
          has_new ← ask answers t t.new_owner t.new_name
          has_mid ← ask_mid answers t has_old
          rename_found answers t has_old has_new has_mid)
        (search (Keeps-give))
        (Keeps->>=_of (Said answers t t.old_owner t.old_name) (Allowed answers t)
          (ask answers t t.old_owner t.old_name)
          (λ has_old. do
            has_new ← ask answers t t.new_owner t.new_name
            has_mid ← ask_mid answers t has_old
            rename_found answers t has_old has_new has_mid)
          (ask-Said t.old_owner t.old_name) (ask-Keeps t.old_owner t.old_name)
          (λ has_old old.
            Keeps->>=_of (Said answers t t.new_owner t.new_name) (Allowed answers t)
              (ask answers t t.new_owner t.new_name)
              (λ has_new. do
                has_mid ← ask_mid answers t has_old
                rename_found answers t has_old has_new has_mid)
              (ask-Said t.new_owner t.new_name) (ask-Keeps t.new_owner t.new_name)
              (λ has_new new.
                Keeps->>=_of (Mid has_old) (Allowed answers t) (ask_mid answers t has_old)
                  (rename_found answers t has_old has_new) (ask_mid-Mid has_old)
                  (ask_mid-Keeps has_old)
                  (λ has_mid mid. rename_found-Keeps has_old has_new has_mid old new mid))))

  -- Whatever the calls answer, renameOn renames only the copy under the old owner and the old name,
  -- to the repository's new name, where the node has said that this copy is there; it moves only
  -- what stands under the old owner and the new name, to an owner that differs in more than the
  -- case of letters, where the node has said that the copy is there under the old name, or under
  -- the new one and not the old one; and both only where the node has said that it has no
  -- repository with the new owner and name.
  pub rename_on-Allowed : All (Allowed answers t) ((rename_on answers t []).1)
  rename_on-Allowed = rename_on-Keeps.keeps [] tt
