-- ===== src/Issues/Deleted.antt =====
-- internal/issues/sync.go, deletedOnPrimary: the copies of an issue that was deleted on the primary.
-- What Forgejo and the database answer is a parameter; the log is left out.
use forge_sync.Prelude.{
  refl, arith, All, ◌≡◌, ◌&&◌, ℕ, Bool, true, false, List, [], ◌∷◌, Str, str_eq, Option, none, some,
  if◌then◌else◌,
}
use forge_sync.Prelude.Effects.{
  Answer, given, failed, Effect, ◌>>=◌, ◌>>◌, give, call, tell, attempt, Keeps, Keeps->>=, Keeps->>,
  Keeps-give, Keeps-call, Keeps-tell, Keeps-attempt, Keeps-if_of,
}
use forge_sync.Prelude.Map
use forge_sync.Prelude.Map.{Map}

pub record IssueCopy : Type 0 where
  pub number : ℕ
  pub forgejo_id : ℕ

-- store.IssueRecord, as far as it is read here.
pub record IssueRecord : Type 0 where
  pub id : Str
  pub base_title : Str
  pub base_body : Str
  pub base_state : Str
  pub copies : Map IssueCopy
  pub deleted_at : Option ℕ

pub record IssueText : Type 0 where
  pub title : Str
  pub body : Str
  pub state : Str

pub data Event : Type 0 where
  issue_deleted : Str → ℕ → Event
  record_saved : IssueRecord → Event
  record_deleted : Str → Event
  deletion_conflict : Str → Event
  incomplete : Event

abbrev pub History : Type 0
History = List Event

pub record Answers : Type 0 where
  pub delete_issue : Str → ℕ → History → Answer (Unit {0})
  pub save_issue : IssueRecord → History → Answer (Unit {0})
  pub delete_record : Str → History → Answer (Unit {0})

pub record Run : Type 0 where
  pub nodes : List Str
  pub primary : Str
  pub now : ℕ
  pub issue_at : Str → ℕ → Option IssueText

unfoldable pub is_unchanged : IssueText → IssueRecord → Bool
is_unchanged is rec =
    str_eq is.title rec.base_title && str_eq is.body rec.base_body && str_eq is.state rec.base_state

unfoldable pub first_deleted : ℕ → Option ℕ → Option ℕ
first_deleted now none = some now
first_deleted now (some t) = some t

module _ (answers : Answers) (r : Run) (rec : IssueRecord) where
  unfoldable pub deletion_answered :
      Str → Map IssueCopy → Answer (Unit {0}) → Effect Event (Map IssueCopy)
  deletion_answered n copies (failed e) = do tell incomplete; give copies
  deletion_answered n copies (given u) = give (Map.delete n copies)

  unfoldable pub delete_seen :
      Str → IssueCopy → Option IssueText → Map IssueCopy → Effect Event (Map IssueCopy)
  delete_seen n c none copies = give (Map.delete n copies)
  delete_seen n c (some is) copies =
      if is_unchanged is rec
      then (do
        o ← attempt (call (answers.delete_issue n c.number) (issue_deleted n c.number))
        deletion_answered n copies o)
      else (do tell (deletion_conflict n); give copies)

  unfoldable pub delete_on : Str → Option IssueCopy → Map IssueCopy → Effect Event (Map IssueCopy)
  delete_on n none copies = give copies
  delete_on n (some c) copies = delete_seen n c (r.issue_at n c.forgejo_id) copies

  unfoldable pub delete_on_each : List Str → Map IssueCopy → Effect Event (Map IssueCopy)
  delete_on_each [] copies = give copies
  delete_on_each (n ∷ nodes) copies = do
    left ← delete_on n (Map.lookup n copies) copies
    delete_on_each nodes left

  unfoldable pub record_after : IssueRecord → Map IssueCopy → Effect Event (Bool × IssueRecord)
  record_after x [] = do call (answers.delete_record x.id) (record_deleted x.id); give (true, x)
  record_after x (c ∷ copies) = do call (answers.save_issue x) (record_saved x); give (false, x)

  -- deletedOnPrimary: whether the record was deleted, and the record after it.
  unfoldable pub issue_deleted_on_primary : Effect Event (Bool × IssueRecord)
  issue_deleted_on_primary = do
    left ← delete_on_each r.nodes (Map.delete r.primary rec.copies)
    record_after (record rec { copies = left; deleted_at = first_deleted r.now rec.deleted_at })
        left

  -- A copy is deleted only if the snapshot has it with the base's title, body and state.
  abbrev pub Allowed : Event → Type 0
  Allowed (issue_deleted n number) =
      (c : IssueCopy) × (is : IssueText) × (c.number ≡ number)
      × (r.issue_at n c.forgejo_id ≡ some is)
      × (str_eq is.title rec.base_title ≡ true)
      × (str_eq is.body rec.base_body ≡ true)
      × (str_eq is.state rec.base_state ≡ true)
  Allowed (record_saved x) = Unit
  Allowed (record_deleted i) = Unit
  Allowed (deletion_conflict n) = Unit
  Allowed incomplete = Unit

  delete_seen-Keeps :
      (n : Str) (c : IssueCopy) (o : Option IssueText) (copies : Map IssueCopy)
      → r.issue_at n c.forgejo_id ≡ o
      → Keeps Allowed (delete_seen n c o copies)
  unfolding delete_seen deletion_answered is_unchanged
  delete_seen-Keeps n c none copies e = search (Keeps-give)
  delete_seen-Keeps n c (some is) copies e =
      Keeps-if_of Allowed (is_unchanged is rec)
        (do
          o ← attempt (call (answers.delete_issue n c.number) (issue_deleted n c.number))
          deletion_answered n copies o)
        (do tell (deletion_conflict n); give copies)
        (λ b. asked (c, is, refl, e, ground (arith, b), ground (arith, b), ground (arith, b)))
        (λ b. search (Keeps->>, Keeps-tell, Keeps-give, tt))
    where
      answered : (o : Answer (Unit {0})) → Keeps Allowed (deletion_answered n copies o)
      answered (failed x) = search (Keeps->>, Keeps-tell, Keeps-give, tt)
      answered (given u) = search (Keeps-give)

      asked :
          Allowed (issue_deleted n c.number)
          → Keeps Allowed (do
            o ← attempt (call (answers.delete_issue n c.number) (issue_deleted n c.number))
            deletion_answered n copies o)
      asked m = search (Keeps->>=, Keeps-attempt, Keeps-call, m, answered)

  delete_on-Keeps :
      (n : Str) (o : Option IssueCopy) (copies : Map IssueCopy)
      → Keeps Allowed (delete_on n o copies)
  unfolding delete_on
  delete_on-Keeps n none copies = search (Keeps-give)
  delete_on-Keeps n (some c) copies = delete_seen-Keeps n c (r.issue_at n c.forgejo_id) copies refl

  delete_on_each-Keeps :
      (nodes : List Str) (copies : Map IssueCopy) → Keeps Allowed (delete_on_each nodes copies)
  unfolding delete_on_each
  delete_on_each-Keeps [] copies = search (Keeps-give)
  delete_on_each-Keeps (n ∷ nodes) copies =
      search (Keeps->>=, delete_on-Keeps, delete_on_each-Keeps nodes)

  record_after-Keeps :
      (x : IssueRecord) (copies : Map IssueCopy) → Keeps Allowed (record_after x copies)
  unfolding record_after
  record_after-Keeps x [] = search (Keeps->>, Keeps-call, Keeps-give, tt)
  record_after-Keeps x (c ∷ copies) = search (Keeps->>, Keeps-call, Keeps-give, tt)

  -- Whatever the calls answer, deletedOnPrimary deletes a copy only if the node's snapshot has it with
  -- the base's title, body and state.
  pub issue_deleted_on_primary-Allowed : All Allowed ((issue_deleted_on_primary []).1)
  unfolding issue_deleted_on_primary
  issue_deleted_on_primary-Allowed =
      (Keeps->>= Allowed (delete_on_each r.nodes (Map.delete r.primary rec.copies))
          (λ left.
            record_after
              (record rec { copies = left; deleted_at = first_deleted r.now rec.deleted_at }) left)
          (delete_on_each-Keeps r.nodes (Map.delete r.primary rec.copies))
          (λ left.
            record_after-Keeps
              (record rec { copies = left; deleted_at = first_deleted r.now rec.deleted_at })
              left)).keeps
        [] tt
