-- ===== src/Issues/Attachments/Untouched.antt =====
-- internal/issues/attachments.go: the files that syncAttachments has not come to yet are as they were.
use forge_sync.Prelude.{
  ◌∙◌, inr, str_eq_iff, ap, Bool, [], inl, ◌∷◌, or_default, Bool-cases, arith, true, false, ◌≡◌,
  str_eq, contains, Str, List,
}
use forge_sync.Issues.Attachments.{
  given, failed, upload_answered, Answer, Bool, upload_fetched, [], write_each, add_one, or_default,
  true, false, remove_answered, remove_one, str_eq, write_one, Str, List, file_at, Answers, Run,
  Attachment, Files,
}
use forge_sync.Prelude.Effects.{
  Returns-if, Returns->>=, Returns->>, Returns->>=_of, Returns, Returns-give,
}
use forge_sync.Prelude.Map
use forge_sync.Prelude.Map.{lookup-delete, lookup-insert_self, lookup-insert, Map}

file_at-other :
    (n m f : Str) (x : Map Attachment) (files : Map (Map Attachment))
    → str_eq n m ≡ false
    → file_at m f (Map.insert n x files) ≡ file_at m f files
unfolding file_at
file_at-other n m f x files o = ground (arith, lookup-insert n m x files)

file_at-deleted :
    (n e f : Str) (files : Map (Map Attachment))
    → str_eq e f ≡ false
    → file_at n f (Map.insert n (Map.delete e (or_default [] (Map.lookup n files))) files)
      ≡ file_at n f files
unfolding file_at
file_at-deleted n e f files o = ground (
  arith,
  lookup-insert_self n (Map.delete e (or_default [] (Map.lookup n files))) files,
  lookup-delete e f (or_default [] (Map.lookup n files)),
)

module _ (answers : Answers) (r : Run) (start : Map (Map Attachment)) where
  -- The files of these nodes are as at the start.
  abbrev pub NodesSame : List Str → Files → Type 0
  NodesSame nodes s =
      (m f : Str) → contains m nodes ≡ true → file_at m f s.files ≡ file_at m f start

  -- So are these files of the node.
  abbrev pub FilesSame : Str → List Str → Files → Type 0
  FilesSame n es s = (f : Str) → contains f es ≡ true → file_at n f s.files ≡ file_at n f start

  module _ (n : Str) (nodes : List Str) (other : contains n nodes ≡ false) where
    differs : (m : Str) → contains m nodes ≡ true → str_eq n m ≡ false
    differs m c = elim (Bool-cases (str_eq n m)) [
      | inl q ↦ absurd (clash (ap (λ x. contains x nodes) ((str_eq_iff n m).0 q)))
      | inr q ↦ q
    ]
      where
        clash : contains n nodes ≡ contains m nodes → ⊥
        clash k = cc

    write_one-NodesSame :
        (add : Bool) (e : Str) (s : Files)
        → NodesSame nodes s
        → Returns (NodesSame nodes) (write_one answers r add n e s)
    unfolding write_one add_one remove_one upload_fetched upload_answered remove_answered
    write_one-NodesSame false e s k = search (Returns->>=, answered)
      where
        answered :
            (o : Answer (Unit {0})) → Returns (NodesSame nodes) (remove_answered answers r n e s o)
        answered (failed x) = search (Returns->>, Returns-give, k)
        answered (given u) =
            Returns-give (NodesSame nodes) _
              (λ m f c. file_at-other n m f _ s.files (differs m c) ∙ k m f c)
    write_one-NodesSame true e s k =
        search (Returns-if, Returns->>=, Returns->>, Returns-give, k, fetched)
      where
        answered :
            (o : Answer (Unit {0})) → Returns (NodesSame nodes) (upload_answered answers r n e s o)
        answered (failed x) = search (Returns->>, Returns-give, k)
        answered (given u) =
            Returns-give (NodesSame nodes) _
              (λ m f c. file_at-other n m f _ s.files (differs m c) ∙ k m f c)

        fetched : (o : Answer Str) → Returns (NodesSame nodes) (upload_fetched answers r n e s o)
        fetched (failed x) = search (Returns->>, Returns-give, k)
        fetched (given c) = search (Returns->>=, answered)

    pub write_each-NodesSame :
        (add : Bool) (es : List Str) (s : Files)
        → NodesSame nodes s
        → Returns (NodesSame nodes) (write_each answers r add n es s)
    unfolding write_each
    write_each-NodesSame add [] s k = Returns-give (NodesSame nodes) s k
    write_each-NodesSame add (e ∷ es) s k =
        Returns->>=_of (NodesSame nodes) (NodesSame nodes) (write_one answers r add n e s)
          (write_each answers r add n es) (write_one-NodesSame add e s k)
          (λ next q. write_each-NodesSame add es next q)

  pub remove_one-FilesSame :
      (n e : Str) (es : List Str) (s : Files)
      → contains e es ≡ false
      → FilesSame n (e ∷ es) s
      → Returns (FilesSame n es) (write_one answers r false n e s)
  unfolding write_one remove_one remove_answered contains
  remove_one-FilesSame n e es s new k = search (Returns->>=, answered)
    where
      later : FilesSame n es s
      later f c = k f (ground arith)

      differs_from : (f : Str) → contains f es ≡ true → str_eq e f ≡ false
      differs_from f c = differs e es new f c

      answered :
          (o : Answer (Unit {0})) → Returns (FilesSame n es) (remove_answered answers r n e s o)
      answered (failed x) = search (Returns->>, Returns-give, later)
      answered (given u) =
          Returns-give (FilesSame n es) _
            (λ f c. file_at-deleted n e f s.files (differs_from f c) ∙ later f c)
