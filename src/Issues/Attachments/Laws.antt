-- ===== src/Issues/Attachments/Laws.antt =====
-- internal/issues/attachments.go: members of files, and what syncAttachments calls and leaves.
use forge_sync.Set.Once.{decide-once}
use forge_sync.Issues.Attachments.Untouched.{
  write_each-NodesSame, remove_one-FilesSame, NodesSame, FilesSame,
}
use forge_sync.Set.Converge.{agreed, Moved-refl}
use forge_sync.Prelude.Effects.{
  Keeps->>=_of, Keeps-call, Keeps-if, call, Keeps-attempt, tell, attempt, Returns-if, ◌>>◌,
  Returns->>=, Keeps-tell, ◌>>=◌, Effect, Returns->>, Keeps-if_of, Keeps->>, Returns->>=_of,
  Returns-give, Keeps-give, Keeps-fail, give, Returns, Keeps, Keeps->>=,
}
use forge_sync.Set.Settle.{AllProper}
use forge_sync.Prelude.Text.{is_digit}
use forge_sync.Prelude.{
  ap, is_some, sym, ◌∙◌, parse_int-format_int, none, ◌^◌, str_eq, or_default, Option, ltb,
  str_eq_iff, refl, subst, str_eq_refl, [], format_int-is_digit, arith, ◌∷◌, All, ◌≤◌, cut-append,
  ◌==◌, List, false, some, not, contains, format_int, true, ◌<◌, ◌≡◌, cut, distinct, Str, Bool, all,
}
use forge_sync.Prelude.Map
use forge_sync.Prelude.Map.{has, Map}
use forge_sync.Set.{at, decide, from, settle}
use forge_sync.Set.Writes.{Told, Told-IsWanted, IsWanted, Round, Round-write, Round-retry}
use forge_sync.Issues.Attachments.{
  is_some, names_of, str_eq, file_at, call, no_attachment, fetch_on, tell, attempt, or_default,
  Option, fetch_answered, Effect, ltb, failed, give, [], Answer, given, fetch_attachment,
  upload_answered, remove_answered, sync_attachments, write_nodes, write_each, List, write_one,
  add_one, upload_fetched, remove_one, fetch_each, false, some, not, format_int, true, have_of,
  size_or_nearest, attachment_name, cut, Str, Bool, attachment_size, attachment_member, Event,
  removed, uploaded, downloaded, incomplete, Answers, Run, Files, History, Attachment,
}

no_colon : (s : Str) → all is_digit s ≡ true → all (λ c. not (c == b':')) s ≡ true
unfolding all is_digit
no_colon [] h = refl
no_colon (c ∷ s) h = ground (arith, no_colon s)

cut-member : (a : Attachment) → cut b':' (attachment_member a) ≡ (format_int a.size, some a.name)
unfolding attachment_member
cut-member a =
    cut-append b':' (format_int a.size) a.name
      (no_colon (format_int a.size) (format_int-is_digit a.size))

-- From the member of an attachment whose size is below 2 ^ 63 its size and its name are read back,
-- whatever colons the name has.
pub attachment_member-parts :
    (a : Attachment)
    → a.size < 2 ^ 63
    → (attachment_size (attachment_member a) ≡ a.size)
      × (attachment_name (attachment_member a) ≡ a.name)
unfolding attachment_size attachment_name size_or_nearest
attachment_member-parts a h =
    (rw (cut-member a) (rw (parse_int-format_int a.size h) refl), rw (cut-member a) refl)

module _ (answers : Answers) (r : Run) (have : Map (Map Bool)) (base : Map Bool)
    (names : distinct (Map.keys have) ≡ true) (files : Map (Map Attachment)) where
  abbrev pub Allowed : Event → Type 0
  Allowed (removed n a) =
      (e : Str) × (file_at n e files ≡ some a) × IsWanted have base names n e false
  Allowed (uploaded n author name content) =
      (e : Str) × (author ≡ r.author)
      × (name ≡ attachment_name e)
      × (attachment_size e ≤ r.attachment_max)
      × IsWanted have base names n e true
  Allowed (downloaded n url) = Unit
  Allowed incomplete = Unit

  fetch_each-Keeps :
      (e : Str) (files : Map (Map Attachment)) (nodes : List Str) (last : Str)
      → Keeps Allowed (fetch_each answers r e files nodes last)
  unfolding fetch_each fetch_on fetch_answered
  fetch_each-Keeps e files [] last = search (Keeps-fail)
  fetch_each-Keeps e files (n ∷ nodes) last =
      fetch_on-Keeps n (file_at n e files) last (fetch_each answers r e files nodes)
        (fetch_each-Keeps e files nodes)
    where
      fetch_answered-Keeps :
          (o : Answer Str) (rest : Str → Effect Event Str)
          → ((x : Str) → Keeps Allowed (rest x))
          → Keeps Allowed (fetch_answered answers r o rest)
      fetch_answered-Keeps (failed x) rest k = k x
      fetch_answered-Keeps (given content) rest k = Keeps-give Allowed content

      fetch_on-Keeps :
          (n : Str) (o : Option Attachment) (last : Str) (rest : Str → Effect Event Str)
          → ((x : Str) → Keeps Allowed (rest x))
          → Keeps Allowed (fetch_on answers r n o last rest)
      fetch_on-Keeps n none last rest k = k last
      fetch_on-Keeps n (some a) last rest k =
          Keeps-if Allowed (str_eq a.download_url []) (rest last)
            (do
              o ← attempt (
                  call (answers.download n a.download_url r.attachment_max)
                    (downloaded n a.download_url))
              fetch_answered answers r o rest)
            (k last)
            (Keeps->>= Allowed
              (attempt (
                call (answers.download n a.download_url r.attachment_max)
                  (downloaded n a.download_url)))
              (λ o. fetch_answered answers r o rest) (search (Keeps-attempt, Keeps-call, tt))
              (λ o. fetch_answered-Keeps o rest k))

  module _ (n e : Str) (s : Files) where
    remove_one-Keeps :
        (a : Attachment)
        → file_at n e files ≡ some a
        → file_at n e s.files ≡ file_at n e files
        → Told have base n e false
        → Keeps Allowed (remove_one answers r n e s)
    unfolding remove_one remove_answered
    remove_one-Keeps a there same t =
        let m : Allowed (removed n (or_default no_attachment (file_at n e s.files))) = (
          e,
          there ∙ ap some (sym (ap (or_default no_attachment) (same ∙ there))),
          Told-IsWanted have base names n e false t,
        ) in
        Keeps->>= Allowed
          (attempt (
            call (answers.remove n (or_default no_attachment (file_at n e s.files)))
              (removed n (or_default no_attachment (file_at n e s.files)))))
          (remove_answered answers r n e s) (search (Keeps-attempt, Keeps-call, m)) answered
      where
        answered : (o : Answer (Unit {0})) → Keeps Allowed (remove_answered answers r n e s o)
        answered (failed x) = search (Keeps->>, Keeps-tell, Keeps-give, tt)
        answered (given u) = search (Keeps-give)

    upload_fetched-Keeps :
        (o : Answer Str)
        → attachment_size e ≤ r.attachment_max
        → Told have base n e true
        → Keeps Allowed (upload_fetched answers r n e s o)
    unfolding upload_fetched upload_answered
    upload_fetched-Keeps (failed x) b t = search (Keeps->>, Keeps-tell, Keeps-give, tt)
    upload_fetched-Keeps (given content) b t =
        let m : Allowed (uploaded n r.author (attachment_name e) content) =
          (e, refl, refl, b, Told-IsWanted have base names n e true t) in
        Keeps->>= Allowed
          (attempt (
            call (answers.upload n r.author (attachment_name e) content)
              (uploaded n r.author (attachment_name e) content)))
          (upload_answered answers r n e s) (search (Keeps-attempt, Keeps-call, m)) answered
      where
        answered : (o : Answer (Unit {0})) → Keeps Allowed (upload_answered answers r n e s o)
        answered (failed x) = search (Keeps->>, Keeps-tell, Keeps-give, tt)
        answered (given u) = search (Keeps-give)

    add_one-Keeps : Told have base n e true → Keeps Allowed (add_one answers r n e s)
    unfolding add_one fetch_attachment
    add_one-Keeps t =
        Keeps-if_of Allowed (ltb r.attachment_max (attachment_size e)) (do tell incomplete; give s)
          (do
            content ← attempt (fetch_attachment answers r e s.files)
            upload_fetched answers r n e s content)
          (λ b. search (Keeps->>, Keeps-tell, Keeps-give, tt))
          (λ b.
            Keeps->>= Allowed (attempt (fetch_attachment answers r e s.files))
              (upload_fetched answers r n e s) (search (Keeps-attempt, fetch_each-Keeps))
              (λ o. upload_fetched-Keeps o (small b) t))
      where
        small :
            ltb r.attachment_max (attachment_size e) ≡ false → attachment_size e ≤ r.attachment_max
        small b = ground arith

    -- What the nodes have after one turn.
    remove_one-Round :
        Told have base n e false
        → Round have base names s.have
        → Returns (λ t. Round have base names t.have) (remove_one answers r n e s)
    unfolding remove_one remove_answered
    remove_one-Round t k = search (Returns->>=, answered)
      where
        answered :
            (o : Answer (Unit {0}))
            → Returns (λ t. Round have base names t.have) (remove_answered answers r n e s o)
        answered (failed x) = search (Returns->>, Returns-give, k)
        answered (given u) = search (Returns-give, Round-write have base names n e false s.have t k)

    add_one-Round :
        Told have base n e true
        → Round have base names s.have
        → Returns (λ t. Round have base names t.have) (add_one answers r n e s)
    unfolding add_one upload_fetched upload_answered
    add_one-Round t k = search (Returns-if, Returns->>=, Returns->>, Returns-give, k, fetched)
      where
        answered :
            (o : Answer (Unit {0}))
            → Returns (λ t. Round have base names t.have) (upload_answered answers r n e s o)
        answered (failed x) = search (Returns->>, Returns-give, k)
        answered (given u) = search (Returns-give, Round-write have base names n e true s.have t k)

        fetched :
            (o : Answer Str)
            → Returns (λ t. Round have base names t.have) (upload_fetched answers r n e s o)
        fetched (failed x) = search (Returns->>, Returns-give, k)
        fetched (given c) = search (Returns->>=, answered)

  abbrev RoundOf : Files → Type 0
  RoundOf s = Round have base names s.have

  write_one-Round :
      (add : Bool) (n e : Str) (s : Files)
      → Told have base n e add
      → RoundOf s
      → Returns RoundOf (write_one answers r add n e s)
  unfolding write_one
  write_one-Round true n e s t k = add_one-Round n e s t k
  write_one-Round false n e s t k = remove_one-Round n e s t k

  -- A list of members that the node is told of.
  abbrev AllTold : Bool → Str → List Str → Type 0
  AllTold add n es = (e : Str) → contains e es ≡ true → Told have base n e add

  AllTold-split :
      (add : Bool) (n e : Str) (es : List Str)
      → AllTold add n (e ∷ es)
      → Told have base n e add × AllTold add n es
  unfolding contains
  AllTold-split add n e es t =
      (t e (ground (arith, str_eq_refl e)), λ j c. t j (ground (arith, str_eq_iff e j)))

  adds-Keeps :
      (n : Str) (es : List Str) (s : Files)
      → AllTold true n es
      → Keeps Allowed (write_each answers r true n es s)
  unfolding write_each write_one
  adds-Keeps n [] s t = search (Keeps-give)
  adds-Keeps n (e ∷ es) s t =
      let (first, later) = AllTold-split true n e es t in
      Keeps->>= Allowed (add_one answers r n e s) (write_each answers r true n es)
        (add_one-Keeps n e s first) (λ next. adds-Keeps n es next later)

  -- Each file that a node is told to remove was there at the start.
  abbrev Held : Type 0
  Held = (n e : Str) → Told have base n e false → (a : Attachment) × (file_at n e files ≡ some a)

  removes-Keeps :
      (n : Str) (es : List Str) (s : Files)
      → Held
      → distinct es ≡ true
      → FilesSame answers r files n es s
      → AllTold false n es
      → Keeps Allowed (write_each answers r false n es s)
  unfolding write_each distinct
  removes-Keeps n [] s held d same t = search (Keeps-give)
  removes-Keeps n (e ∷ es) s held d same t =
      let (first, later) = AllTold-split false n e es t in
      let (a, there) = held n e first in
      Keeps->>=_of (FilesSame answers r files n es) Allowed (write_one answers r false n e s)
        (write_each answers r false n es)
        (remove_one-FilesSame answers r files n e es s (ground arith) same)
        (unfold write_one in
          remove_one-Keeps n e s a there (same e (unfold contains in ground (arith, str_eq_refl e)))
            first)
        (λ next k. removes-Keeps n es next held (ground arith) k later)

  write_each-Round :
      (add : Bool) (n : Str) (es : List Str) (s : Files)
      → AllTold add n es
      → RoundOf s
      → Returns RoundOf (write_each answers r add n es s)
  unfolding write_each
  write_each-Round add n [] s t k = Returns-give RoundOf s k
  write_each-Round add n (e ∷ es) s t k =
      let (first, later) = AllTold-split add n e es t in
      Returns->>=_of RoundOf RoundOf (write_one answers r add n e s) (write_each answers r add n es)
        (write_one-Round add n e s first k) (λ next q. write_each-Round add n es next later q)

  -- A round over the nodes.
  write_nodes-Keeps :
      (nodes : List Str) (s : Files)
      → Held
      → ((n : Str) → distinct (at n (decide have base).remove) ≡ true)
      → distinct nodes ≡ true
      → NodesSame answers r files nodes s
      → Keeps Allowed (write_nodes answers r (decide have base) nodes s)
  unfolding write_nodes distinct
  write_nodes-Keeps [] s held once d same = Keeps-give Allowed s
  write_nodes-Keeps (n ∷ nodes) s held once d same =
      let new : contains n nodes ≡ false = ground arith in
      let rest : NodesSame answers r files nodes s =
        λ m f c. same m f (unfold contains in ground (arith, c)) in
      Keeps->>=_of (NodesSame answers r files nodes) Allowed
        (write_each answers r false n (at n (decide have base).remove) s)
        (λ less. do
          more ← write_each answers r true n (at n (decide have base).add) less
          write_nodes answers r (decide have base) nodes more)
        (write_each-NodesSame answers r files n nodes new false (at n (decide have base).remove) s
          rest)
        (removes-Keeps n (at n (decide have base).remove) s held (once n)
          (λ f c. same n f (unfold contains in ground (arith, str_eq_refl n))) (λ e t. t))
        (λ less k.
          Keeps->>=_of (NodesSame answers r files nodes) Allowed
            (write_each answers r true n (at n (decide have base).add) less)
            (write_nodes answers r (decide have base) nodes)
            (write_each-NodesSame answers r files n nodes new true (at n (decide have base).add)
              less k)
            (adds-Keeps n (at n (decide have base).add) less (λ e t. t))
            (λ more q. write_nodes-Keeps nodes more held once (ground arith) q))

  write_nodes-Round :
      (nodes : List Str) (s : Files)
      → RoundOf s
      → Returns RoundOf (write_nodes answers r (decide have base) nodes s)
  unfolding write_nodes
  write_nodes-Round [] s k = Returns-give RoundOf s k
  write_nodes-Round (n ∷ nodes) s k =
      Returns->>=_of RoundOf RoundOf
        (write_each answers r false n (at n (decide have base).remove) s)
        (λ less. do
          more ← write_each answers r true n (at n (decide have base).add) less
          write_nodes answers r (decide have base) nodes more)
        (write_each-Round false n (at n (decide have base).remove) s (λ e t. t) k)
        (λ less q.
          Returns->>=_of RoundOf RoundOf
            (write_each answers r true n (at n (decide have base).add) less)
            (write_nodes answers r (decide have base) nodes)
            (write_each-Round true n (at n (decide have base).add) less (λ e t. t) q)
            (write_nodes-Round nodes))

-- A member of a node's set is a file of the node.
has-names_of : (e : Str) (m : Map Attachment) → has e (names_of m) ≡ is_some (Map.lookup e m)
unfolding has names_of Map.lookup
has-names_of e [] = refl
has-names_of e ((k, a) ∷ m) = ground (arith, has-names_of e m)

lookup-have_of :
    (n : Str) (files : Map (Map Attachment)) (s : Map Bool)
    → Map.lookup n (have_of files) ≡ some s
    → s ≡ names_of (or_default [] (Map.lookup n files))
unfolding have_of Map.lookup
lookup-have_of n [] s h = cc
lookup-have_of n ((m, t) ∷ files) s h = ground (arith, lookup-have_of n files s)

held_file : (o : Option Attachment) → is_some o ≡ true → (a : Attachment) × (o ≡ some a)
held_file none h = cc
held_file (some a) h = (a, refl)

module _ (answers : Answers) (r : Run) (base : Str) (files : Map (Map Attachment))
    (names : distinct (Map.keys (have_of files)) ≡ true) where
  abbrev start : Files
  start = record { files = files; have = have_of files }

  removed_held :
      (n e : Str)
      → Told (have_of files) (from base) n e false
      → (a : Attachment) × (file_at n e files ≡ some a)
  unfolding file_at
  removed_held n e t =
      let (s, was, holds, held, lacked) =
        Told-IsWanted (have_of files) (from base) names n e false t in
      held_file (Map.lookup e (or_default [] (Map.lookup n files))) (
        sym (has-names_of e (or_default [] (Map.lookup n files)))
        ∙ ap (has e) (sym (lookup-have_of n files s was))
        ∙ holds)

  -- Where no node is named twice, in the run or among the nodes' files: each file that
  -- syncAttachments uploads to a node is uploaded as the author's, has the name and a size within
  -- the limit that a member says, and the node and the base lack the member and some node has it;
  -- each file that it removes from a node is the one that the node had for a member at the start,
  -- where the node and the base have the member and some node lacks it.
  pub sync_attachments-Allowed :
      distinct r.nodes ≡ true
      → All
          (Allowed answers r (have_of files) (from base) names files)
          ((sync_attachments answers r base files []).1)
  unfolding sync_attachments
  sync_attachments-Allowed d =
      (Keeps->>= (Allowed answers r (have_of files) (from base) names files)
          (write_nodes answers r (decide (have_of files) (from base)) r.nodes start)
          (λ after. give (after.have, settle after.have (from base)))
          (write_nodes-Keeps answers r (have_of files) (from base) names files r.nodes start
            removed_held (λ n. decide-once n (have_of files) (from base) names) d (λ m f c. refl))
          (λ after.
            Keeps-give (Allowed answers r (have_of files) (from base) names files)
              (after.have, settle after.have (from base)))).keeps
        [] tt

  -- What comes of a run is a round of writes, with the base settled on it.
  Settled : Map (Map Bool) × Str → Type 0
  Settled (after, text) =
      Round (have_of files) (from base) names after × (text ≡ settle after (from base))

  sync_attachments-Settled : Returns Settled (sync_attachments answers r base files)
  unfolding sync_attachments Settled
  sync_attachments-Settled =
      Returns->>=_of (λ s. Round (have_of files) (from base) names s.have) Settled
        (write_nodes answers r (decide (have_of files) (from base)) r.nodes start)
        (λ after. give (after.have, settle after.have (from base)))
        (write_nodes-Round answers r (have_of files) (from base) names files r.nodes start
          (Moved-refl (agreed (have_of files) (from base)) (have_of files), names))
        (λ after k. Returns-give Settled (after.have, settle after.have (from base)) (k, refl))

  -- Where no node is named twice, downloads, uploads and removals may fail at any place, and after
  -- the run no member has a comma or is empty: what the next run would be told to write, with the
  -- base that this run returns and the sets as this run left them, this run was told to write too.
  pub sync_attachments-retry :
      (h h2 : History) (after : Map (Map Bool)) (text n e : Str) (add : Bool)
      → sync_attachments answers r base files h ≡ (given (after, text), h2)
      → AllProper after (from base)
      → Told after (from text) n e add
      → Told (have_of files) (from base) n e add
  unfolding Settled
  sync_attachments-retry h h2 after text n e add o proper t =
      let (k, same) = sync_attachments-Settled.returns (after, text) h h2 o in
      Round-retry (have_of files) (from base) names n e add after k proper
        (subst (λ x. Told after (from x) n e add) same t)
