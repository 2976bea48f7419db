-- ===== src/Issues/Attachments.antt =====
-- internal/issues/attachments.go: the files on one issue or comment, merged member by member. The
-- calls' answers are parameters; the log is left out. Sizes are never negative.
mod Untouched
pub mod Laws
mod Tests
use forge_sync.Prelude.{
  no_number, out_of_range, below_zero, ◌-◌, ◌^◌, ◌&&◌, not, parse_int, number, ◌++◌, ltb, true,
  false, Option, is_some, Bool, Parsed, format_int, ℕ, List, [], ◌∷◌, Str, bytes, str_eq, cut, none,
  some, or_default, if◌then◌else◌,
}
use forge_sync.Prelude.Effects.{
  fail, Answer, given, failed, Effect, ◌>>=◌, ◌>>◌, give, call, tell, attempt,
}
use forge_sync.Prelude.Map
use forge_sync.Prelude.Map.{Map}
use forge_sync.Set.{Plan, at, decide, from, settle}
use forge_sync.Set.Writes.{write_member}

-- forgejo.Attachment, without the date.
pub record Attachment : Type 0 where
  pub id : ℕ
  pub name : Str
  pub size : ℕ
  pub kind : Str
  pub download_url : Str

-- The zero value.
abbrev pub no_attachment : Attachment
no_attachment = record { id = 0; name = []; size = 0; kind = []; download_url = [] }

-- attachmentMember.
unfoldable pub attachment_member : Attachment → Str
attachment_member a = format_int a.size ++ b':' ∷ a.name

-- attachmentName.
unfoldable pub attachment_name : Str → Str
attachment_name member = or_default [] (cut b':' member).1

-- What ParseInt gives along with an error that is not looked at.
-- strconv gives a range error before it comes to a later byte that is no digit, which `parse_int`
-- takes for no number.
unfoldable pub size_or_nearest : Parsed → ℕ
size_or_nearest (number n) = n
size_or_nearest below_zero = 0
size_or_nearest out_of_range = 2 ^ 63 - 1
size_or_nearest no_number = 0

-- attachmentSize.
unfoldable pub attachment_size : Str → ℕ
attachment_size member = size_or_nearest (parse_int (cut b':' member).0)

unfoldable pub is_external : Attachment → Bool
is_external a = not (str_eq a.kind []) && not (str_eq a.kind (bytes "attachment"))

unfoldable pub put_first : Attachment → Map Attachment → Map Attachment
put_first a out =
    if is_external a
    then out
    else if is_some (Map.lookup (attachment_member a) out)
    then out
    else Map.insert (attachment_member a) a out

unfoldable pub put_each : List Attachment → Map Attachment → Map Attachment
put_each [] out = out
put_each (a ∷ list) out = put_each list (put_first a out)

-- attachmentsOn.
unfoldable pub attachments_on : List Attachment → Map Attachment
attachments_on list = put_each list []

unfoldable pub names_of : Map Attachment → Map Bool
names_of [] = []
names_of ((e, a) ∷ m) = (e, true) ∷ names_of m

-- `have`, of what the nodes' files are.
unfoldable pub have_of : Map (Map Attachment) → Map (Map Bool)
have_of [] = []
have_of ((n, m) ∷ files) = (n, names_of m) ∷ have_of files

pub record Files : Type 0 where
  pub files : Map (Map Attachment)
  pub have : Map (Map Bool)

pub data Event : Type 0 where
  -- act.remove and act.upload, on a node; the upload's author, name and content.
  removed : Str → Attachment → Event
  uploaded : Str → Str → Str → Str → Event
  downloaded : Str → Str → Event
  incomplete : Event

abbrev pub History : Type 0
History = List Event

pub record Answers : Type 0 where
  pub remove : Str → Attachment → History → Answer (Unit {0})
  pub upload : Str → Str → Str → Str → History → Answer (Unit {0})
  -- Download of at most so many bytes, from a node.
  pub download : Str → Str → ℕ → History → Answer Str

-- The run: its nodes, the primary first, the issue's author, and opts.AttachmentMax.
pub record Run : Type 0 where
  pub nodes : List Str
  pub author : Str
  pub attachment_max : ℕ

-- at[n][e].
unfoldable pub file_at : Str → Str → Map (Map Attachment) → Option Attachment
file_at n e files = Map.lookup e (or_default [] (Map.lookup n files))

module _ (answers : Answers) (r : Run) where
  -- What becomes of a download: an error is kept for when no later node has the file.
  unfoldable pub fetch_answered : Answer Str → (Str → Effect Event Str) → Effect Event Str
  fetch_answered (failed x) rest = rest x
  fetch_answered (given content) rest = give content

  unfoldable pub fetch_on :
      Str → Option Attachment → Str → (Str → Effect Event Str) → Effect Event Str
  fetch_on n none last rest = rest last
  fetch_on n (some a) last rest = if str_eq a.download_url [] then rest last else (do
    o ←
        attempt
          (call (answers.download n a.download_url r.attachment_max) (downloaded n a.download_url))
    fetch_answered o rest)

  unfoldable pub fetch_each : Str → Map (Map Attachment) → List Str → Str → Effect Event Str
  fetch_each e files [] last = fail last
  fetch_each e files (n ∷ nodes) last =
      fetch_on n (file_at n e files) last (fetch_each e files nodes)

  -- fetchAttachment.
  unfoldable pub fetch_attachment : Str → Map (Map Attachment) → Effect Event Str
  fetch_attachment e files = fetch_each e files r.nodes (bytes "no node has the file to copy")

  unfoldable pub remove_answered : Str → Str → Files → Answer (Unit {0}) → Effect Event Files
  remove_answered n e s (failed x) = do tell incomplete; give s
  remove_answered n e s (given u) = give (record {
    files = Map.insert n (Map.delete e (or_default [] (Map.lookup n s.files))) s.files;
    have = write_member n e false s.have;
  })

  -- One turn of the loop over what a node is to remove.
  unfoldable pub remove_one : Str → Str → Files → Effect Event Files
  remove_one n e s = do
    o ← attempt (
        call (answers.remove n (or_default no_attachment (file_at n e s.files)))
          (removed n (or_default no_attachment (file_at n e s.files))))
    remove_answered n e s o

  -- The node's set is there, since the merge told it something.
  unfoldable pub upload_answered : Str → Str → Files → Answer (Unit {0}) → Effect Event Files
  upload_answered n e s (failed x) = do tell incomplete; give s
  upload_answered n e s (given u) = give (record {
    files =
        Map.insert n
          (Map.insert e (record no_attachment { name = attachment_name e })
            (or_default [] (Map.lookup n s.files)))
          s.files;
    have = write_member n e true s.have;
  })

  unfoldable pub upload_fetched : Str → Str → Files → Answer Str → Effect Event Files
  upload_fetched n e s (failed x) = do tell incomplete; give s
  upload_fetched n e s (given content) = do
    o ← attempt (
        call (answers.upload n r.author (attachment_name e) content)
          (uploaded n r.author (attachment_name e) content))
    upload_answered n e s o

  -- One turn of the loop over what a node is to add.
  unfoldable pub add_one : Str → Str → Files → Effect Event Files
  add_one n e s =
      if ltb r.attachment_max (attachment_size e)
      then (do tell incomplete; give s)
      else (do content ← attempt (fetch_attachment e s.files); upload_fetched n e s content)

  unfoldable pub write_one : Bool → Str → Str → Files → Effect Event Files
  write_one true n e s = add_one n e s
  write_one false n e s = remove_one n e s

  unfoldable pub write_each : Bool → Str → List Str → Files → Effect Event Files
  write_each add n [] s = give s
  write_each add n (e ∷ es) s = do next ← write_one add n e s; write_each add n es next

  unfoldable pub write_nodes : Plan → List Str → Files → Effect Event Files
  write_nodes plan [] s = give s
  write_nodes plan (n ∷ nodes) s = do
    less ← write_each false n (at n plan.remove) s
    more ← write_each true n (at n plan.add) less
    write_nodes plan nodes more

  -- syncAttachments: what the nodes have after it, and the new base.
  unfoldable pub sync_attachments : Str → Map (Map Attachment) → Effect Event (Map (Map Bool) × Str)
  sync_attachments base files = do
    after ←
        write_nodes (decide (have_of files) (from base)) r.nodes
          (record { files = files; have = have_of files })
    give (after.have, settle after.have (from base))
