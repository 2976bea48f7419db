-- ===== src/Issues/Attachments/Tests.antt =====
-- Runs of internal/issues/attachments.go, and its theorems at them.
use forge_sync.Prelude.Sort.{sort}
use forge_sync.Prelude.{
  cut, keep, str_eq, contains, parse_int, arith, format_int, refl, ◌≡◌, true, ◌∷◌, contains_of_all,
  All, [], all, distinct, Bool, bytes,
}
use forge_sync.Prelude.Map
use forge_sync.Prelude.Map.{has, Map}
use forge_sync.Set.{
  join, present, value, none_have, all_have, settle_member, settle_members, settled, split,
  append_each, nodes_without, nodes_with, sort_each, mark, decide_member, mark_sets, decide_members,
  from, settle, members, decide, at,
}
use forge_sync.Set.Settle.{AllProper}
use forge_sync.Set.Text.{is_member}
use forge_sync.Set.Writes.{Told, write_member, set_member}
use forge_sync.Prelude.Text.{digits_on, digits_of, digits_from, in_range, is_digit}
use forge_sync.Issues.Attachments.Laws.{attachment_member-parts, sync_attachments-Allowed, Allowed}
use forge_sync.Issues.Attachments.{
  names_of, cut, str_eq, parse_int, size_or_nearest, file_at, fetch_answered, fetch_on, fetch_each,
  fetch_attachment, upload_answered, upload_fetched, remove_one, attachment_name, add_one,
  format_int, write_one, is_external, attachment_member, write_each, put_first, true, failed,
  attachment_size, [], write_nodes, put_each, Bool, given, bytes, sync_attachments, attachments_on,
  have_of, Answers, Run, Attachment, uploaded, downloaded, incomplete,
}

-- A file of twelve bytes is on se only; dk takes no uploads.
abbrev note : Attachment
note = record {
  id = 4;
  name = bytes "note.txt";
  size = 12;
  kind = bytes "attachment";
  download_url = bytes "/a/4";
}

abbrev on_se : Map (Map Attachment)
on_se = (bytes "se", (bytes "12:note.txt", note) ∷ []) ∷ (bytes "dk", []) ∷ []

abbrev refusing : Answers
refusing = record {
  remove = λ n a h. given tt;
  upload = λ n author name content h. failed (bytes "type");
  download = λ n url most h. given (bytes "hello, world");
}

abbrev small_run : Run
small_run = record {
  nodes = bytes "se" ∷ bytes "dk" ∷ [];
  author = bytes "ada";
  attachment_max = 100;
}

abbrev have_se : Map (Map Bool)
have_se = (bytes "se", (bytes "12:note.txt", true) ∷ []) ∷ (bytes "dk", []) ∷ []

attachments_on_run :
    attachments_on (note ∷ record note { kind = bytes "external" } ∷ record note { id = 5 } ∷ [])
    ≡ (bytes "12:note.txt", note) ∷ []
unfolding attachments_on put_each put_first is_external attachment_member format_int str_eq
    Map.lookup Map.insert digits_on
attachments_on_run = refl

refused_run : sync_attachments refusing small_run [] on_se [] ≡ (
  given (have_se, []),
  incomplete
      ∷ uploaded (bytes "dk") (bytes "ada") (bytes "note.txt") (bytes "hello, world")
      ∷ downloaded (bytes "se") (bytes "/a/4")
      ∷ [],
)
unfolding sync_attachments write_nodes write_each write_one add_one remove_one upload_fetched
    upload_answered fetch_attachment fetch_each fetch_on fetch_answered file_at attachment_size
    attachment_name size_or_nearest parse_int from settle decide have_of decide_members
    decide_member members mark_sets mark sort_each nodes_with nodes_without append_each at split
    settled settle_members settle_member all_have none_have value present join keep contains has
    sort str_eq Map.keys Map.insert Map.lookup Map.delete cut names_of in_range digits_of
    digits_from is_digit format_int write_member set_member is_member
refused_run = refl

on_se-distinct : distinct (Map.keys (have_of on_se)) ≡ true
unfolding distinct Map.keys contains str_eq have_of
on_se-distinct = refl

have_se_proper_all : all is_member (members have_se (from [])) ≡ true
unfolding all members sort Map.keys mark_sets mark Map.insert str_eq is_member from decide
    decide_members decide_member sort_each nodes_with nodes_without append_each at split settle
    settled settle_members settle_member all_have none_have value present join keep contains has
    Map.lookup Map.delete
have_se_proper_all = refl

have_se_proper : AllProper have_se (from [])
have_se_proper k h = contains_of_all is_member k (members have_se (from [])) have_se_proper_all h

dk-Told : Told have_se (from []) (bytes "dk") (bytes "12:note.txt") true
unfolding from decide at decide_members decide_member members mark_sets mark sort_each nodes_with
    nodes_without append_each split settle settled settle_members settle_member all_have none_have
    value present join keep contains has sort str_eq Map.keys Map.insert Map.lookup Map.delete
dk-Told = refl

attachment_member-parts_example :
    (attachment_size (attachment_member note) ≡ 12)
    × (attachment_name (attachment_member note) ≡ bytes "note.txt")
attachment_member-parts_example = attachment_member-parts note (omega arith)

-- The file was taken away on dk since the base was written, so that it goes on se too.
small_run_distinct : distinct small_run.nodes ≡ true
unfolding distinct contains str_eq
small_run_distinct = refl

sync_attachments-Allowed_example :
    All
      (Allowed refusing small_run (have_of on_se) (from (bytes "12:note.txt")) on_se-distinct on_se)
      ((sync_attachments refusing small_run (bytes "12:note.txt") on_se []).1)
sync_attachments-Allowed_example =
    sync_attachments-Allowed refusing small_run (bytes "12:note.txt") on_se on_se-distinct
      small_run_distinct
