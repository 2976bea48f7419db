-- ===== src/Issues/Items.antt =====
-- internal/issues/items.go: one label or milestone, with a copy on each node. What Forgejo and the
-- database answer is a parameter; the log is left out. What the snapshots hold is read from a
-- function, since a snapshot's own copies are not read again after they change.
pub mod Undone
pub mod Safety
mod Tests
use forge_sync.Issues.Merge.{merge, Merged}
use forge_sync.Prelude.{
  is_some, ℕ, Bool, true, false, not, List, [], ◌∷◌, Str, str_eq, bytes, Option, none, some,
  if◌then◌else◌, or_default,
}
use forge_sync.Prelude.Effects.{
  Answer, given, failed, Effect, ◌>>=◌, ◌>>◌, give, call, tell, attempt,
}
use forge_sync.Prelude.Map
use forge_sync.Prelude.Map.{Map}

abbrev pub Fields : Type 0
Fields = Map Str

-- store.RepoItem, without what no test reads.
pub record RepoItem : Type 0 where
  pub id : Str
  pub base : Fields
  pub copies : Map ℕ
  pub deleted_at : Option ℕ

-- itemKind: the field that names it, and the merged fields.
pub record ItemKind : Type 0 where
  pub key : Str
  pub fields : List Str

abbrev pub label_kind : ItemKind
label_kind = record {
  key = bytes "name";
  fields =
      bytes "name"
      ∷ bytes "color"
      ∷ bytes "description"
      ∷ bytes "exclusive"
      ∷ bytes "archived"
      ∷ [];
}

abbrev pub milestone_kind : ItemKind
milestone_kind = record {
  key = bytes "title";
  fields = bytes "title" ∷ bytes "description" ∷ bytes "state" ∷ bytes "due" ∷ [];
}

pub data Event : Type 0 where
  -- A field written on a node's copy, to a value.
  edited : Str → ℕ → Str → Str → Event
  created : Str → Fields → Event
  deleted : Str → ℕ → Event
  item_saved : RepoItem → Event
  record_deleted : Str → Event
  -- A conflict over a field, or over the deletion on a node.
  field_conflict : Str → Event
  deletion_conflict : Str → Event
  -- itemVanished and itemKept, of a node.
  vanished : Str → Event
  kept : Str → Event
  snapshot_put : Str → ℕ → Fields → Event
  -- The run is no longer complete.
  incomplete : Event

abbrev pub History : Type 0
History = List Event

-- What the calls answer: of a node, and of the copy's id there.
pub record Answers : Type 0 where
  pub edit : Str → ℕ → Str → Str → History → Answer (Unit {0})
  pub create : Str → Fields → History → Answer ℕ
  pub delete : Str → ℕ → History → Answer (Unit {0})
  -- The id that the store gives the record.
  pub save_item : RepoItem → History → Answer Str
  pub delete_record : Str → History → Answer (Unit {0})

-- What a run knows: its nodes, the primary first, and what each node's snapshot has by id.
pub record Run : Type 0 where
  pub nodes : List Str
  pub primary : Str
  pub now : ℕ
  pub snapshot : Str → ℕ → Option Fields

unfoldable pub field_of : Str → Fields → Str
field_of field f = or_default [] (Map.lookup field f)

-- sameFields.
unfoldable pub same_fields : Fields → Fields → List Str → Bool
same_fields f g [] = true
same_fields f g (field ∷ fields) =
    if not (str_eq (field_of field f) (field_of field g)) then false else same_fields f g fields

-- What the first loop of item finds.
pub record Look : Type 0 where
  pub present : Map Fields
  pub copies : Map ℕ
  pub is_deleted : Bool

-- The field's value on each node.
unfoldable pub values_of : Str → Map Fields → Map Str
values_of field [] = []
values_of field ((n, f) ∷ present) = (n, field_of field f) ∷ values_of field present

-- What a copy to be made has in the field after a conflict: the primary's value, or the base's.
unfoldable pub wanted : Str → Option Fields → Fields → Str
wanted field (some f) base = field_of field f
wanted field none base = field_of field base

pub record Merging : Type 0 where
  pub want : Fields
  pub base : Fields

module _ (answers : Answers) (r : Run) where
  -- One copy in the first loop of item, by what the snapshot has.
  unfoldable pub look_at : Str → Option Fields → Look → Effect Event Look
  look_at n (some f) l = give (record l { present = Map.insert n f l.present })
  look_at n none l =
      if not (str_eq n r.primary)
      then (do
        tell (vanished n)
        tell incomplete
        give (record l { copies = Map.delete n l.copies }))
      else give (record l { is_deleted = true })

  unfoldable pub look_mapped : Str → Option ℕ → Look → Effect Event Look
  look_mapped n none l = give l
  look_mapped n (some fid) l = if l.is_deleted then give l else look_at n (r.snapshot n fid) l

  unfoldable pub look_each : List Str → Look → Effect Event Look
  look_each [] l = give l
  look_each (n ∷ nodes) l = do next ← look_mapped n (Map.lookup n l.copies) l; look_each nodes next

  -- A copy deleted, or left for the next run.
  unfoldable pub delete_answered : Str → Map ℕ → Answer (Unit {0}) → Effect Event (Map ℕ)
  delete_answered n copies (failed e) = do tell incomplete; give copies
  delete_answered n copies (given u) = give (Map.delete n copies)

  -- A copy of an item that is gone on the primary, by what the snapshot has.
  unfoldable pub delete_copy :
      ItemKind → Fields → Str → ℕ → Option Fields → Map ℕ → Effect Event (Map ℕ)
  delete_copy k base n fid none copies = give (Map.delete n copies)
  delete_copy k base n fid (some f) copies =
      if not (same_fields f base k.fields)
      then (do tell (deletion_conflict n); tell (kept n); give copies)
      else (do
        o ← attempt (call (answers.delete n fid) (deleted n fid))
        delete_answered n copies o)

  unfoldable pub delete_mapped : ItemKind → Fields → Str → Option ℕ → Map ℕ → Effect Event (Map ℕ)
  delete_mapped k base n none copies = give copies
  delete_mapped k base n (some fid) copies = delete_copy k base n fid (r.snapshot n fid) copies

  unfoldable pub delete_each : ItemKind → Fields → List Str → Map ℕ → Effect Event (Map ℕ)
  delete_each k base [] copies = give copies
  delete_each k base (n ∷ nodes) copies = do
    left ← delete_mapped k base n (Map.lookup n copies) copies
    delete_each k base nodes left

  unfoldable pub first_time : Option ℕ → Option ℕ
  first_time none = some r.now
  first_time (some t) = some t

  abbrev pub save : RepoItem → Effect Event Str
  save it = call (answers.save_item it) (item_saved it)

  -- The record goes with its last copy.
  unfoldable pub deleted_saved : Map ℕ → RepoItem → Effect Event (Bool × RepoItem)
  deleted_saved [] it = do
    call (answers.delete_record it.id) (record_deleted it.id)
    give (true, it)
  deleted_saved (c ∷ copies) it = do save it; give (false, it)

  -- item, for an item that is gone on the primary.
  unfoldable pub item_deleted : ItemKind → RepoItem → Map ℕ → Effect Event (Bool × RepoItem)
  item_deleted k it copies = do
    left ← delete_each k it.base r.nodes (Map.delete r.primary copies)
    deleted_saved left (record it { copies = left; deleted_at = first_time it.deleted_at })

  -- One write of a field: an error leaves it for the next run.
  unfoldable pub edit_answered : Answer (Unit {0}) → Effect Event (Unit {0})
  edit_answered (failed e) = tell incomplete
  edit_answered (given u) = give tt

  unfoldable pub edit_one : Str → Str → Str → ℕ → Effect Event (Unit {0})
  edit_one field value n fid = do
    o ← attempt (call (answers.edit n fid field value) (edited n fid field value))
    edit_answered o

  unfoldable pub edit_each : Str → Str → Map ℕ → List Str → Effect Event (Unit {0})
  edit_each field value copies [] = give tt
  edit_each field value copies (n ∷ writes) = do
    edit_one field value n (or_default 0 (Map.lookup n copies))
    edit_each field value copies writes

  -- One field, by what merge says of its values.
  unfoldable pub merge_field_by : Str → Map Fields → Map ℕ → Merged → Merging → Effect Event Merging
  merge_field_by field present copies d m =
      if d.conflict
      then (do
        tell (field_conflict field)
        give (record m {
          want = Map.insert field (wanted field (Map.lookup r.primary present) m.base) m.want;
        }))
      else (do
        edit_each field d.value copies d.writes
        give (record m {
          want = Map.insert field d.value m.want;
          base = Map.insert field d.value m.base;
        }))

  -- One turn of the loop over the fields.
  unfoldable pub merge_field : Map Fields → Map ℕ → Str → Merging → Effect Event Merging
  merge_field present copies field m =
      merge_field_by field present copies (merge (values_of field present) (field_of field m.base))
        m

  unfoldable pub merge_fields : Map Fields → Map ℕ → List Str → Merging → Effect Event Merging
  merge_fields present copies [] m = give m
  merge_fields present copies (field ∷ fields) m = do
    next ← merge_field present copies field m
    merge_fields present copies fields next

  unfoldable pub create_answered : Str → Fields → RepoItem → Answer ℕ → Effect Event RepoItem
  create_answered n want it (failed e) = do tell incomplete; give it
  create_answered n want it (given fid) = do
    tell (snapshot_put n fid want)
    save (record it { copies = Map.insert n fid it.copies })
    give (record it { copies = Map.insert n fid it.copies })

  -- One turn of the loop over the nodes that have no copy.
  unfoldable pub create_on : Str → Fields → Option ℕ → RepoItem → Effect Event RepoItem
  create_on n want (some fid) it = give it
  create_on n want none it = do
    o ← attempt (call (answers.create n want) (created n want))
    create_answered n want it o

  unfoldable pub create_each : Fields → List Str → RepoItem → Effect Event RepoItem
  create_each want [] it = give it
  create_each want (n ∷ nodes) it = do
    next ← create_on n want (Map.lookup n it.copies) it
    create_each want nodes next

  -- item, for an item that some node has.
  unfoldable pub item_kept : ItemKind → RepoItem → Look → Effect Event (Bool × RepoItem)
  item_kept k it l = do
    m ← merge_fields l.present l.copies k.fields (record { want = []; base = it.base })
    made ← create_each m.want r.nodes (record it { base = m.base; copies = l.copies })
    save made
    give (false, made)

  unfoldable pub item_present :
      ItemKind → RepoItem → Look → Map Fields → Effect Event (Bool × RepoItem)
  item_present k it l [] = give (false, record it { copies = l.copies })
  item_present k it l (p ∷ present) = item_kept k it l

  unfoldable pub item_seen : ItemKind → RepoItem → Look → Effect Event (Bool × RepoItem)
  item_seen k it l =
      if l.is_deleted then item_deleted k it l.copies else item_present k it l l.present

  -- item: whether the record was deleted, and the item after it.
  unfoldable pub item : ItemKind → RepoItem → Effect Event (Bool × RepoItem)
  item k it = do
    l ←
        look_each r.nodes
          (record { present = []; copies = it.copies; is_deleted = is_some it.deleted_at })
    item_seen k it l
