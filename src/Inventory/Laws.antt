-- ===== src/Inventory/Laws.antt =====
-- internal/inventory/compare.go: what each status says of the nodes.
use forge_sync.Prelude.{
  str_eq_refl, inr, inl, ◌==◌, Bool-cases, sym, ap, ℕ, ◌≡◌, refl, ◌∙◌, Bool, true, false, ◌&&◌,
  ◌||◌, not, length, List, [], ◌∷◌, ◌++◌, Str, str_eq, str_eq_iff, contains, Option, none, some,
  is_some, arith, if◌then◌else◌,
}
use mathlib.Core.List.{append-nil, append_assoc}
use forge_sync.Prelude.Map
use forge_sync.Prelude.Map.{Map}
use forge_sync.Records.{Replica, RepositoryRecord, NodeScan}
use forge_sync.Inventory.{
  not_known_yet, absent, scan_stale, present, same, missing, unknown, deleted, NodeView, by_node,
  Found, see, see_each, success_since, head_unread, any_head_unread, same_bool, same_head,
  all_same_head, compare_heads, status_of, compare_nodes, nothing_seen,
}

-- What the record holds for the node.
abbrev pub copy_on : RepositoryRecord → Str → Option Replica
copy_on rec n = Map.lookup n (by_node rec.replicas [])

-- The names of the views, in order.
unfoldable pub view_nodes : List NodeView → List Str
view_nodes [] = []
view_nodes (v ∷ vs) = v.node ∷ view_nodes vs

view_nodes-append : (xs ys : List NodeView) → view_nodes (xs ++ ys) ≡ view_nodes xs ++ view_nodes ys
unfolding view_nodes
view_nodes-append [] ys = refl
view_nodes-append (x ∷ xs) ys = ap (λ l. x.node ∷ l) (view_nodes-append xs ys)

see-view :
    (t : ℕ) (n : Str) (r : Option Replica) (s : Option NodeScan) (f : Found)
    → view_nodes (see t n r s f).views ≡ view_nodes f.views ++ n ∷ []
unfolding see view_nodes
see-view t n (some r) s f = ground (
  arith,
  view_nodes-append f.views
      (record { node = n; presence = present; stale = scan_stale s; replica = some r } ∷ []),
  view_nodes-append f.views
      (record { node = n; presence = absent; stale = scan_stale s; replica = some r } ∷ []),
)
see-view t n none s f = ground (
  arith,
  view_nodes-append f.views
      (record { node = n; presence = absent; stale = scan_stale s; replica = none } ∷ []),
  view_nodes-append f.views
      (record { node = n; presence = not_known_yet; stale = scan_stale s; replica = none } ∷ []),
)

-- Known not to be on the node, and not known.
unfoldable pub gone : ℕ → Option Replica → Option NodeScan → Bool
gone t (some r) scan = not r.present
gone t none scan = success_since scan t

unfoldable pub unseen : ℕ → Option Replica → Option NodeScan → Bool
unseen t (some r) scan = false
unseen t none scan = not (success_since scan t)

unfoldable pub copy_of : Option Replica → List Replica
copy_of none = []
copy_of (some r) = if r.present then r ∷ [] else []

module _ (t : ℕ) (replicas : Map Replica) (scans : Map NodeScan) where
  unfoldable pub any_gone : List Str → Bool
  any_gone [] = false
  any_gone (n ∷ ns) = gone t (Map.lookup n replicas) (Map.lookup n scans) || any_gone ns

  unfoldable pub any_unseen : List Str → Bool
  any_unseen [] = false
  any_unseen (n ∷ ns) = unseen t (Map.lookup n replicas) (Map.lookup n scans) || any_unseen ns

  unfoldable pub copies : List Str → List Replica
  copies [] = []
  copies (n ∷ ns) = copy_of (Map.lookup n replicas) ++ copies ns

  see-flags :
      (n : Str) (r : Option Replica) (s : Option NodeScan) (f : Found)
      → ((see t n r s f).missing ≡ (f.missing || gone t r s))
        × ((see t n r s f).unknown ≡ (f.unknown || unseen t r s))
        × ((see t n r s f).present ≡ f.present ++ copy_of r)
  unfolding see gone unseen copy_of
  see-flags n (some r) s f = ground (arith, append-nil f.present)
  see-flags n none s f = ground (arith, append-nil f.present)

  see_each-flags :
      (ns : List Str) (f : Found)
      → ((see_each t replicas scans ns f).missing ≡ (f.missing || any_gone ns))
        × ((see_each t replicas scans ns f).unknown ≡ (f.unknown || any_unseen ns))
        × ((see_each t replicas scans ns f).present ≡ f.present ++ copies ns)
  unfolding see_each any_gone any_unseen copies
  see_each-flags [] f = ground (arith, append-nil f.present)
  see_each-flags (n ∷ ns) f =
      let r = Map.lookup n replicas in
      let s = Map.lookup n scans in
      ground (
        arith,
        see_each-flags ns (see t n r s f),
        see-flags n r s f,
        append_assoc f.present (copy_of r) (copies ns),
      )

  see_each-views :
      (ns : List Str) (f : Found)
      → view_nodes (see_each t replicas scans ns f).views ≡ view_nodes f.views ++ ns
  unfolding see_each
  see_each-views [] f = sym (append-nil (view_nodes f.views))
  see_each-views (n ∷ ns) f =
      see_each-views ns (see t n (Map.lookup n replicas) (Map.lookup n scans) f)
      ∙ ap (λ l. l ++ ns) (see-view t n (Map.lookup n replicas) (Map.lookup n scans) f)
      ∙ append_assoc (view_nodes f.views) (n ∷ []) ns

  -- A node that is neither gone nor unseen has a copy, which is among the copies.
  seen_copy :
      (n : Str) (ns : List Str)
      → contains n ns ≡ true
      → any_gone ns ≡ false
      → any_unseen ns ≡ false
      → (r : Replica) × (Map.lookup n replicas ≡ some r) × (r.present ≡ true)
  unfolding contains any_gone any_unseen
  seen_copy n [] h g u = cc
  seen_copy n (m ∷ ns) h g u = elim (Bool-cases (str_eq m n)) [
    | inl same_ ↦
        here (Map.lookup n replicas) (ap (λ k. Map.lookup k replicas) ((str_eq_iff m n).0 same_))
          (ground arith) (ground arith)
    | inr other ↦ seen_copy n ns (ground arith) (ground arith) (ground arith)
  ]
    where
      here :
          (o : Option Replica)
          → Map.lookup m replicas ≡ o
          → gone t (Map.lookup m replicas) (Map.lookup m scans) ≡ false
          → unseen t (Map.lookup m replicas) (Map.lookup m scans) ≡ false
          → (r : Replica) × (o ≡ some r) × (r.present ≡ true)
      here none e g u = unfold gone unseen in absurd (ground arith)
      here (some r) e g u = (r, refl, unfold gone in ground arith)

pub compare_nodes-views :
    (rec : RepositoryRecord) (nodes : List Str) (scans : Map NodeScan)
    → view_nodes (compare_nodes rec nodes scans).1 ≡ nodes
unfolding compare_nodes view_nodes
compare_nodes-views rec nodes scans =
    see_each-views rec.first_seen_at (by_node rec.replicas []) scans nodes nothing_seen

compare_heads-none : (l : List Replica) → (length l == 0) ≡ true → compare_heads l ≡ unknown
unfolding compare_heads
compare_heads-none [] h = refl
compare_heads-none (r ∷ l) h = absurd (ground arith)

module _ (rec : RepositoryRecord) (nodes : List Str) (scans : Map NodeScan) where
  abbrev pub gone_somewhere : Bool
  gone_somewhere = any_gone rec.first_seen_at (by_node rec.replicas []) scans nodes

  abbrev pub unseen_somewhere : Bool
  unseen_somewhere = any_unseen rec.first_seen_at (by_node rec.replicas []) scans nodes

  abbrev pub present_copies : List Replica
  present_copies = copies rec.first_seen_at (by_node rec.replicas []) scans nodes

  -- The status is "deleted" if the record is marked so; else "missing" if some node is known not to
  -- have the repository; else "unknown" if some node has neither a copy on record nor a successful
  -- scan since the repository appeared; else what comparing the heads of all copies that are
  -- present gives.
  pub compare_nodes-status : (compare_nodes rec nodes scans).0 ≡ (
      if is_some rec.deleted_at
      then deleted
      else if gone_somewhere
      then missing
      else if unseen_somewhere
      then unknown
      else compare_heads present_copies)
  unfolding compare_nodes status_of
  compare_nodes-status =
      let flags =
        see_each-flags rec.first_seen_at (by_node rec.replicas []) scans nodes nothing_seen in
      ground (arith, flags, compare_heads-none present_copies)

same_head_refl : (r : Replica) → same_head r r ≡ true
unfolding same_head same_bool
same_head_refl r = ground (arith, str_eq_refl r.default_branch, str_eq_refl r.head_sha)

same_head_fields :
    (f r : Replica)
    → same_head f r ≡ true
    → (r.empty ≡ f.empty) × (r.default_branch ≡ f.default_branch) × (r.head_sha ≡ f.head_sha)
unfolding same_head same_bool
same_head_fields f r h =
    ground (arith, str_eq_iff r.default_branch f.default_branch, str_eq_iff r.head_sha f.head_sha)

all_same_head-append :
    (f : Replica) (xs ys : List Replica)
    → all_same_head f (xs ++ ys) ≡ (all_same_head f xs && all_same_head f ys)
unfolding all_same_head
all_same_head-append f [] ys = refl
all_same_head-append f (x ∷ xs) ys = ground (arith, all_same_head-append f xs ys)

any_head_unread-append :
    (xs ys : List Replica) → any_head_unread (xs ++ ys) ≡ (any_head_unread xs || any_head_unread ys)
unfolding any_head_unread
any_head_unread-append [] ys = refl
any_head_unread-append (x ∷ xs) ys = ground (arith, any_head_unread-append xs ys)

all_same_head-copies :
    (t : ℕ) (replicas : Map Replica) (scans : Map NodeScan) (first r : Replica) (n : Str)
    (ns : List Str)
    → contains n ns ≡ true
    → Map.lookup n replicas ≡ some r
    → r.present ≡ true
    → all_same_head first (copies t replicas scans ns) ≡ true
    → any_head_unread (copies t replicas scans ns) ≡ false
    → (same_head first r ≡ true) × (head_unread r ≡ false)
unfolding contains copies copy_of all_same_head any_head_unread
all_same_head-copies t replicas scans first r n [] h c p a u = cc
all_same_head-copies t replicas scans first r n (m ∷ ns) h c p a u = ground (
  arith,
  str_eq_iff m n,
  all_same_head-copies t replicas scans first r n ns,
  all_same_head-append first (copy_of (Map.lookup m replicas)) (copies t replicas scans ns),
  any_head_unread-append (copy_of (Map.lookup m replicas)) (copies t replicas scans ns),
)

compare_heads-same :
    (l : List Replica)
    → compare_heads l ≡ same
    → (first : Replica) × (all_same_head first l ≡ true) × (any_head_unread l ≡ false)
unfolding compare_heads all_same_head
compare_heads-same [] h = absurd (ground arith)
compare_heads-same (first ∷ rest) h = (first, ground (arith, same_head_refl first), ground arith)

-- If the status is "same", any two of the nodes have a copy each, the first present with a head
-- that could be read, and the two agree in whether they are empty, in the default branch and in its
-- commit.
pub compare_nodes-same :
    (rec : RepositoryRecord) (nodes : List Str) (scans : Map NodeScan) (n m : Str)
    → (compare_nodes rec nodes scans).0 ≡ same
    → contains n nodes ≡ true
    → contains m nodes ≡ true
    → (r : Replica) × (q : Replica) × (copy_on rec n ≡ some r)
      × (copy_on rec m ≡ some q)
      × (r.present ≡ true)
      × (head_unread r ≡ false)
      × (r.empty ≡ q.empty)
      × (r.default_branch ≡ q.default_branch)
      × (r.head_sha ≡ q.head_sha)
compare_nodes-same rec nodes scans n m h hn hm =
    let t = rec.first_seen_at in
    let copies_ = by_node rec.replicas [] in
    let status = compare_nodes-status rec nodes scans in
    let g : gone_somewhere rec nodes scans ≡ false = ground (arith, status) in
    let u : unseen_somewhere rec nodes scans ≡ false = ground (arith, status) in
    let heads : compare_heads (present_copies rec nodes scans) ≡ same = ground (arith, status) in
    let (first, alike, read) = compare_heads-same (present_copies rec nodes scans) heads in
    let (r, cr, pr) = seen_copy t copies_ scans n nodes hn g u in
    let (q, cq, pq) = seen_copy t copies_ scans m nodes hm g u in
    let (sr, ur) = all_same_head-copies t copies_ scans first r n nodes hn cr pr alike read in
    let (sq, uq) = all_same_head-copies t copies_ scans first q m nodes hm cq pq alike read in
    let fr = same_head_fields first r sr in
    let fq = same_head_fields first q sq in
    (r, q, cr, cq, pr, ur, fr.0 ∙ sym fq.0, fr.1 ∙ sym fq.1, fr.2 ∙ sym fq.2)
