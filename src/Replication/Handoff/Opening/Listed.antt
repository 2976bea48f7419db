-- ===== src/Replication/Handoff/Opening/Listed.antt =====
-- internal/replication/handoff.go, handOff: where the hand-offs that it goes on with come from.
use forge_sync.Prelude.Effects.{
  ◌>>◌, call, ◌>>=◌, Returns-if, attempt, tell, give, Returns-if_of, Returns->>=, Returns->>, given,
  Returns->>=_of, Returns-give, failed, Returns, Answer, Effect,
}
use forge_sync.Replication.Handoff.{
  same_set, result_of, union_two, PushResult, is_open, HandoffState, Handoff, handoff_prefix,
}
use forge_sync.Replication.Plan.{Refs}
use forge_sync.Replication.Handoff.Opening.{
  pull_again, commented, or_nobody, saved, make_pull, decision_makers, recorded, extension,
  creation, removal, push_one, audited, new_handoff, is_extended, Event, trim_prefix,
  hand_off_version, not_joined, not_extended, join_handoff, extend_handoff, extended, open_handoff,
  open_as, branch_pushed, pull_opened, handoff_recorded, Effect, with_opened, put_first, first_node,
  Run, Answers, Handoff, handoff_prefix, Divergence,
}
use forge_sync.Replication.Handoff.Names.{is_taken, numbered, free_name, search_name}
use forge_sync.Prelude.{
  if◌then◌else◌, zero, str_eq_iff, inr, format_int, length, inl, starts_with-append, Bool-cases,
  refl, sym, not, bytes, none, [], str_eq_refl, subst, suc, ◌&&◌, Option, arith, false, str_eq,
  some, ◌∷◌, ◌||◌, ◌++◌, All, any, true, Bool, ℕ, ◌≡◌, Str, List, starts_with,
}
use forge_sync.Prelude.Map
use forge_sync.Prelude.Map.{Map}
use mathlib.Core.List.{append_assoc}

starts_with-longer : (p s t : Str) → starts_with p s ≡ true → starts_with p (s ++ t) ≡ true
unfolding starts_with
starts_with-longer [] s t h = refl
starts_with-longer (c ∷ p) [] t h = cc
starts_with-longer (c ∷ p) (d ∷ s) t h = ground (arith, starts_with-longer p s t)

search_name-starts :
    (refs : Refs) (p base : Str) (k n : ℕ) (full found : Str)
    → starts_with p base ≡ true
    → starts_with p full ≡ true
    → search_name refs base k n full ≡ some found
    → starts_with p found ≡ true
unfolding search_name numbered
search_name-starts refs p base zero n full found b f e = cc
search_name-starts refs p base (suc k) n full found b f e = elim (Bool-cases (is_taken refs full)) [
  | inl t ↦
      search_name-starts refs p base k (suc n) (numbered base n) found b
        (starts_with-longer p base (b'-' ∷ format_int n) b) (later t)
  | inr t ↦ subst (λ x. starts_with p x ≡ true) (here t) f
]
  where
    later :
        is_taken refs full ≡ true → search_name refs base k (suc n) (numbered base n) ≡ some found
    later t = ground (arith, e)

    here : is_taken refs full ≡ false → full ≡ found
    here t = ground (arith, e)

-- Some difference found is of this ref, with this value on the replica.
unfoldable pub is_found : List Divergence → Str → Str → Bool
is_found found ref sha = any (λ d. str_eq d.ref ref && str_eq d.replica sha) found

-- The name of a new branch is among the hand-off branches.
pub free_name-starts :
    (refs : Refs) (ref : Str) (nodes : List Str) (full : Str)
    → free_name refs
        (handoff_prefix ++ (first_node nodes ++ b'/' ∷ trim_prefix (bytes "refs/heads/") ref))
      ≡ some full
    → starts_with handoff_prefix full ≡ true
unfolding free_name
free_name-starts refs ref nodes full e =
    search_name-starts refs handoff_prefix base (suc (length refs)) 2 base full starts starts e
  where
    base : Str
    base = handoff_prefix ++ (first_node nodes ++ b'/' ∷ trim_prefix (bytes "refs/heads/") ref)

    starts : starts_with handoff_prefix base ≡ true
    starts =
        starts_with-append handoff_prefix
          (first_node nodes ++ b'/' ∷ trim_prefix (bytes "refs/heads/") ref)

-- A given hand-off is of the branch and of the ref, is open if this one is, and has the value, if
-- that was not found for the ref on a replica.
unfoldable pub is_given : List Divergence → List Handoff → HandoffState → Str → Str → Str → Bool
is_given found [] s branch ref sha = false
is_given found (g ∷ start) s branch ref sha =
    ((is_open g.state || not (is_open s))
      && str_eq g.branch branch
      && str_eq g.ref ref
      && (str_eq g.sha sha || is_found found ref sha))
    || is_given found start s branch ref sha

-- A hand-off is one of those given, moved to a found value at most, or one whose branch is among
-- the hand-off branches and whose value was found for its ref.
unfoldable pub is_listed : List Divergence → List Handoff → Handoff → Bool
is_listed found start h =
    is_given found start h.state h.branch h.ref h.sha
    || (starts_with handoff_prefix h.branch && is_found found h.ref h.sha)

is_given-moved :
    (found : List Divergence) (start : List Handoff) (s : HandoffState) (branch ref sha moved : Str)
    → is_found found ref moved ≡ true
    → is_given found start s branch ref sha ≡ true
    → is_given found start s branch ref moved ≡ true
unfolding is_given
is_given-moved found [] s branch ref sha moved f g = g
is_given-moved found (h ∷ start) s branch ref sha moved f g =
    ground (arith, is_given-moved found start s branch ref sha moved f)

pub is_listed-moved :
    (found : List Divergence) (start : List Handoff) (h : Handoff) (ref sha : Str)
    → h.ref ≡ ref
    → is_found found ref sha ≡ true
    → is_listed found start h ≡ true
    → is_listed found start (record h { sha = sha }) ≡ true
unfolding is_listed
is_listed-moved found start h ref sha e f l = ground (
  arith,
  subst (λ x. is_found found x sha ≡ true) (sym e) f,
  is_given-moved found start h.state h.branch h.ref h.sha sha,
)

is_given-longer :
    (found : List Divergence) (before start : List Handoff) (s : HandoffState)
    (branch ref sha : Str)
    → is_given found start s branch ref sha ≡ true
    → is_given found (before ++ start) s branch ref sha ≡ true
unfolding is_given
is_given-longer found [] start s branch ref sha g = g
is_given-longer found (b ∷ before) start s branch ref sha g =
    ground (arith, is_given-longer found before start s branch ref sha g)

is_given_self :
    (found : List Divergence) (before start : List Handoff) (h : Handoff)
    → is_given found (before ++ h ∷ start) h.state h.branch h.ref h.sha ≡ true
unfolding is_given
is_given_self found before start h =
    is_given-longer found before (h ∷ start) h.state h.branch h.ref h.sha
      (ground (arith, str_eq_refl h.branch, str_eq_refl h.ref, str_eq_refl h.sha))

-- The given hand-offs, of which those before were seen.
pub start_listed :
    (found : List Divergence) (before start : List Handoff)
    → All (λ h. is_listed found (before ++ start) h ≡ true) start
unfolding is_listed
start_listed found before [] = tt
start_listed found before (h ∷ start) = (
  ground (arith, is_given_self found before start h),
  subst (λ l. All (λ g. is_listed found l g ≡ true) start) (append_assoc before (h ∷ []) start)
      (start_listed found (before ++ h ∷ []) start),
)

module _ (answers : Answers) (r : Run) (found : List Divergence) (start : List Handoff) where
  abbrev pub AllListed : List Handoff → Type 0
  AllListed hs = All (λ h. is_listed found start h ≡ true) hs

  abbrev pub ChangedListed : Option (List Handoff) → Type 0
  ChangedListed none = Unit
  ChangedListed (some hs) = AllListed hs

  abbrev pub OpenedListed : Option Handoff × Refs → Type 0
  OpenedListed (none, refs) = Unit
  OpenedListed (some h, refs) = is_listed found start h ≡ true

  abbrev pub StateListed : List Handoff × Refs → Type 0
  StateListed (hs, refs) = AllListed hs

  put_first-Listed :
      (h : Handoff) (x : Option (List Handoff))
      → is_listed found start h ≡ true
      → ChangedListed x
      → ChangedListed (put_first h x)
  unfolding put_first
  put_first-Listed h none l c = tt
  put_first-Listed h (some hs) l c = (l, c)

  with_opened-Listed :
      (hs : List Handoff) (x : Option Handoff × Refs)
      → AllListed hs
      → OpenedListed x
      → StateListed (with_opened hs x)
  unfolding with_opened
  with_opened-Listed hs (none, refs) a o = a
  with_opened-Listed [] (some h, refs) a o = (o, tt)
  with_opened-Listed (g ∷ hs) (some h, refs) (p, a) o =
      (p, with_opened-Listed hs (some h, refs) a o)

  put_later-Returns :
      (h : Handoff) (m : Effect Event (Option (List Handoff)))
      → is_listed found start h ≡ true
      → Returns ChangedListed m
      → Returns ChangedListed (m >>= λ x. give (put_first h x))
  put_later-Returns h m l k =
      Returns->>=_of ChangedListed ChangedListed m (λ x. give (put_first h x)) k
        (λ x c. Returns-give ChangedListed (put_first h x) (put_first-Listed h x l c))

  module _ (refs : Refs) (ref sha : Str) (nodes : List Str)
      (seen : is_found found ref sha ≡ true) where
    handoff_recorded-Listed :
        (later : Refs) (full : Str) (pr : ℕ × Str) (o : Answer (Unit {0}))
        → starts_with handoff_prefix full ≡ true
        → Returns OpenedListed
            (handoff_recorded answers r later (new_handoff ref sha nodes full pr) o)
    unfolding handoff_recorded is_listed
    handoff_recorded-Listed later full pr (failed e) p = Returns-give OpenedListed (none, later) tt
    handoff_recorded-Listed later full pr (given u) p =
        Returns->> OpenedListed (tell (audited ref))
          (give (some (new_handoff ref sha nodes full pr), later))
          (Returns-give OpenedListed (some (new_handoff ref sha nodes full pr), later)
            (ground arith))

    pull_opened-Listed :
        (later : Refs) (full : Str) (o : Answer (ℕ × Str))
        → starts_with handoff_prefix full ≡ true
        → Returns OpenedListed (pull_opened answers r later ref sha nodes full o)
    unfolding pull_opened
    pull_opened-Listed later full (failed e) p =
        Returns->> OpenedListed (attempt (push_one answers r (removal full sha)))
          (give (none, Map.delete full later))
          (Returns-give OpenedListed (none, Map.delete full later) tt)
    pull_opened-Listed later full (given pr) p =
        let h = new_handoff ref sha nodes full pr in
        Returns->>= OpenedListed (attempt (call (answers.record_handoff h) (recorded h)))
          (handoff_recorded answers r later h) (λ o. handoff_recorded-Listed later full pr o p)

    branch_pushed-Listed :
        (full : Str) (o : Answer (Map PushResult))
        → starts_with handoff_prefix full ≡ true
        → Returns OpenedListed (branch_pushed answers r refs ref sha nodes full o)
    unfolding branch_pushed
    branch_pushed-Listed full (failed e) p = Returns-give OpenedListed (none, refs) tt
    branch_pushed-Listed full (given results) p =
        let head = trim_prefix (bytes "refs/heads/") full in
        let base = trim_prefix (bytes "refs/heads/") ref in
        let opened = pull_opened answers r (Map.insert full sha refs) ref sha nodes full in
        Returns-if OpenedListed (result_of full results).ok
          (do
            who ← attempt (decision_makers answers r)
            first ← attempt (make_pull answers r head base (or_nobody who))
            o ← pull_again answers r head base (or_nobody who) first
            opened o)
          (give (none, refs))
          (Returns->>= OpenedListed (attempt (decision_makers answers r))
            (λ who. attempt (make_pull answers r head base (or_nobody who)) >>= λ first.
              pull_again answers r head base (or_nobody who) first >>= opened)
            (λ who.
              Returns->>= OpenedListed (attempt (make_pull answers r head base (or_nobody who)))
                (λ first. pull_again answers r head base (or_nobody who) first >>= opened)
                (λ first.
                  Returns->>= OpenedListed (pull_again answers r head base (or_nobody who) first)
                    opened (λ o. pull_opened-Listed (Map.insert full sha refs) full o p))))
          (Returns-give OpenedListed (none, refs) tt)

    open_as-Listed :
        (name : Option Str)
        → ((full : Str) → name ≡ some full → starts_with handoff_prefix full ≡ true)
        → Returns OpenedListed (open_as answers r refs ref sha nodes name)
    unfolding open_as
    open_as-Listed none p = Returns-give OpenedListed (none, refs) tt
    open_as-Listed (some full) p =
        Returns->>= OpenedListed (attempt (push_one answers r (creation full sha)))
          (branch_pushed answers r refs ref sha nodes full)
          (λ o. branch_pushed-Listed full o (p full refl))

    open_handoff-Listed : Returns OpenedListed (open_handoff answers r refs ref sha nodes)
    unfolding open_handoff
    open_handoff-Listed = open_as-Listed _ (free_name-starts refs ref nodes)

    extended-Listed :
        (h : Handoff) (hs : List Handoff) (o : Answer (Map PushResult))
        → is_listed found start (record h { sha = sha }) ≡ true
        → AllListed hs
        → Returns ChangedListed (extended answers r h hs sha o)
    unfolding extended
    extended-Listed h hs (failed e) l a = Returns-give ChangedListed none tt
    extended-Listed h hs (given results) l a =
        let moved : Option (List Handoff) = some (record h { sha = sha } ∷ hs) in
        Returns-if ChangedListed (result_of h.branch results).ok
          (do tell (saved (record h { sha = sha })); tell (commented h.pr_number); give moved)
          (give none)
          (Returns->> ChangedListed (tell (saved (record h { sha = sha })))
            (tell (commented h.pr_number) >> give moved)
            (Returns->> ChangedListed (tell (commented h.pr_number)) (give moved)
              (Returns-give ChangedListed moved (l, a))))
          (Returns-give ChangedListed none tt)

    pub extend_handoff-Listed :
        (hs : List Handoff)
        → AllListed hs
        → Returns ChangedListed (extend_handoff answers r refs ref sha nodes hs)
    unfolding extend_handoff is_extended
    extend_handoff-Listed [] a = Returns-give ChangedListed none tt
    extend_handoff-Listed (h ∷ hs) (l, a) =
        Returns-if_of ChangedListed (is_extended answers r refs ref sha nodes h)
          (do o ← attempt (push_one answers r (extension h sha)); extended answers r h hs sha o)
          (do x ← extend_handoff answers r refs ref sha nodes hs; give (put_first h x))
          (λ b.
            Returns->>= ChangedListed (attempt (push_one answers r (extension h sha)))
              (extended answers r h hs sha)
              (λ o.
                extended-Listed h hs o
                  (is_listed-moved found start h ref sha (ground (arith, str_eq_iff h.ref ref)) seen
                    l)
                  a))
          (λ b. put_later-Returns h _ l (extend_handoff-Listed hs a))

    pub join_handoff-Listed :
        (hs : List Handoff)
        → AllListed hs
        → Returns ChangedListed (join_handoff answers r ref sha nodes hs)
    unfolding join_handoff is_listed
    join_handoff-Listed [] a = Returns-give ChangedListed none tt
    join_handoff-Listed (h ∷ hs) (l, a) =
        let joined : Handoff = record h { nodes = union_two h.nodes nodes } in
        Returns-if ChangedListed (is_open h.state && str_eq h.ref ref && str_eq h.sha sha)
          (if same_set h.nodes nodes
            then give (some (h ∷ hs))
            else (do tell (saved joined); give (some (joined ∷ hs))))
          (do x ← join_handoff answers r ref sha nodes hs; give (put_first h x))
          (Returns-if ChangedListed (same_set h.nodes nodes) (give (some (h ∷ hs)))
            (tell (saved joined) >> give (some (joined ∷ hs)))
            (Returns-give ChangedListed (some (h ∷ hs)) (l, a))
            (Returns->> ChangedListed (tell (saved joined)) (give (some (joined ∷ hs)))
              (Returns-give ChangedListed (some (joined ∷ hs)) (l, a))))
          (put_later-Returns h (join_handoff answers r ref sha nodes hs) l
            (join_handoff-Listed hs a))

    not_extended-Listed :
        (hs : List Handoff) (x : Option (List Handoff))
        → AllListed hs
        → ChangedListed x
        → Returns StateListed (not_extended answers r refs ref sha nodes hs x)
    unfolding not_extended
    not_extended-Listed hs (some changed) a c = Returns-give StateListed (changed, refs) c
    not_extended-Listed hs none a c =
        Returns->>=_of OpenedListed StateListed (open_handoff answers r refs ref sha nodes)
          (λ x. give (with_opened hs x)) open_handoff-Listed
          (λ x o. Returns-give StateListed (with_opened hs x) (with_opened-Listed hs x a o))

    not_joined-Listed :
        (hs : List Handoff) (x : Option (List Handoff))
        → AllListed hs
        → ChangedListed x
        → Returns StateListed (not_joined answers r refs ref sha nodes hs x)
    unfolding not_joined
    not_joined-Listed hs (some changed) a c = Returns-give StateListed (changed, refs) c
    not_joined-Listed hs none a c =
        Returns->>=_of ChangedListed StateListed (extend_handoff answers r refs ref sha nodes hs)
          (not_extended answers r refs ref sha nodes hs) (extend_handoff-Listed hs a)
          (λ x k. not_extended-Listed hs x a k)

    pub hand_off_version-Listed :
        (hs : List Handoff)
        → AllListed hs
        → Returns StateListed (hand_off_version answers r refs ref sha nodes hs)
    unfolding hand_off_version
    hand_off_version-Listed hs a =
        Returns->>=_of ChangedListed StateListed (join_handoff answers r ref sha nodes hs)
          (not_joined answers r refs ref sha nodes hs) (join_handoff-Listed hs a)
          (λ x k. not_joined-Listed hs x a k)
