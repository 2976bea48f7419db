-- ===== src/Api/Limiter/Refines.antt =====
-- internal/api/session.go: the limiter and one counter for each address.
use forge_sync.Prelude.{
  ap, sym, subst, ◌∙◌, ◌-◌, Bool-cases, inr, inl, refl, suc, ◌⊎◌, ◌&&◌, not, [], none, ◌+◌, true,
  false, leb, str_eq_iff, str_eq, Bool, if◌then◌else◌, some, arith, contains, ◌≤◌, List, Str,
  Option, ◌≡◌, ℕ,
}
use forge_sync.Prelude.Map
use forge_sync.Prelude.Map.{Map, lookup-insert, lookup-delete, contains-keys}
use forge_sync.Api.Limiter.{
  new_login_limiter, after_calls, suc, reset, none, true, false, leb, fail, Bool, ◌∷◌, some,
  blocked, blocked_by, has_run_out, one_more, forget_each, forget_one, List, Str, Option,
  after_call, ℕ, Window, Limiter, Call, asked, failed_at, signed_in,
}

-- What one address promises: nothing but its own failures and sign-ins counts. A failure starts a
-- window or counts in the one that runs, and a sign-in forgets it.
unfoldable pub counted : ℕ → ℕ → Option Window → Option Window
counted window now none = some (record { start = now; failures = 1 })
counted window now (some w) =
    if leb (w.start + window) now
    then some (record { start = now; failures = 1 })
    else some (record w { failures = suc w.failures })

unfoldable pub own_call : ℕ → Str → Call → Option Window → Option Window
own_call window addr (asked now k) o = o
own_call window addr (failed_at now k) o = if str_eq k addr then counted window now o else o
own_call window addr (signed_in now k) o = if str_eq k addr then none else o

unfoldable pub own_calls : ℕ → Str → List Call → Option Window → Option Window
own_calls window addr [] o = o
own_calls window addr (c ∷ cs) o = own_calls window addr cs (own_call window addr c o)

-- The address has failed so many times in a window that still runs.
unfoldable pub is_used_up : ℕ → ℕ → ℕ → Option Window → Bool
is_used_up max window now none = false
is_used_up max window now (some w) = not (leb (w.start + window) now) && leb max w.failures

unfoldable pub time_of : Call → ℕ
time_of (asked now k) = now
time_of (failed_at now k) = now
time_of (signed_in now k) = now

-- The calls come in the order of their times.
unfoldable pub in_order : ℕ → List Call → Bool
in_order now [] = true
in_order now (c ∷ cs) = leb now (time_of c) && in_order (time_of c) cs

unfoldable pub end_of : ℕ → List Call → ℕ
end_of now [] = now
end_of now (c ∷ cs) = end_of (time_of c) cs

-- The map has the address's window, or has dropped one that ran out.
abbrev Same : ℕ → ℕ → Option Window → Option Window → Type 0
Same window now o none = (w : Window) → o ≡ some w → w.start + window ≤ now
Same window now o (some v) = o ≡ some v

Same-later :
    (window now then_ : ℕ) (o p : Option Window)
    → now ≤ then_
    → Same window now o p
    → Same window then_ o p
Same-later window now then_ o none h s = λ w e. omega (arith, s w e)
Same-later window now then_ o (some v) h s = s

module _ (l : Limiter) (now : ℕ) where
  -- A window that has not run out.
  unfoldable pub running : Option Window → Option Window
  running none = none
  running (some v) = if has_run_out l now v then none else some v

  running-twice : (o : Option Window) → running (running o) ≡ running o
  unfolding running
  running-twice none = refl
  running-twice (some v) = ground arith

  lookup-forget_one :
      (k j : Str) (o : Option Window) (m : Map Window)
      → Map.lookup k m ≡ o
      → Map.lookup j (forget_one l now k o m)
        ≡ (if str_eq k j then running (Map.lookup j m) else Map.lookup j m)
  unfolding forget_one running
  lookup-forget_one k j none m e = ground (arith, str_eq_iff k j)
  lookup-forget_one k j (some v) m e = ground (arith, str_eq_iff k j, lookup-delete k j m)

  lookup-forget_each :
      (ks : List Str) (j : Str) (m : Map Window)
      → Map.lookup j (forget_each l now ks m)
        ≡ (if contains j ks then running (Map.lookup j m) else Map.lookup j m)
  unfolding forget_each contains
  lookup-forget_each [] j m = refl
  lookup-forget_each (k ∷ ks) j m = ground (
    arith,
    lookup-forget_each ks j (forget_one l now k (Map.lookup k m) m),
    lookup-forget_one k j (Map.lookup k m) m refl,
    running-twice (Map.lookup j m),
    str_eq_iff k j,
  )

  pub lookup-forget :
      (j : Str) (m : Map Window)
      → Map.lookup j (forget_each l now (Map.keys m) m) ≡ running (Map.lookup j m)
  unfolding running
  lookup-forget j m = ground (arith, lookup-forget_each (Map.keys m) j m, contains-keys j m)

  -- What Fail counts is what the address's own counter counts.
  counted-one_more :
      (o p : Option Window)
      → Same l.window now o p
      → counted l.window now o ≡ some (one_more now (running p))
  unfolding counted one_more running has_run_out
  counted-one_more none none s = refl
  counted-one_more (some w) none s = let out : w.start + l.window ≤ now = s w refl in ground arith
  counted-one_more o (some v) s = rw s (ground arith)

  Same-running : (o p : Option Window) → Same l.window now o p → Same l.window now o (running p)
  unfolding running has_run_out
  Same-running o none s = s
  Same-running o (some v) s = dropped (Bool-cases (leb (v.start + l.window) now))
    where
      dropped :
          (leb (v.start + l.window) now ≡ true) ⊎ (leb (v.start + l.window) now ≡ false)
          → Same l.window now o (if leb (v.start + l.window) now then none else some v)
      dropped (inl e) = rw e (λ w k. ground (arith, s))
      dropped (inr e) = rw e s

  pub lookup-blocked_by :
      (k j : Str) (o : Option Window)
      → Map.lookup k l.m ≡ o
      → Map.lookup j ((blocked_by l now k o).1).m
        ≡ (if str_eq k j then running (Map.lookup j l.m) else Map.lookup j l.m)
  unfolding blocked_by running
  lookup-blocked_by k j none e = ground (arith, str_eq_iff k j)
  lookup-blocked_by k j (some v) e = split_on (Bool-cases (has_run_out l now v))
    where
      split_on :
          (has_run_out l now v ≡ true) ⊎ (has_run_out l now v ≡ false)
          → Map.lookup j ((blocked_by l now k (some v)).1).m
            ≡ (if str_eq k j then running (Map.lookup j l.m) else Map.lookup j l.m)
      split_on (inl q) = rw q (ground (arith, str_eq_iff k j, lookup-delete k j l.m, e, q))
      split_on (inr q) = rw q (ground (arith, str_eq_iff k j, e, q))

-- One call, for one address.
after_call-Same :
    (c : Call) (l : Limiter) (addr : Str) (o : Option Window)
    → Same l.window (time_of c) o (Map.lookup addr l.m)
    → Same l.window (time_of c) (own_call l.window addr c o) (Map.lookup addr (after_call c l).m)
unfolding after_call own_call time_of blocked fail reset
after_call-Same (asked now k) l addr o s =
    rw (lookup-blocked_by l now k addr (Map.lookup k l.m) refl) (
      Same-if (running l now (Map.lookup addr l.m)) (Map.lookup addr l.m) (str_eq k addr)
        (Same-running l now o (Map.lookup addr l.m) s) s)
  where
    Same-if :
        (p q : Option Window) (b : Bool)
        → Same l.window now o p
        → Same l.window now o q
        → Same l.window now o (if b then p else q)
    Same-if p q true x y = x
    Same-if p q false x y = y
after_call-Same (failed_at now k) l addr o s = split_on (Bool-cases (str_eq k addr))
  where
    m : Map Window
    m = forget_each l now (Map.keys l.m) l.m

    split_on :
        (str_eq k addr ≡ true) ⊎ (str_eq k addr ≡ false)
        → Same l.window now
            (if str_eq k addr then counted l.window now o else o)
            (Map.lookup addr (Map.insert k (one_more now (Map.lookup k m)) m))
    split_on (inl q) = rw (lookup-insert k addr (one_more now (Map.lookup k m)) m) (
        rw q (
          rw ((str_eq_iff k addr).0 q)
            (rw (lookup-forget l now addr l.m) (counted-one_more l now o (Map.lookup addr l.m) s))))
    split_on (inr q) =
        rw (lookup-insert k addr (one_more now (Map.lookup k m)) m)
          (rw q (rw (lookup-forget l now addr l.m) (Same-running l now o (Map.lookup addr l.m) s)))
after_call-Same (signed_in now k) l addr o s = split_on (Bool-cases (str_eq k addr))
  where
    split_on :
        (str_eq k addr ≡ true) ⊎ (str_eq k addr ≡ false)
        → Same l.window now (if str_eq k addr then none else o) (Map.lookup addr (Map.delete k l.m))
    split_on (inl q) = rw (lookup-delete k addr l.m) (rw q (λ w e. absurd (none_some w e)))
      where
        none_some : (w : Window) → none ≡ some w → ⊥
        none_some w e = cc
    split_on (inr q) = rw (lookup-delete k addr l.m) (rw q s)

-- The limits stay.
abbrev pub Limits : Limiter → Limiter → Type 0
Limits l k = (k.window ≡ l.window) × (k.max ≡ l.max)

pub blocked_by-Limits :
    (l : Limiter) (now : ℕ) (k : Str) (o : Option Window) → Limits l ((blocked_by l now k o).1)
unfolding blocked_by
blocked_by-Limits l now k none = (refl, refl)
blocked_by-Limits l now k (some w) =
    Limits-if (has_run_out l now w) ((false, 0), record l { m = Map.delete k l.m })
      ((leb l.max w.failures, (w.start + l.window) - now), l) (refl, refl) (refl, refl)
  where
    Limits-if :
        (b : Bool) (x y : (Bool × ℕ) × Limiter)
        → Limits l (x.1)
        → Limits l (y.1)
        → Limits l ((if b then x else y).1)
    Limits-if true x y p q = p
    Limits-if false x y p q = q

pub after_call-Limits : (c : Call) (l : Limiter) → Limits l (after_call c l)
unfolding after_call blocked fail reset
after_call-Limits (asked now k) l = blocked_by-Limits l now k (Map.lookup k l.m)
after_call-Limits (failed_at now k) l = (refl, refl)
after_call-Limits (signed_in now k) l = (refl, refl)

after_calls-Limits : (cs : List Call) (l : Limiter) → Limits l (after_calls cs l)
unfolding after_calls
after_calls-Limits [] l = (refl, refl)
after_calls-Limits (c ∷ cs) l =
    let (w, x) = after_call-Limits c l in
    let (v, y) = after_calls-Limits cs (after_call c l) in (v ∙ w, y ∙ x)

after_calls-Same :
    (window now : ℕ) (cs : List Call) (l : Limiter) (addr : Str) (o : Option Window)
    → l.window ≡ window
    → in_order now cs ≡ true
    → Same window now o (Map.lookup addr l.m)
    → Same window
        (end_of now cs)
        (own_calls window addr cs o)
        (Map.lookup addr (after_calls cs l).m)
unfolding in_order end_of own_calls after_calls
after_calls-Same window now [] l addr o w i s = s
after_calls-Same window now (c ∷ cs) l addr o w i s =
    after_calls-Same window (time_of c) cs (after_call c l) addr (own_call window addr c o)
      ((after_call-Limits c l).0 ∙ w) (ground arith)
      (subst (λ x. Same x (time_of c) (own_call x addr c o) (Map.lookup addr (after_call c l).m)) w
        (after_call-Same c l addr o (
          subst (λ x. Same x (time_of c) o (Map.lookup addr l.m)) (sym w)
            (Same-later window now (time_of c) o (Map.lookup addr l.m) (ground arith) s))))

blocked_by-used_up :
    (l : Limiter) (now : ℕ) (addr : Str) (o p : Option Window)
    → Same l.window now o p
    → ((blocked_by l now addr p).0).0 ≡ is_used_up l.max l.window now o
unfolding blocked_by is_used_up has_run_out
blocked_by-used_up l now addr none none s = refl
blocked_by-used_up l now addr (some w) none s =
    let out : w.start + l.window ≤ now = s w refl in ground arith
blocked_by-used_up l now addr o (some v) s = rw s (ground arith)

-- After any calls of a new limiter in the order of their times, by any addresses, an address is
-- blocked exactly if it is by a counter of its own, which counts its failures in a window that
-- starts at the first one and ends after the limiter's time, and which a sign-in clears: what other
-- addresses do, and when windows are forgotten, does not matter.
pub blocked-own_calls :
    (max window : ℕ) (cs : List Call) (now : ℕ) (addr : Str)
    → in_order 0 cs ≡ true
    → end_of 0 cs ≤ now
    → ((blocked (after_calls cs (new_login_limiter max window)) now addr).0).0
      ≡ is_used_up max window now (own_calls window addr cs none)
unfolding blocked new_login_limiter
blocked-own_calls max window cs now addr i h =
    let l : Limiter = after_calls cs (new_login_limiter max window) in
    let (w, x) = after_calls-Limits cs (new_login_limiter max window) in
    let same : Same window now (own_calls window addr cs none) (Map.lookup addr l.m) =
      Same-later window (end_of 0 cs) now (own_calls window addr cs none) (Map.lookup addr l.m) h
        (after_calls-Same window 0 cs (new_login_limiter max window) addr none refl i empty) in
    blocked_by-used_up l now addr (own_calls window addr cs none) (Map.lookup addr l.m)
      (subst (λ y. Same y now (own_calls window addr cs none) (Map.lookup addr l.m)) (sym w) same)
    ∙ ap (λ y. is_used_up y l.window now (own_calls window addr cs none)) x
    ∙ ap (λ y. is_used_up max y now (own_calls window addr cs none)) w
  where
    none_some : (v : Window) → none ≡ some v → ⊥
    none_some v e = cc

    empty : Same window 0 none (Map.lookup addr [])
    empty = unfold Map.lookup in λ v e. absurd (none_some v e)
