-- ===== src/Api/SignIn/Bounds.antt =====
-- internal/api/auth.go and session.go: how many failures are counted.
use forge_sync.Prelude.{
  [], ◌∷◌, ◌-◌, ◌+◌, leb, ◌||◌, str_eq_refl, not, if◌then◌else◌, List, [], Bool, Bool-cases, inr,
  inl, false, ◌⊎◌, true, str_eq, ◌∙◌, refl, sym, none, subst, suc, some, Option, arith, ◌≤◌, ◌≡◌, ℕ,
  Str,
}
use forge_sync.Prelude.Map
use forge_sync.Prelude.Map.{Map, lookup-insert, lookup-delete}
use forge_sync.Api.Limiter.{
  Window, Limiter, blocked, blocked_by, fail, reset, has_run_out, forget_each, one_more,
  new_login_limiter,
}
use forge_sync.Api.Limiter.Refines.{running, lookup-forget, lookup-blocked_by, blocked_by-Limits}
use forge_sync.Api.SignIn.{
  started, unauthorized, given, forbidden, not, failed, List, [], Credentials, Answer, Bool, false,
  true, str_eq, some, Option, ℕ, Str, Server, Request, Outcome, create_session, create_sessions,
  not_blocked, sign_in, sign_in_with_token, password_checked,
}

-- No window counts more failures than the limit.
abbrev Bounded : Limiter → Type 0
Bounded l = (k : Str) (w : Window) → Map.lookup k l.m ≡ some w → w.failures ≤ l.max

-- The address has a failure left.
abbrev HasRoom : Limiter → Str → Type 0
HasRoom l addr = (w : Window) → Map.lookup addr l.m ≡ some w → suc w.failures ≤ l.max

running-some :
    (l : Limiter) (now : ℕ) (o : Option Window) (w : Window) → running l now o ≡ some w → o ≡ some w
unfolding running
running-some l now none w e = e
running-some l now (some v) w e = ground arith

one_more-bounded :
    (l : Limiter) (now : ℕ) (addr : Str) (o : Option Window)
    → 1 ≤ l.max
    → ((w : Window) → o ≡ some w → suc w.failures ≤ l.max)
    → (one_more now o).failures ≤ l.max
unfolding one_more
one_more-bounded l now addr none h r = h
one_more-bounded l now addr (some w) h r = r w refl

fail-Bounded :
    (l : Limiter) (now : ℕ) (addr : Str)
    → 1 ≤ l.max
    → HasRoom l addr
    → Bounded l
    → Bounded (fail l now addr)
unfolding fail
fail-Bounded l now addr h r b k w e = split_on (Bool-cases (str_eq addr k))
  where
    m : Map Window
    m = forget_each l now (Map.keys l.m) l.m

    found : Map.lookup k (Map.insert addr (one_more now (Map.lookup addr m)) m) ≡ some w
    found = e

    left : (v : Window) → Map.lookup addr m ≡ some v → suc v.failures ≤ l.max
    left v q =
        r v (running-some l now (Map.lookup addr l.m) v (sym (lookup-forget l now addr l.m) ∙ q))

    split_on : (str_eq addr k ≡ true) ⊎ (str_eq addr k ≡ false) → w.failures ≤ l.max
    split_on (inl q) =
        let one : (one_more now (Map.lookup addr m)).failures ≤ l.max =
          one_more-bounded l now addr (Map.lookup addr m) h left in
        let same : one_more now (Map.lookup addr m) ≡ w =
          ground (arith, found, lookup-insert addr k (one_more now (Map.lookup addr m)) m) in
        subst (λ x. x.failures ≤ l.max) same one
    split_on (inr q) =
        let same : Map.lookup k m ≡ some w =
          ground (arith, found, lookup-insert addr k (one_more now (Map.lookup addr m)) m) in
        b k w (running-some l now (Map.lookup k l.m) w (sym (lookup-forget l now k l.m) ∙ same))

reset-Bounded : (l : Limiter) (addr : Str) → Bounded l → Bounded (reset l addr)
unfolding reset
reset-Bounded l addr b k w e = b k w (ground (arith, lookup-delete addr k l.m))

-- The limiter is as one of before with nothing added.
blocked-Bounded :
    (l : Limiter) (now : ℕ) (addr : Str) → Bounded l → Bounded ((blocked l now addr).1)
unfolding blocked
blocked-Bounded l now addr b k w e =
    let same : Map.lookup k l.m ≡ some w = ground (
      arith,
      lookup-blocked_by l now addr k (Map.lookup addr l.m) refl,
      running-some l now (Map.lookup k l.m) w,
    ) in
    subst (λ x. w.failures ≤ x) (sym ((blocked_by-Limits l now addr (Map.lookup addr l.m)).1))
      (b k w same)

blocked_by-HasRoom :
    (l : Limiter) (now : ℕ) (addr : Str) (o : Option Window)
    → Map.lookup addr l.m ≡ o
    → ((blocked_by l now addr o).0).0 ≡ false
    → HasRoom ((blocked_by l now addr o).1) addr
unfolding blocked_by
blocked_by-HasRoom l now addr none e f w k = absurd (none_some w (sym e ∙ k))
  where
    none_some : (v : Window) → none ≡ some v → ⊥
    none_some v q = cc
blocked_by-HasRoom l now addr (some v) e f w k =
    room_if (has_run_out l now v) ((false, 0), record l { m = Map.delete addr l.m })
      ((leb l.max v.failures, (v.start + l.window) - now), l) gone running_room f w k
  where
    room_if :
        (b : Bool) (x y : (Bool × ℕ) × Limiter)
        → HasRoom (x.1) addr
        → ((y.0).0 ≡ false → HasRoom (y.1) addr)
        → (((if b then x else y).0).0 ≡ false)
        → HasRoom ((if b then x else y).1) addr
    room_if true x y p q g = p
    room_if false x y p q g = q g

    gone : (u : Window) → Map.lookup addr (Map.delete addr l.m) ≡ some u → suc u.failures ≤ l.max
    gone u q = ground (arith, q, lookup-delete addr addr l.m, str_eq_refl addr)

    running_room : leb l.max v.failures ≡ false → HasRoom l addr
    running_room g u q =
        let same : v ≡ u = ground (arith, e, q) in
        subst (λ x. suc x.failures ≤ l.max) same (ground (arith, g))

module _ (s : Server) (q : Request) where
  password_checked-Bounded :
      (o : Answer (Option Str)) (l : Limiter)
      → 1 ≤ l.max
      → HasRoom l q.addr
      → Bounded l
      → Bounded ((password_checked s q o l).1)
  unfolding password_checked
  password_checked-Bounded (failed e) l h r b = b
  password_checked-Bounded (given none) l h r b = fail-Bounded l q.checked_at q.addr h r b
  password_checked-Bounded (given (some role)) l h r b = reset-Bounded l q.addr b

  Bounded-if :
      (t : Bool) (x y : Outcome × Limiter)
      → Bounded (x.1)
      → Bounded (y.1)
      → Bounded ((if t then x else y).1)
  Bounded-if true x y a b = a
  Bounded-if false x y a b = b

  sign_in-Bounded :
      (o : Option Credentials) (l : Limiter)
      → 1 ≤ l.max
      → HasRoom l q.addr
      → Bounded l
      → Bounded ((sign_in s q o l).1)
  unfolding sign_in sign_in_with_token
  sign_in-Bounded none l h r b = b
  sign_in-Bounded (some c) l h r b =
      Bounded-if (not (str_eq c.username []) || not (str_eq c.password []))
        (password_checked s q (s.check_password c.username c.password) l)
        (sign_in_with_token s q c.token l)
        (password_checked-Bounded (s.check_password c.username c.password) l h r b)
        (Bounded-if (not s.token_allowed) (forbidden, l)
          (if not (s.token_valid c.token)
            then (unauthorized, fail l q.checked_at q.addr)
            else (started s.set_cookie, reset l q.addr))
          b
          (Bounded-if (not (s.token_valid c.token)) (unauthorized, fail l q.checked_at q.addr)
            (started s.set_cookie, reset l q.addr) (fail-Bounded l q.checked_at q.addr h r b)
            (reset-Bounded l q.addr b)))

  not_blocked-Bounded :
      (x : (Bool × ℕ) × Limiter)
      → 1 ≤ (x.1).max
      → ((x.0).0 ≡ false → HasRoom (x.1) q.addr)
      → Bounded (x.1)
      → Bounded ((not_blocked s q x).1)
  unfolding not_blocked
  not_blocked-Bounded ((true, retry), l) h r b = b
  not_blocked-Bounded ((false, retry), l) h r b = sign_in-Bounded q.credentials l h (r refl) b

  create_session-Bounded :
      (l : Limiter) → 1 ≤ l.max → Bounded l → Bounded ((create_session s q l).1)
  unfolding create_session blocked blocked_by
  create_session-Bounded l h b =
      Bounded-if (str_eq q.csrf_header []) (forbidden, l)
        (not_blocked s q (blocked l q.asked_at q.addr)) b
        (not_blocked-Bounded (blocked l q.asked_at q.addr) limit room
          (blocked-Bounded l q.asked_at q.addr b))
    where
      limit : 1 ≤ ((blocked l q.asked_at q.addr).1).max
      limit =
          subst (λ x. 1 ≤ x)
            (sym ((blocked_by-Limits l q.asked_at q.addr (Map.lookup q.addr l.m)).1)) h

      room :
          ((blocked l q.asked_at q.addr).0).0 ≡ false
          → HasRoom ((blocked l q.asked_at q.addr).1) q.addr
      room = blocked_by-HasRoom l q.asked_at q.addr (Map.lookup q.addr l.m) refl

-- The limit itself stays.
max-if :
    (b : Bool) (x y : Outcome × Limiter) (n : ℕ)
    → (x.1).max ≡ n
    → (y.1).max ≡ n
    → ((if b then x else y).1).max ≡ n
max-if true x y n p q = p
max-if false x y n p q = q

password_checked-max :
    (s : Server) (q : Request) (o : Answer (Option Str)) (l : Limiter)
    → ((password_checked s q o l).1).max ≡ l.max
unfolding password_checked fail reset
password_checked-max s q (failed e) l = refl
password_checked-max s q (given none) l = refl
password_checked-max s q (given (some role)) l = refl

sign_in-max :
    (s : Server) (q : Request) (o : Option Credentials) (l : Limiter)
    → ((sign_in s q o l).1).max ≡ l.max
unfolding sign_in sign_in_with_token fail reset
sign_in-max s q none l = refl
sign_in-max s q (some c) l =
    max-if (not (str_eq c.username []) || not (str_eq c.password []))
      (password_checked s q (s.check_password c.username c.password) l)
      (sign_in_with_token s q c.token l) l.max
      (password_checked-max s q (s.check_password c.username c.password) l)
      (max-if (not s.token_allowed) (forbidden, l)
        (if not (s.token_valid c.token)
          then (unauthorized, fail l q.checked_at q.addr)
          else (started s.set_cookie, reset l q.addr))
        l.max refl
        (max-if (not (s.token_valid c.token)) (unauthorized, fail l q.checked_at q.addr)
          (started s.set_cookie, reset l q.addr) l.max refl refl))

not_blocked-max :
    (s : Server) (q : Request) (x : (Bool × ℕ) × Limiter) → ((not_blocked s q x).1).max ≡ (x.1).max
unfolding not_blocked
not_blocked-max s q ((true, retry), l) = refl
not_blocked-max s q ((false, retry), l) = sign_in-max s q q.credentials l

create_session-max :
    (s : Server) (q : Request) (l : Limiter) → ((create_session s q l).1).max ≡ l.max
unfolding create_session blocked
create_session-max s q l =
    max-if (str_eq q.csrf_header []) (forbidden, l)
      (not_blocked s q (blocked_by l q.asked_at q.addr (Map.lookup q.addr l.m))) l.max refl
      (not_blocked-max s q (blocked_by l q.asked_at q.addr (Map.lookup q.addr l.m))
        ∙ (blocked_by-Limits l q.asked_at q.addr (Map.lookup q.addr l.m)).1)

create_sessions-Bounded :
    (qs : List (Server × Request)) (l : Limiter)
    → 1 ≤ l.max
    → Bounded l
    → (((create_sessions qs l).max ≡ l.max) × Bounded (create_sessions qs l))
unfolding create_sessions
create_sessions-Bounded [] l h b = (refl, b)
create_sessions-Bounded ((s, q) ∷ qs) l h b =
    let k : Limiter = (create_session s q l).1 in
    let same : k.max ≡ l.max = create_session-max s q l in
    let (m, c) =
      create_sessions-Bounded qs k (omega (arith, same)) (create_session-Bounded s q l h b) in
    (m ∙ same, c)

-- If requests to sign in are handled one after another, from a new limiter that allows one failure
-- at least, no address ever has more failures counted in its window than the limiter allows.
pub create_sessions-bounded :
    (max window : ℕ) (qs : List (Server × Request)) (addr : Str) (w : Window)
    → 1 ≤ max
    → Map.lookup addr (create_sessions qs (new_login_limiter max window)).m ≡ some w
    → w.failures ≤ max
unfolding new_login_limiter
create_sessions-bounded max window qs addr w h e =
    let (m, b) = create_sessions-Bounded qs (new_login_limiter max window) h empty in
    subst (λ x. w.failures ≤ x) m (b addr w e)
  where
    none_some : (v : Window) → none ≡ some v → ⊥
    none_some v q = cc

    empty : Bounded (new_login_limiter max window)
    empty k v q = absurd (none_some v (unfold Map.lookup in q))
