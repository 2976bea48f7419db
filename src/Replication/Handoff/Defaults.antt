-- ===== src/Replication/Handoff/Defaults.antt =====
-- internal/replication/handoff.go, fixDefaultBranches: each replica gets the primary's default branch.
-- What the API answers is a parameter; the log is left out.
use forge_sync.Prelude.{
  refl, str_eq_refl, arith, not, All, any, ◌≡◌, ◌&&◌, Bool, true, false, List, [], ◌∷◌, Str, str_eq,
  if◌then◌else◌,
}
use forge_sync.Prelude.Effects.{
  Answer, given, failed, Effect, ◌>>=◌, ◌>>◌, give, call, tell, attempt, Keeps, Keeps->>=, Keeps->>,
  Keeps-give, Keeps-call, Keeps-tell, Keeps-attempt, Keeps-if_of,
}
use forge_sync.Records.{Replica}

pub data Event : Type 0 where
  -- SetDefaultBranch, on a node.
  default_set : Str → Str → Event
  audited : Str → Event

pub record Run : Type 0 where
  pub primary : Str
  pub configured : Str → Bool
  pub has_api : Str → Bool
  pub healthy : Str → Bool
  pub set_default : Str → Str → List Event → Answer (Unit {0})

-- The primary's default branch.
unfoldable pub wanted_branch : Str → List Replica → Str → Str
wanted_branch primary [] want = want
wanted_branch primary (x ∷ replicas) want =
    wanted_branch primary replicas
      (if str_eq x.node primary && x.present then x.default_branch else want)

-- A replica that is to get it.
unfoldable pub is_other_default : Run → Str → Replica → Bool
is_other_default r want x =
    r.configured x.node
    && not (str_eq x.node r.primary)
    && x.present
    && not x.empty
    && not x.mirror
    && not (str_eq x.default_branch want)
    && r.healthy x.node
    && r.has_api x.node

unfoldable pub default_answered : Str → Answer (Unit {0}) → Effect Event (Unit {0})
default_answered n (failed e) = give tt
default_answered n (given u) = tell (audited n)

unfoldable pub fix_default : Run → Str → Replica → Effect Event (Unit {0})
fix_default r want x =
    if is_other_default r want x
    then (do
      o ← attempt (call (r.set_default x.node want) (default_set x.node want))
      default_answered x.node o)
    else give tt

unfoldable pub fix_each_default : Run → Str → List Replica → Effect Event (Unit {0})
fix_each_default r want [] = give tt
fix_each_default r want (x ∷ replicas) = do fix_default r want x; fix_each_default r want replicas

-- fixDefaultBranches.
unfoldable pub fix_default_branches : Run → List Replica → Effect Event (Unit {0})
fix_default_branches r replicas =
    if str_eq (wanted_branch r.primary replicas []) []
    then give tt
    else fix_each_default r (wanted_branch r.primary replicas []) replicas

-- A default branch is set on a node that is not the primary, is there to be written, and has another
-- one; it is set to the primary's, which is not empty.
abbrev pub Allowed : Run → List Replica → Event → Type 0
Allowed r replicas (audited n) = Unit
Allowed r replicas (default_set n branch) =
    (branch ≡ wanted_branch r.primary replicas [])
    × (str_eq branch [] ≡ false)
    × (str_eq n r.primary ≡ false)
    × (any
          (λ x.
            str_eq x.node n && x.present && not (str_eq x.default_branch branch) && not x.mirror)
          replicas
        ≡ true)

module _ (r : Run) (all_replicas : List Replica) where
  want : Str
  want = wanted_branch r.primary all_replicas []

  is_one : Str → Replica → Bool
  is_one n x = str_eq x.node n && x.present && not (str_eq x.default_branch want) && not x.mirror

  fix_default-Keeps :
      (x : Replica)
      → str_eq want [] ≡ false
      → (is_one x.node x ≡ true → any (is_one x.node) all_replicas ≡ true)
      → Keeps (Allowed r all_replicas) (fix_default r want x)
  unfolding fix_default default_answered is_other_default is_one want
  fix_default-Keeps x w among =
      Keeps-if_of (Allowed r all_replicas) (is_other_default r want x)
        (do
          o ← attempt (call (r.set_default x.node want) (default_set x.node want))
          default_answered x.node o)
        (give tt) (λ b. set (refl, w, other b, among (one b)))
        (λ b. Keeps-give (Allowed r all_replicas) tt)
    where
      other : is_other_default r want x ≡ true → str_eq x.node r.primary ≡ false
      other b = ground (arith, b)

      one : is_other_default r want x ≡ true → is_one x.node x ≡ true
      one b = ground (arith, b, str_eq_refl x.node)

      answered :
          (o : Answer (Unit {0})) → Keeps (Allowed r all_replicas) (default_answered x.node o)
      answered (failed e) = search (Keeps-give)
      answered (given u) = search (Keeps-tell)

      set :
          Allowed r all_replicas (default_set x.node want)
          → Keeps (Allowed r all_replicas) (do
            o ← attempt (call (r.set_default x.node want) (default_set x.node want))
            default_answered x.node o)
      set m = search (Keeps->>=, Keeps-attempt, Keeps-call, m, answered)

  fix_each_default-Keeps :
      (replicas : List Replica)
      → str_eq want [] ≡ false
      → ((n : Str) → any (is_one n) replicas ≡ true → any (is_one n) all_replicas ≡ true)
      → Keeps (Allowed r all_replicas) (fix_each_default r want replicas)
  unfolding fix_each_default any
  fix_each_default-Keeps [] w h = search (Keeps-give)
  fix_each_default-Keeps (x ∷ replicas) w h =
      Keeps->> (Allowed r all_replicas) (fix_default r want x) (fix_each_default r want replicas)
        (fix_default-Keeps x w (λ e. h x.node (ground (arith, e))))
        (fix_each_default-Keeps replicas w (λ n e. h n (ground (arith, e))))

  -- Whatever the API answers, fixDefaultBranches sets a default branch only to the primary's, which
  -- is not empty, and only on a node other than the primary that has a copy with another one which
  -- is no mirror.
  pub fix_default_branches-Allowed :
      All (Allowed r all_replicas) ((fix_default_branches r all_replicas []).1)
  unfolding fix_default_branches want
  fix_default_branches-Allowed =
      (Keeps-if_of (Allowed r all_replicas) (str_eq want []) (give tt)
          (fix_each_default r want all_replicas) (λ b. Keeps-give (Allowed r all_replicas) tt)
          (λ b. fix_each_default-Keeps all_replicas b (λ n e. e))).keeps
        [] tt
