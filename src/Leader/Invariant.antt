-- ===== src/Leader/Invariant.antt =====
-- What holds of a system of controllers at all times, and that clock ticks and messages keep it.
use forge_sync.Prelude.{
  List, ℕ, suc, ◌+◌, ◌≤◌, ◌≡◌, ◌⊎◌, inl, inr, refl, Bool, ◌&&◌, Str, str_eq, str_eq_iff, Option,
  none, some, if◌then◌else◌, Bool-cases, arith, subst,
}
use forge_sync.Leader.{
  Lease, Row, Timings, Elector, leading, takes_part, failed, answered, hand_over, step_down,
  leadership, held, remaining,
}
use forge_sync.Leader.System.{
  Late, Phase, idle, asking, reading, replying, releasing, Controller, Setup, System, put,
  after_answer, do_send, do_read, do_lose, do_receive, do_stop,
}

module _ (u : Setup) where
  -- The row is the controller's, and lasts, on that controller's clock, at least until `v`.
  abbrev pub Backed : Option Row → Str → ℕ → Type 0
  Backed none c v = ⊥
  Backed (some r) c v = (r.holder ≡ c) × (v + u.database_skew ≤ r.expires_at + u.skew c)

  -- A time on the controller's clock has passed, or the lease in the database covers it.
  abbrev pub Covered : ℕ → Option Row → Str → ℕ → Type 0
  Covered clock row c v = (v ≤ clock + u.skew c) ⊎ Backed row c v

  -- What an answer would set `until` to.
  abbrev pub claim : Str → ℕ → Lease → ℕ
  claim c sent l = if str_eq l.holder c && held l then sent + remaining l else 0

  abbrev pub PhaseOk : ℕ → Option Row → Str → ℕ → Phase → Type 0
  PhaseOk clock row c until idle = Unit
  PhaseOk clock row c until (asking sent) = sent ≤ clock + u.skew c
  PhaseOk clock row c until (reading sent) = sent ≤ clock + u.skew c
  PhaseOk clock row c until (replying sent l) = Covered clock row c (claim c sent l)
  PhaseOk clock row c until releasing = until ≡ 0

  abbrev pub Good : ℕ → Option Row → Str → Controller → Type 0
  Good clock row c k =
      Covered clock row c k.elector.until × PhaseOk clock row c k.elector.until k.phase

  -- No lease lasts longer than its holder's TTL from now.
  abbrev pub RowOk : ℕ → Option Row → Type 0
  RowOk clock none = Unit
  RowOk clock (some r) = r.expires_at ≤ clock + u.database_skew + (u.timings r.holder).ttl

  pub record Inv (s : System) : Type 0 where
    pub row_ok : RowOk s.clock s.row
    pub good : (c : Str) → Good s.clock s.row c (s.controller c)

  -- A step that leaves the row alone.
  pub put-Inv :
      (s : System) (c : Str) (k : Controller) → Inv s → Good s.clock s.row c k → Inv (put c k s)
  unfolding put
  put-Inv s c k h g = record {
    row_ok = h.row_ok;
    good = λ d. elim (Bool-cases (str_eq c d)) [
      | inl same ↦ rw same (subst (λ x. Good s.clock s.row x k) ((str_eq_iff c d).0 same) g)
      | inr other ↦ rw other (h.good d)
    ];
  }

  pub Covered-tick :
      (clock : ℕ) (row : Option Row) (c : Str) (v : ℕ)
      → Covered clock row c v
      → Covered (suc clock) row c v
  Covered-tick clock row c v (inl h) = inl (omega arith)
  Covered-tick clock row c v (inr h) = inr h

  pub PhaseOk-tick :
      (clock : ℕ) (row : Option Row) (c : Str) (v : ℕ) (p : Phase)
      → PhaseOk clock row c v p
      → PhaseOk (suc clock) row c v p
  PhaseOk-tick clock row c v idle h = tt
  PhaseOk-tick clock row c v (asking sent) h = omega arith
  PhaseOk-tick clock row c v (reading sent) h = omega arith
  PhaseOk-tick clock row c v (replying sent l) h = Covered-tick clock row c (claim c sent l) h
  PhaseOk-tick clock row c v releasing h = h

  pub RowOk-tick : (clock : ℕ) (row : Option Row) → RowOk clock row → RowOk (suc clock) row
  RowOk-tick clock none h = tt
  RowOk-tick clock (some r) h = omega arith

  pub tick-Inv : (s : System) → Inv s → Inv (record s { clock = suc s.clock })
  tick-Inv s h = record {
    row_ok = RowOk-tick s.clock s.row h.row_ok;
    good = λ c. (
      Covered-tick s.clock s.row c (s.controller c).elector.until (h.good c).0,
      PhaseOk-tick s.clock s.row c (s.controller c).elector.until (s.controller c).phase
          (h.good c).1,
    );
  }

  pub send-Inv : (s : System) (c : Str) (p : Phase) → Inv s → Inv (do_send u c p s)
  unfolding do_send
  send-Inv s c idle h =
      elim (Bool-cases (takes_part (s.controller c).elector (s.clock + u.skew c))) [
        | inl yes_ ↦ rw yes_ (put-Inv s c _ h ((h.good c).0, omega arith))
        | inr no_ ↦ rw no_ h
      ]
  send-Inv s c (asking t) h = h
  send-Inv s c _ h = h

  -- An answer read from a row claims no more than the row covers.
  pub claim-Covered :
      (clock : ℕ) (row : Option Row) (c : Str) (sent : ℕ)
      → sent ≤ clock + u.skew c
      → Covered clock row c (claim c sent (leadership (clock + u.database_skew) row))
  unfolding leadership held remaining
  claim-Covered clock none c sent h = inl (ground arith)
  claim-Covered clock (some r) c sent h = ground (arith, str_eq_iff r.holder c)

  pub read-Inv :
      (s : System) (c : Str) (p : Phase)
      → (s.controller c).phase ≡ p
      → Inv s
      → Inv (do_read u c p s)
  unfolding do_read
  read-Inv s c (reading sent) e h = put-Inv s c _ h (
    (h.good c).0,
    claim-Covered s.clock s.row c sent
        (subst (PhaseOk s.clock s.row c (s.controller c).elector.until) e (h.good c).1),
  )
  read-Inv s c idle e h = h
  read-Inv s c _ e h = h

  -- The statements that may run late are not read.
  pub dropped-Inv : (s : System) (l : List Late) → Inv s → Inv (record s { late = l })
  dropped-Inv s l h = record { row_ok = h.row_ok; good = h.good }

  pub lose-Inv : (s : System) (c err : Str) (p : Phase) → Inv s → Inv (do_lose c err p s)
  unfolding do_lose failed
  lose-Inv s c err idle h = h
  lose-Inv s c err releasing h = dropped-Inv _ _ (put-Inv s c _ h ((h.good c).0, tt))
  lose-Inv s c err (asking t) h = dropped-Inv _ _ (put-Inv s c _ h ((h.good c).0, tt))
  lose-Inv s c err _ h = put-Inv s c _ h ((h.good c).0, tt)

  pub after_answer-Good :
      (clock : ℕ) (row : Option Row) (c : Str) (o : Timings) (yields : Bool) (e : Elector)
      → Covered clock row c e.until
      → Good clock row c (after_answer o (clock + u.skew c) yields e)
  unfolding after_answer hand_over
  after_answer-Good clock row c o yields e h =
      elim (Bool-cases (leading e (clock + u.skew c) && yields)) [
        | inl over ↦ rw over (inl (omega arith), refl)
        | inr stays ↦ rw stays (h, tt)
      ]

  pub receive-Inv :
      (s : System) (c : Str) (yields : Bool) (p : Phase)
      → (s.controller c).phase ≡ p
      → Inv s
      → Inv (do_receive u c yields p s)
  unfolding do_receive answered
  receive-Inv s c yields (replying sent l) e h = put-Inv s c _ h (
      after_answer-Good s.clock s.row c (u.timings c) yields _
        (subst (PhaseOk s.clock s.row c (s.controller c).elector.until) e (h.good c).1))
  receive-Inv s c yields idle e h = h
  receive-Inv s c yields _ e h = h

  pub stop-Inv : (s : System) (c : Str) (p : Phase) → Inv s → Inv (do_stop u c p s)
  unfolding do_stop step_down
  stop-Inv s c idle h = elim (Bool-cases (leading (s.controller c).elector (s.clock + u.skew c))) [
    | inl leads ↦ rw leads (put-Inv s c _ h (inl (omega arith), refl))
    | inr not_ ↦ rw not_ h
  ]
  stop-Inv s c (asking t) h = h
  stop-Inv s c _ h = h
