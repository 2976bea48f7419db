-- ===== src/Leader/Writes.antt =====
-- The writes to the database keep the invariant, and so does every step.
use forge_sync.Leader.Invariant.{Covered, claim, PhaseOk, Good, RowOk, Inv, put-Inv, claim-Covered}
use forge_sync.Prelude.{
  ◌∙◌, false, sym, ap, ℕ, ◌+◌, ◌≤◌, ◌≡◌, ◌⊎◌, inl, inr, refl, Str, str_eq, str_eq_iff, Option, none,
  some, Bool-cases, arith, subst,
}
use forge_sync.Leader.{false, release_lease, upsert, Row}
use forge_sync.Leader.System.{
  do_release, do_upsert, do_upsert_row, Phase, idle, asking, reading, replying, releasing, Setup,
  System, put,
}

module _ (u : Setup) where
  -- The lease is free for the controller to take or to renew.
  abbrev pub Free : Option Row → Str → ℕ → Type 0
  Free none c now = Unit
  Free (some r) c now = (r.holder ≡ c) ⊎ (r.expires_at ≤ now)

  pub upsert-Free :
      (c name url : Str) (ttl now : ℕ) (row : Option Row) (r : Row)
      → upsert c name url ttl now row ≡ some r
      → (r.holder ≡ c) × (r.expires_at ≡ now + ttl) × Free row c now
  unfolding upsert
  upsert-Free c name url ttl now none r h = (ground arith, ground arith, tt)
  upsert-Free c name url ttl now (some q) r h =
      (ground arith, ground arith, ground (arith, str_eq_iff q.holder c))

  -- Taking a free lease takes away no time that another controller counts on.
  pub Covered-taken :
      (clock : ℕ) (row : Option Row) (c d : Str) (v : ℕ) (r : Row)
      → RowOk u clock row
      → r.holder ≡ c
      → r.expires_at ≡ clock + u.database_skew + (u.timings c).ttl
      → Free row c (clock + u.database_skew)
      → Covered u clock row d v
      → Covered u clock (some r) d v
  Covered-taken clock row c d v r ok hc he f (inl h) = inl h
  Covered-taken clock none c d v r ok hc he f (inr h) = absurd h
  Covered-taken clock (some q) c d v r ok hc he (inl own) (inr h) =
      let ttl : (u.timings q.holder).ttl ≡ (u.timings c).ttl =
        ap (λ (x : Str). (u.timings x).ttl) own in
      inr (hc ∙ sym own ∙ h.0, omega arith)
  Covered-taken clock (some q) c d v r ok hc he (inr over) (inr h) = inl (omega arith)

  pub PhaseOk-taken :
      (clock : ℕ) (row : Option Row) (c d : Str) (v : ℕ) (r : Row) (p : Phase)
      → RowOk u clock row
      → r.holder ≡ c
      → r.expires_at ≡ clock + u.database_skew + (u.timings c).ttl
      → Free row c (clock + u.database_skew)
      → PhaseOk u clock row d v p
      → PhaseOk u clock (some r) d v p
  PhaseOk-taken clock row c d v r idle ok hc he f h = tt
  PhaseOk-taken clock row c d v r (asking t) ok hc he f h = h
  PhaseOk-taken clock row c d v r (reading t) ok hc he f h = h
  PhaseOk-taken clock row c d v r (replying t l) ok hc he f h =
      Covered-taken clock row c d (claim u d t l) r ok hc he f h
  PhaseOk-taken clock row c d v r releasing ok hc he f h = h

  -- What AcquireLease's statement writes, it may.
  abbrev pub MayWrite : System → Str → Option Row → Type 0
  MayWrite s c none = Unit
  MayWrite s c (some r) =
      (r.holder ≡ c)
      × (r.expires_at ≡ s.clock + u.database_skew + (u.timings c).ttl)
      × Free s.row c (s.clock + u.database_skew)

  pub upsert-MayWrite :
      (s : System) (c : Str) (o : Option Row)
      → upsert c (u.name c) (u.url c) (u.timings c).ttl (s.clock + u.database_skew) s.row ≡ o
      → MayWrite s c o
  upsert-MayWrite s c none e = tt
  upsert-MayWrite s c (some r) e =
      upsert-Free c (u.name c) (u.url c) (u.timings c).ttl (s.clock + u.database_skew) s.row r e

  pub taken-Inv :
      (s : System) (c : Str) (r : Row)
      → Inv u s
      → MayWrite s c (some r)
      → Inv u (record s { row = some r })
  taken-Inv s c r h (hc, he, f) = record {
    row_ok = rw hc (omega arith);
    good = λ d. (
      Covered-taken s.clock s.row c d (s.controller d).elector.until r h.row_ok hc he f
          (h.good d).0,
      PhaseOk-taken s.clock s.row c d (s.controller d).elector.until r (s.controller d).phase
          h.row_ok hc he f (h.good d).1,
    );
  }

  upsert_row-Inv :
      (s : System) (c : Str) (sent : ℕ) (o : Option Row)
      → Inv u s
      → sent ≤ s.clock + u.skew c
      → MayWrite s c o
      → Inv u (do_upsert_row u c sent o s)
  unfolding do_upsert_row put
  upsert_row-Inv s c sent none h t may = put-Inv u s c _ h ((h.good c).0, t)
  upsert_row-Inv s c sent (some r) h t may =
      let now : System = record s { row = some r } in
      let taken : Inv u now = taken-Inv s c r h may in
      put-Inv u now c _ taken ((taken.good c).0, claim-Covered u s.clock (some r) c sent t)

  pub upsert-Inv :
      (s : System) (c : Str) (p : Phase)
      → (s.controller c).phase ≡ p
      → Inv u s
      → Inv u (do_upsert u c p s)
  unfolding do_upsert
  upsert-Inv s c (asking sent) e h =
      upsert_row-Inv s c sent _ h
        (subst (PhaseOk u s.clock s.row c (s.controller c).elector.until) e (h.good c).1)
        (upsert-MayWrite s c _ refl)
  upsert-Inv s c idle e h = h
  upsert-Inv s c _ e h = h

  -- Giving up one's lease takes away no other controller's.
  pub Covered-released :
      (clock : ℕ) (row : Option Row) (c d : Str) (v now : ℕ)
      → str_eq c d ≡ false
      → Covered u clock row d v
      → Covered u clock (release_lease c now row) d v
  unfolding release_lease
  Covered-released clock row c d v now ne (inl h) = inl h
  Covered-released clock none c d v now ne (inr h) = absurd h
  Covered-released clock (some r) c d v now ne (inr h) =
      ground (arith, str_eq_iff r.holder c, str_eq_iff c d)

  pub PhaseOk-released :
      (clock : ℕ) (row : Option Row) (c d : Str) (v now : ℕ) (p : Phase)
      → str_eq c d ≡ false
      → PhaseOk u clock row d v p
      → PhaseOk u clock (release_lease c now row) d v p
  PhaseOk-released clock row c d v now idle ne h = tt
  PhaseOk-released clock row c d v now (asking t) ne h = h
  PhaseOk-released clock row c d v now (reading t) ne h = h
  PhaseOk-released clock row c d v now (replying t l) ne h =
      Covered-released clock row c d (claim u d t l) now ne h
  PhaseOk-released clock row c d v now releasing ne h = h

  pub RowOk-released :
      (clock : ℕ) (row : Option Row) (c : Str)
      → RowOk u clock row
      → RowOk u clock (release_lease c (clock + u.database_skew) row)
  unfolding release_lease
  RowOk-released clock none c h = tt
  RowOk-released clock (some r) c h = ground arith

  pub release-Inv :
      (s : System) (c : Str) (p : Phase)
      → (s.controller c).phase ≡ p
      → Inv u s
      → Inv u (do_release u c p s)
  unfolding do_release put
  release-Inv s c releasing e h =
      let stopped : (s.controller c).elector.until ≡ 0 =
        subst (PhaseOk u s.clock s.row c (s.controller c).elector.until) e (h.good c).1 in
      record {
        row_ok = RowOk-released s.clock s.row c h.row_ok;
        good = λ d. elim (Bool-cases (str_eq c d)) [
          | inl same ↦ rw same (
              subst
                (λ x.
                  Good u s.clock (release_lease c (s.clock + u.database_skew) s.row) x
                    (record (s.controller c) { phase = idle }))
                ((str_eq_iff c d).0 same) (inl (omega arith), tt))
          | inr other ↦ rw other (
            Covered-released s.clock s.row c d (s.controller d).elector.until
                (s.clock + u.database_skew) other (h.good d).0,
            PhaseOk-released s.clock s.row c d (s.controller d).elector.until
                (s.clock + u.database_skew) (s.controller d).phase other (h.good d).1,
          )
        ];
      }
  release-Inv s c idle e h = h
  release-Inv s c _ e h = h
