-- ===== src/Consolidation/Reconciliation/Runs.antt =====
-- What the calls of Reconcile leave in consolidation.reconciliation_run.
use keyrus.Base.{
  ℕ, ◌≤◌, ◌<◌, ◌≡◌, ◌⊎◌, refl, sym, ◌∙◌, ap, Bool, true, ◌&&◌, none, some, List, ltb, leb, ◌==◌,
  arith, Bool-cases, Option-cases, inl, inr, Result, ok,
}
use keyrus.Base.Text.{Text, text_eq, text_eq_refl, lower}
use keyrus.Base.Date.{Date, format}
use keyrus.Base.Date.Number.{day_number}
use keyrus.Consolidation.Event.{Failure}
use keyrus.Consolidation.Projection.{Projection}
use keyrus.Consolidation.Reconciliation.{
  StreamAttempt, Run, RunTable, ReconcileResult, mark_skipped, save_run, stream_source,
  maximum_attempts, compare_day, reconcile_fresh, reconcile,
}

-- a row stays, or a newer cut replaces it
abbrev pub IsNewer : ℕ → Run → Run → Type 0
IsNewer cut old new = (new ≡ old) ⊎ ((old.cut < new.cut) × (new.cut ≡ cut))

save_run-IsNewer :
    (m : Text) (day : ℕ) (r : Run) (runs : RunTable) (k : Text) (d : ℕ) (old : Run)
    → runs k d ≡ some old
    → (new : Run) × (save_run m day r runs k d ≡ some new) × IsNewer r.cut old new
unfolding save_run
save_run-IsNewer m day r runs k d old h = elim (Bool-cases (text_eq k m && (d == day))) [
  | inr other ↦ (old, rw other h, inl refl)
  | inl here ↦ elim (Bool-cases (ltb old.cut r.cut)) [
    | inl newer ↦ (r, rw (here, h, newer) refl, inr (ground (arith, newer), refl))
    | inr older ↦ (old, rw (here, h, older) refl, inl refl)
  ]
]

fresh-IsNewer :
    (works : Bool) (attempts : List StreamAttempt) (m : Text) (date : Date) (cut : ℕ)
    (t : Projection) (runs : RunTable) (k : Text) (d : ℕ) (old : Run)
    → runs k d ≡ some old
    → (new : Run) × ((reconcile_fresh works attempts m date cut t runs).1 k d ≡ some new)
      × IsNewer cut old new
unfolding reconcile_fresh
fresh-IsNewer works attempts m date cut t runs k d old h =
    elim (Option-cases (stream_source maximum_attempts (format date) attempts)) [
      | inl failed ↦ (old, rw (reconcile_fresh, failed) h, inl refl)
      | inr (s, read) ↦ elim (Bool-cases works) [
        | inr down ↦ (old, rw (reconcile_fresh, read, down) h, inl refl)
        | inl up ↦
            let row : Run = record {
              cut = cut;
              outcome = compare_day m (day_number date) cut s t;
            } in
            let (new, saved, newer) = save_run-IsNewer m (day_number date) row runs k d old h in
            (new, rw (reconcile_fresh, read, up) saved, newer)
      ]
    ]

-- However a call of Reconcile ends, a persisted row of any merchant and day stays as it is, unless it
-- is replaced by one of the call's own cut, which is then greater.
pub reconcile-IsNewer :
    (works : Bool) (attempts : List StreamAttempt) (merchant : Text) (date : Date) (cut : ℕ)
    (t : Projection) (runs : RunTable) (k : Text) (d : ℕ) (old : Run)
    → runs k d ≡ some old
    → (new : Run) × ((reconcile works attempts merchant date cut t runs).1 k d ≡ some new)
      × IsNewer cut old new
unfolding reconcile
reconcile-IsNewer works attempts merchant date cut t runs k d old h =
    let fresh = fresh-IsNewer works attempts (lower merchant) date cut t runs k d old h in
    elim (Option-cases (runs (lower merchant) (day_number date))) [
      | inl first ↦ rw (reconcile, first) fresh
      | inr (r, found) ↦ elim (Bool-cases (leb cut r.cut)) [
        | inl skipped ↦ (old, rw (reconcile, found, skipped) h, inl refl)
        | inr later ↦ rw (reconcile, found, later) fresh
      ]
    ]

fresh-eq-ok :
    (works : Bool) (attempts : List StreamAttempt) (m : Text) (date : Date) (cut : ℕ)
    (t : Projection) (runs u : RunTable) (r : ReconcileResult)
    → reconcile_fresh works attempts m date cut t runs ≡ (ok r, u)
    → u ≡ save_run m (day_number date) (record { cut = cut; outcome = r }) runs
unfolding reconcile_fresh
fresh-eq-ok works attempts m date cut t runs u r h =
    elim (Option-cases (stream_source maximum_attempts (format date) attempts)) [
      | inl failed ↦ absurd (ground (arith, rw (reconcile_fresh, failed) at h))
      | inr (s, read) ↦ elim (Bool-cases works) [
        | inr down ↦ absurd (ground (arith, rw (reconcile_fresh, read, down) at h))
        | inl up ↦
            let done = rw (reconcile_fresh, read, up) at h in
            let same : compare_day m (day_number date) cut s t ≡ r = ground (arith, done) in
            sym (ap (λ (x : Result Failure ReconcileResult × RunTable). x.1) done)
            ∙ ap
                (λ (x : ReconcileResult).
                  save_run m (day_number date) (record { cut = cut; outcome = x }) runs)
                same
      ]
    ]

saved_first :
    (m : Text) (day : ℕ) (r : Run) (runs : RunTable)
    → runs m day ≡ none
    → save_run m day r runs m day ≡ some r
unfolding save_run
saved_first m day r runs h =
    let self : (day == day) ≡ true = ground arith in rw (text_eq_refl m, self, h) refl

saved_newer :
    (m : Text) (day : ℕ) (r old : Run) (runs : RunTable)
    → runs m day ≡ some old
    → ltb old.cut r.cut ≡ true
    → save_run m day r runs m day ≡ some r
unfolding save_run
saved_newer m day r old runs h newer =
    let self : (day == day) ≡ true = ground arith in rw (text_eq_refl m, self, h, newer) refl

reconcile_skips :
    (works : Bool) (attempts : List StreamAttempt) (merchant : Text) (date : Date) (cut : ℕ)
    (t : Projection) (runs : RunTable) (old : Run)
    → runs (lower merchant) (day_number date) ≡ some old
    → cut ≤ old.cut
    → reconcile works attempts merchant date cut t runs ≡ (ok (mark_skipped old.outcome), runs)
unfolding reconcile
reconcile_skips works attempts merchant date cut t runs old found older =
    let test : leb cut old.cut ≡ true = ground (arith, older) in rw (reconcile, found, test) refl

-- the four counts of two results
pub record SameCounts (a b : ReconcileResult) : Type 0 where
  pub missing : a.missing_entries ≡ b.missing_entries
  pub extra : a.extra_entries ≡ b.extra_entries
  pub duplicated : a.duplicated_entries ≡ b.duplicated_entries
  pub difference : a.financial_difference ≡ b.financial_difference

abbrev same_counts : (a : ReconcileResult) → SameCounts a a
same_counts a = record { missing = refl; extra = refl; duplicated = refl; difference = refl }

mark_skipped-SameCounts : (a b : ReconcileResult) → SameCounts a b → SameCounts (mark_skipped a) b
mark_skipped-SameCounts a b c = record {
  missing = c.missing;
  extra = c.extra;
  duplicated = c.duplicated;
  difference = c.difference;
}

mark_skipped-same : (a b : ReconcileResult) → mark_skipped a ≡ b → SameCounts a b
mark_skipped-same a b h = record {
  missing = ap (λ (r : ReconcileResult). r.missing_entries) h;
  extra = ap (λ (r : ReconcileResult). r.extra_entries) h;
  duplicated = ap (λ (r : ReconcileResult). r.duplicated_entries) h;
  difference = ap (λ (r : ReconcileResult). r.financial_difference) h;
}

-- what a call that returned a result has persisted
persisted :
    (works : Bool) (attempts : List StreamAttempt) (merchant : Text) (date : Date) (cut : ℕ)
    (t : Projection) (runs u : RunTable) (r : ReconcileResult)
    → reconcile works attempts merchant date cut t runs ≡ (ok r, u)
    → (row : Run) × (u (lower merchant) (day_number date) ≡ some row)
      × (cut ≤ row.cut)
      × SameCounts row.outcome r
unfolding reconcile
persisted works attempts merchant date cut t runs u r h =
    let m = lower merchant in
    let day = day_number date in
    let row : Run = record { cut = cut; outcome = r } in
    elim (Option-cases (runs m day)) [
      | inl first ↦
          let saved =
            fresh-eq-ok works attempts m date cut t runs u r (rw (reconcile, first) at h) in
          (
            row,
            ap (λ (x : RunTable). x m day) saved ∙ saved_first m day row runs first,
            omega arith,
            same_counts r,
          )
      | inr (old, found) ↦ elim (Bool-cases (leb cut old.cut)) [
        | inl skipped ↦
            let done = rw (reconcile, found, skipped) at h in
            let same : mark_skipped old.outcome ≡ r = ground (arith, done) in
            (
              old,
              ap (λ (x : Result Failure ReconcileResult × RunTable). x.1 m day) (sym done) ∙ found,
              ground (arith, skipped),
              mark_skipped-same old.outcome r same,
            )
        | inr later ↦
            let saved =
              fresh-eq-ok works attempts m date cut t runs u r
                (rw (reconcile, found, later) at h) in
            (
              row,
              ap (λ (x : RunTable). x m day) saved
                  ∙ saved_newer m day row old runs found (ground (arith, later)),
              omega arith,
              same_counts r,
            )
      ]
    ]

-- A call of Reconcile that returned a result is repeated at no cost: until another call, one of the
-- same cut or an older one, for the same merchant and day, returns the same number of missing, extra
-- and duplicated entries and the same financial difference, is marked as skipped and changes no row,
-- whatever the Ledger streams and the projection holds by then.
pub reconcile_again :
    (works works' : Bool) (attempts attempts' : List StreamAttempt) (merchant : Text) (date : Date)
    (cut cut' : ℕ) (t t' : Projection) (runs u : RunTable) (r : ReconcileResult)
    → reconcile works attempts merchant date cut t runs ≡ (ok r, u)
    → cut' ≤ cut
    → (again : ReconcileResult) × (reconcile works' attempts' merchant date cut' t' u
        ≡ (ok again, u))
      × SameCounts again r
      × (again.is_skipped ≡ true)
reconcile_again works works' attempts attempts' merchant date cut cut' t t' runs u r h older =
    let (row, found, newer, same) = persisted works attempts merchant date cut t runs u r h in
    (
      mark_skipped row.outcome,
      reconcile_skips works' attempts' merchant date cut' t' u row found
          (omega (arith, older, newer)),
      mark_skipped-SameCounts row.outcome r same,
      refl,
    )
