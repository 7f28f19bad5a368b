-- ===== src/Consolidation/Days/Keeps.antt =====
-- What the statements on balances keep: the order of the dates and the totals of the days.
use keyrus.Base.{
  ℕ, zero, suc, ◌+◌, ◌-◌, ◌≡◌, refl, sym, ◌∙◌, ap, subst, List, ◌==◌, if◌then◌else◌, arith, ok,
}
use keyrus.Base.Int.{pos}
use keyrus.Consolidation.Event.{Effect}
use keyrus.Consolidation.Days.{
  Day, upsert_totals, insert_missing, materialize, baseline, recompute_days, add_totals,
}
use keyrus.Consolidation.Days.Closing.{IsAscending, run_balances-IsAscending}
use keyrus.Consolidation.Days.Fill.{
  insert_missing-IsAscending, recompute_days-eq-ok, upsert_totals-IsAscending,
}
use keyrus.Consolidation.Days.Totals.{
  totals_at, add_sums, totals-upsert, totals-insert_missing, totals-run_balances,
}

materialize-IsAscending :
    (n d : ℕ) (rows : List Day) → IsAscending 0 rows → IsAscending 0 (materialize n d rows)
unfolding materialize
materialize-IsAscending zero d rows a = a
materialize-IsAscending (suc n) d rows a =
    materialize-IsAscending n (d + 1) (insert_missing d rows)
      (insert_missing-IsAscending d 0 rows (omega arith) a)

totals-materialize :
    (k n d : ℕ) (rows : List Day)
    → IsAscending 0 rows
    → totals_at k (materialize n d rows) ≡ totals_at k rows
unfolding materialize
totals-materialize k zero d rows a = refl
totals-materialize k (suc n) d rows a =
    totals-materialize k n (d + 1) (insert_missing d rows)
      (insert_missing-IsAscending d 0 rows (omega arith) a)
    ∙ totals-insert_missing k d 0 rows a

-- A block keeps the order of the dates.
pub recompute_days-IsAscending :
    (next through : ℕ) (rows rows' : List Day)
    → IsAscending 0 rows
    → recompute_days next through rows ≡ ok rows'
    → IsAscending 0 rows'
recompute_days-IsAscending next through rows rows' a h =
    let filled = materialize (through + 1 - next) next rows in
    subst (IsAscending 0) (sym (recompute_days-eq-ok next through rows rows' h)) (
      run_balances-IsAscending next through 0 (baseline next (pos 0) filled) filled
        (materialize-IsAscending (through + 1 - next) next rows a))

-- A block keeps the totals of every day.
pub totals-recompute_days :
    (k next through : ℕ) (rows rows' : List Day)
    → IsAscending 0 rows
    → recompute_days next through rows ≡ ok rows'
    → totals_at k rows' ≡ totals_at k rows
totals-recompute_days k next through rows rows' a h =
    let filled = materialize (through + 1 - next) next rows in
    ap (totals_at k) (recompute_days-eq-ok next through rows rows' h)
    ∙ totals-run_balances k next through (baseline next (pos 0) filled) filled
    ∙ totals-materialize k (through + 1 - next) next rows a

add_totals-eq-ok :
    (d : ℕ) (f : Effect) (rows rows' : List Day)
    → add_totals d f rows ≡ ok rows'
    → rows' ≡ upsert_totals d f rows
unfolding add_totals
add_totals-eq-ok d f rows rows' h = ground (arith, h)

pub add_totals-IsAscending :
    (d : ℕ) (f : Effect) (rows rows' : List Day)
    → IsAscending 0 rows
    → add_totals d f rows ≡ ok rows'
    → IsAscending 0 rows'
add_totals-IsAscending d f rows rows' a h =
    subst (IsAscending 0) (sym (add_totals-eq-ok d f rows rows' h))
      (upsert_totals-IsAscending d 0 f rows (omega arith) a)

-- A new event adds its effect to its day and to no other.
pub totals-add_totals :
    (k d : ℕ) (f : Effect) (rows rows' : List Day)
    → IsAscending 0 rows
    → add_totals d f rows ≡ ok rows'
    → totals_at k rows' ≡ (if d == k then add_sums (totals_at k rows) f else totals_at k rows)
totals-add_totals k d f rows rows' a h =
    ap (totals_at k) (add_totals-eq-ok d f rows rows' h) ∙ totals-upsert k d 0 f rows a
