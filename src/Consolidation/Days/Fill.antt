-- ===== src/Consolidation/Days/Fill.antt =====
-- Rows that are inserted by a recompute block or for a new event, and the block as a whole.
use keyrus.Base.{
  ℕ, zero, suc, ◌+◌, ◌-◌, ◌≤◌, ◌≡◌, sym, subst, List, [], ◌∷◌, ltb, ◌==◌, arith, Bool-cases, inl,
  inr, ok, err,
}
use keyrus.Base.Int.{ℤ, pos}
use keyrus.Consolidation.Event.{Effect, Failure, conflict_error}
use keyrus.Consolidation.Days.{
  Day, add_effect, upsert_totals, insert_missing, materialize, baseline, run_balances,
  recompute_days, add_totals, latest_date,
}
use keyrus.Consolidation.Days.Closing.{
  IsAscending, IsUpTo, IsClosedBefore, IsClosed, closed_above, run_balances-IsAscending,
  run_balances-IsUpTo, run_balances-IsClosedBefore,
}

pub insert_missing-IsAscending :
    (d lo : ℕ) (rows : List Day)
    → lo ≤ d
    → IsAscending lo rows
    → IsAscending lo (insert_missing d rows)
unfolding insert_missing
insert_missing-IsAscending d lo [] h a = (h, tt)
insert_missing-IsAscending d lo (r ∷ rs) h a = elim (Bool-cases (r.date == d)) [
  | inl same ↦ rw same a
  | inr other ↦ elim (Bool-cases (ltb d r.date)) [
    | inl before ↦ rw (other, before) (h, (ground (arith, before), a.1))
    | inr after ↦
        rw (other, after)
          (a.0, insert_missing-IsAscending d (suc r.date) rs (ground (arith, other, after)) a.1)
  ]
]

insert_missing-IsUpTo :
    (d t : ℕ) (rows : List Day) → d ≤ t → IsUpTo t rows → IsUpTo t (insert_missing d rows)
unfolding insert_missing
insert_missing-IsUpTo d t [] h u = (h, tt)
insert_missing-IsUpTo d t (r ∷ rs) h u = ground (arith, insert_missing-IsUpTo d t rs h u.1, u, h)

insert_missing-IsClosedBefore :
    (d next lo : ℕ) (acc : ℤ) (rows : List Day)
    → next ≤ d
    → IsAscending lo rows
    → IsClosedBefore next acc rows
    → IsClosedBefore next acc (insert_missing d rows)
unfolding insert_missing
insert_missing-IsClosedBefore d next lo acc [] h a c =
    (λ below. absurd (omega (arith, h, below)), tt)
insert_missing-IsClosedBefore d next lo acc (r ∷ rs) h a c = elim (Bool-cases (r.date == d)) [
  | inl same ↦ rw same c
  | inr other ↦ elim (Bool-cases (ltb d r.date)) [
    | inl before ↦
        rw (other, before)
          (
            λ below. absurd (omega (arith, h, below)),
            closed_above next r.date (pos 0) (r ∷ rs) (ground (arith, before, h))
                (omega arith, a.1),
          )
    | inr after ↦
        rw (other, after)
          (c.0, insert_missing-IsClosedBefore d next (suc r.date) r.closing rs h a.1 c.1)
  ]
]

-- what the three statements of a block keep of a table, up to its last day
pub record IsReady (next t : ℕ) (rows : List Day) : Type 0 where
  pub ascending : IsAscending 0 rows
  pub up_to : IsUpTo t rows
  pub closed_before : IsClosedBefore next (pos 0) rows

materialize-IsReady :
    (n d next t : ℕ) (rows : List Day)
    → next ≤ d
    → d + n ≤ suc t
    → IsReady next t rows
    → IsReady next t (materialize n d rows)
unfolding materialize
materialize-IsReady zero d next t rows h b r = r
materialize-IsReady (suc n) d next t rows h b r =
    materialize-IsReady n (d + 1) next t (insert_missing d rows) (omega (arith, h))
      (omega (arith, b))
      (record {
        ascending = insert_missing-IsAscending d 0 rows (omega arith) r.ascending;
        up_to = insert_missing-IsUpTo d t rows (omega (arith, b)) r.up_to;
        closed_before =
            insert_missing-IsClosedBefore d next 0 (pos 0) rows h r.ascending r.closed_before;
      })

pub recompute_days-eq-ok :
    (next through : ℕ) (rows rows' : List Day)
    → recompute_days next through rows ≡ ok rows'
    → rows'
      ≡ run_balances next through
          (baseline next (pos 0) (materialize (through + 1 - next) next rows))
          (materialize (through + 1 - next) next rows)
unfolding recompute_days
recompute_days-eq-ok next through rows rows' h = ground (arith, h)

pub recompute_days-eq-err :
    (next through : ℕ) (rows : List Day) (f : Failure)
    → recompute_days next through rows ≡ err f
    → f ≡ conflict_error
unfolding recompute_days
recompute_days-eq-err next through rows f h = ground (arith, h)

-- A block from `next` through `through`, on rows that are closed before `next`, leaves them closed
-- through `through`.
pub recompute_days-IsReady :
    (next through t : ℕ) (rows rows' : List Day)
    → next ≤ suc through
    → through ≤ t
    → IsReady next t rows
    → recompute_days next through rows ≡ ok rows'
    → IsReady (suc through) t rows'
recompute_days-IsReady next through t rows rows' h b r e =
    let filled = materialize (through + 1 - next) next rows in
    let f : IsReady next t filled =
      materialize-IsReady (through + 1 - next) next next t rows (omega arith) (omega (arith, h, b))
        r in
    subst (IsReady (suc through) t) (sym (recompute_days-eq-ok next through rows rows' e)) (record {
      ascending =
          run_balances-IsAscending next through 0 (baseline next (pos 0) filled) filled f.ascending;
      up_to = run_balances-IsUpTo next through t (baseline next (pos 0) filled) filled f.up_to;
      closed_before =
          run_balances-IsClosedBefore next through 0 (pos 0) filled f.ascending f.closed_before;
    })

pub upsert_totals-IsAscending :
    (d lo : ℕ) (f : Effect) (rows : List Day)
    → lo ≤ d
    → IsAscending lo rows
    → IsAscending lo (upsert_totals d f rows)
unfolding upsert_totals add_effect
upsert_totals-IsAscending d lo f [] h a = (h, tt)
upsert_totals-IsAscending d lo f (r ∷ rs) h a = elim (Bool-cases (r.date == d)) [
  | inl same ↦ rw same a
  | inr other ↦ elim (Bool-cases (ltb d r.date)) [
    | inl before ↦ rw (other, before) (h, (ground (arith, before), a.1))
    | inr after ↦
        rw (other, after)
          (a.0, upsert_totals-IsAscending d (suc r.date) f rs (ground (arith, other, after)) a.1)
  ]
]

upsert_totals-IsClosedBefore :
    (d lo : ℕ) (f : Effect) (acc : ℤ) (rows : List Day)
    → IsAscending lo rows
    → IsClosed acc rows
    → IsClosedBefore d acc (upsert_totals d f rows)
unfolding upsert_totals add_effect
upsert_totals-IsClosedBefore d lo f acc [] a c = (λ below. absurd (omega (arith, below)), tt)
upsert_totals-IsClosedBefore d lo f acc (r ∷ rs) a c = elim (Bool-cases (r.date == d)) [
  | inl same ↦ rw same (
    λ below. absurd (ground (arith, same, below)),
    closed_above d (suc r.date) r.closing rs (ground (arith, same)) a.1,
  )
  | inr other ↦ elim (Bool-cases (ltb d r.date)) [
    | inl before ↦
        rw (other, before)
          (
            λ below. absurd (omega (arith, below)),
            closed_above d r.date f.net (r ∷ rs) (ground (arith, before)) (omega arith, a.1),
          )
    | inr after ↦
        rw (other, after)
          (λ below. c.0, upsert_totals-IsClosedBefore d (suc r.date) f r.closing rs a.1 c.1)
  ]
]

latest_ge : (d : ℕ) (rows : List Day) → IsAscending (suc d) rows → d ≤ latest_date d rows
unfolding latest_date
latest_ge d [] a = omega arith
latest_ge d (r ∷ rs) a = omega (arith, a.0, latest_ge r.date rs a.1)

latest-IsUpTo :
    (d lo : ℕ) (rows : List Day) → IsAscending lo rows → IsUpTo (latest_date d rows) rows
unfolding latest_date
latest-IsUpTo d lo [] a = tt
latest-IsUpTo d lo (r ∷ rs) a = (latest_ge r.date rs a.1, latest-IsUpTo r.date (suc r.date) rs a.1)

pub upsert_totals-le :
    (d t : ℕ) (f : Effect) (rows : List Day) → IsUpTo t (upsert_totals d f rows) → d ≤ t
unfolding upsert_totals add_effect
upsert_totals-le d t f [] u = u.0
upsert_totals-le d t f (r ∷ rs) u = elim (Bool-cases (r.date == d)) [
  | inl same ↦ ground (arith, same, u)
  | inr other ↦ elim (Bool-cases (ltb d r.date)) [
    | inl before ↦ ground (arith, other, before, u)
    | inr after ↦ upsert_totals-le d t f rs (ground (arith, other, after, u))
  ]
]

-- The totals of a new event leave a closed table ready for a block from its day on.
pub add_totals-IsReady :
    (d : ℕ) (f : Effect) (rows rows' : List Day)
    → IsAscending 0 rows
    → IsClosed (pos 0) rows
    → add_totals d f rows ≡ ok rows'
    → IsReady d (latest_date 0 rows') rows' × (d ≤ latest_date 0 rows')
unfolding add_totals
add_totals-IsReady d f rows rows' a c h =
    let same : upsert_totals d f rows ≡ rows' = ground (arith, h) in
    let ascends : IsAscending 0 rows' =
      subst (IsAscending 0) same (upsert_totals-IsAscending d 0 f rows (omega arith) a) in
    let bounded : IsUpTo (latest_date 0 rows') rows' = latest-IsUpTo 0 0 rows' ascends in
    (
      record {
        ascending = ascends;
        up_to = bounded;
        closed_before =
            subst (IsClosedBefore d (pos 0)) same
              (upsert_totals-IsClosedBefore d 0 f (pos 0) rows a c);
      },
      upsert_totals-le d (latest_date 0 rows') f rows
          (subst (IsUpTo (latest_date 0 rows')) (sym same) bounded),
    )
