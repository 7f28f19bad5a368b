-- ===== src/Consolidation/Days/Closing.antt =====
-- What a recompute block makes of the closing balances.
use keyrus.Base.{
  ℕ, suc, ◌≤◌, ◌<◌, ◌≡◌, sym, ◌∙◌, ap, subst, false, List, [], ◌∷◌, ltb, leb, arith, Bool-cases,
  inl, inr,
}
use keyrus.Base.Int.{ℤ, ◌+ℤ◌, eqb_ℤ_sound}
use keyrus.Consolidation.Days.{Day, baseline, close_row, run_balances}

-- the dates ascend strictly, from `lo` on
abbrev pub IsAscending : ℕ → List Day → Type 0
IsAscending lo [] = Unit
IsAscending lo (r ∷ rs) = (lo ≤ r.date) × IsAscending (suc r.date) rs

-- no date is after `t`
abbrev pub IsUpTo : ℕ → List Day → Type 0
IsUpTo t [] = Unit
IsUpTo t (r ∷ rs) = (r.date ≤ t) × IsUpTo t rs

-- every closing balance before `limit` is the one before it plus the net of its day
abbrev pub IsClosedBefore : ℕ → ℤ → List Day → Type 0
IsClosedBefore limit acc [] = Unit
IsClosedBefore limit acc (r ∷ rs) =
    (r.date < limit → r.closing ≡ acc +ℤ r.net) × IsClosedBefore limit r.closing rs

abbrev pub IsClosed : ℤ → List Day → Type 0
IsClosed acc [] = Unit
IsClosed acc (r ∷ rs) = (r.closing ≡ acc +ℤ r.net) × IsClosed r.closing rs

pub IsAscending-weaken :
    (lo k : ℕ) (rows : List Day) → lo ≤ k → IsAscending k rows → IsAscending lo rows
IsAscending-weaken lo k [] h a = tt
IsAscending-weaken lo k (r ∷ rs) h a = (omega (arith, h, a.0), a.1)

pub closed_above :
    (limit lo : ℕ) (acc : ℤ) (rows : List Day)
    → limit ≤ lo
    → IsAscending lo rows
    → IsClosedBefore limit acc rows
closed_above limit lo acc [] h a = tt
closed_above limit lo acc (r ∷ rs) h a = (
  λ below. absurd (omega (arith, h, a.0, below)),
  closed_above limit (suc r.date) r.closing rs (omega (arith, h, a.0)) a.1,
)

pub IsClosed-before :
    (limit : ℕ) (acc : ℤ) (rows : List Day) → IsClosed acc rows → IsClosedBefore limit acc rows
IsClosed-before limit acc [] c = tt
IsClosed-before limit acc (r ∷ rs) c = (λ below. c.0, IsClosed-before limit r.closing rs c.1)

pub IsClosedBefore-all :
    (t : ℕ) (acc : ℤ) (rows : List Day)
    → IsUpTo t rows
    → IsClosedBefore (suc t) acc rows
    → IsClosed acc rows
IsClosedBefore-all t acc [] u c = tt
IsClosedBefore-all t acc (r ∷ rs) u c =
    (c.0 (omega (arith, u.0)), IsClosedBefore-all t r.closing rs u.1 c.1)

pub close_row-date : (c : ℤ) (r : Day) → (close_row c r).date ≡ r.date
close_row-date c r = ground arith

pub close_row-net : (c : ℤ) (r : Day) → (close_row c r).net ≡ r.net
close_row-net c r = ground arith

close_row-closing : (c : ℤ) (r : Day) → (close_row c r).closing ≡ c
close_row-closing c r = ground (arith, eqb_ℤ_sound r.closing c)

pub run_balances-IsAscending :
    (next through lo : ℕ) (acc : ℤ) (rows : List Day)
    → IsAscending lo rows
    → IsAscending lo (run_balances next through acc rows)
unfolding run_balances
run_balances-IsAscending next through lo acc [] a = tt
run_balances-IsAscending next through lo acc (r ∷ rs) a = elim (Bool-cases (ltb r.date next)) [
  | inl early ↦ rw early (a.0, run_balances-IsAscending next through (suc r.date) acc rs a.1)
  | inr late ↦ elim (Bool-cases (leb r.date through)) [
    | inl inside ↦
        rw (late, inside)
          (subst (λ x. (lo ≤ x) × IsAscending (suc x) (run_balances next through (acc +ℤ r.net) rs))
            (sym (close_row-date (acc +ℤ r.net) r))
            (a.0, run_balances-IsAscending next through (suc r.date) (acc +ℤ r.net) rs a.1))
    | inr beyond ↦
        rw (late, beyond) (a.0, run_balances-IsAscending next through (suc r.date) acc rs a.1)
  ]
]

pub run_balances-IsUpTo :
    (next through t : ℕ) (acc : ℤ) (rows : List Day)
    → IsUpTo t rows
    → IsUpTo t (run_balances next through acc rows)
unfolding run_balances
run_balances-IsUpTo next through t acc [] u = tt
run_balances-IsUpTo next through t acc (r ∷ rs) u = ground (
  arith,
  close_row-date (acc +ℤ r.net) r,
  run_balances-IsUpTo next through t acc rs u.1,
  run_balances-IsUpTo next through t (acc +ℤ r.net) rs u.1,
  u.0,
)

-- from the first row on, where no row is before `next`
run_within :
    (next through lo : ℕ) (acc : ℤ) (rows : List Day)
    → next ≤ lo
    → IsAscending lo rows
    → IsClosedBefore (suc through) acc (run_balances next through acc rows)
unfolding run_balances
run_within next through lo acc [] h a = tt
run_within next through lo acc (r ∷ rs) h a =
    let late : ltb r.date next ≡ false = ground (arith, h, a.0) in
    elim (Bool-cases (leb r.date through)) [
      | inl inside ↦
          let closing = acc +ℤ r.net in
          let rest = run_within next through (suc r.date) closing rs (omega (arith, h, a.0)) a.1 in
          rw (late, inside)
            (
              λ below.
                  close_row-closing closing r ∙ ap (λ x. acc +ℤ x) (sym (close_row-net closing r)),
              subst (λ x. IsClosedBefore (suc through) x (run_balances next through closing rs))
                  (sym (close_row-closing closing r)) rest,
            )
      | inr beyond ↦
          rw (late, beyond)
            (closed_above (suc through) r.date acc (r ∷ run_balances next through acc rs)
              (ground (arith, beyond))
              (omega arith, run_balances-IsAscending next through (suc r.date) acc rs a.1))
    ]

-- A block closes the balances through its last day, where those before its first day are closed.
pub run_balances-IsClosedBefore :
    (next through lo : ℕ) (acc : ℤ) (rows : List Day)
    → IsAscending lo rows
    → IsClosedBefore next acc rows
    → IsClosedBefore (suc through) acc (run_balances next through (baseline next acc rows) rows)
unfolding run_balances baseline
run_balances-IsClosedBefore next through lo acc [] a c = tt
run_balances-IsClosedBefore next through lo acc (r ∷ rs) a c = elim (Bool-cases (ltb r.date next)) [
  | inl early ↦ rw early (
    λ below. c.0 (ground (arith, early)),
    run_balances-IsClosedBefore next through (suc r.date) r.closing rs a.1 c.1,
  )
  | inr late ↦
      let here =
        run_within next through r.date acc (r ∷ rs) (ground (arith, late)) (omega arith, a.1) in
      rw (late, baseline) (ground (arith, late, here))
]
