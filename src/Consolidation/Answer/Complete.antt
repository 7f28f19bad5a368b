-- ===== src/Consolidation/Answer/Complete.antt =====
-- What a definitive answer has seen.
use keyrus.Base.{
  ℕ, zero, suc, ◌+◌, ◌-◌, ◌≤◌, ◌≡◌, refl, sym, ◌∙◌, ap, subst, Bool, true, ◌&&◌, ◌||◌, Option, none,
  some, List, [], ◌∷◌, ltb, leb, ◌==◌, All, any, arith, Bool-cases, Option-cases, inl, inr, ok,
  or_fail,
}
use keyrus.Consolidation.Event.{other_error}
use keyrus.Base.Text.{Text, lower}
use keyrus.Base.Decimal.{print_int}
use keyrus.Consolidation.Query.{MerchantProgress, Classification, classify}
use keyrus.Consolidation.Days.{Day, row_at}
use keyrus.Consolidation.Days.Totals.{Sums, nothing, totals_at}
use keyrus.Consolidation.Projection.{Projection, has_pending_recompute}
use keyrus.Consolidation.Store.{read_balances, read_progress, days_between, is_missing}
use keyrus.Consolidation.Store.Refines.{IsProjected, inbox_sums}
use keyrus.Consolidation.Store.Gaps.{IsTracked, is_received}
use keyrus.Consolidation.Answer.{
  DayData, DayAnswer, data_of, answer_days, progress_or_none, get_daily_balances,
}

-- the data of a day spell these sums; without data there are none
abbrev pub Spells : Option DayData → Sums → Type 0
Spells none s = s ≡ nothing
Spells (some x) s =
    (x.credits ≡ print_int s.credits)
    × (x.debits ≡ print_int s.debits)
    × (x.net ≡ print_int s.net)
    × (x.entry_count ≡ s.count)

row_at-between :
    (from through d : ℕ) (rows : List Day)
    → leb from d ≡ true
    → leb d through ≡ true
    → row_at d (days_between from through rows) ≡ row_at d rows
unfolding row_at days_between
row_at-between from through d [] low high = refl
row_at-between from through d (r ∷ rs) low high =
    let rest = row_at-between from through d rs low high in
    elim (Bool-cases (r.date == d)) [
      | inl here ↦
          let inside : (leb from r.date && leb r.date through) ≡ true =
            ground (arith, here, low, high) in
          rw (inside, row_at, here) refl
      | inr other ↦ elim (Bool-cases (leb from r.date && leb r.date through)) [
        | inl inside ↦ rw (inside, row_at, other) rest
        | inr outside ↦ rw (outside, other) rest
      ]
    ]

data_of-Spells :
    (now d : ℕ) (p : MerchantProgress) (rows : List Day)
    → Spells (data_of now p (row_at d rows)) (totals_at d rows)
unfolding row_at totals_at
data_of-Spells now d p [] = refl
data_of-Spells now d p (r ∷ rs) = elim (Bool-cases (r.date == d)) [
  | inl here ↦ rw here (refl, refl, refl, refl)
  | inr other ↦ rw other (data_of-Spells now d p rs)
]

answer_days-Spells :
    (now : ℕ) (p : MerchantProgress) (c : Classification) (from through n d : ℕ) (m : Text)
    (t : Projection)
    → IsProjected t
    → from ≤ d
    → d + n ≤ through + 1
    → All
        (λ (a : DayAnswer). Spells a.shown (inbox_sums m a.business_day t.inbox))
        (answer_days now p c (days_between from through (t.balances m)) n d)
unfolding answer_days
answer_days-Spells now p c from through zero d m t i low high = tt
answer_days-Spells now p c from through (suc n) d m t i low high =
    let between =
      row_at-between from through d (t.balances m) (ground (arith, low)) (ground (arith, high)) in
    (
      subst (λ (o : Option Day). Spells (data_of now p o) (inbox_sums m d t.inbox)) (sym between)
          (subst (λ (s : Sums). Spells (data_of now p (row_at d (t.balances m))) s) (i.totals m d)
            (data_of-Spells now d p (t.balances m))),
      answer_days-Spells now p c from through n (d + 1) m t i (omega (arith, low))
          (omega (arith, high)),
    )

-- how the answer to a merchant is classified, with this report of the Ledger, after these reads of its
-- progress and of its recompute jobs
abbrev pub class_of : ℕ → ℕ → ℕ → Text → Projection → Projection → Classification
class_of source observed now m t u =
    classify (progress_or_none (read_progress m t)) (has_pending_recompute (lower m) u)
      (some (source, observed)) now

get_daily_balances-answer_days :
    (source observed now : ℕ) (m : Text) (from through : ℕ) (early late jobs : Projection)
    (answers : List DayAnswer)
    → get_daily_balances (some (source, observed)) now m from through early late jobs ≡ ok answers
    → (from ≤ through)
      × (answer_days now
            (progress_or_none (read_progress m late))
            (class_of source observed now m late jobs)
            (days_between from through (early.balances (lower m)))
            (through + 1 - from)
            from
          ≡ answers)
unfolding get_daily_balances read_balances
get_daily_balances-answer_days source observed now m from through early late jobs answers e =
    elim (Bool-cases (is_missing m || ltb through from)) [
      | inl bad ↦ absurd (ground (arith, bad, e))
      | inr good ↦ (ground (arith, good), ground (arith, good, e))
    ]

answer_days-definitive :
    (now : ℕ) (p : MerchantProgress) (c : Classification) (rows : List Day) (n d : ℕ)
    → any (λ (a : DayAnswer). a.classification.definitive) (answer_days now p c rows n d) ≡ true
    → c.definitive ≡ true
unfolding answer_days
answer_days-definitive now p c rows zero d h = absurd (ground (arith, h))
answer_days-definitive now p c rows (suc n) d h = elim (Bool-cases c.definitive) [
  | inl sure ↦ sure
  | inr unsure ↦ answer_days-definitive now p c rows n (d + 1) (ground (arith, unsure, h))
]

classify-applied :
    (p : MerchantProgress) (pending : Bool) (source observed now : ℕ)
    → (classify p pending (some (source, observed)) now).definitive ≡ true
    → source ≤ p.applied_position
unfolding classify
classify-applied p pending source observed now h = ground (arith, h)

progress_of :
    (m : Text) (t : Projection) (o : Option MerchantProgress)
    → t.progress (lower m) ≡ o
    → progress_or_none (read_progress m t) ≡ progress_or_none (or_fail o other_error)
unfolding read_progress
progress_of m t o e =
    ap (λ (x : Option MerchantProgress). progress_or_none (or_fail x other_error)) e

class_of-is_received :
    (source observed now : ℕ) (m : Text) (t u : Projection) (q : ℕ)
    → IsTracked t
    → (class_of source observed now m t u).definitive ≡ true
    → 1 ≤ q
    → q ≤ source
    → is_received (lower m) q t.receipts ≡ true
class_of-is_received source observed now m t u q i h low high =
    let applied =
      classify-applied (progress_or_none (read_progress m t)) (has_pending_recompute (lower m) u)
        source observed now h in
    elim (Option-cases (t.progress (lower m))) [
      | inl absent ↦
          let zeroed =
            ap (λ (p : MerchantProgress). p.applied_position) (progress_of m t none absent) in
          absurd (omega (arith, zeroed, applied, low, high))
      | inr (p, there) ↦
          let same =
            ap (λ (x : MerchantProgress). x.applied_position) (progress_of m t (some p) there) in
          (i.present (lower m) p there).below q low (omega (arith, same, applied, high))
    ]

-- Where GetDailyBalances answers for the days from a first to a last one, while the Ledger reports a
-- position, and at least one of its days is definitive, whatever has happened between its three reads:
-- every position from one to the reported one was received when the progress was read, if the progress
-- agreed with the receipts by then; and of each day of the answer the credits, the debits, the net and
-- the count of entries are those of the events of the merchant that were in the inbox when the balances
-- were read, if the day rows agreed with the inbox by then. A day without data had no event.
pub get_daily_balances_complete :
    (source observed now : ℕ) (m : Text) (from through : ℕ) (early late jobs : Projection)
    (answers : List DayAnswer)
    → IsProjected early
    → IsTracked late
    → get_daily_balances (some (source, observed)) now m from through early late jobs ≡ ok answers
    → any (λ (a : DayAnswer). a.classification.definitive) answers ≡ true
    → ((q : ℕ) → 1 ≤ q → q ≤ source → is_received (lower m) q late.receipts ≡ true)
      × All
          (λ (a : DayAnswer). Spells a.shown (inbox_sums (lower m) a.business_day early.inbox))
          answers
get_daily_balances_complete source observed now m from through early late jobs answers projected
      tracked e h =
    let (ordered, days) =
      get_daily_balances-answer_days source observed now m from through early late jobs answers e in
    let p = progress_or_none (read_progress m late) in
    let c = class_of source observed now m late jobs in
    let n = through + 1 - from in
    let rows = days_between from through (early.balances (lower m)) in
    let sure = answer_days-definitive now p c rows n from (
      ap (λ (l : List DayAnswer). any (λ (a : DayAnswer). a.classification.definitive) l) days
      ∙ h) in
    (
      λ q low high. class_of-is_received source observed now m late jobs q tracked sure low high,
      subst
          (λ (l : List DayAnswer).
            All
              (λ (a : DayAnswer). Spells a.shown (inbox_sums (lower m) a.business_day early.inbox))
              l)
          days
          (answer_days-Spells now p c from through n from (lower m) early projected (omega arith)
            (omega (arith, ordered))),
    )
