-- ===== src/Consolidation/Store/Runs.antt =====
-- Sequences of calls on the tables, and what the order in which events arrive does not change.
use keyrus.Base.{
  ℕ, ◌+◌, ◌≡◌, refl, sym, ◌∙◌, ap, Bool, true, false, ◌&&◌, none, some, ok, List, [], ◌∷◌, ◌==◌,
  if◌then◌else◌, arith,
}
use keyrus.Base.Int.{ℤ, +ℤ_swap}
use keyrus.Base.Text.{Text, text_eq}
use native.Mathlib.Decide.{ℕ_discrete}
use mathlib.Core.List.{Perm, foldr}
use mathlib.Core.List.Perm
use keyrus.Consolidation.Event.{
  EntryConfirmed, Identifier, Effect, financial_effect, validate, canonical,
}
use keyrus.Consolidation.Days.Totals.{Sums, nothing, add_sums, totals_at}
use keyrus.Consolidation.Projection.{
  Projection, ProjectionResult, has_pending_recompute, StorePlatform, InboxRow,
}
use keyrus.Consolidation.Query.{MerchantProgress}
use keyrus.Consolidation.Store.{apply, resume_next, inbox_row, none_recomputed, count_recomputes}
use keyrus.Consolidation.Store.Queue.{
  IsQueued, apply-IsQueued, resume_next-IsQueued, count_recomputes-IsQueue,
}
use keyrus.Consolidation.Store.Once.{
  IsRecorded, apply-IsRecorded, resume_next-IsRecorded, apply-ok-IsRecorded, apply_redelivered,
}
use keyrus.Consolidation.Store.Refines.{
  inbox_sums, IsProjected, apply-IsProjected, resume_next-IsProjected,
}
use keyrus.Consolidation.Store.Gaps.{IsTracked, apply-IsTracked, resume_next-IsTracked}

-- a call, with whether PostgreSQL accepts its transaction
pub data Call : Type 0 where
  apply_call : Bool → List Identifier → EntryConfirmed → Call
  resume_call : Bool → Text → Call

unfoldable pub after_call : StorePlatform → Call → Projection → Projection
unfolding apply resume_next
after_call s (apply_call works order e) t = (apply s works order e t).1
after_call s (resume_call works m) t = (resume_next works m t).1

unfoldable pub after_calls : StorePlatform → List Call → Projection → Projection
unfolding after_call
after_calls s [] t = t
after_calls s (c ∷ cs) t = after_calls s cs (after_call s c t)

-- the tables before the first event
abbrev pub no_tables : Projection
no_tables = record {
  inbox = [];
  receipts = [];
  balances = λ m. [];
  progress = λ m. none;
  jobs = [];
  last_job = 0;
}

-- What each call keeps, every sequence of calls from empty tables has.
after_calls-keeps :
    (P : Projection → Type 0) (s : StorePlatform)
    → ((works : Bool) (order : List Identifier) (e : EntryConfirmed) (t : Projection)
        → P t
        → P (apply s works order e t).1)
    → ((works : Bool) (m : Text) (t : Projection) → P t → P (resume_next works m t).1)
    → (cs : List Call) (t : Projection) → P t
    → P (after_calls s cs t)
unfolding after_calls after_call
after_calls-keeps P s applies resumes [] t i = i
after_calls-keeps P s applies resumes (apply_call works order e ∷ cs) t i =
    after_calls-keeps P s applies resumes cs (apply s works order e t).1 (applies works order e t i)
after_calls-keeps P s applies resumes (resume_call works m ∷ cs) t i =
    after_calls-keeps P s applies resumes cs (resume_next works m t).1 (resumes works m t i)

no_tables-IsProjected : IsProjected no_tables
unfolding totals_at inbox_sums
no_tables-IsProjected = record { ascending = λ m. tt; totals = λ m d. refl }

-- From empty tables on, every sequence of calls of Apply and ResumeNext, whether they succeed or not,
-- leaves each day of each merchant with the credits, debits, net and count of the effects of its
-- events in the inbox, and the rows of each merchant in the strict order of their dates.
pub after_calls-IsProjected :
    (s : StorePlatform) (cs : List Call) → IsProjected (after_calls s cs no_tables)
after_calls-IsProjected s cs =
    after_calls-keeps IsProjected s (apply-IsProjected s) resume_next-IsProjected cs no_tables
      no_tables-IsProjected

no_tables-IsTracked : IsTracked no_tables
no_tables-IsTracked = record {
  absent = λ m h q. refl;
  present = λ m p has. absurd (ground (arith, has));
}

-- From empty tables on, every sequence of calls leaves the progress row of each merchant as its
-- receipts say: every position through the applied one is received, and none beyond the source one,
-- which is received itself unless it is zero; while the applied position is behind it, the next
-- position is missing and is the first gap, and otherwise there is no gap.
pub after_calls-IsTracked :
    (s : StorePlatform) (cs : List Call) → IsTracked (after_calls s cs no_tables)
after_calls-IsTracked s cs =
    after_calls-keeps IsTracked s (apply-IsTracked s) resume_next-IsTracked cs no_tables
      no_tables-IsTracked

add_sums_swap : (s : Sums) (f g : Effect) → add_sums (add_sums s f) g ≡ add_sums (add_sums s g) f
unfolding add_sums
add_sums_swap s f g =
    rw
      (
        +ℤ_swap s.credits f.credits g.credits,
        +ℤ_swap s.debits f.debits g.debits,
        +ℤ_swap s.net f.net g.net,
      )
      refl

ℤ_discrete : Discrete ℤ
ℤ_discrete = hlevel ℕ_discrete

Sums-set : IsSet Sums
Sums-set = hlevel (ℕ_discrete, ℤ_discrete)

-- one row of the inbox, at a merchant and a day
abbrev add_row : Text → ℕ → InboxRow → Sums → Sums
add_row m d r s =
    if text_eq m r.event.merchant_id && (r.business_day == d)
    then add_sums s (financial_effect r.event)
    else s

add_row_swap :
    (m : Text) (d : ℕ) (a b : InboxRow) (s : Sums)
    → add_row m d a (add_row m d b s) ≡ add_row m d b (add_row m d a s)
add_row_swap m d a b s =
    ground (arith, add_sums_swap s (financial_effect b.event) (financial_effect a.event))

inbox_sums-foldr :
    (m : Text) (d : ℕ) (rows : List InboxRow)
    → inbox_sums m d rows ≡ foldr (add_row m d) nothing rows
unfolding inbox_sums
inbox_sums-foldr m d [] = refl
inbox_sums-foldr m d (r ∷ rs) = ap (add_row m d r) (inbox_sums-foldr m d rs)

pub inbox_sums-Perm :
    (m : Text) (d : ℕ) (xs ys : List InboxRow) → Perm xs ys → inbox_sums m d xs ≡ inbox_sums m d ys
inbox_sums-Perm m d xs ys p =
    inbox_sums-foldr m d xs
    ∙ Perm.foldr-eq Sums-set (add_row m d) (add_row_swap m d) p nothing
    ∙ sym (inbox_sums-foldr m d ys)

-- Two histories of calls whose inboxes hold the same events, in whatever order they came in, give each
-- day of each merchant the same credits, debits, net and count.
pub after_calls_order :
    (s : StorePlatform) (cs ds : List Call)
    → Perm (after_calls s cs no_tables).inbox (after_calls s ds no_tables).inbox
    → (m : Text) (d : ℕ)
    → totals_at d ((after_calls s cs no_tables).balances m)
      ≡ totals_at d ((after_calls s ds no_tables).balances m)
after_calls_order s cs ds p m d =
    let one = after_calls s cs no_tables in
    let other = after_calls s ds no_tables in
    (after_calls-IsProjected s cs).totals m d
    ∙ inbox_sums-Perm m d one.inbox other.inbox p
    ∙ sym ((after_calls-IsProjected s ds).totals m d)

-- An event that a call reported as new takes effect once: whatever calls follow, a later delivery of it
-- that Validate and PostgreSQL accept reports a duplicate, with the merchant's progress, and changes no
-- table.
pub applied_once :
    (s : StorePlatform) (works : Bool) (order order' : List Identifier) (e : EntryConfirmed)
    (t u : Projection) (r : ProjectionResult) (ds : List Call)
    → apply s works order e t ≡ (ok r, u)
    → r.is_duplicate ≡ false
    → validate order' e ≡ ok tt
    → (p : MerchantProgress) × ((after_calls s ds u).progress (canonical e).merchant_id ≡ some p)
      × (apply s true order' e (after_calls s ds u) ≡ (
        ok (
            none_recomputed p true
              (has_pending_recompute (canonical e).merchant_id (after_calls s ds u))),
        after_calls s ds u,
      ))
applied_once s works order order' e t u r ds h first valid =
    let row = inbox_row s (canonical e) in
    apply_redelivered s order' e (after_calls s ds u) valid (
      after_calls-keeps (IsRecorded row) s (apply-IsRecorded row s) (resume_next-IsRecorded row) ds
        u (apply-ok-IsRecorded s works order e t u r h first))

-- From empty tables on, whatever jobs are pending, the count of recomputes in SystemStats is zero.
pub after_calls_recomputes :
    (s : StorePlatform) (cs : List Call) → count_recomputes (after_calls s cs no_tables).jobs ≡ 0
after_calls_recomputes s cs =
    let t = after_calls s cs no_tables in
    count_recomputes-IsQueue (t.last_job + 1) t.jobs
      (after_calls-keeps IsQueued s (apply-IsQueued s) resume_next-IsQueued cs no_tables tt)
