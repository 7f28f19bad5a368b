-- ===== src/Consolidation/Store/Refines.antt =====
-- The daily totals that the store keeps, against the inbox: each day of each merchant adds up to the
-- effects of the events that the inbox holds for it.
use keyrus.Base.{
  ℕ, ◌≡◌, refl, sym, ◌∙◌, ap, subst, Bool, ◌&&◌, List, [], ◌∷◌, ◌==◌, if◌then◌else◌, arith,
  Bool-cases, inl, inr, ok,
}
use keyrus.Base.Text.{Text, text_eq, text_eq_sound, lower}
use keyrus.Base.Date.Number.{day_number}
use keyrus.Consolidation.Event.{EntryConfirmed, Identifier, financial_effect, canonical}
use keyrus.Consolidation.Days.{Day}
use keyrus.Consolidation.Days.Closing.{IsAscending}
use keyrus.Consolidation.Days.Totals.{Sums, nothing, add_sums, totals_at}
use keyrus.Consolidation.Days.Keeps.{
  recompute_days-IsAscending, totals-recompute_days, add_totals-IsAscending, totals-add_totals,
}
use keyrus.Consolidation.Projection.{
  Projection, RecomputeResult, process_block, StorePlatform, InboxRow, init_progress, Job,
}
use keyrus.Consolidation.Store.{apply, resume_next}
use keyrus.Consolidation.Store.Steps.{IsApplied, process_block-eq-ok}
use keyrus.Consolidation.Store.Calls.{
  Applies, unchanged, started, new, apply-Applies, Resumes, idle, processed, resume_next-Resumes,
}

-- what the events of a merchant at a day add up to; the inbox has the newest first
unfoldable pub inbox_sums : Text → ℕ → List InboxRow → Sums
unfolding add_sums financial_effect
inbox_sums m d [] = nothing
inbox_sums m d (r ∷ rs) =
    let rest = inbox_sums m d rs in
    if text_eq m r.event.merchant_id && (r.business_day == d)
    then add_sums rest (financial_effect r.event)
    else rest

-- the tables as a view of the inbox
pub record IsProjected (t : Projection) : Type 0 where
  pub ascending : (m : Text) → IsAscending 0 (t.balances m)
  pub totals : (m : Text) (d : ℕ) → totals_at d (t.balances m) ≡ inbox_sums m d t.inbox

init_progress-balances :
    (now : ℕ) (m : Text) (t : Projection) → (init_progress now m t).balances ≡ t.balances
unfolding init_progress
init_progress-balances now m t = ground arith

init_progress-inbox :
    (now : ℕ) (m : Text) (t : Projection) → (init_progress now m t).inbox ≡ t.inbox
unfolding init_progress
init_progress-inbox now m t = ground arith

same_tables-IsProjected :
    (t u : Projection) → u.balances ≡ t.balances → u.inbox ≡ t.inbox → IsProjected t → IsProjected u
same_tables-IsProjected t u b x i = record {
  ascending = λ m. subst (λ (f : Text → List Day). IsAscending 0 (f m)) (sym b) (i.ascending m);
  totals = λ m d.
      ap (λ (f : Text → List Day). totals_at d (f m)) b
      ∙ i.totals m d
      ∙ ap (inbox_sums m d) (sym x);
}

-- the rows of a merchant after a new event
pub applied_rows :
    (s : StorePlatform) (e : EntryConfirmed) (t u : Projection) (a : IsApplied s e t u) (m : Text)
    → u.balances m ≡ (if text_eq m e.merchant_id then a.closed else t.balances m)
applied_rows s e t u a m = ap (λ (f : Text → List Day). f m) a.balances_after ∙ ground arith

module _ (s : StorePlatform) (e : EntryConfirmed) (t u : Projection) (i : IsProjected t)
    (a : IsApplied s e t u) where
  totalled-IsAscending : IsAscending 0 a.totalled
  totalled-IsAscending =
      add_totals-IsAscending (day_number e.business_date) (financial_effect e)
        (t.balances e.merchant_id) a.totalled (i.ascending e.merchant_id) a.totals

  closed-IsAscending : IsAscending 0 a.closed
  closed-IsAscending =
      recompute_days-IsAscending _ _ a.totalled a.closed totalled-IsAscending a.block

  totals-closed :
      (d : ℕ)
      → totals_at d a.closed ≡ (
          if day_number e.business_date == d
          then add_sums (inbox_sums e.merchant_id d t.inbox) (financial_effect e)
          else inbox_sums e.merchant_id d t.inbox)
  totals-closed d =
      totals-recompute_days d _ _ a.totalled a.closed totalled-IsAscending a.block
      ∙ totals-add_totals d (day_number e.business_date) (financial_effect e)
          (t.balances e.merchant_id) a.totalled (i.ascending e.merchant_id) a.totals
      ∙ rw (i.totals e.merchant_id d) refl

  IsApplied-IsAscending : (m : Text) → IsAscending 0 (u.balances m)
  IsApplied-IsAscending m =
      subst (IsAscending 0) (sym (applied_rows s e t u a m))
        (elim (Bool-cases (text_eq m e.merchant_id)) [
          | inl own ↦ rw own closed-IsAscending
          | inr other ↦ rw other (i.ascending m)
        ])

  inbox_sums-applied :
      (m : Text) (d : ℕ)
      → inbox_sums m d u.inbox ≡ (
          if text_eq m e.merchant_id && (day_number e.business_date == d)
          then add_sums (inbox_sums m d t.inbox) (financial_effect e)
          else inbox_sums m d t.inbox)
  unfolding inbox_sums
  inbox_sums-applied m d = ap (inbox_sums m d) a.inbox_after

  IsApplied-totals : (m : Text) (d : ℕ) → totals_at d (u.balances m) ≡ inbox_sums m d u.inbox
  IsApplied-totals m d = elim (Bool-cases (text_eq m e.merchant_id)) [
    | inl own ↦
        ap (totals_at d) (applied_rows s e t u a m)
        ∙ rw (inbox_sums-applied m d, own, text_eq_sound m e.merchant_id own) (totals-closed d)
    | inr other ↦
        ap (totals_at d) (applied_rows s e t u a m)
        ∙ rw (inbox_sums-applied m d, other) (i.totals m d)
  ]

init_progress-IsProjected :
    (now : ℕ) (m : Text) (t : Projection) → IsProjected t → IsProjected (init_progress now m t)
unfolding init_progress
init_progress-IsProjected now m t i =
    same_tables-IsProjected t (init_progress now m t) (init_progress-balances now m t)
      (init_progress-inbox now m t) i

IsApplied-IsProjected :
    (s : StorePlatform) (e : EntryConfirmed) (t u : Projection)
    → IsProjected t
    → IsApplied s e t u
    → IsProjected u
IsApplied-IsProjected s e t u i a = record {
  ascending = IsApplied-IsAscending s e t u i a;
  totals = IsApplied-totals s e t u i a;
}

Applies-IsProjected :
    (s : StorePlatform) (e : EntryConfirmed) (t u : Projection)
    → Applies s e t u
    → IsProjected t
    → IsProjected u
Applies-IsProjected s e t u unchanged i = i
Applies-IsProjected s e t u started i = init_progress-IsProjected s.now e.merchant_id t i
Applies-IsProjected s e t u (new v fresh a) i =
    IsApplied-IsProjected s e (init_progress s.now e.merchant_id t) u
      (init_progress-IsProjected s.now e.merchant_id t i) a

-- Whatever a call of `Apply` is given and however it ends, the tables stay a view of the inbox: each
-- merchant's rows ascend by date, and the credits, debits, net and count of each day are those of the
-- inbox events of that merchant and day.
pub apply-IsProjected :
    (s : StorePlatform) (works : Bool) (order : List Identifier) (e : EntryConfirmed)
    (t : Projection)
    → IsProjected t
    → IsProjected (apply s works order e t).1
apply-IsProjected s works order e t i =
    Applies-IsProjected s (canonical e) t (apply s works order e t).1
      (apply-Applies s works order e t) i

block-IsProjected :
    (j : Job) (increment : ℕ) (t u : Projection) (r : RecomputeResult)
    → IsProjected t
    → process_block j increment t ≡ ok (r, u)
    → IsProjected u
block-IsProjected j increment t u r i h =
    let (days, closed, made) = process_block-eq-ok j increment t u r h in
    let rows = λ (m : Text). ap (λ (x : Projection). x.balances m) made in
    let tidy = i.ascending j.merchant_id in
    record {
      ascending = λ m.
          subst (IsAscending 0) (sym (rows m)) (elim (Bool-cases (text_eq m j.merchant_id)) [
            | inl own ↦ rw own (recompute_days-IsAscending _ _ _ days tidy closed)
            | inr other ↦ rw other (i.ascending m)
          ]);
      totals = λ m d.
          ap (totals_at d) (rows m)
          ∙ elim (Bool-cases (text_eq m j.merchant_id)) [
            | inl own ↦
                rw (own, text_eq_sound m j.merchant_id own)
                  (totals-recompute_days d _ _ _ days tidy closed ∙ i.totals j.merchant_id d)
            | inr other ↦ rw other (i.totals m d)
          ]
          ∙ ap (λ (x : Projection). inbox_sums m d x.inbox) (sym made);
    }

-- A call of `ResumeNext`, however it ends, leaves the tables a view of the inbox as well.
pub resume_next-IsProjected :
    (works : Bool) (merchant : Text) (t : Projection)
    → IsProjected t
    → IsProjected (resume_next works merchant t).1
resume_next-IsProjected works merchant t i =
    kept (lower merchant) t (resume_next works merchant t).1 (resume_next-Resumes works merchant t)
      i
  where
    kept : (m : Text) (v u : Projection) → Resumes m v u → IsProjected v → IsProjected u
    kept m v u idle k = k
    kept m v u (processed j r w found done) k = block-IsProjected j 1 v u r k done
