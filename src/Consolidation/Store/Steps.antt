-- ===== src/Consolidation/Store/Steps.antt =====
-- What a successful transaction of the store has done, part by part.
use keyrus.Base.{
  ℕ, ◌+◌, ◌≡◌, refl, sym, ◌∙◌, ap, subst, false, Option, some, List, ◌∷◌, arith, inl, inr, ok,
  Result, Result-cases, Option-cases,
}
use keyrus.Base.Text.{Text, text_eq_refl}
use keyrus.Base.Date.{Date, format, parse}
use keyrus.Base.Date.Number.{day_number}
use keyrus.Consolidation.Event.{EntryConfirmed, Failure, financial_effect}
use keyrus.Consolidation.Query.{MerchantProgress}
use keyrus.Consolidation.Days.{Day, add_totals, latest_date, recompute_days}
use keyrus.Consolidation.Projection.{
  Projection, ProjectionResult, RecomputeResult, StorePlatform, Receipt, Job, add_receipt, advance,
  position_of, process_block, update, set_job, after_block, block_end, has_pending_recompute,
}
use keyrus.Consolidation.Store.{
  with_totals, read_day, start_recompute, advance_progress, none_recomputed, inbox_row, new_job,
  apply_new,
}

update_same {ℓ} : {A : Type ℓ} (f : Text → A) (m : Text) (v : A) → update f m v m ≡ v
update_same f m v = rw (text_eq_refl m) refl

-- What `Apply` does for an event that is new to the inbox, on tables with the merchant's progress.
pub record IsApplied (s : StorePlatform) (e : EntryConfirmed) (t u : Projection) : Type 0 where
  pub receipts : List Receipt
  pub received : add_receipt e t.receipts ≡ ok receipts
  pub totalled : List Day
  pub totals :
      add_totals (day_number e.business_date) (financial_effect e) (t.balances e.merchant_id)
      ≡ ok totalled
  pub date : Date
  pub read : parse (format e.business_date) ≡ some date
  pub closed : List Day
  pub block :
      recompute_days
        (day_number date)
        (block_end (new_job e (t.last_job + 1) (day_number date) (latest_date 0 totalled)))
        totalled
      ≡ ok closed
  pub before : MerchantProgress
  pub had : t.progress e.merchant_id ≡ some before
  pub inbox_after : u.inbox ≡ inbox_row s e ∷ t.inbox
  pub receipts_after : u.receipts ≡ receipts
  pub balances_after :
      u.balances ≡ update (update t.balances e.merchant_id totalled) e.merchant_id closed
  pub progress_after :
      u.progress
      ≡ update t.progress e.merchant_id
          (some (advance s.now e.merchant_id (position_of e) receipts before))
  pub jobs_after :
      let job = new_job e (t.last_job + 1) (day_number date) (latest_date 0 totalled) in
      u.jobs ≡ set_job (t.last_job + 1) (after_block 0) (job ∷ t.jobs)
  pub last_job_after : u.last_job ≡ t.last_job + 1

with_totals-eq-ok :
    (s : StorePlatform) (e : EntryConfirmed) (t u : Projection)
    → with_totals s e t ≡ ok u
    → (receipts : List Receipt) × (days : List Day) × (add_receipt e t.receipts ≡ ok receipts)
      × (add_totals (day_number e.business_date) (financial_effect e) (t.balances e.merchant_id)
          ≡ ok days)
      × (u ≡ record t {
        inbox = inbox_row s e ∷ t.inbox;
        receipts = receipts;
        balances = update t.balances e.merchant_id days;
      })
with_totals-eq-ok s e t u h = elim (Result-cases (add_receipt e t.receipts)) [
  | inl (f, bad) ↦ ground (arith, bad, h)
  | inr (rs, received) ↦
      elim (Result-cases
        (add_totals (day_number e.business_date) (financial_effect e) (t.balances e.merchant_id))) [
          | inl (f, bad) ↦ ground (arith, received, bad, h)
          | inr (days, totals) ↦ (rs, days, received, totals, ground (arith, received, totals, h))
        ]
]

read_day-eq-ok :
    (d : Date) (n : ℕ)
    → read_day d ≡ ok n
    → (date : Date) × (parse (format d) ≡ some date) × (day_number date ≡ n)
read_day-eq-ok d n h = elim (Option-cases (parse (format d))) [
  | inl bad ↦ ground (arith, bad, h)
  | inr (date, read) ↦ (date, read, ground (arith, read, h))
]

pub process_block-eq-ok :
    (j : Job) (increment : ℕ) (t u : Projection) (r : RecomputeResult)
    → process_block j increment t ≡ ok (r, u)
    → (days : List Day) × (recompute_days j.next_date (block_end j) (t.balances j.merchant_id)
        ≡ ok days)
      × (u ≡ record t {
        balances = update t.balances j.merchant_id days;
        jobs = set_job j.id (after_block increment) t.jobs;
      })
unfolding process_block
process_block-eq-ok j increment t u r h =
    elim (Result-cases (recompute_days j.next_date (block_end j) (t.balances j.merchant_id))) [
      | inl (f, bad) ↦ ground (arith, bad, h)
      | inr (days, closed) ↦ (days, closed, ground (arith, closed, h))
    ]

advance_progress-eq-ok :
    (s : StorePlatform) (e : EntryConfirmed) (t u : Projection) (q : MerchantProgress)
    → advance_progress s e t ≡ ok (q, u)
    → (p : MerchantProgress) × (t.progress e.merchant_id ≡ some p)
      × (q ≡ advance s.now e.merchant_id (position_of e) t.receipts p)
      × (u ≡ record t { progress = update t.progress e.merchant_id (some q) })
advance_progress-eq-ok s e t u q h = elim (Option-cases (t.progress e.merchant_id)) [
  | inl bad ↦ ground (arith, bad, h)
  | inr (p, had) ↦ (p, had, ground (arith, had, h), ground (arith, had, h))
]

result_of :
    {A B : Type 0} {a b : A} {v u : B}
    → ◌≡◌ {A = Result Failure (A × B)} (ok (a, v)) (ok (b, u))
    → a ≡ b
result_of h = ground (arith, h)

apply_new-eq-ok :
    (s : StorePlatform) (e : EntryConfirmed) (t u : Projection) (r : ProjectionResult)
    → apply_new s e t ≡ ok (r, u)
    → (t1 t2 : Projection) × (from : ℕ) × (job : RecomputeResult) × (q : MerchantProgress)
      × (with_totals s e t ≡ ok t1)
      × (read_day e.business_date ≡ ok from)
      × (start_recompute e from t1 ≡ ok (job, t2))
      × (advance_progress s e t2 ≡ ok (q, u))
      × (r ≡ record (none_recomputed q false (has_pending_recompute e.merchant_id u)) {
        recomputed_from = job.from_date;
        recomputed_through = job.through_date;
      })
unfolding apply_new
apply_new-eq-ok s e t u r h = elim (Result-cases (with_totals s e t)) [
  | inl (f, bad) ↦ ground (arith, bad, h)
  | inr (t1, q1) ↦ elim (Result-cases (read_day e.business_date)) [
    | inl (f, bad) ↦ ground (arith, q1, bad, h)
    | inr (from, q2) ↦ elim (Result-cases (start_recompute e from t1)) [
      | inl (f, bad) ↦ ground (arith, q1, q2, bad, h)
      | inr ((job, t2), q3) ↦ elim (Result-cases (advance_progress s e t2)) [
        | inl (f, bad) ↦ ground (arith, q1, q2, q3, bad, h)
        | inr ((q, v), q4) ↦
            let rest = rw (q1, apply_new, q2, q3, q4) at h in
            let last : v ≡ u = ground (arith, rest) in
            (
              t1,
              t2,
              from,
              job,
              q,
              q1,
              q2,
              q3,
              q4 ∙ ap (λ (x : Projection). ok (q, x)) last,
              sym (result_of rest)
                  ∙ ap
                      (λ (x : Projection).
                        record (none_recomputed q false (has_pending_recompute e.merchant_id x)) {
                          recomputed_from = job.from_date;
                          recomputed_through = job.through_date;
                        })
                      last,
            )
      ]
    ]
  ]
]

-- A new event, part by part.
pub apply_new-IsApplied :
    (s : StorePlatform) (e : EntryConfirmed) (t u : Projection) (r : ProjectionResult)
    → apply_new s e t ≡ ok (r, u)
    → IsApplied s e t u
unfolding process_block
apply_new-IsApplied s e t u r h =
    let (t1, t2, from, job, q, q1, q2, q3, q4, _) = apply_new-eq-ok s e t u r h in
    let (receipts, totalled, received, totals, e1) = with_totals-eq-ok s e t t1 q1 in
    let (date, read, number) = read_day-eq-ok e.business_date from q2 in
    let own : t1.balances e.merchant_id ≡ totalled =
      ap (λ (x : Projection). x.balances e.merchant_id) e1
      ∙ update_same t.balances e.merchant_id totalled in
    let same_id : t1.last_job ≡ t.last_job = ap (λ (x : Projection). x.last_job) e1 in
    let job_of = new_job e (t.last_job + 1) (day_number date) (latest_date 0 totalled) in
    let made : new_job e (t1.last_job + 1) from (latest_date 0 (t1.balances e.merchant_id))
        ≡ job_of =
      rw (own, same_id, ← number) refl in
    let (closed, block, e2) =
      process_block-eq-ok
        (new_job e (t1.last_job + 1) from (latest_date 0 (t1.balances e.merchant_id))) 0
        (record t1 {
          jobs =
              new_job e (t1.last_job + 1) from (latest_date 0 (t1.balances e.merchant_id))
              ∷ t1.jobs;
          last_job = t1.last_job + 1;
        })
        t2 job q3 in
    let (p, had, q_eq, e3) = advance_progress-eq-ok s e t2 u q q4 in
    let m = e.merchant_id in
    let progress2 : t2.progress ≡ t.progress =
      ap (λ (x : Projection). x.progress) e2 ∙ ap (λ (x : Projection). x.progress) e1 in
    let receipts2 : t2.receipts ≡ receipts =
      ap (λ (x : Projection). x.receipts) e2 ∙ ap (λ (x : Projection). x.receipts) e1 in
    let q_eq' : q ≡ advance s.now m (position_of e) receipts p =
      q_eq ∙ ap (λ x. advance s.now m (position_of e) x p) receipts2 in
    record {
      receipts = receipts;
      received = received;
      totalled = totalled;
      totals = totals;
      date = date;
      read = read;
      closed = closed;
      block =
          subst (λ x. recompute_days (day_number date) (block_end job_of) x ≡ ok closed) own
            (subst
              (λ (j : Job).
                recompute_days j.next_date (block_end j) (t1.balances j.merchant_id) ≡ ok closed)
              made block);
      before = p;
      had = sym (ap (λ (f : Text → Option MerchantProgress). f m) progress2) ∙ had;
      inbox_after =
          ap (λ (x : Projection). x.inbox) e3
          ∙ ap (λ (x : Projection). x.inbox) e2
          ∙ ap (λ (x : Projection). x.inbox) e1;
      receipts_after = ap (λ (x : Projection). x.receipts) e3 ∙ receipts2;
      balances_after =
          ap (λ (x : Projection). x.balances) e3
          ∙ ap (λ (x : Projection). x.balances) e2
          ∙ ap (λ (x : Projection). update x.balances m closed) e1;
      progress_after =
          ap (λ (x : Projection). x.progress) e3
          ∙ ap (λ f. update f m (some q)) progress2
          ∙ ap (λ x. update t.progress m (some x)) q_eq';
      jobs_after =
          ap (λ (x : Projection). x.jobs) e3
          ∙ ap (λ (x : Projection). x.jobs) e2
          ∙ ap (λ (j : Job). set_job j.id (after_block 0) (j ∷ t1.jobs)) made
          ∙ ap (λ (x : Projection). set_job (t.last_job + 1) (after_block 0) (job_of ∷ x.jobs)) e1;
      last_job_after =
          ap (λ (x : Projection). x.last_job) e3
          ∙ ap (λ (x : Projection). x.last_job) e2
          ∙ ap (λ x. x + 1) same_id;
    }

-- What `Apply` reports of the recomputes of a new event's merchant.
pub apply_new-pending :
    (s : StorePlatform) (e : EntryConfirmed) (t u : Projection) (r : ProjectionResult)
    → apply_new s e t ≡ ok (r, u)
    → r.recompute_pending ≡ has_pending_recompute e.merchant_id u
apply_new-pending s e t u r h =
    let (t1, t2, from, job, q, q1, q2, q3, q4, made) = apply_new-eq-ok s e t u r h in
    ap (λ (x : ProjectionResult). x.recompute_pending) made
