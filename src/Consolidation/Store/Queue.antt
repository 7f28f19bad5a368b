-- ===== src/Consolidation/Store/Queue.antt =====
-- The recompute jobs: their numbers, and the one that a block moves on.
use keyrus.Base.{
  ℕ, ◌+◌, ◌≤◌, ◌<◌, ◌≡◌, refl, ◌≢◌, sym, ◌∙◌, ap, subst, Bool, true, false, none, some, List, [],
  ◌∷◌, ltb, ◌==◌, if◌then◌else◌, any, arith, Bool-cases, inl, inr,
}
use keyrus.Base.Text.{Text, text_eq, text_eq_refl, lower}
use keyrus.Base.Date.Number.{day_number}
use keyrus.Consolidation.Days.{latest_date}
use keyrus.Consolidation.Event.{EntryConfirmed, Identifier, canonical}
use keyrus.Consolidation.Projection.{
  Projection, StorePlatform, Job, is_open_of, is_pending, is_pending_of, is_running_or_failed,
  set_job, after_block, block_end, init_progress,
}
use keyrus.Consolidation.Store.{apply, resume_next, next_job, count_recomputes, new_job}
use keyrus.Consolidation.Store.Steps.{IsApplied, process_block-eq-ok}
use keyrus.Consolidation.Store.Calls.{
  Applies, unchanged, started, new, apply-Applies, Resumes, idle, processed, resume_next-Resumes,
}

-- numbers below `b`, descending, and no status but pending and completed
abbrev pub IsQueue : ℕ → List Job → Type 0
IsQueue b [] = Unit
IsQueue b (j ∷ js) = (j.id < b) × (is_running_or_failed j.status ≡ false) × IsQueue j.id js

-- the pending jobs of a merchant
unfoldable pub pending_jobs : Text → List Job → List Job
pending_jobs m [] = []
pending_jobs m (j ∷ js) =
    let rest = pending_jobs m js in if is_pending_of m j then j ∷ rest else rest

pub after_block-id : (n : ℕ) (j : Job) → (after_block n j).id ≡ j.id
after_block-id n j = ground arith

pub after_block-merchant : (n : ℕ) (j : Job) → (after_block n j).merchant_id ≡ j.merchant_id
after_block-merchant n j = ground arith

after_block-status : (n : ℕ) (j : Job) → is_running_or_failed (after_block n j).status ≡ false
after_block-status n j = ground arith

pub after_block-pending :
    (n : ℕ) (j : Job) → is_pending (after_block n j).status ≡ ltb (block_end j) j.through_date
after_block-pending n j = ground arith

pub set_job-above :
    (b id n : ℕ) (js : List Job) → b ≤ id → IsQueue b js → set_job id (after_block n) js ≡ js
set_job-above b id n [] h q = refl
set_job-above b id n (j ∷ js) h (low, _, q) =
    let other : (j.id == id) ≡ false = ground (arith, h, low) in
    rw other (ap (λ x. j ∷ x) (set_job-above j.id id n js (omega (arith, h, low)) q))

pub set_job-IsQueue :
    (b id n : ℕ) (js : List Job) → IsQueue b js → IsQueue b (set_job id (after_block n) js)
set_job-IsQueue b id n [] q = tt
set_job-IsQueue b id n (j ∷ js) (low, settled, q) = elim (Bool-cases (j.id == id)) [
  | inl here ↦ rw here (
    subst (λ x. x < b) (sym (after_block-id n j)) low,
    after_block-status n j,
    subst (λ x. IsQueue x (set_job id (after_block n) js)) (sym (after_block-id n j))
        (set_job-IsQueue j.id id n js q),
  )
  | inr other ↦ rw other (low, settled, set_job-IsQueue j.id id n js q)
]

pub IsQueue-weaken : (b c : ℕ) (js : List Job) → b ≤ c → IsQueue b js → IsQueue c js
IsQueue-weaken b c [] h q = tt
IsQueue-weaken b c (j ∷ js) h (low, settled, q) = (omega (arith, h, low), settled, q)

-- a pending job is one of the queue
pending_jobs-below :
    (m : Text) (b : ℕ) (js : List Job) (j : Job)
    → IsQueue b js
    → pending_jobs m js ≡ j ∷ []
    → j.id < b
unfolding pending_jobs
pending_jobs-below m b [] j q h = absurd (ground (arith, h))
pending_jobs-below m b (k ∷ ks) j (low, settled, q) h = elim (Bool-cases (is_pending_of m k)) [
  | inl here ↦ ground (arith, here, h, low)
  | inr other ↦ omega (arith, low, pending_jobs-below m k.id ks j q (rw other at h))
]

pending_first :
    (m : Text) (n : ℕ) (k : Job) (ks : List Job)
    → k.merchant_id ≡ m
    → pending_jobs m ks ≡ []
    → IsQueue k.id ks
    → pending_jobs m (set_job k.id (after_block n) (k ∷ ks))
      ≡ (if ltb (block_end k) k.through_date then after_block n k ∷ [] else [])
unfolding pending_jobs
pending_first m n k ks own free q =
    let self : (k.id == k.id) ≡ true = ground arith in
    let mine : text_eq (after_block n k).merchant_id m ≡ true =
      rw (after_block-merchant n k, own) (text_eq_refl m) in
    rw
      (
        self,
        set_job-above k.id k.id n ks (omega arith) q,
        pending_jobs,
        free,
        mine,
        after_block-pending n k,
      )
      refl

-- the only pending job of a merchant, moved on
pub pending_jobs-set_job :
    (m : Text) (b n : ℕ) (js : List Job) (j : Job)
    → IsQueue b js
    → j.merchant_id ≡ m
    → pending_jobs m js ≡ j ∷ []
    → pending_jobs m (set_job j.id (after_block n) js)
      ≡ (if ltb (block_end j) j.through_date then after_block n j ∷ [] else [])
unfolding pending_jobs
pending_jobs-set_job m b n [] j q own h = absurd (ground (arith, h))
pending_jobs-set_job m b n (k ∷ ks) j (low, settled, q) own h =
    elim (Bool-cases (is_pending_of m k)) [
      | inl here ↦
          let same : k ≡ j = ground (arith, rw here at h) in
          subst
            (λ (x : Job).
              pending_jobs m (set_job x.id (after_block n) (k ∷ ks))
              ≡ (if ltb (block_end x) x.through_date then after_block n x ∷ [] else []))
            same
            (pending_first m n k ks (ap (λ (x : Job). x.merchant_id) same ∙ own)
              (ground (arith, rw here at h)) q)
      | inr other ↦
          let rest = rw other at h in
          let apart : (k.id == j.id) ≡ false =
            ground (arith, pending_jobs-below m k.id ks j q rest) in
          rw (apart, pending_jobs, other) (pending_jobs-set_job m k.id n ks j q own rest)
    ]

pub next_job-none : (m : Text) (js : List Job) → pending_jobs m js ≡ [] → next_job m js ≡ none
unfolding next_job pending_jobs
next_job-none m [] h = refl
next_job-none m (k ∷ ks) h = elim (Bool-cases (is_pending_of m k)) [
  | inl here ↦ absurd (ground (arith, here, h))
  | inr other ↦ rw other (next_job-none m ks (rw other at h))
]

pub next_job-only :
    (m : Text) (js : List Job) (j : Job) → pending_jobs m js ≡ j ∷ [] → next_job m js ≡ some j
unfolding next_job pending_jobs
next_job-only m [] j h = absurd (ground (arith, h))
next_job-only m (k ∷ ks) j h = elim (Bool-cases (is_pending_of m k)) [
  | inl here ↦
      let free : pending_jobs m ks ≡ [] = ground (arith, rw here at h) in
      rw (here, next_job-none m ks free) (ground (arith, rw here at h))
  | inr other ↦ rw other (next_job-only m ks j (rw other at h))
]

-- what readPendingRecompute finds, where no job is running
pub has_pending-none :
    (m : Text) (b : ℕ) (js : List Job)
    → IsQueue b js
    → any (is_open_of m) js ≡ false
    → pending_jobs m js ≡ []
unfolding pending_jobs
has_pending-none m b [] q h = refl
has_pending-none m b (k ∷ ks) (_, settled, q) h =
    let other : is_pending_of m k ≡ false = ground (arith, h) in
    rw other (has_pending-none m k.id ks q (ground (arith, h)))

pub has_pending-one :
    (m : Text) (b : ℕ) (js : List Job)
    → IsQueue b js
    → any (is_open_of m) js ≡ true
    → pending_jobs m js ≢ []
unfolding pending_jobs
has_pending-one m b [] q h e = absurd (ground (arith, h))
has_pending-one m b (k ∷ ks) (_, settled, q) h e = elim (Bool-cases (is_pending_of m k)) [
  | inl here ↦ absurd (ground (arith, rw here at e))
  | inr other ↦ has_pending-one m k.id ks q (ground (arith, settled, other, h)) (rw other at e)
]

pub count_recomputes-IsQueue : (b : ℕ) (js : List Job) → IsQueue b js → count_recomputes js ≡ 0
unfolding count_recomputes
count_recomputes-IsQueue b [] q = refl
count_recomputes-IsQueue b (j ∷ js) (_, settled, q) =
    rw (settled, count_recomputes-IsQueue j.id js q) refl

abbrev pub IsQueued : Projection → Type 0
IsQueued t = IsQueue (t.last_job + 1) t.jobs

same_jobs-IsQueued :
    (t u : Projection) → u.jobs ≡ t.jobs → u.last_job ≡ t.last_job → IsQueued t → IsQueued u
same_jobs-IsQueued t u j l q = rw (j, l) q

init_progress-IsQueued :
    (now : ℕ) (m : Text) (t : Projection) → IsQueued t → IsQueued (init_progress now m t)
unfolding init_progress
init_progress-IsQueued now m t q =
    same_jobs-IsQueued t (init_progress now m t) (ground arith) (ground arith) q

pub IsApplied-IsQueued :
    (s : StorePlatform) (e : EntryConfirmed) (t u : Projection)
    → IsApplied s e t u
    → IsQueued t
    → IsQueued u
IsApplied-IsQueued s e t u a q =
    let job = new_job e (t.last_job + 1) (day_number a.date) (latest_date 0 a.totalled) in
    rw (a.jobs_after, a.last_job_after)
      (set_job-IsQueue (t.last_job + 1 + 1) (t.last_job + 1) 0 (job ∷ t.jobs)
        (omega arith, refl, q))

Applies-IsQueued :
    (s : StorePlatform) (e : EntryConfirmed) (t u : Projection)
    → Applies s e t u
    → IsQueued t
    → IsQueued u
Applies-IsQueued s e t u unchanged q = q
Applies-IsQueued s e t u started q = init_progress-IsQueued s.now e.merchant_id t q
Applies-IsQueued s e t u (new v fresh a) q =
    IsApplied-IsQueued s e (init_progress s.now e.merchant_id t) u a
      (init_progress-IsQueued s.now e.merchant_id t q)

pub apply-IsQueued :
    (s : StorePlatform) (works : Bool) (order : List Identifier) (e : EntryConfirmed)
    (t : Projection)
    → IsQueued t
    → IsQueued (apply s works order e t).1
apply-IsQueued s works order e t q =
    Applies-IsQueued s (canonical e) t (apply s works order e t).1 (apply-Applies s works order e t)
      q

Resumes-IsQueued : (m : Text) (t u : Projection) → Resumes m t u → IsQueued t → IsQueued u
Resumes-IsQueued m t u idle q = q
Resumes-IsQueued m t u (processed j r v found done) q =
    let (days, closed, made) = process_block-eq-ok j 1 t u r done in
    rw (ap (λ (x : Projection). x.jobs) made, ap (λ (x : Projection). x.last_job) made)
      (set_job-IsQueue (t.last_job + 1) j.id 1 t.jobs q)

pub resume_next-IsQueued :
    (works : Bool) (merchant : Text) (t : Projection)
    → IsQueued t
    → IsQueued (resume_next works merchant t).1
resume_next-IsQueued works merchant t q =
    Resumes-IsQueued (lower merchant) t (resume_next works merchant t).1
      (resume_next-Resumes works merchant t) q
