-- ===== src/Consolidation/Store/Gaps.antt =====
-- The progress row of a merchant, against its receipts: how far the positions go without a gap.
use keyrus.Base.{
  ℕ, zero, suc, ◌+◌, ◌-◌, ◌≤◌, ◌<◌, ◌≡◌, refl, sym, ◌∙◌, ap, subst, Bool, true, false, Option, none,
  some, List, ◌∷◌, leb, ◌==◌, any, arith, Bool-cases, Option-cases, inl, inr, ok,
}
use keyrus.Base.Text.{Text, text_eq, text_eq_refl, text_eq_sound, text_eq_other, lower}
use keyrus.Consolidation.Event.{EntryConfirmed, Identifier, canonical}
use keyrus.Consolidation.Query.{MerchantProgress}
use keyrus.Consolidation.Projection.{
  Projection, StorePlatform, Receipt, has_receipt, add_receipt, contiguous, advance, max_ℕ,
  position_of, init_progress, no_progress, is_some,
}
use keyrus.Consolidation.Store.{apply, resume_next}
use keyrus.Consolidation.Store.Steps.{IsApplied, process_block-eq-ok}
use keyrus.Consolidation.Store.Calls.{
  Applies, unchanged, started, new, apply-Applies, Resumes, idle, processed, resume_next-Resumes,
}

abbrev pub is_received : Text → ℕ → List Receipt → Bool
is_received m q rs = any (has_receipt m q) rs

-- the progress row is what the receipts say
pub record IsContiguous (m : Text) (rs : List Receipt) (p : MerchantProgress) : Type 0 where
  pub bound : p.applied_position ≤ p.source_position
  pub below : (q : ℕ) → 1 ≤ q → q ≤ p.applied_position → is_received m q rs ≡ true
  pub missing :
      p.applied_position < p.source_position → is_received m (p.applied_position + 1) rs ≡ false
  pub top : 0 < p.source_position → is_received m p.source_position rs ≡ true
  pub above : (q : ℕ) → p.source_position < q → is_received m q rs ≡ false
  pub gap : p.applied_position < p.source_position → p.first_gap ≡ some (p.applied_position + 1)
  pub no_gap : p.applied_position ≡ p.source_position → p.first_gap ≡ none

pub record IsTracked (t : Projection) : Type 0 where
  pub absent : (m : Text) → t.progress m ≡ none → (q : ℕ) → is_received m q t.receipts ≡ false
  pub present :
      (m : Text) (p : MerchantProgress) → t.progress m ≡ some p → IsContiguous m t.receipts p

contiguous_ge : (rs : List Receipt) (m : Text) (fuel p : ℕ) → p ≤ contiguous rs m fuel p
unfolding contiguous
contiguous_ge rs m zero p = omega arith
contiguous_ge rs m (suc fuel) p = ground (arith, contiguous_ge rs m fuel (p + 1))

contiguous_le : (rs : List Receipt) (m : Text) (fuel p : ℕ) → contiguous rs m fuel p ≤ p + fuel
unfolding contiguous
contiguous_le rs m zero p = omega arith
contiguous_le rs m (suc fuel) p = ground (arith, contiguous_le rs m fuel (p + 1))

contiguous_received :
    (rs : List Receipt) (m : Text) (fuel p q : ℕ)
    → p < q
    → q ≤ contiguous rs m fuel p
    → is_received m q rs ≡ true
unfolding contiguous
contiguous_received rs m zero p q h b = absurd (omega (arith, h, b))
contiguous_received rs m (suc fuel) p q h b = elim (Bool-cases (is_received m (p + 1) rs)) [
  | inr out ↦ absurd (ground (arith, out, h, b))
  | inl here ↦ elim (Bool-cases (q == p + 1)) [
    | inl same ↦ ground (arith, same, here)
    | inr later ↦
        contiguous_received rs m fuel (p + 1) q (ground (arith, later, h)) (ground (arith, here, b))
  ]
]

contiguous_stops :
    (rs : List Receipt) (m : Text) (fuel p : ℕ)
    → contiguous rs m fuel p < p + fuel
    → is_received m (contiguous rs m fuel p + 1) rs ≡ false
unfolding contiguous
contiguous_stops rs m zero p h = absurd (omega (arith, h))
contiguous_stops rs m (suc fuel) p h = elim (Bool-cases (is_received m (p + 1) rs)) [
  | inr out ↦ rw (out, contiguous) out
  | inl here ↦ rw (here, contiguous) (contiguous_stops rs m fuel (p + 1) (ground (arith, here, h)))
]

-- the receipts after a new event
abbrev receipt_of : EntryConfirmed → Receipt
receipt_of e = record {
  merchant_id = e.merchant_id;
  position = position_of e;
  event_id = e.event_id;
}

add_receipt-eq-ok :
    (e : EntryConfirmed) (rs rs' : List Receipt)
    → add_receipt e rs ≡ ok rs'
    → rs' ≡ receipt_of e ∷ rs
unfolding add_receipt
add_receipt-eq-ok e rs rs' h = ground (arith, h)

-- A merchant's row advances with one more receipt of its own.
advance-IsContiguous :
    (now : ℕ) (e : EntryConfirmed) (rs : List Receipt) (p : MerchantProgress)
    → IsContiguous e.merchant_id rs p
    → IsContiguous e.merchant_id
        (receipt_of e ∷ rs)
        (advance now e.merchant_id (position_of e) (receipt_of e ∷ rs) p)
unfolding advance
advance-IsContiguous now e rs p c =
    let m = e.merchant_id in
    let rs' = receipt_of e ∷ rs in
    let own = text_eq_refl m in
    let source = max_ℕ p.source_position (position_of e) in
    let fuel = source - p.applied_position in
    let now_at = contiguous rs' m fuel p.applied_position in
    let upper = contiguous_le rs' m fuel p.applied_position in
    record {
      bound = ground (arith, c.bound, upper);
      below = λ q h b. elim (Bool-cases (leb q p.applied_position)) [
        | inl old ↦ ground (arith, c.below q h, old)
        | inr later ↦ contiguous_received rs' m fuel p.applied_position q (ground (arith, later)) b
      ];
      missing = λ h. contiguous_stops rs' m fuel p.applied_position (ground (arith, c.bound, h));
      top = λ h. ground (arith, own, c.top);
      above = λ q h. ground (arith, c.above q);
      gap = λ h. ground (arith, h);
      no_gap = λ h. ground (arith, h);
    }

other_received :
    (m : Text) (e : EntryConfirmed) (rs : List Receipt) (q : ℕ)
    → text_eq m e.merchant_id ≡ false
    → is_received m q (receipt_of e ∷ rs) ≡ is_received m q rs
other_received m e rs q other = rw (text_eq_other m e.merchant_id other) refl

-- a receipt of one merchant says nothing of another
other-IsContiguous :
    (m : Text) (e : EntryConfirmed) (rs : List Receipt) (p : MerchantProgress)
    → text_eq m e.merchant_id ≡ false
    → IsContiguous m rs p
    → IsContiguous m (receipt_of e ∷ rs) p
other-IsContiguous m e rs p other c =
    let shown = λ (q : ℕ). other_received m e rs q other in
    record {
      bound = c.bound;
      below = λ q h b. shown q ∙ c.below q h b;
      missing = λ h. shown (p.applied_position + 1) ∙ c.missing h;
      top = λ h. shown p.source_position ∙ c.top h;
      above = λ q h. shown q ∙ c.above q h;
      gap = c.gap;
      no_gap = c.no_gap;
    }

no_progress-IsContiguous :
    (now : ℕ) (m : Text) (rs : List Receipt)
    → ((q : ℕ) → is_received m q rs ≡ false)
    → IsContiguous m rs (no_progress now)
no_progress-IsContiguous now m rs none_yet = record {
  bound = omega arith;
  below = λ q h b. absurd (omega (arith, h, b));
  missing = λ h. absurd (omega (arith, h));
  top = λ h. absurd (omega (arith, h));
  above = λ q h. none_yet q;
  gap = λ h. absurd (omega (arith, h));
  no_gap = λ h. refl;
}

init_progress-IsTracked :
    (now : ℕ) (m : Text) (t : Projection) → IsTracked t → IsTracked (init_progress now m t)
unfolding init_progress
init_progress-IsTracked now m t i = elim (Option-cases (t.progress m)) [
  | inr (p, had) ↦ rw (had, is_some) i
  | inl first ↦
      rw (first, is_some)
        (record {
          absent = λ k none_yet q. elim (Bool-cases (text_eq k m)) [
            | inl own ↦ absurd (ground (arith, own, none_yet))
            | inr other ↦ i.absent k (ground (arith, other, none_yet)) q
          ];
          present = λ k p has. elim (Bool-cases (text_eq k m)) [
            | inl own ↦ subst (IsContiguous k t.receipts) (ground (arith, own, has)) (
                no_progress-IsContiguous now k t.receipts
                  (λ q. rw (text_eq_sound k m own) (i.absent m first q)))
            | inr other ↦ i.present k p (ground (arith, other, has))
          ];
        })
]

IsApplied-IsTracked :
    (s : StorePlatform) (e : EntryConfirmed) (t u : Projection)
    → IsTracked t
    → IsApplied s e t u
    → IsTracked u
IsApplied-IsTracked s e t u i a =
    let receipts : u.receipts ≡ receipt_of e ∷ t.receipts =
      a.receipts_after ∙ add_receipt-eq-ok e t.receipts a.receipts a.received in
    let row = λ (m : Text). ap (λ (f : Text → Option MerchantProgress). f m) a.progress_after in
    record {
      absent = λ m none_yet q. elim (Bool-cases (text_eq m e.merchant_id)) [
        | inl own ↦ absurd (ground (arith, row m, own, none_yet))
        | inr other ↦
            ap (is_received m q) receipts
            ∙ other_received m e t.receipts q other
            ∙ i.absent m (sym (row m ∙ rw other refl) ∙ none_yet) q
      ];
      present = λ m p has. elim (Bool-cases (text_eq m e.merchant_id)) [
        | inl own ↦
            let advanced =
              advance s.now e.merchant_id (position_of e) (receipt_of e ∷ t.receipts) a.before in
            let same : advanced ≡ p = ground (
              arith,
              row m,
              own,
              has,
              a.received,
              add_receipt-eq-ok e t.receipts a.receipts a.received,
            ) in
            rw (text_eq_sound m e.merchant_id own, receipts)
              (subst (IsContiguous e.merchant_id (receipt_of e ∷ t.receipts)) same (
                advance-IsContiguous s.now e t.receipts a.before
                  (i.present e.merchant_id a.before a.had)))
        | inr other ↦ rw receipts (
            other-IsContiguous m e t.receipts p other
              (i.present m p (sym (row m ∙ rw other refl) ∙ has)))
      ];
    }

Applies-IsTracked :
    (s : StorePlatform) (e : EntryConfirmed) (t u : Projection)
    → Applies s e t u
    → IsTracked t
    → IsTracked u
Applies-IsTracked s e t u unchanged i = i
Applies-IsTracked s e t u started i = init_progress-IsTracked s.now e.merchant_id t i
Applies-IsTracked s e t u (new v fresh a) i =
    IsApplied-IsTracked s e (init_progress s.now e.merchant_id t) u
      (init_progress-IsTracked s.now e.merchant_id t i) a

-- However a call of `Apply` ends, the progress row of each merchant stays what its receipts say: every
-- position through the applied one is received, the next one is not unless the source position is
-- reached, nothing is received beyond the source position, and the first gap follows the applied
-- position exactly when that is behind the source position. A merchant with no row has no receipt.
pub apply-IsTracked :
    (s : StorePlatform) (works : Bool) (order : List Identifier) (e : EntryConfirmed)
    (t : Projection)
    → IsTracked t
    → IsTracked (apply s works order e t).1
apply-IsTracked s works order e t i =
    Applies-IsTracked s (canonical e) t (apply s works order e t).1
      (apply-Applies s works order e t) i

same_rows-IsTracked :
    (t u : Projection)
    → u.receipts ≡ t.receipts
    → u.progress ≡ t.progress
    → IsTracked t
    → IsTracked u
same_rows-IsTracked t u r p i =
    let row = λ (m : Text). ap (λ (f : Text → Option MerchantProgress). f m) p in
    record {
      absent = λ m none_yet q. ap (is_received m q) r ∙ i.absent m (sym (row m) ∙ none_yet) q;
      present = λ m v has. rw r (i.present m v (sym (row m) ∙ has));
    }

Resumes-IsTracked : (m : Text) (t u : Projection) → Resumes m t u → IsTracked t → IsTracked u
Resumes-IsTracked m t u idle i = i
Resumes-IsTracked m t u (processed j r v found done) i =
    let (days, closed, made) = process_block-eq-ok j 1 t u r done in
    same_rows-IsTracked t u (ap (λ (x : Projection). x.receipts) made)
      (ap (λ (x : Projection). x.progress) made) i

pub resume_next-IsTracked :
    (works : Bool) (merchant : Text) (t : Projection)
    → IsTracked t
    → IsTracked (resume_next works merchant t).1
resume_next-IsTracked works merchant t i =
    Resumes-IsTracked (lower merchant) t (resume_next works merchant t).1
      (resume_next-Resumes works merchant t) i
