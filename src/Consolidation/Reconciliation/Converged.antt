-- ===== src/Consolidation/Reconciliation/Converged.antt =====
-- When a reconciliation of a day reports no difference.
use keyrus.Base.{
  ℕ, ◌≡◌, ◌↔◌, refl, sym, ◌∙◌, ap, true, List, [], ◌∷◌, ◌==◌, if◌then◌else◌, arith, Bool-cases, inl,
  inr,
}
use keyrus.Base.Int.{ℤ, pos, negsuc, ◌-ℤ◌, -ℤ_parts, eq_of_parts, wrap_ℤ, wrap_ℤ_fits, is_int64}
use keyrus.Base.Text.{Text}
use keyrus.Consolidation.Days.{Day, row_at}
use keyrus.Consolidation.Days.Totals.{Sums, totals_at}
use keyrus.Consolidation.Projection.{Projection}
use keyrus.Consolidation.Store.Refines.{inbox_sums, IsProjected}
use keyrus.Consolidation.Reconciliation.{
  Source, difference_of, magnitude, day_difference, compare_day, has_id, projected_ids,
}
use keyrus.Consolidation.Reconciliation.Counts.{occurrences, compare_entry_sets_lem}

-- the differences that the code computes stay in an int64
abbrev pub FitDifferences : ℤ → ℤ → ℤ → ℤ → Type 0
FitDifferences sc sd c d =
    (is_int64 (c -ℤ d) ≡ true)
    × (is_int64 (sc -ℤ sd) ≡ true)
    × (is_int64 (c -ℤ d -ℤ (sc -ℤ sd)) ≡ true)

magnitude-zero : (z : ℤ) → is_int64 z ≡ true → (magnitude z ≡ pos 0) ↔ (z ≡ pos 0)
unfolding wrap_ℤ
magnitude-zero (pos n) h = (λ e. e, λ e. e)
magnitude-zero (negsuc n) h = (λ e. absurd (ground (arith, h, e)), λ e. absurd (ground (arith, e)))

-ℤ-zero : (a b : ℤ) → (a -ℤ b ≡ pos 0) ↔ (a ≡ b)
-ℤ-zero a b = (
  λ e. eq_of_parts a b (ground (arith, -ℤ_parts a b, e)),
  λ e. eq_of_parts (a -ℤ b) (pos 0) (ground (arith, -ℤ_parts a b, e)),
)

difference_of-zero :
    (sc sd c d : ℤ)
    → FitDifferences sc sd c d
    → (difference_of sc sd c d ≡ pos 0) ↔ (c -ℤ d ≡ sc -ℤ sd)
difference_of-zero sc sd c d (f, g, h) =
    let plain : difference_of sc sd c d ≡ magnitude (c -ℤ d -ℤ (sc -ℤ sd)) =
      ap (λ x. magnitude (wrap_ℤ (x -ℤ wrap_ℤ (sc -ℤ sd)))) (wrap_ℤ_fits (c -ℤ d) f)
      ∙ ap (λ x. magnitude (wrap_ℤ (c -ℤ d -ℤ x))) (wrap_ℤ_fits (sc -ℤ sd) g)
      ∙ ap magnitude (wrap_ℤ_fits (c -ℤ d -ℤ (sc -ℤ sd)) h) in
    (
      λ e.
          (-ℤ-zero (c -ℤ d) (sc -ℤ sd)).0
            ((magnitude-zero (c -ℤ d -ℤ (sc -ℤ sd)) h).0 (sym plain ∙ e)),
      λ e. plain ∙ (magnitude-zero (c -ℤ d -ℤ (sc -ℤ sd)) h).1 ((-ℤ-zero (c -ℤ d) (sc -ℤ sd)).1 e),
    )

abbrev difference_from : Source → Sums → ℤ
difference_from s x = difference_of s.credits s.debits x.credits x.debits

day_difference-totals :
    (d : ℕ) (s : Source) (rows : List Day)
    → day_difference s (row_at d rows) ≡ difference_from s (totals_at d rows)
unfolding row_at totals_at
day_difference-totals d s [] = refl
day_difference-totals d s (r ∷ rs) = elim (Bool-cases (r.date == d)) [
  | inl here ↦ rw here refl
  | inr other ↦ rw other (day_difference-totals d s rs)
]

compare_day-difference :
    (m : Text) (day cut : ℕ) (s : Source) (t : Projection)
    → IsProjected t
    → (compare_day m day cut s t).financial_difference
      ≡ difference_from s (inbox_sums m day t.inbox)
unfolding compare_day
compare_day-difference m day cut s t i =
    day_difference-totals day s (t.balances m) ∙ ap (difference_from s) (i.totals m day)

-- In tables that are a view of the inbox, where the sums stay in an int64, a comparison reports
-- nothing missing, extra or duplicated and no financial difference exactly when the inbox has every
-- entry of the source once through the cut, and no other, and the net of all the merchant's events of
-- that day, beyond the cut too, is the net of the source.
pub compare_day-converged :
    (m : Text) (day cut : ℕ) (s : Source) (t : Projection)
    → IsProjected t
    → FitDifferences s.credits s.debits
        ((inbox_sums m day t.inbox).credits)
        ((inbox_sums m day t.inbox).debits)
    → (((compare_day m day cut s t).missing_entries ≡ 0)
        × ((compare_day m day cut s t).extra_entries ≡ 0)
        × ((compare_day m day cut s t).duplicated_entries ≡ 0)
        × ((compare_day m day cut s t).financial_difference ≡ pos 0))
      ↔ (((id : Text)
            → occurrences id (projected_ids m day cut t.inbox) ≡ (if has_id id s.ids then 1 else 0))
          × ((inbox_sums m day t.inbox).credits -ℤ (inbox_sums m day t.inbox).debits
              ≡ s.credits -ℤ s.debits))
unfolding compare_day
compare_day-converged m day cut s t i fits =
    let sums = inbox_sums m day t.inbox in
    let sets = compare_entry_sets_lem s.ids (projected_ids m day cut t.inbox) in
    let money = difference_of-zero s.credits s.debits sums.credits sums.debits fits in
    let told = compare_day-difference m day cut s t i in
    (
      λ (a, b, c, e). (sets.0 (a, b, c), money.0 (sym told ∙ e)),
      λ (exact, same). let (a, b, c) = sets.1 exact in (a, b, c, told ∙ money.1 same),
    )
