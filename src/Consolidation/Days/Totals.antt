-- ===== src/Consolidation/Days/Totals.antt =====
-- The totals of one day, under the statements of a projection.
use keyrus.Base.{
  ℕ, suc, ◌+◌, ◌<◌, ◌≡◌, refl, false, List, [], ◌∷◌, ltb, ◌==◌, if◌then◌else◌, arith, Bool-cases,
  inl, inr,
}
use keyrus.Base.Int.{ℤ, pos, ◌+ℤ◌, zero-+ℤ}
use keyrus.Consolidation.Event.{Effect}
use keyrus.Consolidation.Days.{
  Day, first_row, add_effect, upsert_totals, insert_missing, run_balances,
}
use keyrus.Consolidation.Days.Closing.{IsAscending}

-- what a day adds up to
pub record Sums : Type 0 where
  pub credits : ℤ
  pub debits : ℤ
  pub net : ℤ
  pub count : ℕ

abbrev pub nothing : Sums
nothing = record { credits = pos 0; debits = pos 0; net = pos 0; count = 0 }

unfoldable pub add_sums : Sums → Effect → Sums
unfolding ◌+ℤ◌
add_sums s f = record {
  credits = s.credits +ℤ f.credits;
  debits = s.debits +ℤ f.debits;
  net = s.net +ℤ f.net;
  count = s.count + 1;
}

abbrev pub sums_of_row : Day → Sums
sums_of_row r = record {
  credits = r.credits;
  debits = r.debits;
  net = r.net;
  count = r.entry_count;
}

-- the totals at a date; a day without a row has none
unfoldable pub totals_at : ℕ → List Day → Sums
totals_at d [] = nothing
totals_at d (r ∷ rs) = let rest = totals_at d rs in if r.date == d then sums_of_row r else rest

totals_above :
    (d lo : ℕ) (rows : List Day) → d < lo → IsAscending lo rows → totals_at d rows ≡ nothing
unfolding totals_at
totals_above d lo [] h a = refl
totals_above d lo (r ∷ rs) h a =
    let other : (r.date == d) ≡ false = ground (arith, h, a.0) in
    rw other (totals_above d (suc r.date) rs (omega (arith, h, a.0)) a.1)

sums_of_first : (d : ℕ) (f : Effect) → sums_of_row (first_row d f) ≡ add_sums nothing f
unfolding add_sums
sums_of_first d f = rw (zero-+ℤ f.credits, zero-+ℤ f.debits, zero-+ℤ f.net) refl

sums_of_added : (f : Effect) (r : Day) → sums_of_row (add_effect f r) ≡ add_sums (sums_of_row r) f
unfolding add_sums add_effect
sums_of_added f r = refl

add_effect-date : (f : Effect) (r : Day) → (add_effect f r).date ≡ r.date
unfolding add_effect
add_effect-date f r = refl

-- The upsert adds the effect to its day and to no other.
pub totals-upsert :
    (d d' lo : ℕ) (f : Effect) (rows : List Day)
    → IsAscending lo rows
    → totals_at d (upsert_totals d' f rows)
      ≡ (if d' == d then add_sums (totals_at d rows) f else totals_at d rows)
unfolding totals_at upsert_totals
totals-upsert d d' lo f [] a = ground (arith, sums_of_first d' f)
totals-upsert d d' lo f (r ∷ rs) a = elim (Bool-cases (r.date == d')) [
  | inl same ↦ ground (arith, same, sums_of_added f r, add_effect-date f r)
  | inr other ↦ elim (Bool-cases (ltb d' r.date)) [
    | inl before ↦
        ground (arith, other, before, sums_of_first d' f, totals_above d' (suc r.date) rs)
    | inr after ↦ ground (arith, other, after, totals-upsert d d' (suc r.date) f rs a.1)
  ]
]

pub totals-insert_missing :
    (d d' lo : ℕ) (rows : List Day)
    → IsAscending lo rows
    → totals_at d (insert_missing d' rows) ≡ totals_at d rows
unfolding totals_at insert_missing
totals-insert_missing d d' lo [] a = ground arith
totals-insert_missing d d' lo (r ∷ rs) a = elim (Bool-cases (r.date == d')) [
  | inl same ↦ rw same refl
  | inr other ↦ elim (Bool-cases (ltb d' r.date)) [
    | inl before ↦ ground (arith, other, before, totals_above d' (suc r.date) rs)
    | inr after ↦ ground (arith, other, after, totals-insert_missing d d' (suc r.date) rs a.1)
  ]
]

pub totals-run_balances :
    (d next through : ℕ) (acc : ℤ) (rows : List Day)
    → totals_at d (run_balances next through acc rows) ≡ totals_at d rows
unfolding totals_at run_balances
totals-run_balances d next through acc [] = refl
totals-run_balances d next through acc (r ∷ rs) = ground (
  arith,
  totals-run_balances d next through acc rs,
  totals-run_balances d next through (acc +ℤ r.net) rs,
)
