-- ===== src/Consolidation/Store/Closings.antt =====
-- The closing balance that the store answers, against the inbox.
use keyrus.Base.{
  ℕ, suc, ◌≤◌, ◌<◌, ◌≡◌, refl, sym, ◌∙◌, ap, Bool, true, false, ◌&&◌, none, some, List, [], ◌∷◌,
  leb, ◌==◌, if◌then◌else◌, All, arith, Bool-cases, inl, inr, ok,
}
use keyrus.Base.Int.{ℤ, pos, ◌+ℤ◌, zero-+ℤ, +ℤ-zero, +ℤ_assoc, +ℤ_swap}
use keyrus.Base.Text.{Text, text_eq, lower}
use keyrus.Consolidation.Event.{financial_effect}
use keyrus.Consolidation.Days.{Day, row_at}
use keyrus.Consolidation.Days.Closing.{IsAscending, IsClosed}
use keyrus.Consolidation.Days.Totals.{Sums, add_sums, totals_at}
use keyrus.Consolidation.Projection.{Projection, InboxRow, is_some}
use keyrus.Consolidation.Store.{read_balance}
use keyrus.Consolidation.Store.Refines.{inbox_sums, IsProjected}
use keyrus.Consolidation.Store.Settled.{IsSettled}

abbrev when : Bool → ℤ → ℤ
when b x = if b then x else pos 0

-- what the events of a merchant through a day add up to
unfoldable pub net_through : Text → ℕ → List InboxRow → ℤ
unfolding ◌+ℤ◌ financial_effect
net_through m d [] = pos 0
net_through m d (x ∷ xs) =
    net_through m d xs
    +ℤ when (text_eq m x.event.merchant_id && leb x.business_day d) ((financial_effect x.event).net)

-- the same sum, day by day
rows_net : ℕ → List Day → ℤ
rows_net d [] = pos 0
rows_net d (r ∷ rs) = when (leb r.date d) r.net +ℤ rows_net d rs

days_net : Text → ℕ → List Day → List InboxRow → ℤ
days_net m d [] xs = pos 0
days_net m d (r ∷ rs) xs = when (leb r.date d) ((inbox_sums m r.date xs).net) +ℤ days_net m d rs xs

rows_net-above :
    (d lo : ℕ) (rows : List Day) → d < lo → IsAscending lo rows → rows_net d rows ≡ pos 0
unfolding rows_net
rows_net-above d lo [] h a = refl
rows_net-above d lo (r ∷ rs) h a =
    let late : leb r.date d ≡ false = ground (arith, h, a.0) in
    rw (late, rows_net-above d (suc r.date) rs (omega (arith, h, a.0)) a.1) (zero-+ℤ (pos 0))

row_at-above : (d lo : ℕ) (rows : List Day) → d < lo → IsAscending lo rows → row_at d rows ≡ none
unfolding row_at
row_at-above d lo [] h a = refl
row_at-above d lo (r ∷ rs) h a =
    let other : (r.date == d) ≡ false = ground (arith, h, a.0) in
    rw other (row_at-above d (suc r.date) rs (omega (arith, h, a.0)) a.1)

-- The closing balance of a day is the net of the days through it.
closing-rows_net :
    (d lo : ℕ) (acc : ℤ) (rows : List Day) (r : Day)
    → IsAscending lo rows
    → IsClosed acc rows
    → row_at d rows ≡ some r
    → r.closing ≡ acc +ℤ rows_net d rows
unfolding row_at rows_net
closing-rows_net d lo acc [] r a c h = absurd (ground (arith, h))
closing-rows_net d lo acc (x ∷ xs) r a c h = elim (Bool-cases (x.date == d)) [
  | inl here ↦
      let same : x ≡ r = ground (arith, rw here at h) in
      let within : leb x.date d ≡ true = ground (arith, here) in
      ap (λ (y : Day). y.closing) (sym same)
      ∙ c.0
      ∙ rw (within, rows_net-above d (suc x.date) xs (ground (arith, here)) a.1, +ℤ-zero x.net) refl
  | inr other ↦
      let rest = rw other at h in
      elim (Bool-cases (leb x.date d)) [
        | inl within ↦ rw within (
            closing-rows_net d (suc x.date) x.closing xs r a.1 c.1 rest
            ∙ ap (λ y. y +ℤ rows_net d xs) c.0
            ∙ +ℤ_assoc acc x.net (rows_net d xs))
        | inr beyond ↦
            absurd
              (ground (arith, rest, row_at-above d (suc x.date) xs (ground (arith, beyond)) a.1))
      ]
]

rows_net-days_net :
    (m : Text) (d lo : ℕ) (rows : List Day) (xs : List InboxRow)
    → IsAscending lo rows
    → ((k : ℕ) → lo ≤ k → (totals_at k rows).net ≡ (inbox_sums m k xs).net)
    → rows_net d rows ≡ days_net m d rows xs
unfolding rows_net days_net totals_at
rows_net-days_net m d lo [] xs a h = refl
rows_net-days_net m d lo (r ∷ rs) xs a h =
    let self : (r.date == r.date) ≡ true = ground arith in
    let head : r.net ≡ (inbox_sums m r.date xs).net = rw self at (h r.date a.0) in
    let tail = rows_net-days_net m d (suc r.date) rs xs a.1 (λ k after.
      let other : (r.date == k) ≡ false = ground (arith, after) in
      rw other at (h k (omega (arith, a.0, after)))) in
    ap (λ x. when (leb r.date d) x +ℤ rows_net d rs) head
    ∙ ap (λ x. when (leb r.date d) ((inbox_sums m r.date xs).net) +ℤ x) tail

days_net-nothing : (m : Text) (d : ℕ) (rows : List Day) → days_net m d rows [] ≡ pos 0
unfolding days_net inbox_sums
days_net-nothing m d [] = refl
days_net-nothing m d (r ∷ rs) = ground (arith, days_net-nothing m d rs, zero-+ℤ (pos 0))

abbrev has_row : ℕ → List Day → Bool
has_row k rows = is_some (row_at k rows)

inbox_net-cons :
    (m : Text) (k : ℕ) (x : InboxRow) (xs : List InboxRow)
    → (inbox_sums m k (x ∷ xs)).net
      ≡ (inbox_sums m k xs).net
        +ℤ when
            (text_eq m x.event.merchant_id && (x.business_day == k))
            ((financial_effect x.event).net)
unfolding inbox_sums add_sums
inbox_net-cons m k x xs = ground (arith, +ℤ-zero ((inbox_sums m k xs).net))

head_same :
    (mine b : Bool) (sums n rest : ℤ)
    → when b (sums +ℤ when (mine && true) n) +ℤ (rest +ℤ when (mine && (b && false)) n)
      ≡ when b sums +ℤ rest +ℤ when (mine && (b && true)) n
head_same true true sums n rest = ap (λ y. sums +ℤ n +ℤ y) (+ℤ-zero rest) ∙ +ℤ_swap sums n rest
head_same true false sums n rest = sym (+ℤ_assoc (pos 0) rest (pos 0))
head_same false true sums n rest =
    ap (λ y. y +ℤ (rest +ℤ pos 0)) (+ℤ-zero sums) ∙ sym (+ℤ_assoc sums rest (pos 0))
head_same false false sums n rest = sym (+ℤ_assoc (pos 0) rest (pos 0))

head_other :
    (mine b : Bool) (sums n rest w : ℤ)
    → when b (sums +ℤ when (mine && false) n) +ℤ (rest +ℤ w) ≡ when b sums +ℤ rest +ℤ w
head_other mine true sums n rest w =
    ap (λ y. sums +ℤ y +ℤ (rest +ℤ w)) (ground arith)
    ∙ ap (λ y. y +ℤ (rest +ℤ w)) (+ℤ-zero sums)
    ∙ sym (+ℤ_assoc sums rest w)
head_other mine false sums n rest w = sym (+ℤ_assoc (pos 0) rest w)

-- One more event adds its net to its own day, where that day has a row.
days_net-cons :
    (m : Text) (d lo : ℕ) (rows : List Day) (x : InboxRow) (xs : List InboxRow)
    → IsAscending lo rows
    → days_net m d rows (x ∷ xs)
      ≡ days_net m d rows xs
        +ℤ when
            (text_eq m x.event.merchant_id && (leb x.business_day d && has_row x.business_day rows))
            ((financial_effect x.event).net)
unfolding days_net row_at
days_net-cons m d lo [] x xs a = ground (arith, zero-+ℤ (pos 0))
days_net-cons m d lo (r ∷ rs) x xs a =
    let n = (financial_effect x.event).net in
    let mine = text_eq m x.event.merchant_id in
    let sums = (inbox_sums m r.date xs).net in
    let rest = days_net m d rs xs in
    ap (λ y. when (leb r.date d) y +ℤ days_net m d rs (x ∷ xs)) (inbox_net-cons m r.date x xs)
    ∙ ap (λ y. when (leb r.date d) (sums +ℤ when (mine && (x.business_day == r.date)) n) +ℤ y)
        (days_net-cons m d (suc r.date) rs x xs a.1)
    ∙ elim (Bool-cases (r.date == x.business_day)) [
      | inl here ↦
          let flip : x.business_day ≡ r.date = ground (arith, here) in
          let self : (r.date == r.date) ≡ true = ground arith in
          let gone : row_at r.date rs ≡ none =
            row_at-above r.date (suc r.date) rs (omega arith) a.1 in
          rw (flip, self, gone) (head_same mine (leb r.date d) sums n rest)
      | inr other ↦
          let flip : (x.business_day == r.date) ≡ false = ground (arith, other) in
          rw (flip, other)
            (head_other mine (leb r.date d) sums n rest
              (when (mine && (leb x.business_day d && has_row x.business_day rs)) n))
    ]

-- every event of the merchant has a row at its day
abbrev IsCovered : Text → List Day → List InboxRow → Type 0
IsCovered m rows =
    All
      (λ (x : InboxRow). text_eq m x.event.merchant_id ≡ true → has_row x.business_day rows ≡ true)

days_net-through :
    (m : Text) (d : ℕ) (rows : List Day) (xs : List InboxRow)
    → IsAscending 0 rows
    → IsCovered m rows xs
    → days_net m d rows xs ≡ net_through m d xs
unfolding net_through
days_net-through m d rows [] a c = days_net-nothing m d rows
days_net-through m d rows (x ∷ xs) a (here, c) =
    days_net-cons m d 0 rows x xs a
    ∙ ap
        (λ y.
          y
          +ℤ when
              (text_eq m x.event.merchant_id
                && (leb x.business_day d && has_row x.business_day rows))
              ((financial_effect x.event).net))
        (days_net-through m d rows xs a c)
    ∙ ap (λ b. net_through m d xs +ℤ when b ((financial_effect x.event).net)) (ground (arith, here))

-- a day without a row has no event
count_covers :
    (m : Text) (rows : List Day) (xs : List InboxRow)
    → ((k : ℕ) → has_row k rows ≡ false → (inbox_sums m k xs).count ≡ 0)
    → IsCovered m rows xs
unfolding inbox_sums add_sums
count_covers m rows [] h = tt
count_covers m rows (x ∷ xs) h = (
  λ mine. elim (Bool-cases (has_row x.business_day rows)) [
    | inl has ↦ has
    | inr missing ↦ absurd (ground (arith, h x.business_day missing, mine))
  ],
  count_covers m rows xs (λ k missing. ground (arith, h k missing)),
)

totals_missing : (k : ℕ) (rows : List Day) → has_row k rows ≡ false → (totals_at k rows).count ≡ 0
unfolding totals_at row_at
totals_missing k [] h = refl
totals_missing k (r ∷ rs) h = ground (arith, totals_missing k rs, h)

-- In tables that are a view of the inbox, the closing balance that the store answers for a settled
-- merchant is the net of all its inbox events through that day.
pub read_balance-closing :
    (m : Text) (d : ℕ) (t : Projection) (r : Day)
    → IsProjected t
    → IsSettled (lower m) t
    → read_balance m d t ≡ ok r
    → r.closing ≡ net_through (lower m) d t.inbox
unfolding read_balance
read_balance-closing m d t r i settled h =
    let rows = t.balances (lower m) in
    let found : row_at d rows ≡ some r = ground (arith, h) in
    let covered = count_covers (lower m) rows t.inbox (λ k missing.
      ap (λ (y : Sums). y.count) (sym (i.totals (lower m) k)) ∙ totals_missing k rows missing) in
    closing-rows_net d 0 (pos 0) rows r settled.ascending settled.closed found
    ∙ zero-+ℤ (rows_net d rows)
    ∙ rows_net-days_net (lower m) d 0 rows t.inbox settled.ascending
        (λ k low. ap (λ (y : Sums). y.net) (i.totals (lower m) k))
    ∙ days_net-through (lower m) d rows t.inbox settled.ascending covered
