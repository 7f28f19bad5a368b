-- ===== src/Ledger/Entry/Rules.antt =====
-- What `NewEntry` and `NewReversal` let through.
use keyrus.Base.{
  ◌↔◌, sym, ap, subst, ℕ, ◌≡◌, ◌⊎◌, ◌≤◌, ◌<◌, true, false, none, some, refl, inl, inr, [], arith,
  length, ok, err,
}
use keyrus.Base.Int.{pos, leb_ℤ}
use keyrus.Base.Text.{Text, text_eq_sound}
use keyrus.Base.Date.{Date, is_zero_date}
use keyrus.Ledger.Errors.{reversal_not_allowed}
use keyrus.Ledger.Identifier.{EntryId}
use keyrus.Ledger.Entry.{
  Entry, new_entry, new_reversal, opposite, is_entry_type, is_empty, maximum_description, credit,
  debit,
}

-- an entry of the domain
pub record IsValidEntry (e : Entry) : Type 0 where
  pub named : is_empty e.id ≡ false
  pub owned : is_empty e.merchant_id ≡ false
  pub positioned : 0 < e.position
  pub typed : is_entry_type e.entry_type ≡ true
  pub positive : leb_ℤ e.money.minor (pos 0) ≡ false
  pub dated : is_zero_date e.business_date ≡ false
  pub confirmed : 0 < e.confirmed_at
  pub described : length e.description ≤ maximum_description

-- `NewEntry` returns the data that it is given, and only data that meets the rules.
pub new_entry-eq-ok : (d e : Entry) → new_entry d ≡ ok e → (e ≡ d) × IsValidEntry d
unfolding new_entry
new_entry-eq-ok d e h = ground arith

-- Data that meets the rules is never refused.
pub new_entry_complete : (d : Entry) → IsValidEntry d → new_entry d ≡ ok d
unfolding new_entry
new_entry_complete d v = ground arith

-- the entry that a reversal of an original is
pub record Reverses (original e : Entry) : Type 0 where
  pub owner : e.merchant_id ≡ original.merchant_id
  pub opposed : e.entry_type ≡ opposite original.entry_type
  pub same_money : e.money ≡ original.money
  pub refers : e.original_entry_id ≡ some original.id

-- A reversal that is returned has the original's merchant and amount, the opposite type
-- and a reference to it, at the given identifier, position and date.
pub new_reversal-eq-ok :
    (id : EntryId) (position : ℕ) (original : Entry) (date : Date) (at : ℕ) (e : Entry)
    → new_reversal id position original date at ≡ ok e
    → (original.original_entry_id ≡ none)
      × Reverses original e
      × (e.id ≡ id)
      × (e.position ≡ position)
      × (e.business_date ≡ date)
      × IsValidEntry e
unfolding new_reversal
new_reversal-eq-ok id position original date at e h = ground arith

-- An entry that is a reversal itself is never reversed.
pub new_reversal_refused :
    (id o : EntryId) (position : ℕ) (original : Entry) (date : Date) (at : ℕ)
    → original.original_entry_id ≡ some o
    → new_reversal id position original date at ≡ err reversal_not_allowed
unfolding new_reversal
new_reversal_refused id o position original date at e = ground arith

-- one of the two types is a credit and the other a debit
abbrev pub AreOpposite : Text → Text → Type 0
AreOpposite s t = ((s ≡ credit) × (t ≡ debit)) ⊎ ((s ≡ debit) × (t ≡ credit))

-- The opposite of a type of entry is the other one of the two.
pub opposite-AreOpposite : (t : Text) → is_entry_type t ≡ true → AreOpposite (opposite t) t
unfolding opposite
opposite-AreOpposite t h = ground (arith, text_eq_sound t credit, text_eq_sound t debit)

AreOpposite-is_entry_type : (s t : Text) → AreOpposite s t → is_entry_type s ≡ true
AreOpposite-is_entry_type s t (inl (c, d)) = rw c refl
AreOpposite-is_entry_type s t (inr (c, d)) = rw c refl

-- what `NewReversal` gives to `NewEntry`
abbrev reversal_of : EntryId → ℕ → Entry → Date → ℕ → Entry
reversal_of id position original date at = record {
  id = id;
  merchant_id = original.merchant_id;
  position = position;
  entry_type = opposite original.entry_type;
  money = original.money;
  business_date = date;
  description = [];
  confirmed_at = at;
  original_entry_id = some original.id;
}

returned-new_entry :
    (id : EntryId) (position : ℕ) (original : Entry) (date : Date) (at : ℕ) (e : Entry)
    → new_reversal id position original date at ≡ ok e
    → new_entry (reversal_of id position original date at) ≡ ok e
unfolding new_reversal
returned-new_entry id position original date at e h =
    let plain = (new_reversal-eq-ok id position original date at e h).0 in
    rw (new_reversal, plain) at h

-- Of a valid entry, NewReversal returns a reversal exactly when the entry is no reversal itself and the
-- reversal is given a non-empty identifier, a positive position, a date and an instant. What it returns
-- meets the rules of an entry, has the merchant and the amount of the original, the other one of the two
-- types, a reference to it and the given identifier, position, date and instant, and of it NewReversal
-- never returns a reversal.
pub new_reversal_lem :
    (id : EntryId) (position : ℕ) (original : Entry) (date : Date) (at : ℕ)
    → IsValidEntry original
    → (((e : Entry) × (new_reversal id position original date at ≡ ok e)) ↔ (
        (original.original_entry_id ≡ none)
        × (is_empty id ≡ false)
        × (0 < position)
        × (is_zero_date date ≡ false)
        × (0 < at)))
      × ((e : Entry)
          → new_reversal id position original date at ≡ ok e
          → IsValidEntry e
            × (e.merchant_id ≡ original.merchant_id)
            × (e.money ≡ original.money)
            × AreOpposite e.entry_type original.entry_type
            × (e.original_entry_id ≡ some original.id)
            × (e.id ≡ id)
            × (e.position ≡ position)
            × (e.business_date ≡ date)
            × (e.confirmed_at ≡ at)
            × ((id' : EntryId) (position' : ℕ) (date' : Date) (at' : ℕ)
                → new_reversal id' position' e date' at' ≡ err reversal_not_allowed))
unfolding new_reversal
new_reversal_lem id position original date at v =
    let lit = reversal_of id position original date at in
    let types = opposite-AreOpposite original.entry_type v.typed in
    let returned = λ (e : Entry) (h : new_reversal id position original date at ≡ ok e).
      new_entry-eq-ok lit e (returned-new_entry id position original date at e h) in
    (
      (
        λ (e, h).
            let rules = (returned e h).1 in
            (
              (new_reversal-eq-ok id position original date at e h).0,
              rules.named,
              rules.positioned,
              rules.dated,
              rules.confirmed,
            ),
        λ (plain, named, positioned, dated, confirmed).
            let valid : IsValidEntry lit = record {
              named = named;
              owned = v.owned;
              positioned = positioned;
              typed = AreOpposite-is_entry_type lit.entry_type original.entry_type types;
              positive = v.positive;
              dated = dated;
              confirmed = confirmed;
              described = omega arith;
            } in
            (lit, rw (new_reversal, plain) (new_entry_complete lit valid)),
      ),
      λ e h.
          let (same, rules) = returned e h in
          (
            subst IsValidEntry (sym same) rules,
            ap (λ (x : Entry). x.merchant_id) same,
            ap (λ (x : Entry). x.money) same,
            subst (λ (x : Entry). AreOpposite x.entry_type original.entry_type) (sym same) types,
            ap (λ (x : Entry). x.original_entry_id) same,
            ap (λ (x : Entry). x.id) same,
            ap (λ (x : Entry). x.position) same,
            ap (λ (x : Entry). x.business_date) same,
            ap (λ (x : Entry). x.confirmed_at) same,
            λ id' position' date' at'.
                new_reversal_refused id' original.id position' e date' at'
                  (ap (λ (x : Entry). x.original_entry_id) same),
          ),
    )
