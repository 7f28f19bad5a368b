-- ===== src/Consolidation/Event/Rules.antt =====
-- What `Validate` and `ParseEntryConfirmed` let through.
use keyrus.Base.{
  ◌≡◌, ◌↔◌, inl, inr, refl, sym, subst, Bool, true, false, ◌||◌, List, [], ◌∷◌, arith, ◌==◌, any,
  ok, Bool-cases, Result-cases,
}
use keyrus.Base.Int.{pos, leb_ℤ}
use keyrus.Base.Text.{codes, text_eq}
use keyrus.Base.Date.{is_zero_date}
use keyrus.Base.Pattern.{matches}
use keyrus.Consolidation.Event.{
  EntryConfirmed, Identifier, the_event, the_merchant, the_entry, identifier_of, is_uuid,
  trace_pattern, is_bad_original, check_identifiers, check_rest, validate, entry_confirmed_v1,
  entry_credit, entry_debit,
}

-- an event of the contract
pub record IsEvent (e : EntryConfirmed) : Type 0 where
  pub identified : (i : Identifier) → is_uuid (identifier_of i e) ≡ true
  pub refers : is_bad_original e.original_entry_id ≡ false
  pub versioned : text_eq e.event_type entry_confirmed_v1 ≡ true
  pub positioned : leb_ℤ (pos 1) e.merchant_position ≡ true
  pub typed : (text_eq e.entry_type entry_credit || text_eq e.entry_type entry_debit) ≡ true
  pub positive : leb_ℤ (pos 1) e.amount_minor ≡ true
  pub in_reais : text_eq e.currency (codes "BRL") ≡ true
  pub occurred : (e.occurred_at == 0) ≡ false
  pub confirmed : (e.confirmed_at == 0) ≡ false
  pub dated : is_zero_date e.business_date ≡ false
  pub traced : matches trace_pattern e.traceparent ≡ true

abbrev same_identifier : Identifier → Identifier → Bool
same_identifier the_event the_event = true
same_identifier the_merchant the_merchant = true
same_identifier the_entry the_entry = true
same_identifier _ _ = false

-- an order of the loop that comes to all three identifiers
abbrev pub VisitsAll : List Identifier → Type 0
VisitsAll order = (i : Identifier) → any (same_identifier i) order ≡ true

same_identifier_sound : (i j : Identifier) → same_identifier i j ≡ true → i ≡ j
same_identifier_sound the_event the_event h = refl
same_identifier_sound the_event the_merchant h = cc
same_identifier_sound the_event the_entry h = cc
same_identifier_sound the_merchant the_event h = cc
same_identifier_sound the_merchant the_merchant h = refl
same_identifier_sound the_merchant the_entry h = cc
same_identifier_sound the_entry the_event h = cc
same_identifier_sound the_entry the_merchant h = cc
same_identifier_sound the_entry the_entry h = refl

check_identifiers-eq-ok :
    (order : List Identifier) (e : EntryConfirmed) (i : Identifier)
    → check_identifiers order e ≡ ok tt
    → any (same_identifier i) order ≡ true
    → is_uuid (identifier_of i e) ≡ true
unfolding check_identifiers
check_identifiers-eq-ok [] e i h v = cc
check_identifiers-eq-ok (j ∷ js) e i h v = elim (Bool-cases (is_uuid (identifier_of j e))) [
  | inr bad ↦ ground (arith, bad, h)
  | inl good ↦ elim (Bool-cases (same_identifier i j)) [
    | inl here ↦
        subst (λ x. is_uuid (identifier_of x e) ≡ true) (sym (same_identifier_sound i j here)) good
    | inr later ↦
        check_identifiers-eq-ok js e i (ground (arith, good, h)) (ground (arith, later, v))
  ]
]

check_identifiers_complete :
    (order : List Identifier) (e : EntryConfirmed)
    → ((i : Identifier) → is_uuid (identifier_of i e) ≡ true)
    → check_identifiers order e ≡ ok tt
unfolding check_identifiers
check_identifiers_complete [] e h = refl
check_identifiers_complete (i ∷ is) e h = rw (h i) (check_identifiers_complete is e h)

-- In whatever order that comes to all three identifiers `Validate` visits them, it accepts an event
-- exactly when the event meets all the rules.
pub validate_lem :
    (order : List Identifier) (e : EntryConfirmed)
    → VisitsAll order
    → (validate order e ≡ ok tt) ↔ IsEvent e
unfolding validate check_rest
validate_lem order e all = (
  λ h. elim (Result-cases (check_identifiers order e)) [
    | inl (f, bad) ↦ ground (arith, bad, h)
    | inr (u, good) ↦ record {
      identified = λ i. check_identifiers-eq-ok order e i good (all i);
      refers = ground (arith, good, h);
      versioned = ground (arith, good, h);
      positioned = ground (arith, good, h);
      typed = ground (arith, good, h);
      positive = ground (arith, good, h);
      in_reais = ground (arith, good, h);
      occurred = ground (arith, good, h);
      confirmed = ground (arith, good, h);
      dated = ground (arith, good, h);
      traced = ground (arith, good, h);
    }
  ],
  λ v. ground (
    arith,
    check_identifiers_complete order e v.identified,
    v.refers,
    v.versioned,
    v.positioned,
    v.typed,
    v.positive,
    v.in_reais,
    v.occurred,
    v.confirmed,
    v.dated,
    v.traced,
  ),
)
