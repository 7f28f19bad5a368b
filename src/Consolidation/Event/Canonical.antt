-- ===== src/Consolidation/Event/Canonical.antt =====
-- The canonical form of events, and what `ParseEntryConfirmed` returns.
use keyrus.Base.{
  ℕ, zero, suc, ◌≡◌, inl, inr, refl, ap, subst, Bool, true, false, Option, none, some, List, [],
  ◌∷◌, arith, ok, ◌>>◌, Result-cases, Option-cases,
}
use keyrus.Base.Text.{Text, lower, lower_byte}
use keyrus.Base.Date.{parse}
use keyrus.Base.Hex.{is_hex}
use keyrus.Base.Pattern.{Pattern, matches, times, is_dash}
use keyrus.Ledger.Store.Restore.{lower-lower}
use keyrus.Consolidation.Event.{
  EntryConfirmed, Identifier, the_event, the_merchant, the_entry, identifier_of, is_uuid,
  uuid_pattern, is_bad_original, validate, canonical, lower_original, Decoder, read_original,
  ensure_single, parse_entry_confirmed, is_version, is_rfc_variant,
}
use keyrus.Consolidation.Event.Rules.{IsEvent, VisitsAll, validate_lem}

-- a pattern that does not tell upper case from lower case
abbrev IgnoresCase : Pattern → Type 0
IgnoresCase [] = Unit
IgnoresCase (p ∷ ps) = ((c : ℕ) → p c ≡ true → p (lower_byte c) ≡ true) × IgnoresCase ps

matches-lower :
    (ps : Pattern) (s : Text) → IgnoresCase ps → matches ps s ≡ true → matches ps (lower s) ≡ true
unfolding matches
matches-lower [] [] h m = refl
matches-lower [] (c ∷ s) h m = m
matches-lower (p ∷ ps) [] h m = m
matches-lower (p ∷ ps) (c ∷ s) h m = ground (arith, matches-lower ps s h.1, h.0 c, m)

IgnoresCase-times :
    (n : ℕ) (p : ℕ → Bool) (ps : Pattern)
    → ((c : ℕ) → p c ≡ true → p (lower_byte c) ≡ true)
    → IgnoresCase ps
    → IgnoresCase (times n p ps)
IgnoresCase-times zero p ps h t = t
IgnoresCase-times (suc n) p ps h t = (h, IgnoresCase-times n p ps h t)

is_hex-lower : (c : ℕ) → is_hex c ≡ true → is_hex (lower_byte c) ≡ true
is_hex-lower c h = ground (arith, h)

is_dash-lower : (c : ℕ) → is_dash c ≡ true → is_dash (lower_byte c) ≡ true
is_dash-lower c h = ground (arith, h)

is_version-lower : (c : ℕ) → is_version c ≡ true → is_version (lower_byte c) ≡ true
is_version-lower c h = ground (arith, h)

is_variant-lower : (c : ℕ) → is_rfc_variant c ≡ true → is_rfc_variant (lower_byte c) ≡ true
is_variant-lower c h = ground (arith, h)

uuid-IgnoresCase : IgnoresCase uuid_pattern
uuid-IgnoresCase =
    let p5 : Pattern = is_dash ∷ times 12 is_hex [] in
    let i5 : IgnoresCase p5 = (is_dash-lower, IgnoresCase-times 12 is_hex [] is_hex-lower tt) in
    let p4 : Pattern = is_dash ∷ is_rfc_variant ∷ times 3 is_hex p5 in
    let i4 : IgnoresCase p4 =
      (is_dash-lower, (is_variant-lower, IgnoresCase-times 3 is_hex p5 is_hex-lower i5)) in
    let p3 : Pattern = is_dash ∷ is_version ∷ times 3 is_hex p4 in
    let i3 : IgnoresCase p3 =
      (is_dash-lower, (is_version-lower, IgnoresCase-times 3 is_hex p4 is_hex-lower i4)) in
    let p2 : Pattern = is_dash ∷ times 4 is_hex p3 in
    let i2 : IgnoresCase p2 = (is_dash-lower, IgnoresCase-times 4 is_hex p3 is_hex-lower i3) in
    IgnoresCase-times 8 is_hex p2 is_hex-lower i2

is_uuid-lower : (s : Text) → is_uuid s ≡ true → is_uuid (lower s) ≡ true
is_uuid-lower s h = matches-lower uuid_pattern s uuid-IgnoresCase h

original-lower :
    (o : Option Text) → is_bad_original o ≡ false → is_bad_original (lower_original o) ≡ false
original-lower none h = refl
original-lower (some o) h = ground (arith, h, is_uuid-lower o)

lower_original_again : (o : Option Text) → lower_original (lower_original o) ≡ lower_original o
lower_original_again none = refl
lower_original_again (some o) = ap some (lower-lower o)

-- The canonical form of an event of the contract is one too, and its own canonical form.
pub canonical-IsEvent : (e : EntryConfirmed) → IsEvent e → IsEvent (canonical e)
unfolding canonical
canonical-IsEvent e v = record {
  identified = each;
  refers = original-lower e.original_entry_id v.refers;
  versioned = v.versioned;
  positioned = v.positioned;
  typed = v.typed;
  positive = v.positive;
  in_reais = v.in_reais;
  occurred = v.occurred;
  confirmed = v.confirmed;
  dated = v.dated;
  traced = v.traced;
}
  where
    each : (i : Identifier) → is_uuid (identifier_of i (canonical e)) ≡ true
    each the_event = is_uuid-lower e.event_id (v.identified the_event)
    each the_merchant = is_uuid-lower e.merchant_id (v.identified the_merchant)
    each the_entry = is_uuid-lower e.entry_id (v.identified the_entry)

canonical_again : (e : EntryConfirmed) → canonical (canonical e) ≡ canonical e
unfolding canonical
canonical_again e =
    rw
      (
        lower-lower e.event_id,
        lower-lower e.merchant_id,
        lower-lower e.entry_id,
        lower_original_again e.original_entry_id,
      )
      refl

validated :
    (order : List Identifier) (e r : EntryConfirmed)
    → VisitsAll order
    → (validate order e >> ok (canonical e)) ≡ ok r
    → IsEvent r × (canonical r ≡ r)
validated order e r all h = elim (Result-cases (validate order e)) [
  | inl (f, bad) ↦ ground (arith, bad, h)
  | inr (u, good) ↦
      let same : canonical e ≡ r = ground (arith, good, h) in
      subst (λ x. IsEvent x × (canonical x ≡ x)) same
        (canonical-IsEvent e ((validate_lem order e all).0 good), canonical_again e)
]

-- Whatever `ParseEntryConfirmed` returns meets all the rules of the contract and is in its
-- canonical form, in whatever order that comes to all three identifiers they are visited.
pub parse_entry_confirmed-IsEvent :
    (d : Decoder) (order : List Identifier) (payload : Text) (e : EntryConfirmed)
    → VisitsAll order
    → parse_entry_confirmed d order payload ≡ ok e
    → IsEvent e × (canonical e ≡ e)
unfolding parse_entry_confirmed ensure_single
parse_entry_confirmed-IsEvent d order payload e all h = elim (Option-cases (d.decode payload)) [
  | inl bad ↦ ground (arith, bad, h)
  | inr ((wire, trailing), read) ↦ elim (Result-cases (ensure_single trailing)) [
    | inl (f, bad) ↦ ground (arith, read, bad, h)
    | inr (u, single) ↦ elim (Option-cases (d.parse_time wire.occurred_at)) [
      | inl bad ↦ ground (arith, read, single, bad, h)
      | inr (occurred, o) ↦ elim (Option-cases (d.parse_time wire.confirmed_at)) [
        | inl bad ↦ ground (arith, read, single, o, bad, h)
        | inr (confirmed, c) ↦ elim (Option-cases (parse wire.business_date)) [
          | inl bad ↦ ground (arith, read, single, o, c, bad, h)
          | inr (date, b) ↦ elim (Result-cases (read_original wire.original_entry_id)) [
            | inl (f, bad) ↦ ground (arith, read, single, o, c, b, bad, h)
            | inr (original, r) ↦
                validated order _ e all (rw (read, parse_entry_confirmed, single, o, c, b, r) at h)
          ]
        ]
      ]
    ]
  ]
]
