-- ===== src/Ledger/Tests/Values.antt =====
-- Runs of the values of the Ledger: money, identifiers, trace parents, dates and entries.
use keyrus.Base.{
  false, ◌↔◌, ◌∷◌, ℕ, ◌≡◌, ◌≢◌, ◌≤◌, ◌<◌, refl, Bool, true, not, ◌&&◌, Option, none, some, List, [],
  ok, err, arith, if◌then◌else◌, slice, any, ◌==◌, ◌||◌,
}
use keyrus.Base.Int.{pos, max_int64}
use keyrus.Base.Text.{Text, codes, text_eq}
use keyrus.Base.Date.{Date, is_zero_date, minus_days}
use keyrus.Base.Decimal.{IsDigits}
use keyrus.Base.Pattern.{matches}
use keyrus.Ledger.Errors.{reversal_not_allowed, invalid_id, invalid_argument}
use keyrus.Ledger.Money.{Money, parse_brl, to_text}
use keyrus.Ledger.Money.Parse.{Denotes, parse_brl_complete, parse_brl-to_text, cents}
use keyrus.Ledger.Money.Accepts.{parse_brl_sound}
use keyrus.Ledger.Identifier.{Raw, EntryId, parse_id, new_uuid_v7, stamp, uuid_text}
use keyrus.Ledger.Identifier.Parse.{id_pattern, is_nil, parse_id_lem}
use keyrus.Ledger.Identifier.Generate.{IsBytes}
use keyrus.Ledger.Traceparent.{validate_traceparent, traceparent_pattern, validate_traceparent_lem}
use keyrus.Ledger.Entry.{Entry, new_reversal, is_empty, parse_entry_type, credit}
use keyrus.Ledger.Entry.Rules.{IsValidEntry, new_reversal_lem, AreOpposite}
use keyrus.Ledger.Calendar.{Location, resolve, maximum_backdate_days}
use keyrus.Ledger.Calendar.Window.{resolve_window}
use keyrus.Ledger.Tests.Platform.{merchant, first_id, second_id, traceparent, today}

abbrev amount : ℕ → Money
amount n = record { minor = pos n }

abbrev price : Text
price = codes "12.50"

price-run : parse_brl price ≡ ok (record { minor = pos 1250 })
unfolding parse_brl keyrus.Base.Decimal.split keyrus.Base.Decimal.parse_int64
    keyrus.Base.Decimal.wrap_int64
price-run = refl

parse_sound_example :
    (n : ℕ) × Denotes price n × (amount 1250 ≡ amount n) × (0 < n) × (n ≤ max_int64)
parse_sound_example = parse_brl_sound price price-run

two-IsDigits : IsDigits (codes "12")
two-IsDigits = (refl, (refl, tt))

parse_complete_example : parse_brl price ≡ ok (record { minor = pos 1250 })
parse_complete_example =
    parse_brl_complete price 1250
      (cents (codes "12") b'5' b'0' (cc) two-IsDigits refl refl refl refl) (omega arith)
      (omega arith)

parse_print_example :
    parse_brl (to_text (record { minor = pos 1250 })) ≡ ok (record { minor = pos 1250 })
parse_print_example = parse_brl-to_text 1250 (omega arith) (omega arith)

parse_id_example :
    parse_id merchant
    ≡ (if matches id_pattern merchant && not (is_nil merchant) then ok merchant else err invalid_id)
parse_id_example = parse_id_lem merchant

abbrev raw : Raw
raw = record {
  b0 = 0;
  b1 = 0;
  b2 = 0;
  b3 = 0;
  b4 = 0;
  b5 = 0;
  b6 = 255;
  b7 = 17;
  b8 = 255;
  b9 = 1;
  b10 = 2;
  b11 = 3;
  b12 = 4;
  b13 = 5;
  b14 = 6;
  b15 = 7;
}

raw-IsBytes : IsBytes raw
raw-IsBytes = record {
  at0 = (omega arith, omega arith, omega arith, omega arith);
  at4 = (omega arith, omega arith, omega arith, omega arith);
  at8 = (omega arith, omega arith, omega arith, omega arith);
  at12 = (omega arith, omega arith, omega arith, omega arith);
}

abbrev generated : Text
generated = uuid_text (stamp 1700000000000 raw)

generated-run : new_uuid_v7 1700000000000 (some raw) ≡ ok generated
unfolding new_uuid_v7
generated-run = refl

validate_traceparent_example : validate_traceparent traceparent ≡ (
    if matches traceparent_pattern traceparent
      && (not (text_eq (slice 0 2 traceparent) (codes "ff"))
          && (any (λ c. not (c == b'0')) (slice 3 35 traceparent)
              && (any (λ c. not (c == b'0')) (slice 36 52 traceparent)
                  && (not (text_eq (slice 0 2 traceparent) (codes "00"))
                      || (text_eq (slice 53 55 traceparent) (codes "00")
                          || text_eq (slice 53 55 traceparent) (codes "01"))))))
    then ok tt
    else err invalid_argument)
validate_traceparent_example = validate_traceparent_lem traceparent

abbrev clock : Location
clock now = today

abbrev yesterday : Date
yesterday = record { year = 2026; month = 3; day = 9 }

resolve_run : resolve clock 0 (some yesterday) ≡ ok yesterday
unfolding resolve keyrus.Base.Date.before keyrus.Base.Date.minus_days keyrus.Base.Date.prev_day
resolve_run = refl

resolve_window_example :
    (yesterday ≡ yesterday)
    × ((n : ℕ) × (n ≤ maximum_backdate_days) × (minus_days n today ≡ yesterday))
unfolding keyrus.Base.Date.days_in
resolve_window_example = resolve_window clock 0 yesterday yesterday refl resolve_run

abbrev credit_entry : Entry
credit_entry = record {
  id = first_id;
  merchant_id = merchant;
  position = 1;
  entry_type = codes "credit";
  money = record { minor = pos 1250 };
  business_date = today;
  description = [];
  confirmed_at = 1000;
  original_entry_id = none;
}

abbrev reversal_entry : Entry
reversal_entry = record credit_entry {
  id = second_id;
  position = 2;
  entry_type = codes "debit";
  confirmed_at = 2000;
  original_entry_id = some first_id;
}

credit_entry-IsValidEntry : IsValidEntry credit_entry
credit_entry-IsValidEntry = record {
  named = refl;
  owned = refl;
  positioned = omega arith;
  typed = refl;
  positive = refl;
  dated = refl;
  confirmed = omega arith;
  described = omega arith;
}

new_reversal_example :
    (((e : Entry) × (new_reversal second_id 2 credit_entry today 2000 ≡ ok e)) ↔ (
      (credit_entry.original_entry_id ≡ none)
      × (is_empty second_id ≡ false)
      × (0 < 2)
      × (is_zero_date today ≡ false)
      × (0 < 2000)))
    × ((e : Entry)
        → new_reversal second_id 2 credit_entry today 2000 ≡ ok e
        → IsValidEntry e
          × (e.merchant_id ≡ credit_entry.merchant_id)
          × (e.money ≡ credit_entry.money)
          × AreOpposite e.entry_type credit_entry.entry_type
          × (e.original_entry_id ≡ some credit_entry.id)
          × (e.id ≡ second_id)
          × (e.position ≡ 2)
          × (e.business_date ≡ today)
          × (e.confirmed_at ≡ 2000)
          × ((id' : EntryId) (position' : ℕ) (date' : Date) (at' : ℕ)
              → new_reversal id' position' e date' at' ≡ err reversal_not_allowed))
new_reversal_example =
    new_reversal_lem second_id 2 credit_entry today 2000 credit_entry-IsValidEntry

-- the type with U+0130 in place of its i
dotted-type : parse_entry_type (99 ∷ 114 ∷ 101 ∷ 100 ∷ 196 ∷ 176 ∷ 116 ∷ []) ≡ ok credit
unfolding parse_entry_type
dotted-type = refl
