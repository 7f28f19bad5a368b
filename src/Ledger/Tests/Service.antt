-- ===== src/Ledger/Tests/Service.antt =====
-- Runs of the use cases of the Ledger.
use keyrus.Base.{length, ℕ, ◌≡◌, refl, none, some, [], ok, err}
use keyrus.Base.Int.{pos}
use keyrus.Base.Text.{lower, codes}
use keyrus.Ledger.Errors.{idempotency_conflict}
use keyrus.Ledger.Tables.{Tables}
use keyrus.Ledger.Store.{last_position}
use keyrus.Ledger.Wire.{EntryResult, CreateEntryInput}
use keyrus.Ledger.Service.{parse_merchant, create_entry, reverse_entry}
use keyrus.Ledger.Reader.{source_position_of}
use keyrus.Ledger.Reader.Watermark.{source_position_counts}
use keyrus.Ledger.Service.Invariant.{
  positions_of, IsConsistent, create_entry-IsConsistent, reverse_entry-IsConsistent,
}
use keyrus.Ledger.Service.Settled.{IsSettled, create_entry-IsSettled, reverse_entry-IsSettled}
use keyrus.Ledger.Service.Again.{create_entry_again, create_entry_conflict, reverse_entry_again}
use keyrus.Ledger.Tests.Platform.{
  platform, merchant, first_id, second_id, draws, later_draws, sale, refund, no_rows,
}

no_rows-IsConsistent : IsConsistent no_rows
unfolding last_position
no_rows-IsConsistent = record { contiguous = λ m. refl; announced = refl }

abbrev sold : Tables
sold = (create_entry platform draws sale no_rows).1

abbrev refunded : Tables
refunded = (reverse_entry platform later_draws refund sold).1

abbrev sale_result : EntryResult
sale_result = record {
  id = first_id;
  merchant_id = merchant;
  position = 1;
  entry_type = codes "credit";
  amount_minor = pos 1250;
  currency = codes "BRL";
  business_date = codes "2026-03-10";
  description = [];
  confirmed_at = 1000;
  original_entry_id = [];
  reversal_entry_id = [];
  state = codes "confirmed";
}

abbrev refund_result : EntryResult
refund_result = record sale_result {
  id = second_id;
  position = 2;
  entry_type = codes "debit";
  confirmed_at = 2000;
  original_entry_id = first_id;
}

sale-run : create_entry platform draws sale no_rows ≡ (ok sale_result, sold)
unfolding create_entry keyrus.Ledger.Identifier.parse_id keyrus.Base.Hex.decode
    keyrus.Base.Date.format keyrus.Base.Decimal.print_nat keyrus.Base.Decimal.pad2
sale-run = refl

refund-run : reverse_entry platform later_draws refund sold ≡ (ok refund_result, refunded)
unfolding create_entry reverse_entry keyrus.Ledger.Identifier.parse_id keyrus.Base.Hex.decode
    keyrus.Ledger.Calendar.parse_business_date keyrus.Base.Date.parse keyrus.Base.Date.format
    keyrus.Base.Decimal.print_nat keyrus.Base.Decimal.pad2
refund-run = refl

abbrev other_sale : CreateEntryInput
other_sale = record sale { amount_minor = pos 1300 }

sold-IsConsistent : IsConsistent sold
sold-IsConsistent = create_entry-IsConsistent platform draws sale no_rows no_rows-IsConsistent

sold-IsSettled : IsSettled sold.entries
sold-IsSettled = create_entry-IsSettled platform draws sale no_rows tt

create-IsConsistent_example : IsConsistent (create_entry platform draws sale no_rows).1
create-IsConsistent_example =
    create_entry-IsConsistent platform draws sale no_rows no_rows-IsConsistent

reverse-IsConsistent_example : IsConsistent refunded
reverse-IsConsistent_example =
    reverse_entry-IsConsistent platform later_draws refund sold sold-IsConsistent

create-IsSettled_example : IsSettled sold.entries
create-IsSettled_example = create_entry-IsSettled platform draws sale no_rows tt

reverse-IsSettled_example : IsSettled refunded.entries
reverse-IsSettled_example = reverse_entry-IsSettled platform later_draws refund sold sold-IsSettled

create_again_example : create_entry platform later_draws sale sold ≡ (ok sale_result, sold)
create_again_example =
    create_entry_again platform draws later_draws second_id sale no_rows sold sale_result refl refl
      sale-run

create_conflict_example :
    create_entry platform later_draws other_sale sold ≡ (err idempotency_conflict, sold)
create_conflict_example =
    create_entry_conflict platform draws later_draws second_id sale other_sale no_rows sold
      sale_result refl refl refl refl refl sale-run

reverse_again_example : reverse_entry platform draws refund refunded ≡ (ok refund_result, refunded)
reverse_again_example =
    reverse_entry_again platform later_draws draws first_id refund sold refunded refund_result refl
      refl refund-run

source_position_run : source_position_of merchant sold ≡ ok 1
unfolding source_position_of create_entry keyrus.Ledger.Identifier.parse_id keyrus.Base.Hex.decode
source_position_run = refl

source_position_example : length (positions_of (lower merchant) sold.entries) ≡ 1
unfolding parse_merchant keyrus.Ledger.Identifier.parse_id keyrus.Base.Hex.decode
source_position_example =
    source_position_counts merchant merchant 1 sold sold-IsConsistent refl source_position_run
