-- ===== src/Ledger/Tests/Platform.antt =====
-- The libraries of the Ledger as concrete functions: a text is written with its length before it.
use keyrus.Base.{
  ℕ, zero, suc, ◌≡◌, refl, ap, true, Option, none, some, [], ◌∷◌, ◌++◌, length, take, drop, ok,
}
use keyrus.Base.Int.{ℤ, pos, negsuc}
use keyrus.Base.Text.{Text, codes}
use keyrus.Base.Date.{Date}
use keyrus.Ledger.Calendar.{Location}
use keyrus.Ledger.Tables.{Tables}
use keyrus.Ledger.Wire.{
  Platform, EntryResult, EventWire, RequestBody, create_body, reverse_body, Draws, CreateEntryInput,
  ReverseEntryInput,
}

take-append : (s t : Text) → take (length s) (s ++ t) ≡ s
take-append [] t = refl
take-append (c ∷ s) t = ap (λ x. c ∷ x) (take-append s t)

drop-append : (s t : Text) → drop (length s) (s ++ t) ≡ t
drop-append [] t = refl
drop-append (c ∷ s) t = drop-append s t

abbrev write : Text → Text → Text
write s rest = length s ∷ (s ++ rest)

abbrev write_int : ℤ → Text → Text
write_int (pos n) rest = 0 ∷ n ∷ rest
write_int (negsuc n) rest = 1 ∷ n ∷ rest

module _ {B : Type 0} where
  unfoldable pub read : Text → (Text → Text → Option B) → Option B
  read [] k = none
  read (n ∷ s) k = k (take n s) (drop n s)

  read-write : (s rest : Text) (k : Text → Text → Option B) → read (write s rest) k ≡ k s rest
  unfolding read
  read-write s rest k = rw (take-append s rest, drop-append s rest) refl

  unfoldable pub read_number : Text → (ℕ → Text → Option B) → Option B
  read_number [] k = none
  read_number (n ∷ s) k = k n s

  read_number-cons : (n : ℕ) (s : Text) (k : ℕ → Text → Option B) → read_number (n ∷ s) k ≡ k n s
  unfolding read_number
  read_number-cons n s k = refl

  unfoldable pub read_int : Text → (ℤ → Text → Option B) → Option B
  read_int (zero ∷ n ∷ s) k = k (pos n) s
  read_int (suc zero ∷ n ∷ s) k = k (negsuc n) s
  read_int _ k = none

  read_int-write :
      (a : ℤ) (rest : Text) (k : ℤ → Text → Option B) → read_int (write_int a rest) k ≡ k a rest
  unfolding read_int
  read_int-write (pos n) rest k = refl
  read_int-write (negsuc n) rest k = refl

abbrev print_result : EntryResult → Text
print_result r = write r.id (
    write r.merchant_id (
      r.position
      ∷ write r.entry_type (
          write_int r.amount_minor (
            write r.currency (
              write r.business_date (
                write r.description (
                  r.confirmed_at
                  ∷ write r.original_entry_id (write r.reversal_entry_id (write r.state [])))))))))

abbrev parse_result : Text → Option EntryResult
parse_result s = read s λ id s. read s λ merchant_id s. read_number s λ position s.
    read s λ entry_type s. read_int s λ amount_minor s. read s λ currency s.
      read s λ business_date s. read s λ description s. read_number s λ confirmed_at s.
        read s λ original_entry_id s. read s λ reversal_entry_id s. read s λ state s. some (record {
          id = id;
          merchant_id = merchant_id;
          position = position;
          entry_type = entry_type;
          amount_minor = amount_minor;
          currency = currency;
          business_date = business_date;
          description = description;
          confirmed_at = confirmed_at;
          original_entry_id = original_entry_id;
          reversal_entry_id = reversal_entry_id;
          state = state;
        })

pub parse-print : (r : EntryResult) → parse_result (print_result r) ≡ some r
parse-print r = simp (read-write, read_number-cons, read_int-write)

pub parse-nil : parse_result [] ≡ none
unfolding read
parse-nil = refl

abbrev write_option : Option Text → Text → Text
write_option none rest = 0 ∷ rest
write_option (some s) rest = 1 ∷ write s rest

abbrev print_request : RequestBody → Text
print_request (create_body t a c d e) =
    write t (write_int a (write c (write_option d (write e []))))
print_request (reverse_body o) = write o []

abbrev pub today : Date
today = record { year = 2026; month = 3; day = 10 }

abbrev everywhere : Text → Option Location
everywhere zone = some (λ now. today)

abbrev pub platform : Platform
platform = record {
  sha256 = λ s. s;
  marshal_request = print_request;
  marshal_result = print_result;
  unmarshal_result = parse_result;
  marshal_event = λ (e : EventWire). e.event_id;
  stored = λ s. s;
  load_location = everywhere;
  unmarshal-stored = parse-print;
  unmarshal-nil = parse-nil;
}

abbrev pub merchant : Text
merchant = codes "0195a1b2-c3d4-7e5f-8a9b-0c1d2e3f4a5b"

abbrev pub first_id : Text
first_id = codes "0195a1b2-c3d4-7e5f-8a9b-000000000001"

abbrev pub second_id : Text
second_id = codes "0195a1b2-c3d4-7e5f-8a9b-000000000002"

abbrev pub traceparent : Text
traceparent = codes "00-4bf92f3577b34da6a3ce929d0e0e4736-00f067aa0ba902b7-01"

abbrev pub draws : Draws
draws = record {
  attempt_id = ok first_id;
  confirmed_at = 1000;
  entry_id = ok first_id;
  event_id = ok first_id;
  completed_at = 1001;
  commits = true;
}

abbrev pub later_draws : Draws
later_draws = record {
  attempt_id = ok second_id;
  confirmed_at = 2000;
  entry_id = ok second_id;
  event_id = ok second_id;
  completed_at = 2001;
  commits = true;
}

abbrev pub sale : CreateEntryInput
sale = record {
  merchant_id = merchant;
  idempotency_key = codes "key-1";
  entry_type = codes "credit";
  amount_minor = pos 1250;
  currency = codes "BRL";
  business_date = none;
  description = [];
  time_zone = [];
  traceparent = traceparent;
}

abbrev pub refund : ReverseEntryInput
refund = record {
  merchant_id = merchant;
  original_entry_id = first_id;
  idempotency_key = codes "key-2";
  time_zone = [];
  traceparent = traceparent;
}

abbrev pub no_rows : Tables
no_rows = record { positions = []; entries = []; attempts = []; outbox = [] }
