-- ===== src/Consolidation/Event/Fingerprint.antt =====
-- `Fingerprint` of services/consolidation/internal/domain/event.go.
use keyrus.Base.{ℕ, ◌/◌, ◌%◌, ◌^◌, Option, none, some, [], ◌∷◌, ◌++◌, length}
use keyrus.Base.Int.{ℤ, pos_part}
use keyrus.Base.Text.{Text}
use keyrus.Base.Date.{format}
use keyrus.Consolidation.Event.{EntryConfirmed, canonical}

-- `binary.Write` of a number of 64 bits, the highest byte first
unfoldable pub write_uint64 : ℕ → Text
write_uint64 n =
    n / 2 ^ 56 % 256
    ∷ n / 2 ^ 48 % 256
    ∷ n / 2 ^ 40 % 256
    ∷ n / 2 ^ 32 % 256
    ∷ n / 2 ^ 24 % 256
    ∷ n / 2 ^ 16 % 256
    ∷ n / 2 ^ 8 % 256
    ∷ n % 256
    ∷ []

-- `writeString`
unfoldable pub write_string : Text → Text
unfolding write_uint64
write_string s = write_uint64 (length s) ++ s

-- `writeInt`; the numbers of a valid event are positive
unfoldable pub write_int : ℤ → Text
unfolding write_uint64
write_int z = write_uint64 (pos_part z)

abbrev text_or_nothing : Option Text → Text
text_or_nothing none = []
text_or_nothing (some s) = s

-- The bytes that are hashed; `print_time` is `UTC().Format(time.RFC3339Nano)`.
unfoldable pub fingerprint_bytes : (ℕ → Text) → EntryConfirmed → Text
unfolding write_string write_int canonical
fingerprint_bytes print_time event =
    let e = canonical event in
    write_string e.event_id
    ++ (write_string e.event_type
        ++ (write_string (print_time e.occurred_at)
            ++ (write_string e.merchant_id
                ++ (write_int e.merchant_position
                    ++ (write_string e.entry_id
                        ++ (write_string e.entry_type
                            ++ (write_int e.amount_minor
                                ++ (write_string e.currency
                                    ++ (write_string (format e.business_date)
                                        ++ (write_string (print_time e.confirmed_at)
                                            ++ (write_string (text_or_nothing e.original_entry_id)
                                                ++ write_string e.traceparent)))))))))))
