-- ===== src/Ledger/Service/Again.antt =====
-- A call that is repeated with its idempotency key: the same answer, or a conflict.
use keyrus.Base.{ℕ, ◌≡◌, ◌∙◌, ap, true, false, arith, ok, err, inl, inr, Result-cases}
use keyrus.Base.Text.{Text, text_eq}
use keyrus.Ledger.Errors.{Fallible, idempotency_conflict}
use keyrus.Ledger.Identifier.{EntryId, parse_id}
use keyrus.Ledger.Tables.{Tables}
use keyrus.Ledger.Wire.{Platform, Draws, EntryResult}
use keyrus.Ledger.Service.{execute_idempotent}
use keyrus.Ledger.Wire.{
  CreateEntryInput, ReverseEntryInput, operation_create, operation_reverse, reverse_body,
}
use keyrus.Ledger.Service.{
  parse_merchant, check_key, body_of_create, create, reverse, create_entry, reverse_entry,
}
use keyrus.Ledger.Service.Steps.{Appends, create-eq-ok, reverse-eq-ok}
use keyrus.Ledger.Entry.{Entry}
use keyrus.Ledger.Service.Replay.{
  KeepsAttempts, execute_idempotent_again, execute_idempotent_conflict,
}

append_entry-KeepsAttempts :
    (p : Platform) (d : Draws) (m : EntryId) (make : ℕ → EntryId → Fallible Entry)
    (traceparent : Text) (t u : Tables) (r : EntryResult)
    → Appends p d m make traceparent t u r
    → u.attempts ≡ t.attempts
append_entry-KeepsAttempts p d m make traceparent t u r a =
    ap (λ (x : Tables). x.attempts) a.records.changed

create-KeepsAttempts :
    (p : Platform) (d : Draws) (m : EntryId) (input : CreateEntryInput)
    → KeepsAttempts (create p d m input)
create-KeepsAttempts p d m input rows t u r h e =
    let (f, _, a) = create-eq-ok p d m input t u r h in
    append_entry-KeepsAttempts p d m _ input.traceparent t u r a ∙ e

reverse-KeepsAttempts :
    (p : Platform) (d : Draws) (m o : EntryId) (input : ReverseEntryInput)
    → KeepsAttempts (reverse p d m o input)
reverse-KeepsAttempts p d m o input rows t u r h e =
    let (_, _, _, _, _, _, _, a) = reverse-eq-ok p d m o input t u r h in
    append_entry-KeepsAttempts p d m _ input.traceparent t u r a ∙ e

-- A `CreateEntry` that has returned an entry returns that same entry when it is called again with
-- the same input on the tables that it left, at any time, and changes no table, where the second call
-- draws an attempt identifier and its commit is accepted.
pub create_entry_again :
    (p : Platform) (d d' : Draws) (a' : EntryId) (input : CreateEntryInput) (t u : Tables)
    (r : EntryResult)
    → d'.attempt_id ≡ ok a'
    → d'.commits ≡ true
    → create_entry p d input t ≡ (ok r, u)
    → create_entry p d' input u ≡ (ok r, u)
unfolding create_entry
create_entry_again p d d' a' input t u r drawn commits h =
    elim (Result-cases (parse_merchant input.merchant_id)) [
      | inl (e, q) ↦ ground (arith, q, h)
      | inr (m, q) ↦ elim (Result-cases (check_key p input.idempotency_key input.traceparent)) [
        | inl (e, k) ↦ ground (arith, q, k, h)
        | inr (_, k) ↦
            let ran : execute_idempotent p d m operation_create input.idempotency_key
                  (body_of_create p input) (create p d m input) t
                ≡ (ok r, u) =
              rw (q, create_entry, k) at h in
            rw (q, create_entry, k)
              (execute_idempotent_again p d d' m a' operation_create input.idempotency_key
                (body_of_create p input) (create p d m input) (create p d' m input) t u r
                (create-KeepsAttempts p d m input) drawn commits ran)
      ]
    ]

-- A `ReverseEntry` that has returned a reversal returns that same reversal when it is called again
-- with the same input on the tables that it left, at any time, and changes no table, where the second
-- call draws an attempt identifier and its commit is accepted.
pub reverse_entry_again :
    (p : Platform) (d d' : Draws) (a' : EntryId) (input : ReverseEntryInput) (t u : Tables)
    (r : EntryResult)
    → d'.attempt_id ≡ ok a'
    → d'.commits ≡ true
    → reverse_entry p d input t ≡ (ok r, u)
    → reverse_entry p d' input u ≡ (ok r, u)
unfolding reverse_entry
reverse_entry_again p d d' a' input t u r drawn commits h =
    elim (Result-cases (parse_merchant input.merchant_id)) [
      | inl (e, q) ↦ ground (arith, q, h)
      | inr (m, q) ↦ elim (Result-cases (parse_id input.original_entry_id)) [
        | inl (e, l) ↦ ground (arith, q, l, h)
        | inr (o, l) ↦ elim (Result-cases (check_key p input.idempotency_key input.traceparent)) [
          | inl (e, k) ↦ ground (arith, q, l, k, h)
          | inr (_, k) ↦
              let ran : execute_idempotent p d m operation_reverse input.idempotency_key
                    (reverse_body input.original_entry_id) (reverse p d m o input) t
                  ≡ (ok r, u) =
                rw (q, reverse_entry, l, k) at h in
              rw (q, reverse_entry, l, k)
                (execute_idempotent_again p d d' m a' operation_reverse input.idempotency_key
                  (reverse_body input.original_entry_id) (reverse p d m o input)
                  (reverse p d' m o input) t u r (reverse-KeepsAttempts p d m o input) drawn commits
                  ran)
        ]
      ]
    ]

-- When a `CreateEntry` has returned an entry, a `CreateEntry` of the same merchant, key and trace
-- parent that draws an attempt identifier and whose hashed content has another hash is refused as a
-- conflict, and changes no table.
pub create_entry_conflict :
    (p : Platform) (d d' : Draws) (a' : EntryId) (input input' : CreateEntryInput) (t u : Tables)
    (r : EntryResult)
    → d'.attempt_id ≡ ok a'
    → input'.merchant_id ≡ input.merchant_id
    → input'.idempotency_key ≡ input.idempotency_key
    → input'.traceparent ≡ input.traceparent
    → text_eq
        (p.sha256 (p.marshal_request (body_of_create p input)))
        (p.sha256 (p.marshal_request (body_of_create p input')))
      ≡ false
    → create_entry p d input t ≡ (ok r, u)
    → create_entry p d' input' u ≡ (err idempotency_conflict, u)
unfolding create_entry
create_entry_conflict p d d' a' input input' t u r drawn merchant key trace differ h =
    elim (Result-cases (parse_merchant input.merchant_id)) [
      | inl (e, q) ↦ ground (arith, q, h)
      | inr (m, q) ↦ elim (Result-cases (check_key p input.idempotency_key input.traceparent)) [
        | inl (e, k) ↦ ground (arith, q, k, h)
        | inr (_, k) ↦
            let ran : execute_idempotent p d m operation_create input.idempotency_key
                  (body_of_create p input) (create p d m input) t
                ≡ (ok r, u) =
              rw (q, create_entry, k) at h in
            let q' : parse_merchant input'.merchant_id ≡ ok m = ap parse_merchant merchant ∙ q in
            let k' : check_key p input'.idempotency_key input'.traceparent ≡ ok tt =
              ap (λ x. check_key p x input'.traceparent) key
              ∙ ap (check_key p input.idempotency_key) trace
              ∙ k in
            rw (q', create_entry, k', key)
              (execute_idempotent_conflict p d d' m a' operation_create input.idempotency_key
                (body_of_create p input) (body_of_create p input') (create p d m input)
                (create p d' m input') t u r (create-KeepsAttempts p d m input) drawn differ ran)
      ]
    ]
