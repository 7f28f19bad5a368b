-- ===== src/Ledger/Service/Replay.antt =====
-- A request that is repeated with its key is answered from the stored response.
use keyrus.Base.{
  ℕ, ◌≡◌, ◌⊎◌, refl, sym, ◌∙◌, ap, subst, true, false, Option, none, some, List, [], ◌∷◌, arith,
  find, ok, err, inl, inr, Result-cases, Option-cases, Bool-cases,
}
use keyrus.Base.Text.{Text, text_eq, text_eq_refl, text_eq_sound, lower}
use keyrus.Ledger.Errors.{Fallible, idempotency_conflict}
use keyrus.Ledger.Identifier.{EntryId, parse_id}
use keyrus.Ledger.Tables.{Completion, IdempotencyRow, Tables, Tx, lift, ◌>>=◌, ◌>>◌, bind-eq-ok}
use keyrus.Ledger.Store.{
  Attempt, attempt_row, same_scope, complete_rows, claim_idempotency, complete_idempotency,
}
use keyrus.Ledger.Wire.{Platform, Draws, EntryResult, RequestBody}
use keyrus.Ledger.Service.{
  read_response, replay, perform, attempt_once, execute, attempt_of, execute_idempotent,
}
use keyrus.Ledger.Service.Keeps.{KeepsOk}

complete_idempotency-eq-ok :
    (a e : EntryId) (response : Text) (at : ℕ) (t u : Tables)
    → complete_idempotency a e response at t ≡ ok (tt, u)
    → u.attempts
      ≡ complete_rows
          (lower a)
          (record { entry_id = lower e; response_payload = response; completed_at = at })
          t.attempts
unfolding complete_idempotency
complete_idempotency-eq-ok a e response at t u h = ground arith

-- The tables answer the scope of an attempt with a result.
abbrev Answers : Platform → Attempt → EntryResult → Tables → Type 0
Answers p a r t =
    (row : IdempotencyRow) × (find (same_scope a) t.attempts ≡ some row)
    × (replay p a.request_hash row ≡ ok r)

-- An action that leaves the attempts alone.
abbrev pub KeepsAttempts : {A : Type 0} → Tx A → Type 0
KeepsAttempts m = (rows : List IdempotencyRow) → KeepsOk (λ t. t.attempts ≡ rows) m

module _ (p : Platform) where
  read_response_lem :
      (payload : Text) (r : EntryResult)
      → p.unmarshal_result payload ≡ some r
      → read_response p payload ≡ ok r
  read_response_lem [] r h = ground (arith, h, p.unmarshal-nil)
  read_response_lem (c ∷ s) r h = rw h

  completed_row : Attempt → Completion → IdempotencyRow
  completed_row a c = record (attempt_row a) { completion = some c }

  find-completed :
      (a : Attempt) (c : Completion) (rows : List IdempotencyRow)
      → find (same_scope a) (complete_rows (lower a.attempt_id) c (attempt_row a ∷ rows))
        ≡ some (completed_row a c)
  unfolding completed_row
  find-completed a c rows = ground (
    arith,
    text_eq_refl (lower a.attempt_id),
    text_eq_refl (lower a.merchant_id),
    text_eq_refl a.operation,
    text_eq_refl a.key_hash,
  )

  replay-completed :
      (a : Attempt) (r : EntryResult) (entry : Text) (at : ℕ)
      → replay p a.request_hash (
          completed_row a
            (record { entry_id = entry; response_payload = p.marshal_result r; completed_at = at }))
        ≡ ok r
  unfolding completed_row replay
  replay-completed a r entry at =
      rw (text_eq_refl a.request_hash)
        (read_response_lem (p.stored (p.marshal_result r)) r (p.unmarshal-stored r))

  perform-Answers :
      (d : Draws) (a : Attempt) (action : Tx EntryResult) (t u : Tables) (r : EntryResult)
      (rows : List IdempotencyRow)
      → KeepsAttempts action
      → t.attempts ≡ attempt_row a ∷ rows
      → perform p d a.attempt_id action t ≡ ok (r, u)
      → Answers p a r u
  unfolding perform
  perform-Answers d a action t u r rows keeps claimed h =
      let rest = λ (result : EntryResult) (entry : EntryId).
        complete_idempotency a.attempt_id entry (p.marshal_result result) d.completed_at
        >> λ (s : Tables). ok (result, s) in
      let (result, s, h1, k1) =
        bind-eq-ok action (λ result. lift (parse_id result.id) >>= rest result) t h in
      let (entry, v, h2, k2) = bind-eq-ok (lift (parse_id result.id)) (rest result) s k1 in
      let (_, w, h3, k3) =
        bind-eq-ok
          (complete_idempotency a.attempt_id entry (p.marshal_result result) d.completed_at)
          (λ _ s. ok (result, s)) v k2 in
      let done : Completion = record {
        entry_id = lower entry;
        response_payload = p.marshal_result result;
        completed_at = d.completed_at;
      } in
      let same : v ≡ s = lifted (parse_id result.id) h2 in
      let last : w ≡ u = ground (arith, k3) in
      let given : result ≡ r = ground (arith, k3) in
      let before : v.attempts ≡ attempt_row a ∷ rows =
        ap (λ (x : Tables). x.attempts) same ∙ keeps (attempt_row a ∷ rows) t s result h1 claimed in
      let after : u.attempts ≡ complete_rows (lower a.attempt_id) done (attempt_row a ∷ rows) =
        ap (λ (x : Tables). x.attempts) (sym last)
        ∙ complete_idempotency-eq-ok a.attempt_id entry (p.marshal_result result) d.completed_at v w
            h3
        ∙ ap (complete_rows (lower a.attempt_id) done) before in
      (
        completed_row a done,
        ap (find (same_scope a)) after ∙ find-completed a done rows,
        replay-completed a result (lower entry) d.completed_at ∙ ap ok given,
      )
    where
      lifted : {A : Type 0} (x : Fallible A) {a : A} {s v : Tables} → lift x s ≡ ok (a, v) → v ≡ s
      lifted (ok a) e = ground (arith, e)
      lifted (err x) e = cc

  claim-eq-ok :
      (a : Attempt) (t s : Tables) (found : Option IdempotencyRow)
      → claim_idempotency a t ≡ ok (found, s)
      → ((row : IdempotencyRow) × (found ≡ some row)
          × (find (same_scope a) t.attempts ≡ some row)
          × (s ≡ t))
        ⊎ ((found ≡ none) × (s ≡ record t { attempts = attempt_row a ∷ t.attempts }))
  unfolding claim_idempotency
  claim-eq-ok a t s found h = elim (Option-cases (find (same_scope a) t.attempts)) [
    | inl new ↦ inr (ground (arith, new), ground (arith, new))
    | inr (row, old) ↦ inl (row, ground (arith, old), old, ground (arith, old))
  ]

  -- A scope that has a row is answered from it, and nothing changes.
  attempt_once_old :
      (d : Draws) (a : Attempt) (action : Tx EntryResult) (t : Tables) (row : IdempotencyRow)
      → find (same_scope a) t.attempts ≡ some row
      → attempt_once p d a action t ≡ lift (replay p a.request_hash row) t
  unfolding attempt_once claim_idempotency
  attempt_once_old d a action t row h = rw (h, claim_idempotency, ◌>>=◌)

  attempt_once-Answers :
      (d : Draws) (a : Attempt) (action : Tx EntryResult) (t u : Tables) (r : EntryResult)
      → KeepsAttempts action
      → attempt_once p d a action t ≡ ok (r, u)
      → Answers p a r u
  unfolding attempt_once
  attempt_once-Answers d a action t u r keeps h =
      let branch = λ (found : Option IdempotencyRow).
        let b : Tx EntryResult = elim found [
          | some row ↦ lift (replay p a.request_hash row)
          | none ↦ perform p d a.attempt_id action
        ] in
        b in
      let (found, s, h1, k) = bind-eq-ok (claim_idempotency a) branch t h in
      elim (claim-eq-ok a t s found h1) [
        | inl (row, e, old, same) ↦
            let k' : lift (replay p a.request_hash row) s ≡ ok (r, u) =
              subst (λ x. branch x s ≡ ok (r, u)) e k in
            let (u_s, given) = lifted (replay p a.request_hash row) k' in
            (row, ap (λ (x : Tables). find (same_scope a) x.attempts) (u_s ∙ same) ∙ old, given)
        | inr (e, claimed) ↦
            perform-Answers d a action s u r t.attempts keeps
              (ap (λ (x : Tables). x.attempts) claimed) (subst (λ x. branch x s ≡ ok (r, u)) e k)
      ]
    where
      lifted : (x : Fallible EntryResult) {s : Tables} → lift x s ≡ ok (r, u) → (u ≡ s) × (x ≡ ok r)
      lifted (ok x) e = (ground (arith, e), ground (arith, e))
      lifted (err x) e = cc

  execute-eq-ok :
      {A : Type 0} (d : Draws) (callback : Tx A) (t u : Tables) (a : A)
      → execute p d callback t ≡ (ok a, u)
      → callback t ≡ ok (a, u)
  unfolding execute
  execute-eq-ok d callback t u a h = elim (Result-cases (callback t)) [
    | inl (e, failed) ↦ ground (arith, failed, h)
    | inr ((b, v), done) ↦ ground (arith, done, h)
  ]

  execute_done :
      {A : Type 0} (d : Draws) (callback : Tx A) {t : Tables} (u : Tables) (a : A)
      → callback t ≡ ok (a, u)
      → d.commits ≡ true
      → execute p d callback t ≡ (ok a, u)
  unfolding execute
  execute_done d callback u a h c = rw (h, execute, c)

  -- Once a request has returned a result, the same request with the same key returns that result
  -- and changes nothing, whatever its action would do.
  pub execute_idempotent_again :
      (d d' : Draws) (merchant a' : EntryId) (operation key : Text) (body : RequestBody)
      (action action' : Tx EntryResult) (t u : Tables) (r : EntryResult)
      → KeepsAttempts action
      → d'.attempt_id ≡ ok a'
      → d'.commits ≡ true
      → execute_idempotent p d merchant operation key body action t ≡ (ok r, u)
      → execute_idempotent p d' merchant operation key body action' u ≡ (ok r, u)
  unfolding execute_idempotent execute
  execute_idempotent_again d d' merchant a' operation key body action action' t u r keeps drawn
        commits h =
      elim (Result-cases d.attempt_id) [
        | inl (e, q) ↦ ground (arith, q, h)
        | inr (a, q) ↦
            let old = attempt_of p merchant operation key body a in
            let ran : execute p d (attempt_once p d old action) t ≡ (ok r, u) =
              ground (arith, q, h) in
            let (row, found, answer) =
              attempt_once-Answers d old action t u r keeps
                (execute-eq-ok d (attempt_once p d old action) t u r ran) in
            let again : attempt_once p d' (attempt_of p merchant operation key body a') action' u
                ≡ ok (r, u) =
              attempt_once_old d' (attempt_of p merchant operation key body a') action' u row found
              ∙ ap (λ (x : Fallible EntryResult). lift x u) answer in
            rw (drawn, execute_idempotent)
              (execute_done d'
                (attempt_once p d' (attempt_of p merchant operation key body a') action') u r again
                commits)
      ]

  replay-conflict :
      (row : IdempotencyRow) (h h' : Text) (r : EntryResult)
      → replay p h row ≡ ok r
      → text_eq h h' ≡ false
      → replay p h' row ≡ err idempotency_conflict
  unfolding replay
  replay-conflict row h h' r e n = elim (Bool-cases (text_eq row.request_hash h)) [
    | inl same ↦
        let other : text_eq row.request_hash h' ≡ false =
          ap (λ x. text_eq x h') (text_eq_sound row.request_hash h same) ∙ n in
        rw other refl
    | inr differs ↦ ground (arith, differs, e)
  ]

  -- Once a request has returned a result, another request with the same key is a conflict, and
  -- changes nothing.
  pub execute_idempotent_conflict :
      (d d' : Draws) (merchant a' : EntryId) (operation key : Text) (body body' : RequestBody)
      (action action' : Tx EntryResult) (t u : Tables) (r : EntryResult)
      → KeepsAttempts action
      → d'.attempt_id ≡ ok a'
      → text_eq (p.sha256 (p.marshal_request body)) (p.sha256 (p.marshal_request body')) ≡ false
      → execute_idempotent p d merchant operation key body action t ≡ (ok r, u)
      → execute_idempotent p d' merchant operation key body' action' u
        ≡ (err idempotency_conflict, u)
  unfolding execute_idempotent execute
  execute_idempotent_conflict d d' merchant a' operation key body body' action action' t u r keeps
        drawn differ h =
      elim (Result-cases d.attempt_id) [
        | inl (e, q) ↦ ground (arith, q, h)
        | inr (a, q) ↦
            let old = attempt_of p merchant operation key body a in
            let new = attempt_of p merchant operation key body' a' in
            let ran : execute p d (attempt_once p d old action) t ≡ (ok r, u) =
              ground (arith, q, h) in
            let (row, found, answer) =
              attempt_once-Answers d old action t u r keeps
                (execute-eq-ok d (attempt_once p d old action) t u r ran) in
            let refused : attempt_once p d' new action' u ≡ err idempotency_conflict =
              attempt_once_old d' new action' u row found
              ∙ ap (λ (x : Fallible EntryResult). lift x u)
                  (replay-conflict row old.request_hash new.request_hash r answer differ) in
            rw (drawn, execute_idempotent) (rw (refused, execute) refl)
      ]
