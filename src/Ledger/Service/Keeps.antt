-- ===== src/Ledger/Service/Keeps.antt =====
-- What the transaction of an idempotent request keeps.
use keyrus.Base.{
  ℕ, ◌≡◌, subst, sym, Bool, true, false, Option, none, some, List, arith, ok, err, if◌then◌else◌,
  inl, inr, Result-cases,
}
use keyrus.Base.Text.{Text}
use keyrus.Ledger.Errors.{Fallible, database}
use keyrus.Ledger.Identifier.{EntryId, parse_id}
use keyrus.Ledger.Tables.{IdempotencyRow, Tables, Tx, lift, ◌>>=◌, ◌>>◌, bind-eq-ok}
use keyrus.Ledger.Store.{Attempt, claim_idempotency, complete_idempotency}
use keyrus.Ledger.Wire.{Platform, Draws, EntryResult, RequestBody}
use keyrus.Ledger.Service.{replay, perform, attempt_once, execute, execute_idempotent}

complete-eq-ok :
    (a e : EntryId) (response : Text) (at : ℕ) (t u : Tables)
    → complete_idempotency a e response at t ≡ ok (tt, u)
    → (rows : List IdempotencyRow) × (u ≡ record t { attempts = rows })
unfolding complete_idempotency
complete-eq-ok a e response at t u h = (u.attempts, ground arith)

-- `P` says nothing of the attempts.
abbrev pub IgnoresAttempts {ℓ} : (Tables → Type ℓ) → Type ℓ
IgnoresAttempts P =
    (t : Tables) (rows : List IdempotencyRow) → P t → P (record t { attempts = rows })

-- The action keeps `P` where it returns.
abbrev pub KeepsOk {ℓ} : {A : Type 0} → (Tables → Type ℓ) → Tx A → Type ℓ
KeepsOk {A} P m = (t u : Tables) (a : A) → m t ≡ ok (a, u) → P t → P u

module _ {ℓ} (p : Platform) (P : Tables → Type ℓ) (free : IgnoresAttempts P) where
  perform-KeepsOk :
      (d : Draws) (attempt : EntryId) (action : Tx EntryResult)
      → KeepsOk P action
      → KeepsOk P (perform p d attempt action)
  unfolding perform
  perform-KeepsOk d attempt action keeps t u r h pt =
      let rest = λ (result : EntryResult) (entry : EntryId).
        complete_idempotency attempt entry (p.marshal_result result) d.completed_at
        >> λ (s : Tables). ok (result, s) in
      let (result, s, h1, k1) =
        bind-eq-ok action (λ result. lift (parse_id result.id) >>= rest result) t h in
      let (entry, v, h2, k2) = bind-eq-ok (lift (parse_id result.id)) (rest result) s k1 in
      let (_, w, h3, k3) =
        bind-eq-ok (complete_idempotency attempt entry (p.marshal_result result) d.completed_at)
          (λ _ s. ok (result, s)) v k2 in
      let (rows, changed) =
        complete-eq-ok attempt entry (p.marshal_result result) d.completed_at v w h3 in
      let same : v ≡ s = lifted (parse_id result.id) h2 in
      let last : w ≡ u = ground (arith, k3) in
      subst P last
        (subst P (sym changed) (free v rows (subst P (sym same) (keeps t s result h1 pt))))
    where
      lifted : {A : Type 0} (x : Fallible A) {a : A} {s v : Tables} → lift x s ≡ ok (a, v) → v ≡ s
      lifted (ok a) e = ground (arith, e)
      lifted (err x) e = cc

  claim-keeps :
      (a : Attempt) (t s : Tables) (found : Option IdempotencyRow)
      → claim_idempotency a t ≡ ok (found, s)
      → P t
      → P s
  unfolding claim_idempotency
  claim-keeps a t s found h pt =
      let (rows, changed) = rows_of in subst P (sym changed) (free t rows pt)
    where
      rows_of : (rows : List IdempotencyRow) × (s ≡ record t { attempts = rows })
      rows_of = (s.attempts, ground arith)

  attempt_once-KeepsOk :
      (d : Draws) (a : Attempt) (action : Tx EntryResult)
      → KeepsOk P action
      → KeepsOk P (attempt_once p d a action)
  unfolding attempt_once
  attempt_once-KeepsOk d a action keeps t u r h pt =
      let rest = λ (found : Option IdempotencyRow).
        let branch : Tx EntryResult = elim found [
          | some row ↦ lift (replay p a.request_hash row)
          | none ↦ perform p d a.attempt_id action
        ] in
        branch in
      let (found, s, h1, k) = bind-eq-ok (claim_idempotency a) rest t h in
      after found s (claim-keeps a t s found h1 pt) k
    where
      replayed : (x : Fallible EntryResult) {s : Tables} → lift x s ≡ ok (r, u) → u ≡ s
      replayed (ok x) e = ground (arith, e)
      replayed (err x) e = cc

      after :
          (found : Option IdempotencyRow) (s : Tables)
          → P s
          → (let branch : Tx EntryResult = elim found [
            | some row ↦ lift (replay p a.request_hash row)
            | none ↦ perform p d a.attempt_id action
          ] in
                branch)
              s
            ≡ ok (r, u)
          → P u
      after none s ps k = perform-KeepsOk d a.attempt_id action keeps s u r k ps
      after (some row) s ps k = subst P (sym (replayed (replay p a.request_hash row) k)) ps

  execute-keeps :
      {A : Type 0} (d : Draws) (callback : Tx A) (t : Tables)
      → KeepsOk P callback
      → P t
      → P (execute p d callback t).1
  unfolding execute
  execute-keeps {A} d callback t keeps pt = elim (Result-cases (callback t)) [
    | inl (e, failed) ↦ rw (failed, execute) pt
    | inr ((a, u), done) ↦ rw (done, execute) (committed d.commits a u (keeps t u a done pt))
  ]
    where
      committed :
          (c : Bool) (a : A) (u : Tables)
          → P u
          → P (if◌then◌else◌ {A = Fallible A × Tables} c (ok a, u) (err database, t)).1
      committed true a u pu = pu
      committed false a u pu = pt

  -- A request keeps `P`, however it ends.
  pub execute_idempotent-keeps :
      (d : Draws) (merchant : EntryId) (operation key : Text) (body : RequestBody)
      (action : Tx EntryResult) (t : Tables)
      → KeepsOk P action
      → P t
      → P (execute_idempotent p d merchant operation key body action t).1
  unfolding execute_idempotent
  execute_idempotent-keeps d merchant operation key body action t keeps pt =
      elim (Result-cases d.attempt_id) [
        | inl (e, failed) ↦ rw (failed, execute_idempotent) pt
        | inr (a, drawn) ↦
            rw (drawn, execute_idempotent)
              (execute-keeps d _ t (attempt_once-KeepsOk d _ action keeps) pt)
      ]
