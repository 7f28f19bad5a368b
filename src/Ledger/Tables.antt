-- ===== src/Ledger/Tables.antt =====
-- The tables of services/ledger/migrations that the use cases write, newest rows first, and the
-- state of one transaction on them.
use keyrus.Base.{ℕ, Option, List, ok, err, ◌≡◌, refl}
use keyrus.Base.Int.{ℤ}
use keyrus.Base.Text.{Text}
use keyrus.Base.Date.{Date}
use keyrus.Ledger.Errors.{Fallible}

-- ledger.merchant_position
pub record PositionRow : Type 0 where
  pub merchant_id : Text
  pub last_position : ℕ
  pub updated_at : ℕ

-- ledger.ledger_entry; an absent description is the empty one, as the queries read it
pub record EntryRow : Type 0 where
  pub id : Text
  pub merchant_id : Text
  pub position : ℕ
  pub entry_type : Text
  pub amount_minor : ℤ
  pub currency : Text
  pub business_date : Date
  pub description : List ℕ
  pub confirmed_at : ℕ
  pub original_entry_id : Option Text

-- what an attempt has stored when it completes: entry_id and response_payload
pub record Completion : Type 0 where
  pub entry_id : Text
  pub response_payload : Text
  pub completed_at : ℕ

-- ledger.idempotency_record; the three columns of a completion are null together
pub record IdempotencyRow : Type 0 where
  pub attempt_id : Text
  pub merchant_id : Text
  pub operation : Text
  pub key_hash : Text
  pub request_hash : Text
  pub completion : Option Completion

-- ledger.outbox_event without the columns of its publication
pub record OutboxRow : Type 0 where
  pub event_id : Text
  pub aggregate_id : Text
  pub merchant_id : Text
  pub merchant_position : ℕ
  pub event_type : Text
  pub payload : Text
  pub occurred_at : ℕ

pub record Tables : Type 0 where
  pub positions : List PositionRow
  pub entries : List EntryRow
  pub attempts : List IdempotencyRow
  pub outbox : List OutboxRow

-- A step of a transaction: it fails, or it returns with the tables as they are after it.
abbrev pub Tx : Type 0 → Type 0
Tx A = Tables → Fallible (A × Tables)

module _ {A : Type 0} where
  abbrev pub pure : A → Tx A
  pure a t = ok (a, t)

  abbrev pub lift : Fallible A → Tx A
  lift (ok a) t = ok (a, t)
  lift (err e) t = err e

  abbrev pub gets : (Tables → Fallible A) → Tx A
  gets f t = lift (f t) t

module _ {A B : Type 0} where
  abbrev then_do : Fallible (A × Tables) → (A → Tx B) → Fallible (B × Tables)
  then_do (ok (a, t)) f = f a t
  then_do (err e) f = err e

infixl 5 ◌>>=◌ ◌>>◌
abbrev pub ◌>>=◌ : {A B : Type 0} → Tx A → (A → Tx B) → Tx B
◌>>=◌ m f t = then_do (m t) f

abbrev pub ◌>>◌ : {B : Type 0} → Tx (Unit {0}) → Tx B → Tx B
m >> k = m >>= λ _. k

-- Inversion of a step that returns.
pub bind-eq-ok :
    {A B : Type 0} (m : Tx A) (f : A → Tx B) (t : Tables) {b : B} {u : Tables}
    → (m >>= f) t ≡ ok (b, u)
    → (a : A) × (s : Tables) × (m t ≡ ok (a, s)) × (f a s ≡ ok (b, u))
bind-eq-ok {A} {B} m f t {b} {u} h = go (m t) refl h
  where
    go :
        (x : Fallible (A × Tables))
        → m t ≡ x
        → then_do x f ≡ ok (b, u)
        → (a : A) × (s : Tables) × (m t ≡ ok (a, s)) × (f a s ≡ ok (b, u))
    go (ok (a, s)) e k = (a, s, e, k)
    go (err x) e k = cc
