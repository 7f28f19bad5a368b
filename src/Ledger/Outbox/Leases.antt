-- ===== src/Ledger/Outbox/Leases.antt =====
-- The leases of services/ledger/internal/outbox/store.go: who may touch an event.
use keyrus.Base.{
  ℕ, zero, suc, ◌≡◌, inl, inr, refl, sym, ◌∙◌, ap, subst, Bool, true, false, not, ◌&&◌, ◌||◌, some,
  List, [], ◌∷◌, arith, any, find, map, take, Bool-cases,
}
use keyrus.Base.Text.{Text, text_eq, text_eq_sound}
use keyrus.Ledger.Outbox.{Event, has_event, is_claimable, put, sorted, selected, claimable}

any-put : (p : Event → Bool) (e : Event) (es : List Event) → any p (put e es) ≡ any p (e ∷ es)
unfolding put
any-put p e [] = refl
any-put p e (x ∷ xs) = ground (arith, any-put p e xs)

any-sorted : (p : Event → Bool) (es : List Event) → any p (sorted es) ≡ any p es
unfolding sorted
any-sorted p [] = refl
any-sorted p (e ∷ es) = any-put p e (sorted es) ∙ ap (λ x. p e || x) (any-sorted p es)

any-take : (p : Event → Bool) (n : ℕ) (es : List Event) → any p (take n es) ≡ true → any p es ≡ true
any-take p zero es h = cc
any-take p (suc n) [] h = cc
any-take p (suc n) (e ∷ es) h = ground (arith, h, any-take p n es)

any-selected :
    (p q : Event → Bool) (es : List Event)
    → any p (selected q es) ≡ true
    → any (λ e. q e && p e) es ≡ true
unfolding selected
any-selected p q [] h = cc
any-selected p q (e ∷ es) h = ground (arith, h, any-selected p q es)

-- no two rows have one identifier: the primary key
abbrev pub IsKeyed : List Event → Type 0
IsKeyed [] = Unit
IsKeyed (e ∷ es) = (any (has_event e.event.event_id) es ≡ false) × IsKeyed es

any-false :
    (p q : Event → Bool) (es : List Event) → any q es ≡ false → any (λ x. p x && q x) es ≡ false
any-false p q [] h = refl
any-false p q (e ∷ es) h = ground (arith, h, any-false p q es)

pub any-find :
    (q : Event → Bool) (id : Text) (es : List Event) (e : Event)
    → IsKeyed es
    → any (λ x. q x && has_event id x) es ≡ true
    → find (has_event id) es ≡ some e
    → q e ≡ true
any-find q id [] e k h f = cc
any-find q id (x ∷ xs) e k h f = elim (Bool-cases (has_event id x)) [
  | inr other ↦ any-find q id xs e k.1 (ground (arith, h, other)) (ground (arith, f, other))
  | inl here ↦
      let alone : any (has_event id) xs ≡ false =
        subst (λ y. any (has_event y) xs ≡ false) (text_eq_sound x.event.event_id id here) k.0 in
      let same : x ≡ e = ground (arith, f, here) in
      let first : q x ≡ true = ground (arith, h, any-false q (has_event id) xs alone) in
      subst (λ y. q y ≡ true) same first
]

-- a change of rows that keeps every event
abbrev pub KeepsEvents : (Event → Event) → Type 0
KeepsEvents f = (e : Event) → (f e).event ≡ e.event

has_event-map :
    (f : Event → Event) (id : Text) (e : Event)
    → KeepsEvents f
    → has_event id (f e) ≡ has_event id e
has_event-map f id e k = ap (λ x. text_eq x.event_id id) (k e)

pub any-map :
    (f : Event → Event) (id : Text) (es : List Event)
    → KeepsEvents f
    → any (has_event id) (map f es) ≡ any (has_event id) es
any-map f id [] k = refl
any-map f id (e ∷ es) k = ground (arith, has_event-map f id e k, any-map f id es k)

pub find-map :
    (f : Event → Event) (id : Text) (es : List Event) {e : Event}
    → KeepsEvents f
    → find (has_event id) es ≡ some e
    → find (has_event id) (map f es) ≡ some (f e)
find-map f id [] k h = cc
find-map f id (x ∷ xs) {e} k h = elim (Bool-cases (has_event id x)) [
  | inl here ↦
      let same : x ≡ e = ground (arith, h, here) in
      rw (has_event-map f id x k, here) (ap (λ y. some (f y)) same)
  | inr other ↦ rw (has_event-map f id x k, other) (find-map f id xs k (ground (arith, h, other)))
]

pub IsKeyed-map :
    (f : Event → Event) (es : List Event) → KeepsEvents f → IsKeyed es → IsKeyed (map f es)
IsKeyed-map f [] k h = tt
IsKeyed-map f (e ∷ es) k h = (
  ap (λ x. any (has_event x.event_id) (map f es)) (k e) ∙ any-map f e.event.event_id es k ∙ h.0,
  IsKeyed-map f es k h.1,
)

-- Every event that a claim picks can be claimed.
pub claimable-claimable :
    (locked : Text → Bool) (now limit : ℕ) (id : Text) (rows : List Event) (e : Event)
    → IsKeyed rows
    → find (has_event id) rows ≡ some e
    → any (has_event id) (claimable locked now limit rows) ≡ true
    → is_claimable now e ≡ true
unfolding claimable
claimable-claimable locked now limit id rows e keyed found h =
    let test : Event → Bool = λ x. is_claimable now x && not (locked x.event.event_id) in
    let in_order = any-take (has_event id) limit (sorted (selected test rows)) h in
    let in_rows =
      any-selected (has_event id) test rows
        (sym (any-sorted (has_event id) (selected test rows)) ∙ in_order) in
    ground (arith, any-find test id rows e keyed in_rows found)
