-- ===== src/Consolidation/DeadLetters/Replays.antt =====
-- What a replay of dead letters keeps and counts.
use keyrus.Base.{
  ℕ, suc, ◌+◌, ◌<◌, ltb, some, none, ◌≡◌, refl, sym, ◌∙◌, ap, Bool, true, false, List, [], ◌∷◌,
  if◌then◌else◌, length, All, arith, Bool-cases, Option-cases, Result-cases, Result, inl, inr, ok,
  err,
}
use keyrus.Base.Text.{Text, text_eq, text_eq_sound}
use keyrus.Consolidation.Event.{Failure}
use keyrus.Consolidation.Projection.{Projection, ProjectionResult}
use keyrus.Consolidation.Consumer.{Pending, DeadLetter, PendingTables}
use keyrus.Consolidation.DeadLetters.{
  Item, Counts, Audit, partial_failure, all_ok, Parked, is_parked, dlq_items, delete_pending,
  is_letter_of, delete_letters, release, replay_item, replay_items, reprocess,
}

-- the rows of an event
unfoldable pub letters_of : Text → List DeadLetter → List DeadLetter
letters_of id [] = []
letters_of id (d ∷ ds) = let rest = letters_of id ds in if is_letter_of id d then d ∷ rest else rest

unfoldable pub parked_of : Text → List Pending → List Pending
parked_of id [] = []
parked_of id (p ∷ ps) = let rest = parked_of id ps in if is_parked id p then p ∷ rest else rest

letter_other :
    (k id : Text) (d : DeadLetter)
    → text_eq k id ≡ false
    → is_letter_of k d ≡ true
    → is_letter_of id d ≡ false
letter_other k id d other h = elim (Option-cases d.event_id) [
  | inl nothing ↦ absurd (cc (rw nothing at h))
  | inr (x, named) ↦ rw (named, text_eq_sound x k (rw named at h)) other
]

parked_other :
    (k id : Text) (p : Pending)
    → text_eq k id ≡ false
    → is_parked k p ≡ true
    → is_parked id p ≡ false
parked_other k id p other h =
    let same : text_eq p.event_id k ≡ true = ground (arith, h) in
    rw (text_eq_sound p.event_id k same, other) refl

letters-delete :
    (k id : Text) (ds : List DeadLetter)
    → text_eq k id ≡ false
    → letters_of id (delete_letters k ds) ≡ letters_of id ds
unfolding letters_of delete_letters
letters-delete k id [] other = refl
letters-delete k id (d ∷ ds) other = elim (Bool-cases (is_letter_of k d)) [
  | inl gone ↦ rw (gone, letter_other k id d other gone) (letters-delete k id ds other)
  | inr stays ↦
      rw (stays, letters_of)
        (ap (λ x. if is_letter_of id d then d ∷ x else x) (letters-delete k id ds other))
]

parked-delete :
    (k id : Text) (ps : List Pending)
    → text_eq k id ≡ false
    → parked_of id (delete_pending k ps) ≡ parked_of id ps
unfolding parked_of delete_pending
parked-delete k id [] other = refl
parked-delete k id (p ∷ ps) other = elim (Bool-cases (is_parked k p)) [
  | inl gone ↦ rw (gone, parked_other k id p other gone) (parked-delete k id ps other)
  | inr stays ↦
      rw (stays, parked_of)
        (ap (λ x. if is_parked id p then p ∷ x else x) (parked-delete k id ps other))
]

-- the rows of an event are as they were
pub record IsKept (id : Text) (r u : Parked) : Type 0 where
  pub letters : letters_of id u.tables.dead_letters ≡ letters_of id r.tables.dead_letters
  pub pending : parked_of id u.tables.pending ≡ parked_of id r.tables.pending

release-IsKept :
    (works : Bool × Bool) (k id : Text) (r : Parked)
    → text_eq k id ≡ false
    → IsKept id r (release works k r)
unfolding release
release-IsKept (false, b) k id r other = record { letters = refl; pending = refl }
release-IsKept (true, false) k id r other = record {
  letters = refl;
  pending = parked-delete k id r.tables.pending other;
}
release-IsKept (true, true) k id r other = record {
  letters = letters-delete k id r.tables.dead_letters other;
  pending = parked-delete k id r.tables.pending other;
}

module _ (apply_payload : Text → Projection → Result Failure ProjectionResult × Projection) where
  -- the projector refuses a payload whatever it has projected
  abbrev pub IsRefused : Text → Type 0
  IsRefused payload = (t : Projection) → (f : Failure) × ((apply_payload payload t).0 ≡ err f)

  replay_item-IsKept :
      (works : Bool × Bool) (id : Text) (i : Item) (r : Parked)
      → (text_eq i.event_id id ≡ true → IsRefused i.payload)
      → IsKept id r (replay_item apply_payload works i r)
  unfolding replay_item
  replay_item-IsKept works id i r refused =
      elim (Result-cases (apply_payload i.payload r.projection).0) [
        | inl (f, bad) ↦ rw (replay_item, bad) (record { letters = refl; pending = refl })
        | inr (done, good) ↦ elim (Bool-cases (text_eq i.event_id id)) [
          | inl same ↦ let (f, bad) = refused same r.projection in absurd (cc (sym good ∙ bad))
          | inr other ↦
              let after = record r { projection = (apply_payload i.payload r.projection).1 } in
              let kept = release-IsKept works i.event_id id after other in
              rw (replay_item, good) (record { letters = kept.letters; pending = kept.pending })
        ]
      ]

  replay_items-IsKept :
      (works : ℕ → Bool × Bool) (k : ℕ) (id : Text) (is : List Item) (r : Parked)
      → All (λ (i : Item). text_eq i.event_id id ≡ true → IsRefused i.payload) is
      → IsKept id r (replay_items apply_payload works k is r)
  unfolding replay_items
  replay_items-IsKept works k id [] r h = record { letters = refl; pending = refl }
  replay_items-IsKept works k id (i ∷ is) r (here, h) =
      let one = replay_item-IsKept (works k) id i r here in
      let rest =
        replay_items-IsKept works (suc k) id is (replay_item apply_payload (works k) i r) h in
      record { letters = rest.letters ∙ one.letters; pending = rest.pending ∙ one.pending }

  total : Counts → ℕ
  total c = c.reprocessed + c.failed

  release-total :
      (works : Bool × Bool) (k : Text) (r : Parked)
      → total (release works k r).counts ≡ total r.counts + 1
  unfolding release total
  release-total (false, b) k r = omega arith
  release-total (true, false) k r = omega arith
  release-total (true, true) k r = omega arith

  replay_item-total :
      (works : Bool × Bool) (i : Item) (r : Parked)
      → total (replay_item apply_payload works i r).counts ≡ total r.counts + 1
  unfolding replay_item total
  replay_item-total works i r = elim (Result-cases (apply_payload i.payload r.projection).0) [
    | inl (f, bad) ↦ rw (replay_item, bad) (omega arith)
    | inr (done, good) ↦
        rw (replay_item, good)
          (release-total works i.event_id
            (record r { projection = (apply_payload i.payload r.projection).1 }))
  ]

  replay_items-total :
      (works : ℕ → Bool × Bool) (k : ℕ) (is : List Item) (r : Parked)
      → total (replay_items apply_payload works k is r).counts ≡ total r.counts + length is
  unfolding replay_items
  replay_items-total works k [] r = omega arith
  replay_items-total works k (i ∷ is) r = omega (
    arith,
    replay_item-total (works k) i r,
    replay_items-total works (suc k) is (replay_item apply_payload (works k) i r),
  )

-- A replay never drops an event whose payloads the projector refuses: whatever the statements do, its
-- dead letters and its parked rows are the same after it, in the same order.
pub reprocess-refused :
    (apply_payload : Text → Projection → Result Failure ProjectionResult × Projection)
    (query_works audit_works : Bool) (works : ℕ → Bool × Bool) (actor : Text)
    (tables : PendingTables) (t : Projection) (id : Text)
    → All
        (λ (i : Item). text_eq i.event_id id ≡ true → IsRefused apply_payload i.payload)
        (dlq_items tables.pending tables.dead_letters)
    → (letters_of id
          (reprocess apply_payload query_works audit_works works actor tables
            t).1.tables.dead_letters
        ≡ letters_of id tables.dead_letters)
      × (parked_of id
            (reprocess apply_payload query_works audit_works works actor tables t).1.tables.pending
          ≡ parked_of id tables.pending)
unfolding reprocess
reprocess-refused apply_payload false audit_works works actor tables t id refused = (refl, refl)
reprocess-refused apply_payload true audit_works works actor tables t id refused =
    let kept =
      replay_items-IsKept apply_payload works 0 id (dlq_items tables.pending tables.dead_letters)
        (record {
          tables = tables;
          projection = t;
          counts = record { reprocessed = 0; failed = 0 };
        })
        refused in
    (kept.letters, kept.pending)

-- the row that a replay with these counts audits
pub record IsAuditOf (actor : Text) (c : Counts) (a : Audit) : Type 0 where
  pub by_actor : a.actor ≡ actor
  pub counted : a.counts ≡ c
  pub partial : 0 < c.failed → a.outcome ≡ partial_failure
  pub clean : c.failed ≡ 0 → a.outcome ≡ all_ok

-- A replay whose query works returns counts by which each row of the query is counted once, as
-- reprocessed or as failed. It audits the actor, those counts, and a partial failure exactly where a
-- row failed; the row is missing only where PostgreSQL refuses it.
pub reprocess-counts :
    (apply_payload : Text → Projection → Result Failure ProjectionResult × Projection)
    (audit_works : Bool) (works : ℕ → Bool × Bool) (actor : Text) (tables : PendingTables)
    (t : Projection)
    → (c : Counts) × ((reprocess apply_payload true audit_works works actor tables t).0 ≡ ok c)
      × (c.reprocessed + c.failed ≡ length (dlq_items tables.pending tables.dead_letters))
      × (audit_works ≡ true
          → (a : Audit) × ((reprocess apply_payload true audit_works works actor tables t).2
              ≡ some a)
            × IsAuditOf actor c a)
      × (audit_works ≡ false
          → (reprocess apply_payload true audit_works works actor tables t).2 ≡ none)
unfolding reprocess total
reprocess-counts apply_payload audit_works works actor tables t =
    let items = dlq_items tables.pending tables.dead_letters in
    let begun : Parked = record {
      tables = tables;
      projection = t;
      counts = record { reprocessed = 0; failed = 0 };
    } in
    let ended = replay_items apply_payload works 0 items begun in
    (
      ended.counts,
      refl,
      replay_items-total apply_payload works 0 items begun ∙ omega arith,
      λ h. (
        record {
          actor = actor;
          counts = ended.counts;
          outcome = if ltb 0 ended.counts.failed then partial_failure else all_ok;
        },
        rw h refl,
        record {
          by_actor = refl;
          counted = refl;
          partial = λ f. ground (arith, f);
          clean = λ f. ground (arith, f);
        },
      ),
      λ h. rw h refl,
    )
