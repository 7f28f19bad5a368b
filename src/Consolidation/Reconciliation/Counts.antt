-- ===== src/Consolidation/Reconciliation/Counts.antt =====
-- What compareEntrySets counts: the identifiers of two collections, one of them without repetitions.
use keyrus.Base.{
  ℕ, ◌+◌, ◌≤◌, ◌<◌, ◌≡◌, ◌↔◌, refl, sym, ◌∙◌, ap, subst, true, false, List, [], ◌∷◌, if◌then◌else◌,
  arith, Bool-cases, inl, inr,
}
use keyrus.Base.Text.{Text, text_eq, text_eq_refl, text_eq_sound, text_eq_other}
use keyrus.Consolidation.Reconciliation.{
  has_id, raise_count, count_ids, count_of, missing_of, extra_of, duplicated_of, compare_entry_sets,
}

-- how often an identifier is in a list
unfoldable pub occurrences : Text → List Text → ℕ
occurrences id [] = 0
occurrences id (k ∷ ks) = (if text_eq k id then 1 else 0) + occurrences id ks

both_eq : (j k id : Text) → text_eq j k ≡ false → text_eq j id ≡ true → text_eq k id ≡ false
both_eq j k id other same = rw (sym (text_eq_sound j id same)) (text_eq_other j k other)

count_of-raise :
    (id k : Text) (counts : List (Text × ℕ))
    → count_of id (raise_count k counts) ≡ (if text_eq k id then 1 else 0) + count_of id counts
unfolding count_of raise_count
count_of-raise id k [] = ground arith
count_of-raise id k ((j, n) ∷ counts) = elim (Bool-cases (text_eq j k)) [
  | inl same ↦ rw (text_eq_sound j k same) (rw (text_eq_refl k) (ground arith))
  | inr other ↦ rw other (
      ground (
        arith,
        count_of-raise id k counts,
        text_eq_sound j id,
        text_eq_sound k id,
        both_eq j k id other,
      ))
]

count_of-count_ids : (id : Text) (ks : List Text) → count_of id (count_ids ks) ≡ occurrences id ks
unfolding count_of count_ids occurrences
count_of-count_ids id [] = refl
count_of-count_ids id (k ∷ ks) =
    count_of-raise id k (count_ids ks)
    ∙ ap (λ n. (if text_eq k id then 1 else 0) + n) (count_of-count_ids id ks)

-- no identifier has two entries of the map
abbrev IsMap : List (Text × ℕ) → Type 0
IsMap [] = Unit
IsMap ((k, n) ∷ counts) = (0 < n) × (count_of k counts ≡ 0) × IsMap counts

raise_count-IsMap :
    (id : Text) (counts : List (Text × ℕ)) → IsMap counts → IsMap (raise_count id counts)
unfolding raise_count count_of
raise_count-IsMap id [] h = (omega arith, refl, tt)
raise_count-IsMap id ((k, n) ∷ counts) (positive, alone, h) = elim (Bool-cases (text_eq k id)) [
  | inl same ↦ rw same (omega arith, alone, h)
  | inr other ↦ rw other (
    positive,
    count_of-raise k id counts ∙ rw (text_eq_other k id other) (omega (arith, alone)),
    raise_count-IsMap id counts h,
  )
]

count_ids-IsMap : (ks : List Text) → IsMap (count_ids ks)
unfolding count_ids
count_ids-IsMap [] = tt
count_ids-IsMap (k ∷ ks) = raise_count-IsMap k (count_ids ks) (count_ids-IsMap ks)

missing-zero :
    (counts : List (Text × ℕ)) (ids : List Text) (id : Text)
    → missing_of counts ids ≡ 0
    → has_id id ids ≡ true
    → 0 < count_of id counts
unfolding missing_of
missing-zero counts [] id h has = absurd (cc (has))
missing-zero counts (k ∷ ks) id h has = elim (Bool-cases (text_eq id k)) [
  | inl same ↦ rw (text_eq_sound id k same) (ground (arith, h))
  | inr other ↦ missing-zero counts ks id (omega (arith, h)) (ground (arith, other, has))
]

zero-missing :
    (counts : List (Text × ℕ)) (ids : List Text)
    → ((id : Text) → has_id id ids ≡ true → 0 < count_of id counts)
    → missing_of counts ids ≡ 0
unfolding missing_of
zero-missing counts [] h = refl
zero-missing counts (k ∷ ks) h =
    let here = h k (rw (text_eq_refl k) refl) in
    let rest = zero-missing counts ks (λ id has. h id (ground (arith, has))) in
    ground (arith, here, rest)

duplicated-zero :
    (counts : List (Text × ℕ)) (id : Text) → duplicated_of counts ≡ 0 → count_of id counts ≤ 1
unfolding duplicated_of count_of
duplicated-zero [] id h = omega arith
duplicated-zero ((k, n) ∷ counts) id h =
    ground (arith, h, duplicated-zero counts id (omega (arith, h)))

extra-zero :
    (ids : List Text) (counts : List (Text × ℕ)) (id : Text)
    → extra_of ids counts ≡ 0
    → 0 < count_of id counts
    → has_id id ids ≡ true
unfolding extra_of count_of
extra-zero ids [] id h seen = absurd (omega (arith, seen))
extra-zero ids ((k, n) ∷ counts) id h seen = elim (Bool-cases (text_eq k id)) [
  | inl same ↦ rw (sym (text_eq_sound k id same)) (ground (arith, h))
  | inr other ↦ extra-zero ids counts id (omega (arith, h)) (ground (arith, other, seen))
]

-- the other entries of a map
count_of-tail :
    (k id : Text) (n : ℕ) (counts : List (Text × ℕ))
    → IsMap ((k, n) ∷ counts)
    → count_of id counts ≤ count_of id ((k, n) ∷ counts)
unfolding count_of
count_of-tail k id n counts (positive, alone, h) = elim (Bool-cases (text_eq k id)) [
  | inl same ↦ rw (sym (text_eq_sound k id same), text_eq_refl k, alone) (omega arith)
  | inr other ↦ rw other (omega arith)
]

zero-duplicated :
    (counts : List (Text × ℕ))
    → IsMap counts
    → ((id : Text) → count_of id counts ≤ 1)
    → duplicated_of counts ≡ 0
unfolding duplicated_of
zero-duplicated [] m h = refl
zero-duplicated ((k, n) ∷ counts) m h =
    let here : n ≤ 1 =
      subst (λ b. (if b then n else count_of k counts) ≤ 1) (text_eq_refl k)
        (unfold count_of in (h k)) in
    let rest =
      zero-duplicated counts m.2 (λ id. omega (arith, h id, count_of-tail k id n counts m)) in
    ground (arith, here, rest)

zero-extra :
    (ids : List Text) (counts : List (Text × ℕ))
    → IsMap counts
    → ((id : Text) → 0 < count_of id counts → has_id id ids ≡ true)
    → extra_of ids counts ≡ 0
unfolding extra_of
zero-extra ids [] m h = refl
zero-extra ids ((k, n) ∷ counts) m h =
    let here : 0 < count_of k ((k, n) ∷ counts) = unfold count_of in (rw (text_eq_refl k) m.0) in
    let has = h k here in
    let rest =
      zero-extra ids counts m.2
        (λ id seen. h id (omega (arith, seen, count_of-tail k id n counts m))) in
    ground (arith, has, rest)

-- Nothing is missing, extra or duplicated exactly when every identifier of the source is projected
-- once and no other is.
pub compare_entry_sets_lem :
    (ids ks : List Text)
    → ((compare_entry_sets ids (count_ids ks)).missing_entries ≡ 0)
        × ((compare_entry_sets ids (count_ids ks)).extra_entries ≡ 0)
        × ((compare_entry_sets ids (count_ids ks)).duplicated_entries ≡ 0)
      ↔ ((id : Text) → occurrences id ks ≡ (if has_id id ids then 1 else 0))
unfolding compare_entry_sets
compare_entry_sets_lem ids ks =
    let counts = count_ids ks in
    let table = count_ids-IsMap ks in
    (
      λ (none_missing, none_extra, none_twice) id.
          sym (count_of-count_ids id ks) ∙ elim (Bool-cases (has_id id ids)) [
            | inl has ↦ rw has (
                omega (
                  arith,
                  missing-zero counts ids id none_missing has,
                  duplicated-zero counts id none_twice,
                ))
            | inr other ↦ rw other (ground (arith, extra-zero ids counts id none_extra, other))
          ],
      λ exact.
          let once = λ (id : Text). count_of-count_ids id ks ∙ exact id in
          (
            zero-missing counts ids (λ id has. ground (arith, once id, has)),
            zero-extra ids counts table (λ id seen. ground (arith, once id, seen)),
            zero-duplicated counts table (λ id. ground (arith, once id)),
          ),
    )
