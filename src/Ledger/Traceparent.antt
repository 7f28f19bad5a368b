-- ===== src/Ledger/Traceparent.antt =====
-- services/ledger/internal/application/traceparent.go: the W3C trace-parent header.
use native.Mathlib.Decide.{ℕ_discrete}
use keyrus.Base.{
  ◌≡◌, ◌≢◌, inl, inr, Bool, true, false, not, ◌&&◌, ◌||◌, [], ◌∷◌, arith, ◌==◌, if◌then◌else◌,
  length, slice, all, any, ◌∙◌, refl, ok, err, length-drop, drop-drop, Bool-cases,
}
use keyrus.Base.Text.{Text, codes, text_eq}
use keyrus.Base.Hex.{is_lower_hex}
use keyrus.Base.Pattern.{
  Pattern, matches, times, is_dash, byte_at, matches-times, matches-dash, matches-nil,
  matches-length, byte_at-drop,
}
use keyrus.Ledger.Errors.{Fallible, invalid_argument}

abbrev pub lower_hex : Text → Bool
lower_hex = all is_lower_hex

abbrev pub all_zero_hex : Text → Bool
all_zero_hex = all (λ c. c == b'0')

abbrev pub version : Text → Text
version = slice 0 2

abbrev pub trace_id : Text → Text
trace_id = slice 3 35

abbrev pub parent_id : Text → Text
parent_id = slice 36 52

abbrev pub flags : Text → Text
flags = slice 53 55

-- The tests of `ValidateTraceparent` after those on the four groups of digits.
abbrev pub is_reserved : Text → Bool
is_reserved s =
    text_eq (version s) (codes "ff")
    || (all_zero_hex (trace_id s)
        || (all_zero_hex (parent_id s)
            || (text_eq (version s) (codes "00")
                && (not (text_eq (flags s) (codes "00")) && not (text_eq (flags s) (codes "01"))))))

-- `ValidateTraceparent`
unfoldable pub validate_traceparent : Text → Fallible (Unit {0})
validate_traceparent s =
    if not (length s == 55)
      || (not (byte_at s 2 == b'-') || (not (byte_at s 35 == b'-') || not (byte_at s 52 == b'-')))
    then err invalid_argument
    else if not (lower_hex (version s))
        || (not (lower_hex (trace_id s))
            || (not (lower_hex (parent_id s)) || (not (lower_hex (flags s)) || is_reserved s)))
    then err invalid_argument
    else ok tt

-- `[0-9a-f]{2}-[0-9a-f]{32}-[0-9a-f]{16}-[0-9a-f]{2}`
abbrev pub traceparent_pattern : Pattern
traceparent_pattern = times 2 is_lower_hex (
    is_dash
    ∷ times 32 is_lower_hex (is_dash ∷ times 16 is_lower_hex (is_dash ∷ times 2 is_lower_hex [])))

regroup :
    (a b c d p q r : Bool)
    → (a && (p && (b && (q && (c && (r && (d && true)))))))
      ≡ (p && (q && (r && (a && (b && (c && d))))))
regroup a b c d p q r = ground arith

matches-traceparent :
    (s : Text)
    → length s ≡ 55
    → matches traceparent_pattern s ≡ (
        (byte_at s 2 == b'-')
        && ((byte_at s 35 == b'-')
            && ((byte_at s 52 == b'-')
                && (lower_hex (version s)
                    && (lower_hex (trace_id s)
                        && (lower_hex (parent_id s) && lower_hex (flags s)))))))
matches-traceparent s h =
    simp (matches-times, matches-dash, matches-nil, drop-drop, byte_at-drop, length-drop, h)
      (regroup (lower_hex (version s)) (lower_hex (trace_id s)) (lower_hex (parent_id s))
        (lower_hex (flags s)) (byte_at s 2 == b'-') (byte_at s 35 == b'-') (byte_at s 52 == b'-'))

not-matches : (s : Text) → length s ≢ 55 → matches traceparent_pattern s ≡ false
not-matches s h = elim (Bool-cases (matches traceparent_pattern s)) [
  | inl m ↦ absurd (h (matches-length traceparent_pattern s m))
  | inr m ↦ m
]

same_tests :
    (p q r a b c d z : Bool)
    → ◌≡◌ {A = Fallible (Unit {0})}
        (if not p || (not q || not r)
          then err invalid_argument
          else if not a || (not b || (not c || (not d || z)))
          then err invalid_argument
          else ok tt)
        (if (p && (q && (r && (a && (b && (c && d)))))) && not z
          then ok tt
          else err invalid_argument)
same_tests p q r a b c d z = ground arith

permitted :
    (m f t p z a b : Bool)
    → ◌≡◌ {A = Fallible (Unit {0})}
        (if m && not (f || (t || (p || (z && (not a && not b)))))
          then ok tt
          else err invalid_argument)
        (if m && (not f && (not t && (not p && (not z || (a || b)))))
          then ok tt
          else err invalid_argument)
permitted m f t p z a b = ground arith

some_nonzero : (s : Text) → any (λ c. not (c == b'0')) s ≡ not (all_zero_hex s)
some_nonzero [] = refl
some_nonzero (c ∷ s) = ground (arith, some_nonzero s)

-- the same with the tests as they are written
pub validate_traceparent-pattern :
    (s : Text)
    → validate_traceparent s ≡ (
        if matches traceparent_pattern s && not (is_reserved s)
        then ok tt
        else err invalid_argument)
unfolding validate_traceparent
validate_traceparent-pattern s = elim (ℕ_discrete (length s) 55) [
  | yes h ↦
      rw (matches-traceparent s h, h)
        (same_tests (byte_at s 2 == b'-') (byte_at s 35 == b'-') (byte_at s 52 == b'-')
          (lower_hex (version s)) (lower_hex (trace_id s)) (lower_hex (parent_id s))
          (lower_hex (flags s)) (is_reserved s))
  | no h ↦ let longer : (length s == 55) ≡ false = ground (arith, h) in rw (longer, not-matches s h)
]

-- `ValidateTraceparent` accepts exactly the texts of the canonical pattern whose version is not ff,
-- whose trace and parent identifiers have a digit that is not zero and whose flags are 00 or 01 if the
-- version is 00.
pub validate_traceparent_lem :
    (s : Text)
    → validate_traceparent s ≡ (
        if matches traceparent_pattern s
          && (not (text_eq (slice 0 2 s) (codes "ff"))
              && (any (λ c. not (c == b'0')) (slice 3 35 s)
                  && (any (λ c. not (c == b'0')) (slice 36 52 s)
                      && (not (text_eq (slice 0 2 s) (codes "00"))
                          || (text_eq (slice 53 55 s) (codes "00")
                              || text_eq (slice 53 55 s) (codes "01"))))))
        then ok tt
        else err invalid_argument)
validate_traceparent_lem s =
    validate_traceparent-pattern s
    ∙ (let trace = some_nonzero (slice 3 35 s) in
        let parent = some_nonzero (slice 36 52 s) in
        rw (trace, parent)
          (permitted (matches traceparent_pattern s) (text_eq (slice 0 2 s) (codes "ff"))
            (all_zero_hex (slice 3 35 s)) (all_zero_hex (slice 36 52 s))
            (text_eq (slice 0 2 s) (codes "00")) (text_eq (slice 53 55 s) (codes "00"))
            (text_eq (slice 53 55 s) (codes "01"))))
