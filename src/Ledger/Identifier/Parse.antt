-- ===== src/Ledger/Identifier/Parse.antt =====
-- What `ParseID` accepts, by a pattern.
use keyrus.Base.{
  ◌≡◌, inl, inr, Bool, true, not, ◌&&◌, [], ◌∷◌, arith, ◌==◌, if◌then◌else◌, length, take, drop,
  all, Option-cases, ok, err, length-append, length-take, length-drop, all-append, drop-drop,
}
use native.Mathlib.Decide.{ℕ_discrete}
use keyrus.Base.Text.{Text}
use keyrus.Base.Hex.{decode, is_hex, decode_sound, decode_complete}
use keyrus.Base.Pattern.{
  Pattern, matches, times, is_dash, byte_at, matches-times, matches-dash, matches-nil,
  matches-length, byte_at-drop,
}
use keyrus.Ledger.Errors.{invalid_id}
use keyrus.Ledger.Identifier.{accept_bytes, compact, parse_id}

-- `[0-9a-fA-F]{8}-[0-9a-fA-F]{4}-[0-9a-fA-F]{4}-[0-9a-fA-F]{4}-[0-9a-fA-F]{12}`
abbrev pub id_pattern : Pattern
id_pattern = times 8 is_hex (
    is_dash
    ∷ times 4 is_hex
        (is_dash ∷ times 4 is_hex (is_dash ∷ times 4 is_hex (is_dash ∷ times 12 is_hex []))))

abbrev dashes : Text → Bool
dashes s =
    (byte_at s 8 == b'-')
    && ((byte_at s 13 == b'-') && ((byte_at s 18 == b'-') && (byte_at s 23 == b'-')))

regroup :
    (a b c d e p q r t : Bool)
    → (a && (p && (b && (q && (c && (r && (d && (t && (e && true)))))))))
      ≡ ((p && (q && (r && t))) && (a && (b && (c && (d && e)))))
regroup a b c d e p q r t = ground arith

-- The pattern, segment by segment.
pub matches-id_pattern :
    (s : Text) → length s ≡ 36 → matches id_pattern s ≡ (dashes s && all is_hex (compact s))
matches-id_pattern s h =
    simp
      (
        matches-times, matches-dash, matches-nil, drop-drop, byte_at-drop, length-drop, h,
        all-append,
      )
      (regroup (all is_hex (take 8 s)) (all is_hex (take 4 (drop 9 s)))
        (all is_hex (take 4 (drop 14 s))) (all is_hex (take 4 (drop 19 s)))
        (all is_hex (take 12 (drop 24 s))) (byte_at s 8 == b'-') (byte_at s 13 == b'-')
        (byte_at s 18 == b'-') (byte_at s 23 == b'-'))

pub matches-id_pattern-length : (s : Text) → matches id_pattern s ≡ true → length s ≡ 36
matches-id_pattern-length s m = matches-length id_pattern s m

length-compact : (s : Text) → length s ≡ 36 → length (compact s) ≡ 32
length-compact s h = simp (length-append, length-take, length-drop) (omega arith)

-- Some digit of the identifier is not zero.
abbrev pub is_nil : Text → Bool
is_nil s = all (λ c. c == b'0') (compact s)

accept-decode :
    (s t : Text)
    → length t ≡ 32
    → accept_bytes s (decode t)
      ≡ (if all is_hex t && not (all (λ c. c == b'0') t) then ok s else err invalid_id)
unfolding accept_bytes
accept-decode s t h = elim (Option-cases (decode t)) [
  | inl e ↦ ground (arith, e, decode_complete 16 t (omega arith))
  | inr (bs, e) ↦ ground (arith, e, decode_sound t bs e)
]

-- `ParseID` accepts a text exactly when it is 32 hexadecimal digits of either case with dashes
-- in the four places and some digit is not zero; it returns the text as it came.
pub parse_id_lem :
    (s : Text)
    → parse_id s ≡ (if matches id_pattern s && not (is_nil s) then ok s else err invalid_id)
unfolding parse_id
parse_id_lem s = elim (ℕ_discrete (length s) 36) [
  | yes h ↦
      ground (arith, h, matches-id_pattern s h, accept-decode s (compact s) (length-compact s h))
  | no h ↦ ground (arith, h, matches-id_pattern-length s)
]
