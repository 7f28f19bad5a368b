-- ===== src/Base/Pattern.antt =====
-- Anchored regular expressions of a fixed length: a list of byte classes, one for each byte.
use keyrus.Base.{
  ℕ, zero, suc, ◌≡◌, refl, Bool, true, false, ◌&&◌, List, [], ◌∷◌, arith, ◌==◌, leb, length, take,
  drop, all,
}
use keyrus.Base.Text.{Text}

abbrev pub Pattern : Type 0
Pattern = List (ℕ → Bool)

-- `regexp.MatchString` of `^…$`
unfoldable pub matches : Pattern → Text → Bool
matches [] [] = true
matches [] (c ∷ s) = false
matches (p ∷ ps) [] = false
matches (p ∷ ps) (c ∷ s) = p c && matches ps s

-- a class with a count, `[…]{n}`
abbrev pub times : ℕ → (ℕ → Bool) → Pattern → Pattern
times zero p ps = ps
times (suc n) p ps = p ∷ times n p ps

abbrev pub is_dash : ℕ → Bool
is_dash c = c == b'-'

-- Between two patterns, class by class.
abbrev pub Stricter : Pattern → Pattern → Type 0
Stricter [] [] = Unit
Stricter [] (q ∷ qs) = ⊥
Stricter (p ∷ ps) [] = ⊥
Stricter (p ∷ ps) (q ∷ qs) = ((c : ℕ) → p c ≡ true → q c ≡ true) × Stricter ps qs

pub matches-Stricter :
    (ps qs : Pattern) (s : Text) → Stricter ps qs → matches ps s ≡ true → matches qs s ≡ true
unfolding matches
matches-Stricter [] [] [] h m = refl
matches-Stricter [] [] (c ∷ s) h m = m
matches-Stricter [] (q ∷ qs) s h m = absurd h
matches-Stricter (p ∷ ps) [] s h m = absurd h
matches-Stricter (p ∷ ps) (q ∷ qs) [] h m = m
matches-Stricter (p ∷ ps) (q ∷ qs) (c ∷ s) h m = ground (arith, matches-Stricter ps qs s h.1, h.0 c)

-- `s[i]`; the callers have checked the length
abbrev pub byte_at : Text → ℕ → ℕ
byte_at [] i = 0
byte_at (c ∷ s) zero = c
byte_at (c ∷ s) (suc i) = byte_at s i

pub byte_at-drop : (n : ℕ) (s : Text) → byte_at (drop n s) 0 ≡ byte_at s n
byte_at-drop zero s = refl
byte_at-drop (suc n) [] = refl
byte_at-drop (suc n) (c ∷ s) = byte_at-drop n s

-- A class with a count is a test on the front of the text.
pub matches-times :
    (n : ℕ) (p : ℕ → Bool) (ps : Pattern) (s : Text)
    → matches (times n p ps) s ≡ (leb n (length s) && (all p (take n s) && matches ps (drop n s)))
unfolding matches
matches-times zero p ps s = ground arith
matches-times (suc n) p ps [] = ground arith
matches-times (suc n) p ps (c ∷ s) = ground (arith, matches-times n p ps s)

pub matches-dash :
    (ps : Pattern) (s : Text)
    → matches (is_dash ∷ ps) s ≡ ((byte_at s 0 == b'-') && matches ps (drop 1 s))
unfolding matches
matches-dash ps [] = refl
matches-dash ps (c ∷ s) = refl

pub matches-nil : (s : Text) → matches [] s ≡ (length s == 0)
unfolding matches
matches-nil [] = refl
matches-nil (c ∷ s) = ground arith

pub matches-length : (ps : Pattern) (s : Text) → matches ps s ≡ true → length s ≡ length ps
unfolding matches
matches-length [] [] h = refl
matches-length [] (c ∷ s) h = cc
matches-length (p ∷ ps) [] h = cc
matches-length (p ∷ ps) (c ∷ s) h = ground (arith, matches-length ps s)

pub Stricter-times :
    (n : ℕ) (p q : ℕ → Bool) (ps qs : Pattern)
    → ((c : ℕ) → p c ≡ true → q c ≡ true)
    → Stricter ps qs
    → Stricter (times n p ps) (times n q qs)
Stricter-times zero p q ps qs h t = t
Stricter-times (suc n) p q ps qs h t = (h, Stricter-times n p q ps qs h t)
