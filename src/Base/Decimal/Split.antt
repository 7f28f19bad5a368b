-- ===== src/Base/Decimal/Split.antt =====
-- `strings.Split` and the text that it cuts.
use keyrus.Base.{ℕ, ◌≡◌, refl, ◌≢◌, false, List, [], ◌∷◌, ◌++◌, arith, ◌==◌, All}
use keyrus.Base.Text.{Text, is_digit}
use keyrus.Base.Decimal.{split, cons_head, IsDigits}

-- No byte of the text is the separator.
abbrev pub Lacks : ℕ → Text → Type 0
Lacks sep = All (λ c. (c == sep) ≡ false)

pub split-Lacks : (sep : ℕ) (s : Text) → Lacks sep s → split sep s ≡ s ∷ []
unfolding split
split-Lacks sep [] h = refl
split-Lacks sep (c ∷ s) h = ground (arith, split-Lacks sep s h.1)

pub split_at : (sep : ℕ) (s t : Text) → Lacks sep s → split sep (s ++ sep ∷ t) ≡ s ∷ split sep t
unfolding split
split_at sep [] t h = ground arith
split_at sep (c ∷ s) t h = ground (arith, split_at sep s t h.1)

-- the text that a list of parts was cut from
abbrev joined : ℕ → List Text → Text
joined sep [] = []
joined sep (p ∷ []) = p
joined sep (p ∷ q ∷ ps) = p ++ sep ∷ joined sep (q ∷ ps)

split-ne-nil : (sep : ℕ) (s : Text) → split sep s ≢ []
unfolding split
split-ne-nil sep [] e = cc
split-ne-nil sep (c ∷ s) e = ground (arith, split-ne-nil sep s)

joined-cons_head :
    (sep c : ℕ) (ps : List Text) → ps ≢ [] → joined sep (cons_head c ps) ≡ c ∷ joined sep ps
joined-cons_head sep c [] h = absurd (h refl)
joined-cons_head sep c (p ∷ []) h = refl
joined-cons_head sep c (p ∷ q ∷ ps) h = refl

joined_new : (sep : ℕ) (ps : List Text) → ps ≢ [] → joined sep ([] ∷ ps) ≡ sep ∷ joined sep ps
joined_new sep [] h = absurd (h refl)
joined_new sep (p ∷ ps) h = refl

pub joined-split : (sep : ℕ) (s : Text) → joined sep (split sep s) ≡ s
unfolding split
joined-split sep [] = refl
joined-split sep (c ∷ s) = ground (
  arith,
  joined-split sep s,
  split-ne-nil sep s,
  joined-cons_head sep c (split sep s),
  joined_new sep (split sep s),
)

pub split_one : (sep : ℕ) (s p : Text) → split sep s ≡ p ∷ [] → s ≡ p
split_one sep s p e = cc (joined-split sep s, joined_one)
  where
    joined_one : joined sep (split sep s) ≡ p
    joined_one = rw e

pub split_two : (sep : ℕ) (s p q : Text) → split sep s ≡ p ∷ q ∷ [] → s ≡ p ++ sep ∷ q
split_two sep s p q e = cc (joined-split sep s, joined_two)
  where
    joined_two : joined sep (split sep s) ≡ p ++ sep ∷ q
    joined_two = rw e

-- Digits hold no separator that is no digit.
pub IsDigits-Lacks : (sep : ℕ) (s : Text) → is_digit sep ≡ false → IsDigits s → Lacks sep s
IsDigits-Lacks sep [] d h = tt
IsDigits-Lacks sep (c ∷ s) d h = (ground (arith, h.0), IsDigits-Lacks sep s d h.1)
