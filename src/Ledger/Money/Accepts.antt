-- ===== src/Ledger/Money/Accepts.antt =====
-- What `ParseBRL` accepts: only decimal amounts, and with their exact value.
use keyrus.Base.{
  ℕ, ◌+◌, ◌-◌, ◌*◌, ◌≤◌, ◌<◌, ◌≡◌, refl, sym, true, Option, none, some, ◌∙◌, List, [], ◌∷◌, arith,
  all, ok, ◌>>=◌,
}
use keyrus.Base.Int.{pos, max_int64}
use keyrus.Base.Text.{Text, is_digit}
use keyrus.Base.Decimal.{split}
use keyrus.Base.Decimal.Split.{split_one, split_two}
use keyrus.Ledger.Money.{Money, ascii_digits, is_digits_or_absent, parts_of, from_parts, parse_brl}
use keyrus.Ledger.Money.Parse.{
  Denotes, whole, tenths, cents, all-IsDigits, amount_or_error, fraction_one, fraction_two,
  from_parts_whole, from_parts_fraction,
}

-- What holds of a text that is read as `m`.
abbrev Reads : Text → Money → Type 0
Reads s m = (n : ℕ) × Denotes s n × (m ≡ record { minor = pos n }) × (0 < n) × (n ≤ max_int64)

amount_or_error-eq-ok :
    (n : ℕ) {m : Money}
    → amount_or_error n ≡ ok m
    → (m ≡ record { minor = pos n }) × (0 < n) × (n ≤ max_int64)
amount_or_error-eq-ok n h = ground arith

Reads-amount : {s : Text} {m : Money} (n : ℕ) → Denotes s n → amount_or_error n ≡ ok m → Reads s m
Reads-amount n d h = let (e, p, le) = amount_or_error-eq-ok n h in (n, d, e, p, le)

from_parts_digits :
    (c : ℕ) (w : Text) (f : Option Text) {m : Money}
    → from_parts (c ∷ w, f) ≡ ok m
    → (all is_digit (c ∷ w) ≡ true) × (is_digits_or_absent f ≡ true)
unfolding from_parts ascii_digits
from_parts_digits c w f h = ground arith

module _ (s : Text) {m : Money} where
  sound_parts :
      (ps : List Text) → split b'.' s ≡ ps → (parts_of ps >>= from_parts) ≡ ok m → Reads s m
  unfolding parts_of is_digits_or_absent
  sound_parts [] e h = cc
  sound_parts ([] ∷ ps) e h = cc
  sound_parts ((c ∷ w) ∷ []) e h =
      let dw = all-IsDigits (c ∷ w) (from_parts_digits c w none h).0 in
      Reads-amount _ (whole (c ∷ w) (cc) dw (split_one b'.' s (c ∷ w) e) refl)
        (sym (from_parts_whole c w dw) ∙ h)
  sound_parts ((c ∷ w) ∷ [] ∷ []) e h = cc
  sound_parts ((c ∷ w) ∷ (d ∷ []) ∷ []) e h =
      let (hw, hf) = from_parts_digits c w (some (d ∷ [])) h in
      let dw = all-IsDigits (c ∷ w) hw in
      let df = all-IsDigits (d ∷ []) hf in
      Reads-amount _ (tenths (c ∷ w) d (cc) dw df.0 (split_two b'.' s (c ∷ w) (d ∷ []) e) refl) (
        sym (
          from_parts_fraction c w dw d [] ((d - b'0') * 10) df (ground (arith, df.0))
            (fraction_one d df.0))
        ∙ h)
  sound_parts ((c ∷ w) ∷ (d ∷ g ∷ []) ∷ []) e h =
      let (hw, hf) = from_parts_digits c w (some (d ∷ g ∷ [])) h in
      let dw = all-IsDigits (c ∷ w) hw in
      let df = all-IsDigits (d ∷ g ∷ []) hf in
      Reads-amount _
        (cents (c ∷ w) d g (cc) dw df.0 df.1.0 (split_two b'.' s (c ∷ w) (d ∷ g ∷ []) e) refl)
        (sym (
            from_parts_fraction c w dw d (g ∷ []) ((d - b'0') * 10 + (g - b'0')) df
              (ground (arith, df.0, df.1.0)) (fraction_two d g df.0 df.1.0))
          ∙ h)
  sound_parts ((c ∷ w) ∷ (d ∷ g ∷ x ∷ r) ∷ []) e h = ground arith
  sound_parts ((c ∷ w) ∷ f ∷ p ∷ ps) e h = cc

parse_brl_parts :
    (s : Text) {m : Money} → parse_brl s ≡ ok m → (parts_of (split b'.' s) >>= from_parts) ≡ ok m
unfolding parse_brl
parse_brl_parts s h = ground arith

-- Whatever `ParseBRL` accepts spells a positive amount that fits an int64, and is read as exactly
-- that amount: nothing is rounded and nothing wraps around.
pub parse_brl_sound :
    (s : Text) {m : Money}
    → parse_brl s ≡ ok m
    → (n : ℕ) × Denotes s n × (m ≡ record { minor = pos n }) × (0 < n) × (n ≤ max_int64)
parse_brl_sound s h = sound_parts s (split b'.' s) refl (parse_brl_parts s h)
