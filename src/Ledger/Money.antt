-- ===== src/Ledger/Money.antt =====
-- services/ledger/internal/domain/money.go: a positive amount in the smallest unit of BRL.
pub mod Parse
pub mod Accepts
use keyrus.Base.{
  ℕ, zero, suc, ◌+◌, ◌-◌, ◌*◌, ◌/◌, ◌%◌, ◌≡◌, refl, Bool, true, false, not, ◌&&◌, ◌||◌, Option,
  none, some, List, [], ◌∷◌, ◌++◌, ltb, leb, ◌==◌, if◌then◌else◌, length, all, ok, err, ◌>>=◌, ◌>>◌,
  fail_if, or_fail,
}
use keyrus.Base.Int.{ℤ, pos, negsuc, pos_part, leb_ℤ, ltb_ℤ, max_int64}
use keyrus.Base.Text.{Text, codes, text_eq, is_digit}
use keyrus.Base.Decimal.{print_nat, print_int, pad2, parse_int64, split, wrap_int64}
use keyrus.Ledger.Errors.{Fallible, invalid_currency, invalid_amount}

abbrev pub currency_brl : Text
currency_brl = codes "BRL"

pub record Money : Type 0 where
  pub minor : ℤ

unfoldable pub new_money : ℤ → Text → Fallible Money
new_money amount_minor currency =
    if not (text_eq currency currency_brl)
    then err invalid_currency
    else if leb_ℤ amount_minor (pos 0)
    then err invalid_amount
    else ok (record { minor = amount_minor })

unfoldable pub ascii_digits : Text → Bool
ascii_digits [] = false
ascii_digits (c ∷ s) = all is_digit (c ∷ s)

-- `strings.HasPrefix` with a prefix of one byte
abbrev has_prefix : ℕ → Text → Bool
has_prefix p [] = false
has_prefix p (c ∷ s) = c == p

-- The whole and the fractional part, as the test on `len(parts)` lets them through.
pub parts_of : List Text → Fallible (Text × Option Text)
parts_of [] = err invalid_amount
parts_of ([] ∷ ps) = err invalid_amount
parts_of ((c ∷ w) ∷ []) = ok (c ∷ w, none)
parts_of ((c ∷ w) ∷ f ∷ []) =
    if length f == 0 || ltb 2 (length f) then err invalid_amount else ok (c ∷ w, some f)
parts_of ((c ∷ w) ∷ f ∷ p ∷ ps) = err invalid_amount

pub is_digits_or_absent : Option Text → Bool
unfolding ascii_digits
is_digits_or_absent none = true
is_digits_or_absent (some f) = ascii_digits f

-- One digit of the fraction counts tenths: `fractionText += "0"`.
pub fraction_of : Option Text → Fallible ℤ
fraction_of none = ok (pos 0)
fraction_of (some f) =
    or_fail (parse_int64 (if length f == 1 then f ++ b'0' ∷ [] else f)) invalid_amount

-- The end of `ParseBRL`, from the two numbers on. `whole` is not negative there, nor is
-- `fraction`, so both are used as naturals; the sum is computed in 64 bits.
unfoldable pub finish : ℤ → ℤ → Fallible Money
unfolding new_money
finish whole fraction =
    if ltb ((max_int64 - pos_part fraction) / 100) (pos_part whole)
    then err invalid_amount
    else new_money (wrap_int64 (pos_part whole * 100 + pos_part fraction)) currency_brl

pub from_parts : Text × Option Text → Fallible Money
unfolding is_digits_or_absent fraction_of finish
from_parts (w, f) = do
  fail_if (not (ascii_digits w) || not (is_digits_or_absent f)) invalid_amount
  whole ← or_fail (parse_int64 w) invalid_amount
  fail_if (ltb_ℤ whole (pos 0)) invalid_amount
  fraction ← fraction_of f
  finish whole fraction

-- `ParseBRL`
unfoldable pub parse_brl : Text → Fallible Money
unfolding from_parts parts_of
parse_brl value = do
  fail_if (text_eq value [] || has_prefix b'+' value || has_prefix b'-' value) invalid_amount
  parts ← parts_of (split b'.' value)
  from_parts parts

-- `-n`, for the remainder of a negative amount
abbrev negated : ℕ → ℤ
negated zero = pos 0
negated (suc n) = negsuc n

print_minor : ℤ → Text
print_minor (pos n) = print_nat (n / 100) ++ b'.' ∷ pad2 (print_nat (n % 100))
print_minor (negsuc k) =
    let n = suc k in print_int (negated (n / 100)) ++ b'.' ∷ pad2 (print_int (negated (n % 100)))

-- `(m Money) String()`: Go's `/` and `%` round towards zero.
unfoldable pub to_text : Money → Text
unfolding print_minor
to_text m = print_minor m.minor
