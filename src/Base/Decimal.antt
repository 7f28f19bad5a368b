-- ===== src/Base/Decimal.antt =====
-- Decimal text of the Go standard library: `%d`, `%02d`, `strconv.ParseInt(s, 10, 64)` and
-- `strings.Split`.
pub mod Print
pub mod Split
use keyrus.Base.{
  ℕ, zero, suc, ◌+◌, ◌-◌, ◌*◌, ◌/◌, ◌%◌, ◌^◌, ◌<◌, ◌≡◌, refl, Bool, true, false, Option, none, some,
  List, [], ◌∷◌, arith, ltb, leb, ◌==◌, if◌then◌else◌, length, All,
}
use keyrus.Base.Int.{ℤ, pos, negsuc, sub_ℕ, max_int64}
use keyrus.Base.Text.{Text, is_digit}

-- The digits of `n` before `out`; the fuel is above `n`, and `n / 10` falls below it again.
to_digits : ℕ → ℕ → Text → Text
to_digits zero n out = out
to_digits (suc fuel) n out =
    let rest = to_digits fuel (n / 10) ((b'0' + n % 10) ∷ out) in
    if ltb n 10 then (b'0' + n) ∷ out else rest

-- `%d` of a number that is not negative
unfoldable pub print_nat : ℕ → Text
unfolding to_digits
print_nat n = to_digits (suc n) n []

-- `%d`
unfoldable pub print_int : ℤ → Text
unfolding print_nat
print_int (pos n) = print_nat n
print_int (negsuc n) = b'-' ∷ print_nat (suc n)

-- the zero padding of `%02d`, to a width of two
unfoldable pub pad2 : Text → Text
pad2 t = if ltb (length t) 2 then b'0' ∷ t else t

-- the zero padding to a width of four
abbrev pub pad4 : Text → Text
pad4 t =
    if ltb (length t) 2
    then b'0' ∷ b'0' ∷ b'0' ∷ t
    else if ltb (length t) 3
    then b'0' ∷ b'0' ∷ t
    else if ltb (length t) 4
    then b'0' ∷ t
    else t

-- the number that digits spell after `n`, and nothing if a byte is no digit
unfoldable pub scan : ℕ → Text → Option ℕ
scan n [] = some n
scan n (c ∷ s) = let rest = scan (n * 10 + (c - b'0')) s in if is_digit c then rest else none

unfoldable pub parse_nat : Text → Option ℕ
unfolding scan
parse_nat [] = none
parse_nat (c ∷ s) = scan 0 (c ∷ s)

-- the range check of `ParseInt` at 64 bits
in_range : Bool → Option ℕ → Option ℤ
in_range negative none = none
in_range false (some n) = if leb n max_int64 then some (pos n) else none
in_range true (some n) = if leb n (max_int64 + 1) then some (sub_ℕ 0 n) else none

-- `strconv.ParseInt(s, 10, 64)`
unfoldable pub parse_int64 : Text → Option ℤ
unfolding parse_nat in_range
parse_int64 [] = none
parse_int64 (c ∷ s) =
    if c == b'-'
    then in_range true (parse_nat s)
    else if c == b'+'
    then in_range false (parse_nat s)
    else in_range false (parse_nat (c ∷ s))

abbrev cons_head : ℕ → List Text → List Text
cons_head c [] = (c ∷ []) ∷ []
cons_head c (p ∷ ps) = (c ∷ p) ∷ ps

-- `strings.Split(s, sep)` at a separator of one byte
unfoldable pub split : ℕ → Text → List Text
split sep [] = [] ∷ []
split sep (c ∷ s) = if c == sep then [] ∷ split sep s else cons_head c (split sep s)

-- The int64 that 64 bits stand for.
unfoldable pub wrap_int64 : ℕ → ℤ
wrap_int64 n = let w = n % 2 ^ 64 in if leb w max_int64 then pos w else negsuc (2 ^ 64 - w - 1)

-- The text has digits alone, as a predicate.
abbrev pub IsDigits : Text → Type 0
IsDigits = All (λ c. is_digit c ≡ true)

-- The number that digits spell after `n`.
abbrev pub value_from : ℕ → Text → ℕ
value_from n [] = n
value_from n (c ∷ s) = value_from (n * 10 + (c - b'0')) s

abbrev pub value : Text → ℕ
value = value_from 0

pub scan-IsDigits : (n : ℕ) (s : Text) → IsDigits s → scan n s ≡ some (value_from n s)
unfolding scan
scan-IsDigits n [] h = refl
scan-IsDigits n (c ∷ s) h = ground (arith, scan-IsDigits (n * 10 + (c - b'0')) s h.1)

scan-to_digits : (fuel n : ℕ) (out : Text) → n < fuel → scan 0 (to_digits fuel n out) ≡ scan n out
unfolding scan to_digits
scan-to_digits zero n out h = elim h [ ]
scan-to_digits (suc fuel) n out h =
    ground (arith, scan-to_digits fuel (n / 10) ((b'0' + n % 10) ∷ out))

to_digits-IsDigits : (fuel n : ℕ) (out : Text) → IsDigits out → IsDigits (to_digits fuel n out)
unfolding to_digits
to_digits-IsDigits zero n out h = h
to_digits-IsDigits (suc fuel) n out h =
    ground (arith, to_digits-IsDigits fuel (n / 10) ((b'0' + n % 10) ∷ out))

pub print_nat-IsDigits : (n : ℕ) → IsDigits (print_nat n)
unfolding print_nat
print_nat-IsDigits n = to_digits-IsDigits (suc n) n [] tt
