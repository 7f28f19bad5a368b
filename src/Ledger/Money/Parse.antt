-- ===== src/Ledger/Money/Parse.antt =====
-- `ParseBRL` reads the decimal amounts with at most two digits behind the point, exactly.
use keyrus.Base.{
  ℕ, ◌+◌, ◌-◌, ◌*◌, ◌/◌, ◌%◌, ◌≤◌, ◌<◌, ◌≡◌, refl, ◌≢◌, true, ◌&&◌, none, some, ◌∙◌, ap, [], ◌∷◌,
  ◌++◌, arith, ltb, leb, if◌then◌else◌, all, ok, err,
}
use keyrus.Base.Int.{pos, max_int64}
use keyrus.Base.Text.{Text, is_digit}
use keyrus.Base.Decimal.{
  print_nat, parse_int64, split, wrap_int64, IsDigits, value, scan-IsDigits, print_nat-IsDigits,
}
use keyrus.Base.Decimal.Print.{value-print_nat, print_nat-ne-nil, pad2-print_nat}
use keyrus.Base.Decimal.Split.{split-Lacks, split_at, IsDigits-Lacks}
use keyrus.Ledger.Errors.{Fallible, invalid_amount}
use keyrus.Ledger.Money.{Money, ascii_digits, fraction_of, finish, from_parts, parse_brl, to_text}

-- The text is a decimal amount of `n` cents.
pub data Denotes (s : Text) (n : ℕ) : Type 0 where
  whole : (w : Text) → w ≢ [] → IsDigits w → s ≡ w → n ≡ value w * 100 → Denotes s n
  tenths :
      (w : Text) (d : ℕ)
      → w ≢ []
      → IsDigits w
      → is_digit d ≡ true
      → s ≡ w ++ b'.' ∷ d ∷ []
      → n ≡ value w * 100 + (d - b'0') * 10
      → Denotes s n
  cents :
      (w : Text) (d e : ℕ)
      → w ≢ []
      → IsDigits w
      → is_digit d ≡ true
      → is_digit e ≡ true
      → s ≡ w ++ b'.' ∷ d ∷ e ∷ []
      → n ≡ value w * 100 + ((d - b'0') * 10 + (e - b'0'))
      → Denotes s n

pub all-IsDigits : (s : Text) → all is_digit s ≡ true → IsDigits s
all-IsDigits [] h = tt
all-IsDigits (c ∷ s) h = ground (arith, all-IsDigits s)

IsDigits-all : (s : Text) → IsDigits s → all is_digit s ≡ true
IsDigits-all [] h = refl
IsDigits-all (c ∷ s) h = ground (arith, IsDigits-all s h.1)

ascii_digits-eq-true : (c : ℕ) (s : Text) → IsDigits (c ∷ s) → ascii_digits (c ∷ s) ≡ true
unfolding ascii_digits
ascii_digits-eq-true c s h = IsDigits-all (c ∷ s) h

parse_int64-IsDigits :
    (c : ℕ) (s : Text)
    → IsDigits (c ∷ s)
    → parse_int64 (c ∷ s)
      ≡ (if leb (value (c ∷ s)) max_int64 then some (pos (value (c ∷ s))) else none)
unfolding parse_int64
parse_int64-IsDigits c s h = ground (arith, scan-IsDigits 0 (c ∷ s) h)

-- The amount `n` if it is positive and fits an int64.
abbrev pub amount_or_error : ℕ → Fallible Money
amount_or_error n =
    if leb n max_int64 && ltb 0 n then ok (record { minor = pos n }) else err invalid_amount

finish_lem : (w f : ℕ) → f < 100 → finish (pos w) (pos f) ≡ amount_or_error (w * 100 + f)
unfolding finish wrap_int64
finish_lem w f h = ground arith

pub fraction_one :
    (d : ℕ) → is_digit d ≡ true → fraction_of (some (d ∷ [])) ≡ ok (pos ((d - b'0') * 10))
unfolding fraction_of parse_int64
fraction_one d h = ground arith

pub fraction_two :
    (d e : ℕ)
    → is_digit d ≡ true
    → is_digit e ≡ true
    → fraction_of (some (d ∷ e ∷ [])) ≡ ok (pos ((d - b'0') * 10 + (e - b'0')))
unfolding fraction_of parse_int64
fraction_two d e hd he = ground arith

module _ (c : ℕ) (w : Text) (digits : IsDigits (c ∷ w)) where
  pub from_parts_whole : from_parts (c ∷ w, none) ≡ amount_or_error (value (c ∷ w) * 100)
  unfolding from_parts ascii_digits fraction_of
  from_parts_whole =
      let v = value (c ∷ w) in
      ground (
        arith,
        IsDigits-all (c ∷ w) digits,
        parse_int64-IsDigits c w digits,
        finish_lem v 0 (omega arith),
      )

  pub from_parts_fraction :
      (d : ℕ) (f : Text) (k : ℕ)
      → IsDigits (d ∷ f)
      → k < 100
      → fraction_of (some (d ∷ f)) ≡ ok (pos k)
      → from_parts (c ∷ w, some (d ∷ f)) ≡ amount_or_error (value (c ∷ w) * 100 + k)
  unfolding from_parts ascii_digits
  from_parts_fraction d f k hf lt e =
      let v = value (c ∷ w) in
      ground (
        arith,
        IsDigits-all (c ∷ w) digits,
        IsDigits-all (d ∷ f) hf,
        parse_int64-IsDigits c w digits,
        finish_lem v k lt,
        e,
      )

-- the three spellings, read by `ParseBRL`
module _ (c : ℕ) (w : Text) (digits : IsDigits (c ∷ w)) where
  parse_whole : parse_brl (c ∷ w) ≡ amount_or_error (value (c ∷ w) * 100)
  unfolding parse_brl
  parse_whole = ground (
    arith,
    split-Lacks b'.' (c ∷ w) (IsDigits-Lacks b'.' (c ∷ w) refl digits),
    from_parts_whole c w digits,
  )

  split_fraction : (f : Text) → IsDigits f → split b'.' (c ∷ w ++ b'.' ∷ f) ≡ (c ∷ w) ∷ f ∷ []
  split_fraction f hf =
      split_at b'.' (c ∷ w) f (IsDigits-Lacks b'.' (c ∷ w) refl digits)
      ∙ ap (λ ps. (c ∷ w) ∷ ps) (split-Lacks b'.' f (IsDigits-Lacks b'.' f refl hf))

  parse_one :
      (d : ℕ)
      → is_digit d ≡ true
      → parse_brl (c ∷ w ++ b'.' ∷ d ∷ []) ≡ amount_or_error (value (c ∷ w) * 100 + (d - b'0') * 10)
  unfolding parse_brl
  parse_one d hd = ground (
    arith,
    split_fraction (d ∷ []) (hd, tt),
    from_parts_fraction c w digits d [] ((d - b'0') * 10) (hd, tt) (ground (arith, hd))
        (fraction_one d hd),
  )

  parse_two :
      (d e : ℕ)
      → is_digit d ≡ true
      → is_digit e ≡ true
      → parse_brl (c ∷ w ++ b'.' ∷ d ∷ e ∷ [])
        ≡ amount_or_error (value (c ∷ w) * 100 + ((d - b'0') * 10 + (e - b'0')))
  unfolding parse_brl
  parse_two d e hd he = ground (
    arith,
    split_fraction (d ∷ e ∷ []) (hd, (he, tt)),
    from_parts_fraction c w digits d (e ∷ []) ((d - b'0') * 10 + (e - b'0')) (hd, (he, tt))
        (ground (arith, hd, he)) (fraction_two d e hd he),
  )

-- What a spelling of `n` cents parses to.
parse-Denotes : (s : Text) (n : ℕ) → Denotes s n → parse_brl s ≡ amount_or_error n
parse-Denotes s n (whole [] ne d e v) = absurd (ne refl)
parse-Denotes s n (whole (c ∷ w) ne d e v) = rw (e, v) (parse_whole c w d)
parse-Denotes s n (tenths [] d ne dw hd e v) = absurd (ne refl)
parse-Denotes s n (tenths (c ∷ w) d ne dw hd e v) = rw (e, v) (parse_one c w dw d hd)
parse-Denotes s n (cents [] d f ne dw hd hf e v) = absurd (ne refl)
parse-Denotes s n (cents (c ∷ w) d f ne dw hd hf e v) = rw (e, v) (parse_two c w dw d f hd hf)

-- Every decimal spelling of a positive amount that fits an int64 is read as that amount.
pub parse_brl_complete :
    (s : Text) (n : ℕ)
    → Denotes s n
    → 0 < n
    → n ≤ max_int64
    → parse_brl s ≡ ok (record { minor = pos n })
parse_brl_complete s n d p le = parse-Denotes s n d ∙ ground arith

-- The text of every positive amount is read back as that amount.
pub parse_brl-to_text :
    (n : ℕ)
    → 0 < n
    → n ≤ max_int64
    → parse_brl (to_text (record { minor = pos n })) ≡ ok (record { minor = pos n })
unfolding to_text
parse_brl-to_text n p le =
    parse_brl_complete _ n
      (cents (print_nat (n / 100)) (b'0' + n % 100 / 10) (b'0' + n % 100 % 10)
        (print_nat-ne-nil (n / 100)) (print_nat-IsDigits (n / 100)) (ground arith) (ground arith)
        (ap (λ t. print_nat (n / 100) ++ b'.' ∷ t) (pad2-print_nat (n % 100) (omega arith)))
        (rw value-print_nat (omega arith)))
      p le
