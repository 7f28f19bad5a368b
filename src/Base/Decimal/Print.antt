-- ===== src/Base/Decimal/Print.antt =====
-- What `%d` and `%02d` print.
use keyrus.Base.{ℕ, zero, suc, ◌+◌, ◌/◌, ◌%◌, ◌<◌, ◌≡◌, refl, ◌≢◌, [], ◌∷◌, arith}
use keyrus.Base.Text.{Text}
use keyrus.Base.Decimal.{
  to_digits, print_nat, pad2, pad4, scan, scan-to_digits, scan-IsDigits, value, print_nat-IsDigits,
}

-- A printed number reads back as itself.
pub value-print_nat : (n : ℕ) → value (print_nat n) ≡ n
unfolding print_nat scan
value-print_nat n = ground (
  arith,
  scan-to_digits (suc n) n [] (omega arith),
  scan-IsDigits 0 (print_nat n) (print_nat-IsDigits n),
)

to_digits-ne-nil : (fuel n : ℕ) (out : Text) → n < fuel → to_digits fuel n out ≢ []
unfolding to_digits
to_digits-ne-nil zero n out h = elim h [ ]
to_digits-ne-nil (suc fuel) n out h =
    ground (arith, to_digits-ne-nil fuel (n / 10) ((b'0' + n % 10) ∷ out))

pub print_nat-ne-nil : (n : ℕ) → print_nat n ≢ []
unfolding print_nat
print_nat-ne-nil n = to_digits-ne-nil (suc n) n [] (omega arith)

-- Two digits are printed for every number below a hundred.
pub pad2-print_nat : (n : ℕ) → n < 100 → pad2 (print_nat n) ≡ (b'0' + n / 10) ∷ (b'0' + n % 10) ∷ []
unfolding pad2 print_nat to_digits
pad2-print_nat zero h = refl
pad2-print_nat (suc k) h = ground arith

-- Four digits are printed for every number below ten thousand.
pub pad4-print_nat :
    (n : ℕ)
    → n < 10000
    → pad4 (print_nat n)
      ≡ (b'0' + n / 1000) ∷ (b'0' + n / 100 % 10) ∷ (b'0' + n / 10 % 10) ∷ (b'0' + n % 10) ∷ []
unfolding print_nat to_digits
pad4-print_nat zero h = refl
pad4-print_nat (suc zero) h = refl
pad4-print_nat (suc (suc zero)) h = refl
pad4-print_nat (suc (suc (suc k))) h = ground arith
