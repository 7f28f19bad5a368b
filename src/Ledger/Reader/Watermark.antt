-- ===== src/Ledger/Reader/Watermark.antt =====
-- What the position of a merchant says of its entries.
use keyrus.Base.{ℕ, zero, suc, ◌≡◌, refl, ◌∙◌, ap, length, ok, arith}
use keyrus.Base.Text.{Text, lower}
use keyrus.Ledger.Identifier.{EntryId}
use keyrus.Ledger.Tables.{Tables}
use keyrus.Ledger.Store.{last_position}
use keyrus.Ledger.Service.{parse_merchant}
use keyrus.Ledger.Service.Invariant.{IsConsistent, positions_of, countdown}
use keyrus.Ledger.Reader.{source_position_of}

length-countdown : (n : ℕ) → length (countdown n) ≡ n
length-countdown zero = refl
length-countdown (suc n) = ap suc (length-countdown n)

-- In consistent tables, the position that `SourcePosition` reports for a merchant is the number of
-- its entries.
pub source_position_counts :
    (merchant_text : Text) (merchant : EntryId) (position : ℕ) (t : Tables)
    → IsConsistent t
    → parse_merchant merchant_text ≡ ok merchant
    → source_position_of merchant_text t ≡ ok position
    → length (positions_of (lower merchant) t.entries) ≡ position
unfolding source_position_of
source_position_counts merchant_text merchant position t c named h =
    let answer : last_position (lower merchant) t.positions ≡ position = ground (arith, named, h) in
    ap length (c.contiguous (lower merchant))
    ∙ length-countdown (last_position (lower merchant) t.positions)
    ∙ answer
