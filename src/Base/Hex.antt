-- ===== src/Base/Hex.antt =====
-- Hexadecimal text: `encoding/hex.DecodeString` and the verb `%x` on bytes.
use keyrus.Base.{
  ℕ, ◌+◌, ◌-◌, ◌*◌, ◌/◌, ◌%◌, ◌<◌, ◌≡◌, refl, ◌≢◌, zero, suc, Bool, true, ◌&&◌, ◌||◌, Option, none,
  some, List, [], ◌∷◌, arith, ltb, leb, ◌==◌, if◌then◌else◌, length, all, All,
}
use keyrus.Base.Text.{Text, is_digit}

-- the value of a hexadecimal digit of either case
unfoldable pub hex_value : ℕ → Option ℕ
hex_value c =
    if is_digit c
    then some (c - b'0')
    else if leb b'a' c && leb c b'f'
    then some (c - b'a' + 10)
    else if leb b'A' c && leb c b'F'
    then some (c - b'A' + 10)
    else none

-- the byte of two digits, before the bytes that follow
abbrev push_byte : Option ℕ → Option ℕ → Option (List ℕ) → Option (List ℕ)
push_byte (some h) (some l) (some bytes) = some ((h * 16 + l) ∷ bytes)
push_byte _ _ _ = none

-- `hex.DecodeString`: it fails on an odd length and on a byte that is no digit.
unfoldable pub decode : Text → Option (List ℕ)
unfolding hex_value
decode [] = some []
decode (h ∷ []) = none
decode (h ∷ l ∷ s) = push_byte (hex_value h) (hex_value l) (decode s)

-- the lower-case digit of a value below sixteen
unfoldable pub hex_digit : ℕ → ℕ
hex_digit v = if ltb v 10 then b'0' + v else b'a' + v - 10

-- `%02x` of one byte
abbrev pub print_byte : ℕ → Text
print_byte b = hex_digit (b / 16) ∷ hex_digit (b % 16) ∷ []

-- `%x` of bytes
abbrev pub print_bytes : List ℕ → Text
print_bytes [] = []
print_bytes (b ∷ bs) = hex_digit (b / 16) ∷ hex_digit (b % 16) ∷ print_bytes bs

-- `[0-9a-f]`
abbrev pub is_lower_hex : ℕ → Bool
is_lower_hex c = is_digit c || (leb b'a' c && leb c b'f')

-- `[0-9a-fA-F]`
abbrev pub is_hex : ℕ → Bool
is_hex c = is_digit c || ((leb b'a' c && leb c b'f') || (leb b'A' c && leb c b'F'))

pub hex_value-hex_digit : (v : ℕ) → v < 16 → hex_value (hex_digit v) ≡ some v
unfolding hex_value hex_digit
hex_value-hex_digit v h = ground arith

pub hex_digit-is_lower_hex : (v : ℕ) → v < 16 → is_lower_hex (hex_digit v) ≡ true
unfolding hex_digit
hex_digit-is_lower_hex v h = ground arith

pub is_lower_hex-is_hex : (c : ℕ) → is_lower_hex c ≡ true → is_hex c ≡ true
is_lower_hex-is_hex c h = ground arith

pub hex_value-is_hex : (c : ℕ) {v : ℕ} → hex_value c ≡ some v → is_hex c ≡ true
unfolding hex_value
hex_value-is_hex c h = ground arith

pub is_hex-hex_value : (c : ℕ) → is_hex c ≡ true → hex_value c ≢ none
unfolding hex_value
is_hex-hex_value c h = ground arith

pub decode-print_bytes : (bs : List ℕ) → All (λ b. b < 256) bs → decode (print_bytes bs) ≡ some bs
unfolding decode
decode-print_bytes [] h = refl
decode-print_bytes (b ∷ bs) h = ground (
  arith,
  hex_value-hex_digit (b / 16) (omega arith),
  hex_value-hex_digit (b % 16) (omega arith),
  decode-print_bytes bs h.1,
)

-- The all-zero value, as a value of digits.
pub hex_value-zero : (c : ℕ) {v : ℕ} → hex_value c ≡ some v → (v == 0) ≡ (c == b'0')
unfolding hex_value
hex_value-zero c h = ground arith

push_byte-eq-some :
    (o q : Option ℕ) (r : Option (List ℕ)) {bs : List ℕ}
    → push_byte o q r ≡ some bs
    → (v w : ℕ) × (cs : List ℕ) × (o ≡ some v)
      × (q ≡ some w)
      × (r ≡ some cs)
      × (bs ≡ (v * 16 + w) ∷ cs)
push_byte-eq-some none q r e = cc
push_byte-eq-some (some v) none r e = cc
push_byte-eq-some (some v) (some w) none e = cc
push_byte-eq-some (some v) (some w) (some cs) e = (v, w, cs, refl, refl, refl, cc)

-- The digits spell the bytes: as many pairs as bytes, and all of them zero where the bytes are.
abbrev pub Spells : Text → List ℕ → Type 0
Spells s bs =
    (all is_hex s ≡ true)
    × (length s ≡ 2 * length bs)
    × (all (λ b. b == 0) bs ≡ all (λ c. c == b'0') s)

Spells-cons :
    (h l : ℕ) (s : Text) (v w : ℕ) (cs : List ℕ)
    → hex_value h ≡ some v
    → hex_value l ≡ some w
    → Spells s cs
    → Spells (h ∷ l ∷ s) ((v * 16 + w) ∷ cs)
Spells-cons h l s v w cs eh el (a, len, z) = (
  ground (arith, hex_value-is_hex h eh, hex_value-is_hex l el),
  omega arith,
  rw (z, ← hex_value-zero h eh, ← hex_value-zero l el) (zero_pair v w (all (λ c. c == b'0') s)),
)
  where
    zero_pair : (v w : ℕ) (b : Bool) → ((v * 16 + w == 0) && b) ≡ ((v == 0) && ((w == 0) && b))
    zero_pair v w b = ground arith

pub decode_sound : (s : Text) (bs : List ℕ) → decode s ≡ some bs → Spells s bs
unfolding decode
decode_sound [] bs e = ground arith
decode_sound (h ∷ []) bs e = cc
decode_sound (h ∷ l ∷ s) bs e =
    let (v, w, cs, ev, ew, ec, eq) = push_byte-eq-some (hex_value h) (hex_value l) (decode s) e in
    rw eq (Spells-cons h l s v w cs ev ew (decode_sound s cs ec))

-- Every text of digit pairs is decoded.
pub decode_complete : (k : ℕ) (s : Text) → length s ≡ 2 * k → all is_hex s ≡ true → decode s ≢ none
unfolding decode
decode_complete zero [] len h = ground arith
decode_complete zero (c ∷ s) len h = absurd (omega arith)
decode_complete (suc k) [] len h = absurd (omega arith)
decode_complete (suc k) (c ∷ []) len h = absurd (omega arith)
decode_complete (suc k) (c ∷ d ∷ s) len h =
    ground (arith, is_hex-hex_value c, is_hex-hex_value d, decode_complete k s (omega arith))
