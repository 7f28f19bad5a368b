-- ===== src/Ledger/Identifier/Generate.antt =====
-- The identifiers that `NewUUIDv7` makes.
use Prim.Native.Nat.{bit_and, bit_or}
use keyrus.Base.{
  ℕ, zero, suc, ◌+◌, ◌/◌, ◌%◌, ◌≤◌, ◌<◌, ◌≡◌, refl, Bool, true, false, ◌&&◌, ◌||◌, some, List, [],
  ◌∷◌, ◌++◌, arith, leb, ◌==◌, ==_iff, length, All, all-eq-false, ok,
}
use keyrus.Base.Text.{Text}
use keyrus.Base.Hex.{
  hex_digit, hex_digit-is_lower_hex, is_hex, is_lower_hex, is_lower_hex-is_hex, print_bytes,
}
use keyrus.Base.Pattern.{
  Pattern, matches, times, is_dash, Stricter, Stricter-times, matches-Stricter,
}
use keyrus.Ledger.Identifier.{EntryId, Raw, stamp, uuid_text, new_uuid_v7, parse_id}
use keyrus.Ledger.Identifier.Parse.{id_pattern, is_nil, parse_id_lem}

-- `[89ab]`
abbrev pub is_variant : ℕ → Bool
is_variant c = (leb b'8' c && leb c b'9') || (leb b'a' c && leb c b'b')

-- `[0-9a-f]{8}-[0-9a-f]{4}-7[0-9a-f]{3}-[89ab][0-9a-f]{3}-[0-9a-f]{12}`: a version 7 UUID in
-- lower case
abbrev pub v7_pattern : Pattern
v7_pattern = times 8 is_lower_hex (
    is_dash
    ∷ times 4 is_lower_hex (
        is_dash
        ∷ (λ c. c == b'7')
        ∷ times 3 is_lower_hex
            (is_dash ∷ is_variant ∷ times 3 is_lower_hex (is_dash ∷ times 12 is_lower_hex []))))

holds_to : (ℕ → Bool) → ℕ → Bool
holds_to test zero = true
holds_to test (suc k) = holds_to test k && test k

-- a test of all the smaller numbers, by evaluation
holds_below : (test : ℕ → Bool) (k byte : ℕ) → byte < k → holds_to test k ≡ true → test byte ≡ true
unfolding holds_to
holds_below test zero byte small held = absurd (omega arith)
holds_below test (suc k) byte small held = ground (arith, holds_below test k byte)

version_bits : (byte : ℕ) → byte < 256 → bit_or (bit_and byte 0x0f) 0x70 ≡ 112 + byte % 16
version_bits byte small =
    let checked = holds_below (λ b. bit_or (bit_and b 0x0f) 0x70 == 112 + b % 16) 256 byte small in
    (==_iff _ _).0 (checked (unfold holds_to in refl))

variant_bits : (byte : ℕ) → byte < 256 → bit_or (bit_and byte 0x3f) 0x80 ≡ 128 + byte % 64
variant_bits byte small =
    let checked = holds_below (λ b. bit_or (bit_and b 0x3f) 0x80 == 128 + b % 64) 256 byte small in
    (==_iff _ _).0 (checked (unfold holds_to in refl))

-- the fields of a Go array of bytes are below 256
pub record IsBytes (r : Raw) : Type 0 where
  pub at0 : (r.b0 < 256) × (r.b1 < 256) × (r.b2 < 256) × (r.b3 < 256)
  pub at4 : (r.b4 < 256) × (r.b5 < 256) × (r.b6 < 256) × (r.b7 < 256)
  pub at8 : (r.b8 < 256) × (r.b9 < 256) × (r.b10 < 256) × (r.b11 < 256)
  pub at12 : (r.b12 < 256) × (r.b13 < 256) × (r.b14 < 256) × (r.b15 < 256)

abbrev double : ℕ → ℕ
double zero = zero
double (suc n) = suc (suc (double n))

-- bytes are printed as two digits each
matches-print_bytes :
    (bs : List ℕ) (ps : Pattern) (rest : Text)
    → All (λ b. b < 256) bs
    → matches ps rest ≡ true
    → matches (times (double (length bs)) is_lower_hex ps) (print_bytes bs ++ rest) ≡ true
unfolding matches
matches-print_bytes [] ps rest h m = m
matches-print_bytes (b ∷ bs) ps rest h m = ground (
  arith,
  hex_digit-is_lower_hex (b / 16) (omega arith),
  hex_digit-is_lower_hex (b % 16) (omega arith),
  matches-print_bytes bs ps rest h.1 m,
)

hex_digit-is_variant : (v : ℕ) → 8 ≤ v → v < 12 → is_variant (hex_digit v) ≡ true
unfolding hex_digit
hex_digit-is_variant v a b = ground arith

hex_digit_seven : hex_digit 7 ≡ b'7'
unfolding hex_digit
hex_digit_seven = refl

module _ (millis : ℕ) (r : Raw) (bytes : IsBytes r) where
  version_byte : (stamp millis r).b6 / 16 ≡ 7
  unfolding stamp
  version_byte = omega (arith, version_bits r.b6 bytes.at4.2)

  variant_byte : (8 ≤ (stamp millis r).b8 / 16) × ((stamp millis r).b8 / 16 < 12)
  unfolding stamp
  variant_byte = omega (arith, variant_bits r.b8 bytes.at8.0)

  stamp-IsBytes : IsBytes (stamp millis r)
  unfolding stamp
  stamp-IsBytes = omega (arith, version_bits r.b6 bytes.at4.2, variant_bits r.b8 bytes.at8.0)

-- the two digits in front of a group, read by a class for the first of them
matches_first :
    (p : ℕ → Bool) (b : ℕ) (ps : Pattern) (rest : Text)
    → b < 256
    → p (hex_digit (b / 16)) ≡ true
    → matches ps rest ≡ true
    → matches (p ∷ is_lower_hex ∷ ps) (print_bytes (b ∷ []) ++ rest) ≡ true
unfolding matches
matches_first p b ps rest h e m =
    ground (arith, hex_digit-is_lower_hex (b % 16) (omega arith), e, m)

matches_dash :
    (ps : Pattern) (rest : Text)
    → matches ps rest ≡ true
    → matches (is_dash ∷ ps) (b'-' ∷ rest) ≡ true
unfolding matches
matches_dash ps rest m = m

matches-uuid_text :
    (r : Raw)
    → IsBytes r
    → r.b6 / 16 ≡ 7
    → (8 ≤ r.b8 / 16) × (r.b8 / 16 < 12)
    → matches v7_pattern (uuid_text r) ≡ true
unfolding uuid_text
matches-uuid_text r h version (low, high) =
    matches-print_bytes (r.b0 ∷ r.b1 ∷ r.b2 ∷ r.b3 ∷ []) _ _ (omega arith) (
      matches_dash _ _ (
        matches-print_bytes (r.b4 ∷ r.b5 ∷ []) _ _ (omega arith) (
          matches_dash _ _ (
            matches_first (λ c. c == b'7') r.b6 _ _ (omega arith) (rw version)
              (matches-print_bytes (r.b7 ∷ []) _ _ (omega arith) (
                matches_dash _ _ (
                  matches_first is_variant r.b8 _ _ (omega arith)
                    (hex_digit-is_variant (r.b8 / 16) low high)
                    (matches-print_bytes (r.b9 ∷ []) _ _ (omega arith) (
                      matches_dash _ _ (
                        matches-print_bytes (r.b10 ∷ r.b11 ∷ r.b12 ∷ r.b13 ∷ r.b14 ∷ r.b15 ∷ []) []
                          [] (omega arith) (unfold matches in refl)))))))))))

not-is_nil : (r : Raw) → r.b6 / 16 ≡ 7 → is_nil (uuid_text r) ≡ false
unfolding uuid_text
not-is_nil r e =
    all-eq-false (λ c. c == b'0') (print_bytes (r.b0 ∷ r.b1 ∷ r.b2 ∷ r.b3 ∷ r.b4 ∷ r.b5 ∷ []))
      (hex_digit (r.b6 / 16))
      (hex_digit (r.b6 % 16)
        ∷ print_bytes (r.b7 ∷ r.b8 ∷ r.b9 ∷ r.b10 ∷ r.b11 ∷ r.b12 ∷ r.b13 ∷ r.b14 ∷ r.b15 ∷ []))
      (rw e)

-- Every identifier that the Ledger makes is a version 7 UUID in lower case.
pub new_uuid_v7-matches :
    (millis : ℕ) (r : Raw) {u : EntryId}
    → IsBytes r
    → new_uuid_v7 millis (some r) ≡ ok u
    → matches v7_pattern u ≡ true
unfolding new_uuid_v7
new_uuid_v7-matches millis r {u} h e =
    let made =
      matches-uuid_text (stamp millis r) (stamp-IsBytes millis r h) (version_byte millis r h)
        (variant_byte millis r h) in
    ground (arith, made)

is_variant-is_hex : (c : ℕ) → is_variant c ≡ true → is_hex c ≡ true
is_variant-is_hex c h = ground arith

seven-is_hex : (c : ℕ) → (c == b'7') ≡ true → is_hex c ≡ true
seven-is_hex c h = ground arith

dash_dash : (c : ℕ) → is_dash c ≡ true → is_dash c ≡ true
dash_dash c h = h

v7-Stricter-id : Stricter v7_pattern id_pattern
v7-Stricter-id =
    let l5 : Pattern = is_dash ∷ times 12 is_lower_hex [] in
    let h5 : Pattern = is_dash ∷ times 12 is_hex [] in
    let s5 : Stricter l5 h5 =
      (dash_dash, Stricter-times 12 is_lower_hex is_hex [] [] is_lower_hex-is_hex tt) in
    let l4 : Pattern = is_dash ∷ is_variant ∷ times 3 is_lower_hex l5 in
    let h4 : Pattern = is_dash ∷ times 4 is_hex h5 in
    let s4 : Stricter l4 h4 = (
      dash_dash,
      (is_variant-is_hex, Stricter-times 3 is_lower_hex is_hex l5 h5 is_lower_hex-is_hex s5),
    ) in
    let l3 : Pattern = is_dash ∷ (λ c. c == b'7') ∷ times 3 is_lower_hex l4 in
    let h3 : Pattern = is_dash ∷ times 4 is_hex h4 in
    let s3 : Stricter l3 h3 = (
      dash_dash,
      (seven-is_hex, Stricter-times 3 is_lower_hex is_hex l4 h4 is_lower_hex-is_hex s4),
    ) in
    let l2 : Pattern = is_dash ∷ times 4 is_lower_hex l3 in
    let h2 : Pattern = is_dash ∷ times 4 is_hex h3 in
    let s2 : Stricter l2 h2 =
      (dash_dash, Stricter-times 4 is_lower_hex is_hex l3 h3 is_lower_hex-is_hex s3) in
    Stricter-times 8 is_lower_hex is_hex l2 h2 is_lower_hex-is_hex s2

generated_not-is_nil :
    (millis : ℕ) (r : Raw) {u : EntryId}
    → IsBytes r
    → new_uuid_v7 millis (some r) ≡ ok u
    → is_nil u ≡ false
unfolding new_uuid_v7
generated_not-is_nil millis r {u} h e =
    let made = not-is_nil (stamp millis r) (version_byte millis r h) in ground (arith, made)

-- The Ledger reads back every identifier that it makes.
pub parse_id-new_uuid_v7 :
    (millis : ℕ) (r : Raw) {u : EntryId}
    → IsBytes r
    → new_uuid_v7 millis (some r) ≡ ok u
    → parse_id u ≡ ok u
parse_id-new_uuid_v7 millis r {u} h e = ground (
  arith,
  parse_id_lem u,
  generated_not-is_nil millis r h e,
  matches-Stricter v7_pattern id_pattern u v7-Stricter-id (new_uuid_v7-matches millis r h e),
)
