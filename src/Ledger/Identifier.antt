-- ===== src/Ledger/Identifier.antt =====
-- services/ledger/internal/domain/id.go: identifiers in the shape of a UUID.
pub mod Parse
pub mod Generate
use Prim.Native.Nat.{bit_and, bit_or}
use keyrus.Base.{
  ℕ, ◌+◌, ◌/◌, ◌%◌, ◌^◌, Bool, not, ◌&&◌, ◌||◌, Option, none, some, List, [], ◌∷◌, ◌++◌, ◌==◌,
  if◌then◌else◌, length, all, slice, ok, err, Result,
}
use keyrus.Base.Text.{Text}
use keyrus.Base.Hex.{decode, print_bytes, hex_digit}
use keyrus.Base.Pattern.{byte_at}
use keyrus.Ledger.Errors.{Error, Fallible, invalid_id, no_entropy}

abbrev pub EntryId : Type 0
EntryId = Text

abbrev pub is_zero_bytes : List ℕ → Bool
is_zero_bytes = all (λ b. b == 0)

-- the tests behind `hex.DecodeString`
pub accept_bytes : Text → Option (List ℕ) → Fallible EntryId
accept_bytes value none = err invalid_id
accept_bytes value (some decoded) =
    if not (length decoded == 16)
    then err invalid_id
    else if is_zero_bytes decoded
    then err invalid_id
    else ok value

-- the text without its dashes
abbrev pub compact : Text → Text
compact value =
    slice 0 8 value
    ++ (slice 9 13 value ++ (slice 14 18 value ++ (slice 19 23 value ++ slice 24 36 value)))

-- `ParseID`
unfoldable pub parse_id : Text → Fallible EntryId
unfolding accept_bytes
parse_id value =
    if not (length value == 36)
      || (not (byte_at value 8 == b'-')
          || (not (byte_at value 13 == b'-')
              || (not (byte_at value 18 == b'-') || not (byte_at value 23 == b'-'))))
    then err invalid_id
    else accept_bytes value (decode (compact value))

-- `[16]byte`
pub record Raw : Type 0 where
  pub b0 : ℕ
  pub b1 : ℕ
  pub b2 : ℕ
  pub b3 : ℕ
  pub b4 : ℕ
  pub b5 : ℕ
  pub b6 : ℕ
  pub b7 : ℕ
  pub b8 : ℕ
  pub b9 : ℕ
  pub b10 : ℕ
  pub b11 : ℕ
  pub b12 : ℕ
  pub b13 : ℕ
  pub b14 : ℕ
  pub b15 : ℕ

-- Bytes 0 to 5 are the time, byte 6 begins with the version and byte 8 with the variant.
unfoldable pub stamp : ℕ → Raw → Raw
stamp millis raw = record raw {
  b0 = millis / 2 ^ 40 % 256;
  b1 = millis / 2 ^ 32 % 256;
  b2 = millis / 2 ^ 24 % 256;
  b3 = millis / 2 ^ 16 % 256;
  b4 = millis / 2 ^ 8 % 256;
  b5 = millis % 256;
  b6 = bit_or (bit_and raw.b6 0x0f) 0x70;
  b8 = bit_or (bit_and raw.b8 0x3f) 0x80;
}

-- `%08x-%04x-%04x-%04x-%012x` on the five slices
unfoldable pub uuid_text : Raw → Text
unfolding hex_digit
uuid_text r =
    print_bytes (r.b0 ∷ r.b1 ∷ r.b2 ∷ r.b3 ∷ [])
    ++ (b'-' ∷ print_bytes (r.b4 ∷ r.b5 ∷ [])
        ++ (b'-' ∷ print_bytes (r.b6 ∷ r.b7 ∷ [])
            ++ (b'-' ∷ print_bytes (r.b8 ∷ r.b9 ∷ [])
                ++ (b'-' ∷ print_bytes (r.b10 ∷ r.b11 ∷ r.b12 ∷ r.b13 ∷ r.b14 ∷ r.b15 ∷ [])))))

-- `NewUUIDv7` at a time in milliseconds of Unix and with what `rand.Read` filled in; `none` is its
-- failure.
unfoldable pub new_uuid_v7 : ℕ → Option Raw → Fallible EntryId
unfolding stamp uuid_text
new_uuid_v7 millis none = err no_entropy
new_uuid_v7 millis (some raw) = ok (uuid_text (stamp millis raw))
