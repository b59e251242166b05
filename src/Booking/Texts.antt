-- ===== src/Booking/Texts.antt =====
-- The texts of the booking commands: idempotency keys and reasons
-- (apps/api/src/booking/booking-create.service.ts, booking-cancel.service.ts and
-- booking-reschedule.service.ts). Unicode's NFKC is a parameter.
use makeup_booking_system.Base.{
  ℕ, Bool, false, ◌&&◌, ◌||◌, Option, none, some, [], ◌∷◌, leb, ltb, ◌==◌, if◌then◌else◌, all,
  length, Result, ok, guard, throw_if, ◌>>◌,
}
use makeup_booking_system.Errors.{Error, booking_idempotency_key_invalid}
use makeup_booking_system.Database.{Text}
use makeup_booking_system.Access.{RoleCode, is_backoffice}
use makeup_booking_system.Shift.Definition.{is_empty}

-- The white space and the line ends of ECMAScript.
unfoldable pub is_space : ℕ → Bool
is_space c =
    (leb 9 c && leb c 13)
    || (c == 32)
    || (c == 160)
    || (c == 0x1680)
    || (leb 0x2000 c && leb c 0x200a)
    || (c == 0x2028)
    || (c == 0x2029)
    || (c == 0x202f)
    || (c == 0x205f)
    || (c == 0x3000)
    || (c == 0xfeff)

unfoldable pub trim_start : Text → Text
trim_start [] = []
trim_start (c ∷ cs) = let rest = trim_start cs in if is_space c then rest else c ∷ cs

unfoldable pub trim_end : Text → Text
trim_end [] = []
trim_end (c ∷ cs) = let rest = trim_end cs in if is_empty rest && is_space c then [] else c ∷ rest

-- `String.trim`
unfoldable pub trim : Text → Text
trim t = trim_end (trim_start t)

-- `[A-Za-z0-9]`
unfoldable pub is_alphanumeric : ℕ → Bool
is_alphanumeric c =
    (leb b'A' c && leb c b'Z') || (leb b'a' c && leb c b'z') || (leb b'0' c && leb c b'9')

-- `[A-Za-z0-9._:-]`
unfoldable pub is_key_unit : ℕ → Bool
is_key_unit c = is_alphanumeric c || (c == b'.') || (c == b'_') || (c == b':') || (c == b'-')

-- `IDEMPOTENCY_KEY_PATTERN`
unfoldable pub matches_key_pattern : Text → Bool
matches_key_pattern [] = false
matches_key_pattern (c ∷ cs) =
    is_alphanumeric c && leb 7 (length cs) && leb (length cs) 127 && all is_key_unit cs

module _ (nfkc : Text → Text) where
  unfoldable pub normalize_idempotency_key : Text → Result Text
  normalize_idempotency_key value =
      let normalized = trim (nfkc value) in
      guard (matches_key_pattern normalized) booking_idempotency_key_invalid >> ok normalized

  -- `value?.normalize('NFKC').trim()`, where the empty text counts as no text.
  unfoldable pub normalized_reason : Option Text → Option Text
  normalized_reason none = none
  normalized_reason (some value) =
      let result = trim (nfkc value) in if is_empty result then none else some result

  -- The test that `creationReason` and the two functions `reason` share.
  unfoldable pub reason_invalid : RoleCode → Option Text → Bool
  reason_invalid role none = is_backoffice role
  reason_invalid role (some result) = ltb 500 (length result)

  -- `creationReason` and the two functions `reason`, which differ in their error.
  unfoldable pub command_reason : Error → RoleCode → Option Text → Result (Option Text)
  command_reason error role value =
      let result = normalized_reason value in
      throw_if (reason_invalid role result) error >> ok result
