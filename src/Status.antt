-- ===== src/Status.antt =====
-- cppboot/base/status.h and status.cc. `StatusCode` is an `enum class` over `int`, so it is a
-- number here. A `Status` is its `state_`: none for success, else the array with the length of the
-- message in four bytes, the code in one, and the message.
pub mod Errno
pub mod Format
pub mod Laws
use altas.Prelude.{
  ◌-◌, ℕ, ◌+◌, ◌%◌, ◌≡◌, Bool, true, false, not, List, [], ◌∷◌, ◌++◌, Option, none, some, Bytes,
  codes, is_empty, length, get_or, take, drop, if◌then◌else◌, ◌==◌, ltb,
}
use altas.Words.{u32_mod, u32_to_bytes, u32_at}

abbrev pub StatusCode : Type 0
StatusCode = ℕ

abbrev pub k_ok : StatusCode
k_ok = 0

abbrev pub k_cancelled : StatusCode
k_cancelled = 1

abbrev pub k_unknown : StatusCode
k_unknown = 2

abbrev pub k_invalid_argument : StatusCode
k_invalid_argument = 3

abbrev pub k_deadline_exceeded : StatusCode
k_deadline_exceeded = 4

abbrev pub k_not_found : StatusCode
k_not_found = 5

abbrev pub k_already_exists : StatusCode
k_already_exists = 6

abbrev pub k_permission_denied : StatusCode
k_permission_denied = 7

abbrev pub k_resource_exhausted : StatusCode
k_resource_exhausted = 8

abbrev pub k_failed_precondition : StatusCode
k_failed_precondition = 9

abbrev pub k_aborted : StatusCode
k_aborted = 10

abbrev pub k_out_of_range : StatusCode
k_out_of_range = 11

abbrev pub k_unimplemented : StatusCode
k_unimplemented = 12

abbrev pub k_internal : StatusCode
k_internal = 13

abbrev pub k_unavailable : StatusCode
k_unavailable = 14

unfoldable pub status_code_to_string : StatusCode → Bytes
status_code_to_string c =
    if c == k_ok
    then codes "OK"
    else if c == k_cancelled
    then codes "CANCELLED"
    else if c == k_unknown
    then codes "UNKNOWN"
    else if c == k_deadline_exceeded
    then codes "DEADLINE_EXCEEDED"
    else if c == k_invalid_argument
    then codes "INVALID_ARGUMENT"
    else if c == k_not_found
    then codes "NOT_FOUND"
    else if c == k_already_exists
    then codes "ALREADY_EXISTS"
    else if c == k_permission_denied
    then codes "PERMISSION_DENIED"
    else if c == k_resource_exhausted
    then codes "RESOURCE_EXHAUSTED"
    else if c == k_failed_precondition
    then codes "FAILED_PRECONDITION"
    else if c == k_aborted
    then codes "ABORTED"
    else if c == k_out_of_range
    then codes "OUT_OF_RANGE"
    else if c == k_unimplemented
    then codes "UNIMPLEMENTED"
    else if c == k_internal
    then codes "INTERNAL"
    else if c == k_unavailable
    then codes "UNAVAILABLE"
    else []

pub record Status : Type 0 where
  pub state : Option Bytes

unfoldable pub ok_status : Status
ok_status = record { state = none }

-- `Status(StatusCode code, string_view msg)`, past its assertion that the code is not `kOk`.
unfoldable pub new_status : StatusCode → Bytes → Status
new_status c msg =
    let size = length msg % u32_mod in
    record { state = some (u32_to_bytes size ++ ((c % 256) ∷ take size msg)) }

-- `static_cast<StatusCode>` of a char, which is signed: a byte above 127 is negative, here as the
-- bit pattern of 32 bits.
char_to_code : ℕ → StatusCode
char_to_code b = if ltb b 128 then b else u32_mod - 256 + b

-- `code()` of the state array.
code_of : Option Bytes → StatusCode
unfolding char_to_code
code_of none = k_ok
code_of (some s) = char_to_code (get_or s 4 0)

unfoldable pub code : Status → StatusCode
unfolding code_of
code s = code_of s.state

is_null : Option Bytes → Bool
is_null none = true
is_null (some s) = false

unfoldable pub ok : Status → Bool
unfolding is_null
ok s = is_null s.state

message_of : Option Bytes → Bytes
message_of none = []
message_of (some s) = let n = u32_at 0 s in if ltb 0 n then take n (drop 5 s) else []

unfoldable pub message : Status → Bytes
unfolding message_of
message s = message_of s.state

-- `ToString` and `ToStringSlow`
unfoldable pub to_string : Status → Bytes
to_string s =
    if ok s
    then codes "OK"
    else let r = status_code_to_string (code s) in
      if is_empty (message s) then r else r ++ (codes ": " ++ message s)

-- `Update`: the first error is kept.
unfoldable pub update : Status → Status → Status
update s t = if ok s then t else s

unfoldable pub is_cancelled : Status → Bool
is_cancelled s = code s == k_cancelled

unfoldable pub is_unknown : Status → Bool
is_unknown s = code s == k_unknown

unfoldable pub is_deadline_exceeded : Status → Bool
is_deadline_exceeded s = code s == k_deadline_exceeded

unfoldable pub is_invalid_argument : Status → Bool
is_invalid_argument s = code s == k_invalid_argument

unfoldable pub is_not_found : Status → Bool
is_not_found s = code s == k_not_found

unfoldable pub is_already_exists : Status → Bool
is_already_exists s = code s == k_already_exists

unfoldable pub is_permission_denied : Status → Bool
is_permission_denied s = code s == k_permission_denied

unfoldable pub is_resource_exhausted : Status → Bool
is_resource_exhausted s = code s == k_resource_exhausted

unfoldable pub is_failed_precondition : Status → Bool
is_failed_precondition s = code s == k_failed_precondition

unfoldable pub is_aborted : Status → Bool
is_aborted s = code s == k_aborted

unfoldable pub is_out_of_range : Status → Bool
is_out_of_range s = code s == k_out_of_range

unfoldable pub is_unimplemented : Status → Bool
is_unimplemented s = code s == k_unimplemented

unfoldable pub is_internal : Status → Bool
is_internal s = code s == k_internal

unfoldable pub is_unavailable : Status → Bool
is_unavailable s = code s == k_unavailable

unfoldable pub cancelled_error : Bytes → Status
cancelled_error = new_status k_cancelled

unfoldable pub unknown_error : Bytes → Status
unknown_error = new_status k_unknown

unfoldable pub deadline_exceeded_error : Bytes → Status
deadline_exceeded_error = new_status k_deadline_exceeded

unfoldable pub invalid_argument_error : Bytes → Status
invalid_argument_error = new_status k_invalid_argument

unfoldable pub not_found_error : Bytes → Status
not_found_error = new_status k_not_found

unfoldable pub already_exists_error : Bytes → Status
already_exists_error = new_status k_already_exists

unfoldable pub permission_denied_error : Bytes → Status
permission_denied_error = new_status k_permission_denied

unfoldable pub out_of_range_error : Bytes → Status
out_of_range_error = new_status k_out_of_range

unfoldable pub failed_precondition_error : Bytes → Status
failed_precondition_error = new_status k_failed_precondition

unfoldable pub resource_exhausted_error : Bytes → Status
resource_exhausted_error = new_status k_resource_exhausted

unfoldable pub aborted_error : Bytes → Status
aborted_error = new_status k_aborted

unfoldable pub unimplemented_error : Bytes → Status
unimplemented_error = new_status k_unimplemented

unfoldable pub internal_error : Bytes → Status
internal_error = new_status k_internal

unfoldable pub unavailable_error : Bytes → Status
unavailable_error = new_status k_unavailable
