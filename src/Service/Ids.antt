-- ===== src/Service/Ids.antt =====
-- The identifiers of the API (internal/service/service.go): texts that name a 128-bit ID.
pub mod Laws
pub mod Max
use Prim.Native.String.{len, ◌++◌}
use ledger_service.Prelude.{
  ℕ, Bool, true, false, not, ◌||◌, ◌&&◌, String, str_eq, Option, none, some, List, [], ◌∷◌, ◌==◌,
  ltb, if◌then◌else◌,
}
use ledger_service.Domain.{Error, invalid_request, Result, ok, err}
use ledger_service.Domain.Chain.{◌>>=◌, ◌>>◌, fail_if}
use ledger_service.Recipe.{is_system_account_id}
use ledger_service.Sdk.{Sdk}
use ledger_service.Service.Text.{trim_space}

-- the loop of `isUint128Max`
unfoldable pub all_ff : List ℕ → Bool
all_ff [] = true
all_ff (value ∷ bytes) = if not (value == 0xff) then false else all_ff bytes

unfoldable pub is_uint128_max : Sdk → ℕ → Bool
unfolding all_ff
is_uint128_max sdk id = all_ff (sdk.uint128_bytes id)

-- `validateExternalID`
unfoldable pub validate_external_id : String → String → Result (Unit {0})
validate_external_id field value = do
  fail_if (str_eq (trim_space value) "") (invalid_request (field ++ " is required"))
  fail_if (not (str_eq value (trim_space value)))
      (invalid_request (field ++ " must not have surrounding whitespace"))
  fail_if (ltb 200 (len value)) (invalid_request (field ++ " must not exceed 200 bytes"))
  ok tt

-- `parsePublicTigerBeetleID`; its one error is `none`
unfoldable pub parse_public_id : Sdk → String → Option ℕ
parse_public_id sdk value = elim (sdk.hex_string_to_uint128 value) [
  | none ↦ none
  | some id ↦ if id == 0 || is_uint128_max sdk id then none else some id
]

-- `requestID`
unfoldable pub request_id : Sdk → String → Result ℕ
request_id sdk value = do
  validate_external_id "request_id" value
  elim (parse_public_id sdk value) [
    | none ↦
        err (invalid_request "request_id must be a non-zero 128-bit hexadecimal TigerBeetle ID")
    | some id ↦ ok id
  ]

abbrev pub bad_account_id : String → Error
bad_account_id field = invalid_request (
    field
    ++ " must be a non-zero 128-bit hexadecimal TigerBeetle ID outside the reserved system range")

-- `accountID`
unfoldable pub account_id : Sdk → String → String → Result ℕ
account_id sdk field value = do
  validate_external_id field value
  elim (parse_public_id sdk value) [
    | none ↦ err (bad_account_id field)
    | some id ↦ if is_system_account_id id then err (bad_account_id field) else ok id
  ]

-- `publicID`
unfoldable pub public_id : Sdk → ℕ → String
public_id sdk id = if id == 0 then "" else sdk.uint128_string id
