-- ===== src/Service/Ids/Laws.antt =====
-- Exactly which texts the service accepts as IDs (internal/service/service.go).
use Prim.Native.String.{len}
use ledger_service.Prelude.{ℕ, ◌≤◌, ◌≡◌, ◌≢◌, ◌↔◌, false, String, eq_iff, some, arith}
use ledger_service.Domain.{ok}
use ledger_service.Sdk.{Sdk}
use ledger_service.Service.Ids.{
  is_uint128_max, validate_external_id, parse_public_id, request_id, account_id,
}
use ledger_service.Service.Text.{trim_space}

-- A text of 1 to 200 bytes with no white space at its ends.
pub record IsExternalId (value : String) : Type 0 where
  pub required : trim_space value ≢ ""
  pub trimmed : value ≡ trim_space value
  pub short : len value ≤ 200

-- An ID that TigerBeetle allows: neither 0 nor all ones.
abbrev pub IsPublicId : Sdk → ℕ → Type 0
IsPublicId sdk id = (id ≢ 0) × (is_uint128_max sdk id ≡ false)

pub validate_external_id_iff :
    (field value : String) → (validate_external_id field value ≡ ok tt) ↔ IsExternalId value
unfolding validate_external_id
validate_external_id_iff field value = (
  λ h. ground (arith, eq_iff (trim_space value) "", eq_iff value (trim_space value)),
  λ v. ground (
    arith,
    v.required,
    v.trimmed,
    v.short,
    eq_iff (trim_space value) "",
    eq_iff value (trim_space value),
  ),
)

pub parse_public_id_iff :
    (sdk : Sdk) (value : String) (id : ℕ)
    → (parse_public_id sdk value ≡ some id)
      ↔ ((sdk.hex_string_to_uint128 value ≡ some id) × IsPublicId sdk id)
unfolding parse_public_id
parse_public_id_iff sdk value id = (λ h. ground arith, λ h. ground arith)

-- `requestID` accepts exactly the well-formed texts that name an ID allowed by TigerBeetle.
pub request_id_iff :
    (sdk : Sdk) (value : String) (id : ℕ)
    → (request_id sdk value ≡ ok id)
      ↔ (IsExternalId value × (sdk.hex_string_to_uint128 value ≡ some id) × IsPublicId sdk id)
unfolding request_id
request_id_iff sdk value id = (
  λ h. ground (
    arith,
    (validate_external_id_iff "request_id" value).0,
    (parse_public_id_iff sdk value id).0,
  ),
  λ (text, named, allowed). rw (
    (validate_external_id_iff "request_id" value).1 text,
    (parse_public_id_iff sdk value id).1 (named, allowed),
  ),
)

-- `accountID` accepts exactly those whose ID is moreover not reserved for a system account.
pub account_id_iff :
    (sdk : Sdk) (field value : String) (id : ℕ)
    → (account_id sdk field value ≡ ok id) ↔ (
        IsExternalId value
        × (sdk.hex_string_to_uint128 value ≡ some id)
        × IsPublicId sdk id
        × (id ≢ 1)
        × (id ≢ 2))
unfolding account_id
account_id_iff sdk field value id = (
  λ h.
      ground
        (arith, (validate_external_id_iff field value).0, (parse_public_id_iff sdk value id).0),
  λ (text, named, allowed, not_cash, not_payable).
      rw
        (
          (validate_external_id_iff field value).1 text,
          (parse_public_id_iff sdk value id).1 (named, allowed),
        )
        (ground arith),
)
