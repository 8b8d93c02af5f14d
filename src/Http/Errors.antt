-- ===== src/Http/Errors.antt =====
-- `writeError` (internal/httpapi/server.go): the status, the code and the message of an error.
use Prim.Native.String.{◌++◌}
use ledger_service.Prelude.{ℕ, String, List}
use ledger_service.Domain.{
  Error, invalid_request, account_not_found, authorization_not_found, idempotency_conflict,
  canceled, deadline_exceeded,
}
use ledger_service.Http.Writer.{Call, error_body, write_json}

-- the texts of the errors that are sent to the client
abbrev invalid_request_text : String → String
invalid_request_text text = "invalid request: " ++ text

-- `domain.ErrorResponse{Status: "error", …}` with its status, as `writeJSON` writes it
unfoldable pub write_failure : ℕ → String → String → List Call
unfolding write_json
write_failure status code message =
    write_json status
      (error_body (record { status = "error"; error_code = code; message = message }))

-- the `switch` of `writeError`: the status, the code and the message
unfoldable pub classify : Error → ℕ × String × String
classify (invalid_request text) = (400, "invalid_request", invalid_request_text text)
classify idempotency_conflict =
    (409, "idempotency_conflict", "idempotency key reused with a different payload")
classify account_not_found = (404, "account_not_found", "account not found")
classify authorization_not_found = (404, "authorization_not_found", "authorization not found")
classify canceled = (499, "request_canceled", "the request was canceled")
classify deadline_exceeded = (504, "deadline_exceeded", "the request deadline elapsed")
classify _ =
    (503, "dependency_unavailable", "a required dependency is unavailable; retry the same request")

-- `writeError`
unfoldable pub write_error : Error → List Call
unfolding classify write_failure
write_error e = let (status, code, message) = classify e in write_failure status code message
