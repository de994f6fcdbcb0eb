-- ===== src/Httpapi/Errors.antt =====
-- transport/httpapi/errors.go: the status and the body of an error response.
pub mod Status
use flames.Prelude.{◌==◌, number_eq, ℕ, String, Option, none, some, List, if◌then◌else◌}
use flames.Runtime.{Bytes}
use flames.Providererr.{
  Error, ProviderError, error_text, errors_is, errors_as, err_not_found, err_already_exists,
  err_conflict,
}
use flames.Httpapi.{WriterCall, respond}

pub record ErrorResponse : Type 0 where
  pub code : String
  pub message : String
  pub resource_type : String
  pub resource_id : String

unfoldable pub error_to_status : Error → ℕ
error_to_status err =
    if errors_is err err_not_found
    then 404
    else if errors_is err err_already_exists
    then 409
    else if errors_is err err_conflict
    then 409
    else 500

-- `http.StatusText` for the statuses of `errorToStatus`.
abbrev pub status_text : ℕ → String
status_text status =
    if status == 404
    then "Not Found"
    else if status == 409
    then "Conflict"
    else if status == 500
    then "Internal Server Error"
    else ""

unfoldable pub error_response : Error → ErrorResponse
error_response err = elim (errors_as err) [
  | none ↦ record {
    code = status_text (error_to_status err);
    message = error_text err;
    resource_type = "";
    resource_id = "";
  }
  | some pe ↦ record {
    code = pe.code;
    message = pe.message;
    resource_type = pe.resource_type;
    resource_id = pe.resource_id;
  }
]

-- The bytes that encoding/json writes are a parameter.
module _ (encode : ErrorResponse → Bytes) where
  abbrev pub write_error : Error → List WriterCall
  write_error err = respond (error_to_status err) (encode (error_response err))

  abbrev pub write_error_message : ℕ → String → String → List WriterCall
  write_error_message status code message =
      respond status
        (encode (record { code = code; message = message; resource_type = ""; resource_id = "" }))
