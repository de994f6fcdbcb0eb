-- ===== src/Httpapi.antt =====
-- transport/httpapi: what a handler reads of a request and does with its `http.ResponseWriter`.
pub mod Errors
pub mod Idempotency
pub mod Handler
pub mod Routes
pub mod Server
use flames.Prelude.{ℕ, String, Bool, true, false, List, [], ◌∷◌, ◌++◌}
use flames.Runtime.{Bytes, to_bytes}
use flames.Result.{Result}

-- What the code and its router read of an `http.Request`. The segments are those of the path, unescaped;
-- the last is empty if the path ends in a slash. The body is the outcome of reading it; a path value
-- or a query parameter that is not there is empty.
pub record Request : Type 0 where
  pub method : String
  pub path : String
  pub segments : List String
  pub idempotency_key : String
  pub path_value : String → String
  pub query : String → String
  pub body : Result Bytes

-- One call on a `ResponseWriter`, in the order of the calls.
pub data WriterCall : Type 0 where
  set_header : String → String → WriterCall
  write_header : ℕ → WriterCall
  write : Bytes → WriterCall

-- What net/http sends for the calls: the first `WriteHeader` sets the status, unless a `Write` came
-- before it, which makes the status 200.
pub record Response : Type 0 where
  pub status : ℕ
  pub body : Bytes

abbrev pub status_ok : ℕ
status_ok = 200

unfoldable pub sent_body : List WriterCall → Bytes
sent_body [] = []
sent_body (write b ∷ calls) = b ++ sent_body calls
sent_body (_ ∷ calls) = sent_body calls

unfoldable pub sent_status : List WriterCall → ℕ
sent_status [] = status_ok
sent_status (set_header _ _ ∷ calls) = sent_status calls
sent_status (write_header status ∷ _) = status
sent_status (write _ ∷ _) = status_ok

abbrev pub sent : List WriterCall → Response
sent calls = record { status = sent_status calls; body = sent_body calls }

-- `http.Error`
abbrev pub http_error : ℕ → String → List WriterCall
http_error status message =
    set_header "Content-Type" "text/plain; charset=utf-8"
    ∷ set_header "X-Content-Type-Options" "nosniff"
    ∷ write_header status
    ∷ write (to_bytes message ++ 10 ∷ [])
    ∷ []

-- The start and the end of `writeJSON`, of `writeError` and of `writeErrorMessage`; the bytes are
-- those of encoding/json.
abbrev pub respond : ℕ → Bytes → List WriterCall
respond status body =
    set_header "Content-Type" "application/json" ∷ write_header status ∷ write body ∷ []
