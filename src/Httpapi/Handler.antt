-- ===== src/Httpapi/Handler.antt =====
-- transport/httpapi/handler.go: the handlers over the service. The texts of encoding/json, of
-- `time.Parse` and of `strconv.Atoi` are parameters; the routes are net/http's.
pub mod Vms
use flames.Prelude.{
  ℕ, String, ℤ, pos, Option, none, some, List, [], ◌∷◌, ◌==◌, string_eq, if◌then◌else◌,
}
use flames.Dict.{Range}
use flames.Runtime.{Env, Time, Bytes, zero_time}
use flames.Model.{Vm, VmSpec, Event, EventFilter, Controller, ControllerFilter, Heartbeat}
use flames.Result.{Result, ok, err}
use flames.State.{StateStore}
use flames.Queue.{WorkQueue}
use flames.Api
use flames.Api.{Service}
use flames.Httpapi.{Request, WriterCall, respond}
use flames.Httpapi.Errors.{ErrorResponse, write_error, write_error_message}

-- What the handlers use of encoding/json, time and strconv. A decoder answers `none` for a body that
-- cannot be read or that is not what it expects; `atoi` is the number that `queryInt` keeps of a text
-- that is not empty.
pub record Formats : Type 0 where
  pub decode_spec : Result Bytes → Option VmSpec
  pub decode_controller : Result Bytes → Option Controller
  pub decode_heartbeat : Result Bytes → Option Heartbeat
  pub encode_id : String → Bytes
  pub encode_status : String → Bytes
  pub encode_vm : Vm → Bytes
  pub encode_controller : Controller → Bytes
  pub encode_controllers : List Controller → Bytes
  pub encode_events : List Event → Bytes
  pub encode_error : ErrorResponse → Bytes
  pub parse_time : String → Option Time
  pub atoi : String → ℤ

module _ (F : Formats) (S : StateStore) (Q : WorkQueue) where
  abbrev pub Handler : Type 0
  Handler = Request → Service S Q → List WriterCall × Service S Q

  -- if err != nil { writeError(w, err); return }
  abbrev pub answer :
      {A : Type 0} → (A → List WriterCall) → Result A × Service S Q → List WriterCall × Service S Q
  answer reply (ok a, s) = (reply a, s)
  answer reply (err x, s) = (write_error F.encode_error x, s)

  abbrev pub invalid_body : List WriterCall
  invalid_body = write_error_message F.encode_error 400 "bad_request" "invalid JSON body"

  unfoldable pub query_int : Request → String → ℤ
  query_int r key = if r.query key == "" then pos 0 else F.atoi (r.query key)

  unfoldable pub create_vm : Env → Env → Handler
  create_vm e e' r s = elim (F.decode_spec r.body) [
    | none ↦ (invalid_body, s)
    | some spec ↦ answer (λ id. respond 202 (F.encode_id id)) (Api.create_vm S Q e e' spec s)
  ]

  unfoldable pub get_vm : Handler
  get_vm r s = answer (λ vm. respond 200 (F.encode_vm vm)) (Api.get_vm S Q (r.path_value "vm_id") s)

  unfoldable pub stop_vm : Env → Env → Handler
  stop_vm e e' r s =
      let vm_id = r.path_value "vm_id" in
      answer (λ _. respond 202 (F.encode_id vm_id)) (Api.stop_vm S Q e e' vm_id s)

  unfoldable pub delete_vm : Env → Env → Handler
  delete_vm e e' r s =
      let vm_id = r.path_value "vm_id" in
      answer (λ _. respond 202 (F.encode_id vm_id)) (Api.delete_vm S Q e e' vm_id s)

  unfoldable pub register_controller : Handler
  register_controller r s = elim (F.decode_controller r.body) [
    | none ↦ (invalid_body, s)
    | some c ↦ answer (λ _. respond 201 (F.encode_controller c)) (Api.register_controller S Q c s)
  ]

  unfoldable pub heartbeat : Env → Handler
  heartbeat e r s = elim (F.decode_heartbeat r.body) [
    | none ↦ (invalid_body, s)
    | some hb ↦
        answer (λ _. respond 200 (F.encode_status "ok"))
          (Api.heartbeat S Q e (r.path_value "controller_id") hb s)
  ]

  unfoldable pub list_controllers : Range Controller → Handler
  list_controllers order r s =
      let filter : ControllerFilter = record {
        status = r.query "status";
        limit = query_int r "limit";
      } in
      answer (λ cs. respond 200 (F.encode_controllers cs)) (Api.list_controllers S Q order filter s)

  -- The parameter "since": the zero time if it is empty, `none` if it is no time.
  unfoldable pub since : Request → Option Time
  since r = if r.query "since" == "" then some zero_time else F.parse_time (r.query "since")

  unfoldable pub list_events : Handler
  list_events r s = elim (since r) [
    | none ↦ (
      write_error_message F.encode_error 400 "bad_request"
          "invalid 'since' parameter, expected RFC 3339",
      s,
    )
    | some t ↦
        let filter : EventFilter = record {
          vm_id = r.query "vm_id";
          controller_id = r.query "controller_id";
          type = r.query "type";
          since = t;
          limit = query_int r "limit";
        } in
        answer (λ es. respond 200 (F.encode_events es)) (Api.list_events S Q filter s)
  ]

  unfoldable pub healthz : Handler
  healthz r s = (respond 200 (F.encode_status "ok"), s)
