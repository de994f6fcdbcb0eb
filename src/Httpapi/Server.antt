-- ===== src/Httpapi/Server.antt =====
-- transport/httpapi/handler.go: `NewHandler` and `ServeHTTP`, from a request to the calls on the
-- response writer and the line in the log. A request takes what the runtime supplies to it.
pub mod Headers
pub mod Logged
pub mod Effects
pub mod Histories
pub mod Once
pub mod Fresh
pub mod Statuses
pub mod Audit
use flames.Prelude.{
  ℕ, String, ℤ, ◌-ℤ◌, Bool, true, false, Option, none, some, List, [], ◌∷◌, ◌++◌, ◌==◌, string_eq,
  if◌then◌else◌,
}
use flames.Dict.{Range}
use flames.Runtime.{Env, Duration, Bytes}
use flames.Model.{Controller}
use flames.State.{StateStore}
use flames.Queue.{WorkQueue}
use flames.Api.{Service}
use flames.Httpapi.{
  Request, WriterCall, set_header, write_header, write, status_ok, respond, http_error,
}
use flames.Httpapi.Handler
use flames.Httpapi.Handler.{Formats}
use flames.Httpapi.Idempotency.{IdempotencyStore, new_idempotency_store, wrap}
use flames.Httpapi.Routes.{
  Route, create_vm, get_vm, stop_vm, delete_vm, register_controller, heartbeat, list_controllers,
  list_events, healthz, wrapped, pattern, routes, value, find_route, methods_of_path,
}

-- What one request takes from the runtime: the clock at its start and end, at the lookup of its key
-- and when its response is stored, the clock and the random bytes of the service's two calls on the
-- store, and the order of a `range` over the controllers.
pub record Turn : Type 0 where
  pub start : Env
  pub at_lookup : Env
  pub first_call : Env
  pub second_call : Env
  pub at_store : Env
  pub finish : Env
  pub order : Range Controller

-- The library code that a handler is built on. `allow` is the text of the header that names the
-- methods of a path.
pub record Library : Type 0 where
  pub formats : Formats
  pub sum256 : Bytes → Bytes
  pub allow : List String → String

pub record StatusRecorder : Type 0 where
  pub status_code : ℕ
  pub wrote_header : Bool

abbrev pub new_status_recorder : StatusRecorder
new_status_recorder = record { status_code = status_ok; wrote_header = false }

-- `WriteHeader`; `Write` and `Header` are those of the writer below.
unfoldable pub note_call : WriterCall → StatusRecorder → StatusRecorder × List WriterCall
note_call (write_header status) rec =
    if rec.wrote_header
    then (rec, [])
    else (record { status_code = status; wrote_header = true }, write_header status ∷ [])
note_call (set_header name text) rec = (rec, set_header name text ∷ [])
note_call (write b) rec = (rec, write b ∷ [])

unfoldable pub note_calls : List WriterCall → StatusRecorder → StatusRecorder × List WriterCall
note_calls [] rec = (rec, [])
note_calls (call ∷ calls) rec =
    let (rec', below) = note_call call rec in
    let (rec'', below') = note_calls calls rec' in (rec'', below ++ below')

-- What `log.Printf` is given.
pub record LogLine : Type 0 where
  pub method : String
  pub path : String
  pub status : ℕ
  pub duration : Duration

module _ (L : Library) (S : StateStore) (Q : WorkQueue) where
  -- The `Handler`: its service and its idempotency store; the routes are fixed.
  abbrev pub State : Type 0
  State = IdempotencyStore × Service S Q

  -- `NewHandler`
  abbrev pub new_handler : Service S Q → State
  new_handler svc = (new_idempotency_store, svc)

  unfoldable pub handle : Turn → Route → Request → Service S Q → List WriterCall × Service S Q
  handle t create_vm = Handler.create_vm L.formats S Q t.first_call t.second_call
  handle t get_vm = Handler.get_vm L.formats S Q
  handle t stop_vm = Handler.stop_vm L.formats S Q t.first_call t.second_call
  handle t delete_vm = Handler.delete_vm L.formats S Q t.first_call t.second_call
  handle t register_controller = Handler.register_controller L.formats S Q
  handle t heartbeat = Handler.heartbeat L.formats S Q t.first_call
  handle t list_controllers = Handler.list_controllers L.formats S Q t.order
  handle t list_events = Handler.list_events L.formats S Q
  handle t healthz = Handler.healthz L.formats S Q

  -- The handler of a route as it is registered.
  unfoldable pub registered : Turn → Route → Request → State → List WriterCall × State
  registered t route r (entries, s) =
      if wrapped route
      then wrap L.sum256 L.formats.encode_error (handle t route) t.at_lookup t.at_store r
          (entries, s)
      else (let (calls, s') = handle t route r s in (calls, (entries, s')))

  -- `h.mux.ServeHTTP`: the request reaches the handler with its path values set.
  unfoldable pub serve_mux : Turn → Request → State → List WriterCall × State
  serve_mux t r st = elim (find_route r) [
    | some route ↦
        registered t route (record r { path_value = λ name. value name (pattern route) r.segments })
          st
    | none ↦ elim (methods_of_path r.segments routes) [
      | [] ↦ (http_error 404 "404 page not found", st)
      | m ∷ ms ↦ (set_header "Allow" (L.allow (m ∷ ms)) ∷ http_error 405 "Method Not Allowed", st)
    ]
  ]

  unfoldable pub serve_http : Turn → Request → State → List WriterCall × LogLine × State
  serve_http t r st =
      let (calls, st') = serve_mux t r st in
      let (rec, below) = note_calls calls new_status_recorder in
      let line : LogLine = record {
        method = r.method;
        path = r.path;
        status = rec.status_code;
        duration = t.finish.now -ℤ t.start.now;
      } in
      (below, line, st')

  -- Requests in a row: the responses, and the state after them.
  unfoldable pub serve_all : List (Turn × Request) → State → List (List WriterCall) × State
  serve_all [] st = ([], st)
  serve_all ((t, r) ∷ rs) st =
      let (calls, _, st') = serve_http t r st in
      let (responses, st'') = serve_all rs st' in (calls ∷ responses, st'')
