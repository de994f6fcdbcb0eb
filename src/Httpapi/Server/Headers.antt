-- ===== src/Httpapi/Server/Headers.antt =====
-- In what order the calls on the response writer come.
use flames.Prelude.{
  ℕ, String, Bool-cases, Option-cases, inl, inr, false, List, [], ◌∷◌, ◌++◌, ◌≡◌, refl, ◌==◌,
  string_eq,
}
use flames.Runtime.{Bytes, bytes_eq}
use flames.Result.{Result, Result-cases, ok, err}
use flames.State.{StateStore}
use flames.Queue.{WorkQueue}
use flames.Api
use flames.Api.{Service}
use flames.Model.{ControllerFilter, EventFilter}
use flames.Httpapi.{Request, WriterCall, set_header, write_header, write, respond, http_error}
use flames.Httpapi.Handler
use flames.Httpapi.Handler.{Formats, answer}
use flames.Httpapi.Idempotency.{
  look_up, resume, ResponseRecorder, new_recorder, record_call, record_calls, find_entry, execute,
  wrap,
}
use flames.Httpapi.Idempotency.Recorder.{NoHeader, HeaderFirst}
use flames.Httpapi.Routes.{
  Route, create_vm, get_vm, stop_vm, delete_vm, register_controller, heartbeat, list_controllers,
  list_events, healthz, wrapped, routes, find_route, methods_of_path,
}
use flames.Httpapi.Server.{Turn, Library, State, handle, registered, serve_mux}

record_calls-NoHeader :
    (calls : List WriterCall) (rec : ResponseRecorder)
    → NoHeader calls
    → NoHeader (record_calls calls rec).1
unfolding record_calls record_call
record_calls-NoHeader [] rec h = tt
record_calls-NoHeader (set_header n v ∷ calls) rec h = record_calls-NoHeader calls rec h
record_calls-NoHeader (write_header status ∷ calls) rec h = absurd h
record_calls-NoHeader (write b ∷ calls) rec h =
    record_calls-NoHeader calls (record rec { body = rec.body ++ b }) h

record_calls-HeaderFirst :
    (calls : List WriterCall) (rec : ResponseRecorder)
    → rec.wrote_header ≡ false
    → HeaderFirst calls
    → HeaderFirst (record_calls calls rec).1
unfolding record_calls record_call
record_calls-HeaderFirst [] rec w h = tt
record_calls-HeaderFirst (set_header n v ∷ calls) rec w h = record_calls-HeaderFirst calls rec w h
record_calls-HeaderFirst (write_header status ∷ calls) rec w h = rw w tt
record_calls-HeaderFirst (write b ∷ calls) rec w h =
    record_calls-NoHeader calls (record rec { body = rec.body ++ b }) h

module _ (L : Library) (S : StateStore) (Q : WorkQueue) (t : Turn) where
  responded :
      {A : Type 0} (status : ℕ) (encode : A → Bytes) (m : Result A × Service S Q)
      → HeaderFirst (answer L.formats S Q (λ a. respond status (encode a)) m).0
  responded status encode (ok a, s) = tt
  responded status encode (err x, s) = tt

  -- Every handler sets its status before it writes.
  pub handle-HeaderFirst :
      (route : Route) (r : Request) (s : Service S Q) → HeaderFirst (handle L S Q t route r s).0
  unfolding handle Handler.create_vm Handler.get_vm Handler.stop_vm Handler.delete_vm
      Handler.register_controller Handler.heartbeat Handler.list_controllers Handler.list_events
      Handler.healthz
  handle-HeaderFirst create_vm r s = elim (Option-cases (L.formats.decode_spec r.body)) [
    | inl p ↦ rw (p, HeaderFirst) tt
    | inr (spec, p) ↦
        rw (p, HeaderFirst)
          (responded 202 L.formats.encode_id (Api.create_vm S Q t.first_call t.second_call spec s))
  ]
  handle-HeaderFirst get_vm r s =
      responded 200 L.formats.encode_vm (Api.get_vm S Q (r.path_value "vm_id") s)
  handle-HeaderFirst stop_vm r s =
      responded 202 (λ _. L.formats.encode_id (r.path_value "vm_id"))
        (Api.stop_vm S Q t.first_call t.second_call (r.path_value "vm_id") s)
  handle-HeaderFirst delete_vm r s =
      responded 202 (λ _. L.formats.encode_id (r.path_value "vm_id"))
        (Api.delete_vm S Q t.first_call t.second_call (r.path_value "vm_id") s)
  handle-HeaderFirst register_controller r s =
      elim (Option-cases (L.formats.decode_controller r.body)) [
        | inl p ↦ rw (p, HeaderFirst) tt
        | inr (c, p) ↦
            rw (p, HeaderFirst)
              (responded 201 (λ _. L.formats.encode_controller c) (Api.register_controller S Q c s))
      ]
  handle-HeaderFirst heartbeat r s = elim (Option-cases (L.formats.decode_heartbeat r.body)) [
    | inl p ↦ rw (p, HeaderFirst) tt
    | inr (hb, p) ↦
        rw (p, HeaderFirst)
          (responded 200 (λ _. L.formats.encode_status "ok")
            (Api.heartbeat S Q t.first_call (r.path_value "controller_id") hb s))
  ]
  handle-HeaderFirst list_controllers r s =
      let filter : ControllerFilter = record {
        status = r.query "status";
        limit = Handler.query_int L.formats S Q r "limit";
      } in
      responded 200 L.formats.encode_controllers (Api.list_controllers S Q t.order filter s)
  handle-HeaderFirst list_events r s = elim (Option-cases (Handler.since L.formats S Q r)) [
    | inl p ↦ rw (p, HeaderFirst) tt
    | inr (since, p) ↦
        let filter : EventFilter = record {
          vm_id = r.query "vm_id";
          controller_id = r.query "controller_id";
          type = r.query "type";
          since = since;
          limit = Handler.query_int L.formats S Q r "limit";
        } in
        rw (p, HeaderFirst) (responded 200 L.formats.encode_events (Api.list_events S Q filter s))
  ]
  handle-HeaderFirst healthz r s = tt

  wrap-HeaderFirst :
      (route : Route) (r : Request) (st : State L S Q)
      → HeaderFirst
          (wrap L.sum256 L.formats.encode_error
            (handle L S Q t route)
            t.at_lookup
            t.at_store
            r
            st).0
  unfolding wrap look_up resume execute
  wrap-HeaderFirst route r (entries, s) = elim (Bool-cases (r.idempotency_key == "")) [
    | inl p ↦ rw (p, HeaderFirst) (handle-HeaderFirst route r s)
    | inr p ↦ elim (Result-cases r.body) [
      | inr (x, b) ↦ simp (p, b, HeaderFirst) tt
      | inl (body, b) ↦ elim (Option-cases (find_entry t.at_lookup r.idempotency_key entries).0) [
        | inl f ↦
            simp (p, b, f, HeaderFirst)
              (record_calls-HeaderFirst (handle L S Q t route r s).0 new_recorder refl
                (handle-HeaderFirst route r s))
        | inr (entry, f) ↦ elim (Bool-cases (entry.request_hash == L.sum256 body)) [
          | inl h ↦ rw (p, b, f, h, HeaderFirst) tt
          | inr h ↦ rw (p, b, f, h, HeaderFirst) tt
        ]
      ]
    ]
  ]

  registered-HeaderFirst :
      (route : Route) (r : Request) (st : State L S Q)
      → HeaderFirst (registered L S Q t route r st).0
  unfolding registered
  registered-HeaderFirst route r st = elim (Bool-cases (wrapped route)) [
    | inl w ↦ rw (w, HeaderFirst) (wrap-HeaderFirst route r st)
    | inr w ↦ rw (w, HeaderFirst) (handle-HeaderFirst route r st.1)
  ]

  unrouted-HeaderFirst :
      (st : State L S Q) (methods : List String)
      → HeaderFirst
          (elim methods as (λ _. List WriterCall × State L S Q) [
            | [] ↦ (http_error 404 "404 page not found", st)
            | m ∷ ms ↦
                (set_header "Allow" (L.allow (m ∷ ms)) ∷ http_error 405 "Method Not Allowed", st)
          ]).0
  unrouted-HeaderFirst st [] = tt
  unrouted-HeaderFirst st (m ∷ ms) = tt

  pub serve_mux-HeaderFirst :
      (r : Request) (st : State L S Q) → HeaderFirst (serve_mux L S Q t r st).0
  unfolding serve_mux
  serve_mux-HeaderFirst r st = elim (Option-cases (find_route r)) [
    | inr (route, found) ↦ rw (found, HeaderFirst) (registered-HeaderFirst route _ st)
    | inl missing ↦
        rw (missing, HeaderFirst) (unrouted-HeaderFirst st (methods_of_path r.segments routes))
  ]
