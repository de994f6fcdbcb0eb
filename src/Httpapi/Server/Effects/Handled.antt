-- ===== src/Httpapi/Server/Effects/Handled.antt =====
-- What each handler of handler.go does to the state store.
use flames.Model.{
  desired_deleted, desired_stopped, EventFilter, Controller, ControllerFilter, DesiredState,
}
use flames.Prelude.{inl, inr, String, List, ◌≡◌, refl, sym, string_eq}
use flames.Dict.{Range}
use flames.Runtime.{Time}
use flames.Httpapi.Errors.{write_error_message}
use flames.Result.{Exec, ok}
use flames.State.{StateStore}
use flames.State.Contract.{Call, Reply, call}
use flames.Queue.{WorkQueue}
use flames.Api
use flames.Api.{Service, on_state, vm_event, clamp_limit}
use flames.Httpapi.{Request, WriterCall, respond}
use flames.Httpapi.Handler
use flames.Httpapi.Handler.{Formats, answer, invalid_body}
use flames.Httpapi.Routes.{
  Route, create_vm, get_vm, stop_vm, delete_vm, register_controller, heartbeat, list_controllers,
  list_events, healthz,
}
use flames.Httpapi.Server.{Turn, Library, handle}
use flames.Httpapi.Server.Effects.{
  Noted, IsQuiet, Effect, answered, nothing, untouched, one, state-continue, with_event, then_event,
  decoded,
}

module _ (L : Library) (S : StateStore) (Q : WorkQueue) (t : Turn) where
  -- The store only has to leave its state alone in a call of `ListControllers`, which is not in the
  -- contract.
  abbrev pub Lists : Type 0
  Lists =
      (order : Range Controller) (f : ControllerFilter) (x : S.State)
      → (S.list_controllers order f x).1 ≡ x

  created :
      (r : Request) (s : Service S Q)
      → Effect S Q t s (Handler.create_vm L.formats S Q t.first_call t.second_call r s).1
  unfolding Handler.create_vm Api.create_vm call
  created r s =
      decoded L S Q t (L.formats.decode_spec r.body) (invalid_body L.formats S Q)
        (λ spec.
          answer L.formats S Q (λ id. respond 202 (L.formats.encode_id id))
            (Api.create_vm S Q t.first_call t.second_call spec s))
        s
        λ spec.
          answered L S Q t s (λ id. respond 202 (L.formats.encode_id id))
            (Api.create_vm S Q t.first_call t.second_call spec s)
            (then_event L S Q t (Call.create_vm spec) (S.create_vm t.first_call spec) Reply.an_id
              (λ id. vm_event id "vm.created") (λ id. id) s refl (λ id. refl))

  -- `StopVM` and `DeleteVM`
  marked :
      (id : String) (desired : DesiredState) (type : String) (reply : Unit {0} → List WriterCall)
      (s : Service S Q)
      → Noted
          (Call.update_vm_desired_state id desired)
          (ok Reply.done)
          (Call.append_event (vm_event id type))
      → Effect S Q t s
          (answer L.formats S Q reply (
            with_event L S Q t
              (S.update_vm_desired_state t.first_call id desired)
              (λ _. vm_event id type)
              (λ _. tt)
              s)).1
  unfolding call
  marked id desired type reply s noted =
      let m = S.update_vm_desired_state t.first_call id desired in
      answered L S Q t s reply (with_event L S Q t m (λ _. vm_event id type) (λ _. tt) s) (
        then_event L S Q t (Call.update_vm_desired_state id desired) m (λ _. Reply.done)
          (λ _. vm_event id type) (λ _. tt) s refl (λ _. noted))

  -- A handler that makes one call of the contract.
  called :
      {A : Type 0} (c : Call) (m : Exec S.State A) (reply : A → List WriterCall) (s : Service S Q)
      → IsQuiet c
      → (call S t.first_call c s.state).1 ≡ (m s.state).1
      → Effect S Q t s (answer L.formats S Q reply (on_state S Q m s)).1
  called c m reply s quiet p =
      answered L S Q t s reply (on_state S Q m s)
        (one L S Q t c s (on_state S Q m s).1 quiet (sym p) refl)

  controller_added :
      (r : Request) (s : Service S Q)
      → Effect S Q t s (Handler.register_controller L.formats S Q r s).1
  unfolding Handler.register_controller Api.register_controller call
  controller_added r s =
      let reply = λ (c : Controller) (_ : Unit {0}). respond 201 (L.formats.encode_controller c) in
      decoded L S Q t (L.formats.decode_controller r.body) (invalid_body L.formats S Q)
        (λ c. answer L.formats S Q (reply c) (on_state S Q (S.register_controller c) s)) s
        λ c.
          called (Call.register_controller c) (S.register_controller c) (reply c) s tt
            (state-continue L S Q t (S.register_controller c s.state).0 (λ _. Reply.done) _)

  beaten :
      (r : Request) (s : Service S Q)
      → Effect S Q t s (Handler.heartbeat L.formats S Q t.first_call r s).1
  unfolding Handler.heartbeat Api.heartbeat call
  beaten r s =
      let reply = λ (_ : Unit {0}). respond 200 (L.formats.encode_status "ok") in
      let beat = S.update_controller_heartbeat t.first_call (r.path_value "controller_id") in
      decoded L S Q t (L.formats.decode_heartbeat r.body) (invalid_body L.formats S Q)
        (λ hb. answer L.formats S Q reply (on_state S Q (beat hb) s)) s
        λ hb.
          called (Call.update_controller_heartbeat (r.path_value "controller_id") hb) (beat hb)
            reply s tt (state-continue L S Q t (beat hb s.state).0 (λ _. Reply.done) _)

  listed :
      (filter : EventFilter) (s : Service S Q)
      → Effect S Q t s
          (answer L.formats S Q
            (λ es. respond 200 (L.formats.encode_events es))
            (Api.list_events S Q filter s)).1
  unfolding Api.list_events call
  listed filter s =
      let f = record filter { limit = clamp_limit filter.limit } in
      called (Call.list_events f) (S.list_events f) (λ es. respond 200 (L.formats.encode_events es))
        s tt (state-continue L S Q t (S.list_events f s.state).0 Reply.some_events _)

  events_listed :
      (r : Request) (s : Service S Q) → Effect S Q t s (Handler.list_events L.formats S Q r s).1
  unfolding Handler.list_events
  events_listed r s =
      let filter : Time → EventFilter = λ since. record {
        vm_id = r.query "vm_id";
        controller_id = r.query "controller_id";
        type = r.query "type";
        since = since;
        limit = Handler.query_int L.formats S Q r "limit";
      } in
      decoded L S Q t (Handler.since L.formats S Q r)
        (write_error_message L.formats.encode_error 400 "bad_request"
          "invalid 'since' parameter, expected RFC 3339")
        (λ since.
          answer L.formats S Q (λ es. respond 200 (L.formats.encode_events es))
            (Api.list_events S Q (filter since) s))
        s λ since. listed (filter since) s

  -- What every handler does to the store is what at most two calls of the contract do.
  pub handled :
      Lists
      → (route : Route) (r : Request) (s : Service S Q)
      → Effect S Q t s (handle L S Q t route r s).1
  unfolding handle Handler.get_vm Handler.stop_vm Handler.delete_vm Handler.list_controllers
      Handler.healthz Api.get_vm Api.stop_vm Api.delete_vm Api.list_controllers call
  handled same create_vm r s = created r s
  handled same get_vm r s =
      called (Call.get_vm (r.path_value "vm_id")) (S.get_vm (r.path_value "vm_id"))
        (λ vm. respond 200 (L.formats.encode_vm vm)) s tt
        (state-continue L S Q t (S.get_vm (r.path_value "vm_id") s.state).0 Reply.a_vm _)
  handled same stop_vm r s =
      marked (r.path_value "vm_id") desired_stopped "vm.stop_requested"
        (λ _. respond 202 (L.formats.encode_id (r.path_value "vm_id"))) s (inl (refl, refl))
  handled same delete_vm r s =
      marked (r.path_value "vm_id") desired_deleted "vm.delete_requested"
        (λ _. respond 202 (L.formats.encode_id (r.path_value "vm_id"))) s (inr (refl, refl))
  handled same register_controller r s = controller_added r s
  handled same heartbeat r s = beaten r s
  handled same list_controllers r s =
      let filter : ControllerFilter = record {
        status = r.query "status";
        limit = Handler.query_int L.formats S Q r "limit";
      } in
      let m = Api.list_controllers S Q t.order filter s in
      answered L S Q t s (λ cs. respond 200 (L.formats.encode_controllers cs)) m
        (untouched L S Q t s m.1 (same _ _ s.state) refl)
  handled same list_events r s = events_listed r s
  handled same healthz r s = nothing L S Q t s
