-- ===== src/Httpapi/Server/Statuses.antt =====
-- The statuses of the handlers' responses, over a store that keeps its contract.
pub mod Served
use flames.Model.{
  desired_deleted, desired_stopped, VmSpec, DesiredState, Event, EventFilter, Controller,
  ControllerFilter,
}
use flames.Prelude.{
  ℕ, ◌<◌, String, Option-cases, inl, inr, none, some, Option, List, [], ◌∷◌, ◌≡◌, refl, sym, ap,
  ◌∙◌, arith,
}
use flames.Dict.{Range}
use flames.Runtime.{Env, Bytes}
use flames.Providererr.{Error}
use flames.Result.{Result, Result-cases, ok, err, Exec, continue, pure, discard, ◌>>=◌, ◌>>◌}
use flames.State.{StateStore}
use flames.State.Contract.{Call, Reply, call, Implements}
use flames.Queue.{WorkQueue}
use flames.Api
use flames.Api.{Service, on_state, vm_event, clamp_limit}
use flames.Httpapi.{Request, WriterCall, sent_status, respond}
use flames.Httpapi.Errors.{error_to_status}
use flames.Httpapi.Errors.Status.{call-error_to_status}
use flames.Httpapi.Handler
use flames.Httpapi.Handler.{answer}
use flames.Httpapi.Routes.{
  Route, create_vm, get_vm, stop_vm, delete_vm, register_controller, heartbeat, list_controllers,
  list_events, healthz,
}
use flames.Httpapi.Server.{Turn, Library, handle}

-- The error of a result, if it has one, is not the server's.
abbrev pub IsLow : {A : Type 0} → Result A → Type 0
IsLow (ok _) = Unit
IsLow (err x) = error_to_status x < 500

abbrev pub HasLowStatus : List WriterCall → Type 0
HasLowStatus calls = sent_status calls < 500

-- The store lists its controllers without an error; the contract leaves the listing open.
abbrev pub ListsControllers : StateStore → Type 0
ListsControllers S =
    (order : Range Controller) (f : ControllerFilter) (x : S.State)
    → (cs : List Controller) × ((S.list_controllers order f x).0 ≡ ok cs)

module _ (L : Library) (S : StateStore) (Q : WorkQueue) (I : Implements S) (t : Turn) where
  -- A method that is a call of the contract.
  method-IsLow :
      {A : Type 0} (e : Env) (c : Call) (m : Exec S.State A) (reply : A → Reply) (s : S.State)
      → (call S e c s).0 ≡ (continue (m s).0 (λ a. pure (reply a)) (m s).1).0
      → IsLow (m s).0
  method-IsLow e c m reply s same = elim (Result-cases (m s).0) [
    | inl (a, p) ↦ rw (p, IsLow) tt
    | inr (x, p) ↦
        rw (p, IsLow)
          (elim (call-error_to_status S I e c s x (same ∙ rw p refl)) [
            | inl q ↦ omega (arith, q)
            | inr q ↦ omega (arith, q)
          ])
  ]

  -- With an event behind it.
  continued-IsLow :
      {A B : Type 0} (r : Result A) (f : A → Service S Q → Result B × Service S Q) (s : Service S Q)
      → ((a : A) (x : Service S Q) → IsLow (f a x).0)
      → IsLow r
      → IsLow (continue r f s).0
  continued-IsLow (ok a) f s h low = h a s
  continued-IsLow (err x) f s h low = low

  responded :
      {A : Type 0} (status : ℕ) (encode : A → Bytes) (m : Result A × Service S Q)
      → status < 500
      → IsLow m.0
      → HasLowStatus (answer L.formats S Q (λ a. respond status (encode a)) m).0
  unfolding sent_status
  responded status encode (ok a, s) h low = h
  responded status encode (err x, s) h low = low

  marked :
      (id : String) (d : DesiredState) (s : Service S Q)
      → IsLow (S.update_vm_desired_state t.first_call id d s.state).0
  unfolding call
  marked id d s =
      method-IsLow t.first_call (Call.update_vm_desired_state id d)
        (S.update_vm_desired_state t.first_call id d) (λ _. Reply.done) s.state refl

  -- No handler answers with a status from 500 on.
  pub handle-HasLowStatus :
      ListsControllers S
      → (route : Route) (r : Request) (s : Service S Q) → HasLowStatus (handle L S Q t route r s).0
  unfolding handle Handler.create_vm Handler.get_vm Handler.stop_vm Handler.delete_vm
      Handler.register_controller Handler.heartbeat Handler.list_controllers Handler.list_events
      Handler.healthz Api.create_vm Api.get_vm Api.stop_vm Api.delete_vm Api.register_controller
      Api.heartbeat Api.list_controllers Api.list_events call sent_status
  handle-HasLowStatus lists create_vm r s = elim (Option-cases (L.formats.decode_spec r.body)) [
    | inl p ↦ rw (p, sent_status) (omega arith)
    | inr (spec, p) ↦
        rw (p, sent_status)
          (responded 202 L.formats.encode_id (Api.create_vm S Q t.first_call t.second_call spec s)
            (omega arith)
            (continued-IsLow (S.create_vm t.first_call spec s.state).0 _ _ (λ _ _. tt)
              (method-IsLow t.first_call (Call.create_vm spec) (S.create_vm t.first_call spec)
                Reply.an_id s.state refl)))
  ]
  handle-HasLowStatus lists get_vm r s =
      let id = r.path_value "vm_id" in
      responded 200 L.formats.encode_vm (Api.get_vm S Q id s) (omega arith)
        (method-IsLow t.first_call (Call.get_vm id) (S.get_vm id) Reply.a_vm s.state refl)
  handle-HasLowStatus lists stop_vm r s =
      let id = r.path_value "vm_id" in
      responded 202 (λ _. L.formats.encode_id id) (Api.stop_vm S Q t.first_call t.second_call id s)
        (omega arith)
        (continued-IsLow (S.update_vm_desired_state t.first_call id desired_stopped s.state).0 _ _
          (λ _ _. tt) (marked id desired_stopped s))
  handle-HasLowStatus lists delete_vm r s =
      let id = r.path_value "vm_id" in
      responded 202 (λ _. L.formats.encode_id id)
        (Api.delete_vm S Q t.first_call t.second_call id s) (omega arith)
        (continued-IsLow (S.update_vm_desired_state t.first_call id desired_deleted s.state).0 _ _
          (λ _ _. tt) (marked id desired_deleted s))
  handle-HasLowStatus lists register_controller r s =
      elim (Option-cases (L.formats.decode_controller r.body)) [
        | inl p ↦ rw (p, sent_status) (omega arith)
        | inr (c, p) ↦
            rw (p, sent_status)
              (responded 201 (λ _. L.formats.encode_controller c) (Api.register_controller S Q c s)
                (omega arith)
                (method-IsLow t.first_call (Call.register_controller c) (S.register_controller c)
                  (λ _. Reply.done) s.state refl))
      ]
  handle-HasLowStatus lists heartbeat r s =
      let id = r.path_value "controller_id" in
      elim (Option-cases (L.formats.decode_heartbeat r.body)) [
        | inl p ↦ rw (p, sent_status) (omega arith)
        | inr (hb, p) ↦
            rw (p, sent_status)
              (responded 200 (λ _. L.formats.encode_status "ok")
                (Api.heartbeat S Q t.first_call id hb s) (omega arith)
                (method-IsLow t.first_call (Call.update_controller_heartbeat id hb)
                  (S.update_controller_heartbeat t.first_call id hb) (λ _. Reply.done) s.state
                  refl))
      ]
  handle-HasLowStatus lists list_controllers r s =
      let filter : ControllerFilter = record {
        status = r.query "status";
        limit = Handler.query_int L.formats S Q r "limit";
      } in
      let (cs, p) = lists t.order (record filter { limit = clamp_limit filter.limit }) s.state in
      responded 200 L.formats.encode_controllers (Api.list_controllers S Q t.order filter s)
        (omega arith) (rw (p, IsLow) tt)
  handle-HasLowStatus lists list_events r s = elim (Option-cases (Handler.since L.formats S Q r)) [
    | inl p ↦ rw (p, sent_status) (omega arith)
    | inr (since, p) ↦
        let filter : EventFilter = record {
          vm_id = r.query "vm_id";
          controller_id = r.query "controller_id";
          type = r.query "type";
          since = since;
          limit = Handler.query_int L.formats S Q r "limit";
        } in
        let clamped = record filter { limit = clamp_limit filter.limit } in
        rw (p, sent_status)
          (responded 200 L.formats.encode_events (Api.list_events S Q filter s) (omega arith) (
            method-IsLow t.first_call (Call.list_events clamped) (S.list_events clamped)
              Reply.some_events s.state refl))
  ]
  handle-HasLowStatus lists healthz r s = omega arith
