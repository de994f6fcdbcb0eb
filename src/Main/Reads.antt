-- ===== src/Main/Reads.antt =====
-- Requests that only read.
use flames.Prelude.{
  different, String, ◌≡◌, refl, ap, ◌∙◌, ◌⊎◌, inl, inr, Option-cases, List, [], ◌∷◌, true,
  string_eq,
}
use flames.Dict.{lookup}
use flames.Result.{Result, ok, err}
use flames.State.Memstate
use flames.State.Memstate.{Store, memstate}
use flames.Queue.Memqueue.{memqueue}
use flames.Api
use flames.Api.{Service}
use flames.Model.{EventFilter, ControllerFilter}
use flames.Httpapi.{respond, Request, WriterCall, set_header, http_error}
use flames.Httpapi.Handler
use flames.Httpapi.Handler.{Formats, answer}
use flames.Httpapi.Routes.{
  Route, create_vm, get_vm, stop_vm, delete_vm, register_controller, heartbeat, list_controllers,
  list_events, healthz, method, fits_method, routes, find_route, methods_of_path,
}
use flames.Httpapi.Routes.Disjoint.{find_route-fits, method_is, both}
use flames.Httpapi.Server.{Turn, Library, State, handle, registered, serve_mux, serve_http}

-- RFC 9110 calls these methods safe.
abbrev pub IsSafe : Request → Type 0
IsSafe r = (r.method ≡ "GET") ⊎ (r.method ≡ "HEAD")

-- The routes that are registered for GET.
abbrev Reads : Route → Type 0
Reads get_vm = Unit
Reads list_controllers = Unit
Reads list_events = Unit
Reads healthz = Unit
Reads _ = ⊥

method-Reads : (route : Route) → (method route ≡ "GET") ⊎ (method route ≡ "HEAD") → Reads route
unfolding string_eq
method-Reads get_vm h = tt
method-Reads list_controllers h = tt
method-Reads list_events h = tt
method-Reads healthz h = tt
method-Reads route (inl e) = absurd (different (method route) "GET" refl e)
method-Reads route (inr e) = absurd (different (method route) "HEAD" refl e)

fits-Reads :
    (route : Route) (r : Request) → IsSafe r → fits_method route r.method ≡ true → Reads route
fits-Reads route r safe f = elim (method_is route r.method f) [
  | inl e ↦ elim safe [
    | inl g ↦ method-Reads route (inl (e ∙ g))
    | inr g ↦ method-Reads route (inr (e ∙ g))
  ]
  | inr (g, _) ↦ method-Reads route (inl g)
]

module _ (L : Library) (t : Turn) where
  answered :
      {A : Type 0} (reply : A → List WriterCall) (m : Result A × Service memstate memqueue)
      → (answer L.formats memstate memqueue reply m).1 ≡ m.1
  answered reply (ok a, s) = refl
  answered reply (err x, s) = refl

  kept : (id : String) (s : Store) → (Memstate.get_vm id s).1 ≡ s
  unfolding Memstate.get_vm
  kept id s = elim (Option-cases (lookup id s.vms)) [
    | inl p ↦ rw (p, Memstate.get_vm) refl
    | inr (vm, p) ↦ rw (p, Memstate.get_vm) refl
  ]

  reads :
      (route : Route) (r : Request) (s : Service memstate memqueue)
      → Reads route
      → (handle L memstate memqueue t route r s).1 ≡ s
  unfolding handle Handler.get_vm Handler.list_controllers Handler.list_events Handler.healthz
      Api.get_vm Api.list_controllers Api.list_events Memstate.list_controllers Memstate.list_events
  reads get_vm r s h =
      let id = r.path_value "vm_id" in
      answered (λ vm. respond 200 (L.formats.encode_vm vm)) (Api.get_vm memstate memqueue id s)
      ∙ ap (λ x. record s { state = x }) (kept id s.state)
  reads list_controllers r s h =
      let filter : ControllerFilter = record {
        status = r.query "status";
        limit = Handler.query_int L.formats memstate memqueue r "limit";
      } in
      answered (λ cs. respond 200 (L.formats.encode_controllers cs))
        (Api.list_controllers memstate memqueue t.order filter s)
  reads list_events r s h = elim (Option-cases (Handler.since L.formats memstate memqueue r)) [
    | inl p ↦ rw (p, Handler.list_events) refl
    | inr (since, p) ↦
        let filter : EventFilter = record {
          vm_id = r.query "vm_id";
          controller_id = r.query "controller_id";
          type = r.query "type";
          since = since;
          limit = Handler.query_int L.formats memstate memqueue r "limit";
        } in
        rw (p, Handler.list_events)
          (answered (λ es. respond 200 (L.formats.encode_events es))
            (Api.list_events memstate memqueue filter s))
  ]
  reads healthz r s h = refl
  reads create_vm r s h = absurd h
  reads stop_vm r s h = absurd h
  reads delete_vm r s h = absurd h
  reads register_controller r s h = absurd h
  reads heartbeat r s h = absurd h

  registered-Reads :
      (route : Route) (r : Request) (st : State L memstate memqueue)
      → Reads route
      → (registered L memstate memqueue t route r st).1 ≡ st
  unfolding registered
  registered-Reads get_vm r st h = ap (λ s. (st.0, s)) (reads get_vm r st.1 h)
  registered-Reads list_controllers r st h = ap (λ s. (st.0, s)) (reads list_controllers r st.1 h)
  registered-Reads list_events r st h = ap (λ s. (st.0, s)) (reads list_events r st.1 h)
  registered-Reads healthz r st h = ap (λ s. (st.0, s)) (reads healthz r st.1 h)
  registered-Reads create_vm r st h = absurd h
  registered-Reads stop_vm r st h = absurd h
  registered-Reads delete_vm r st h = absurd h
  registered-Reads register_controller r st h = absurd h
  registered-Reads heartbeat r st h = absurd h

  unrouted :
      (st : State L memstate memqueue) (methods : List String)
      → (elim methods as (λ _. List WriterCall × State L memstate memqueue) [
        | [] ↦ (http_error 404 "404 page not found", st)
        | m ∷ ms ↦ (set_header "Allow" (L.allow (m ∷ ms)) ∷ http_error 405 "Method Not Allowed", st)
      ]).1
        ≡ st
  unrouted st [] = refl
  unrouted st (m ∷ ms) = refl

  -- A request with the method GET or HEAD, to whatever path, changes nothing in the server: not the
  -- store, not the queue, and not the responses that are kept for idempotency keys.
  pub serve_http-safe :
      (r : Request) (st : State L memstate memqueue)
      → IsSafe r
      → (serve_http L memstate memqueue t r st).2 ≡ st
  unfolding serve_http serve_mux
  serve_http-safe r st safe = elim (Option-cases (find_route r)) [
    | inl missing ↦ rw (missing, serve_mux) (unrouted st (methods_of_path r.segments routes))
    | inr (route, found) ↦
        let fit = (find_route-fits r route).0 found in
        rw (found, serve_mux)
          (registered-Reads route _ st (fits-Reads route r safe (both _ _ fit).0))
  ]
