-- ===== src/Main/Registered.antt =====
-- The requests of a controller, each while other goroutines use the same store.
use flames.Prelude.{String, ◌≡◌, refl, ap, ◌∙◌, none, some, List, [], ◌∷◌, string_eq, equal_self}
use flames.Dict.{lookup, insert, lookup-insert}
use flames.Model.{Controller, Heartbeat}
use flames.Providererr.{already_exists}
use flames.State.Contract.History.{History, run}
use flames.State.Shared.{shared, meanwhile, first}
use flames.State.Memstate
use flames.State.Memstate.{Store, memstate}
use flames.Queue.Memqueue
use flames.Queue.Memqueue.{memqueue}
use flames.Api
use flames.Httpapi.{WriterCall, Request, sent, respond}
use flames.Httpapi.Errors.{write_error}
use flames.Httpapi.Handler
use flames.Httpapi.Idempotency.{IdempotencyStore}
use flames.Httpapi.Routes.{register_controller, heartbeat, pattern, value, find_route}
use flames.Httpapi.Server.{Turn, Library, handle, serve_http}
use flames.Httpapi.Server.Fresh.{IsFresh, handled, fresh-Runs, unwrapped-Runs}
use flames.Main.Created.{server}

in_path :
    (id : String) (r : Request)
    → r.segments ≡ "v1" ∷ "controllers" ∷ id ∷ "heartbeat" ∷ []
    → value "controller_id" (pattern heartbeat) r.segments ≡ id
unfolding value string_eq
in_path id r named = rw named refl

-- The store when the next call comes.
abbrev pub reached : List History → Store → Store
reached others s = run memstate (first others) s

module _ (L : Library) (t : Turn) (r : Request) (entries : IdempotencyStore)
    (queue : Memqueue.Queue) (others : List History) (s : Store) where
  abbrev pub served : List WriterCall × Api.Service (shared memstate) memqueue
  served =
      let (calls, _, st') =
        serve_http L (shared memstate) memqueue t r (server L t r entries queue others s) in
      (calls, st'.1)

  module _ (c : Controller) (to : find_route r ≡ some register_controller)
      (decoded : L.formats.decode_controller r.body ≡ some c) (fresh : IsFresh t r entries) where
    -- `POST /v1/controllers` of an ID that is not there.
    pub registered :
        lookup c.id (reached others s).controllers ≡ none
        → (sent served.0 ≡ sent (respond 201 (L.formats.encode_controller c)))
          × (lookup c.id served.1.state.1.controllers ≡ some c)
    unfolding handle Handler.register_controller Api.register_controller meanwhile
        Memstate.register_controller
    registered absent =
        let (response, after) =
          fresh-Runs L (shared memstate) memqueue t register_controller r
            (server L t r entries queue others s) (to, refl) fresh in
        let written : (handled L (shared memstate) memqueue t register_controller r
              (server L t r entries queue others s)).1.state.1
            ≡ record (reached others s) {
              controllers = insert c.id c (reached others s).controllers;
            } =
          rw (decoded, Handler.register_controller, absent, Memstate.register_controller) refl in
        (
          response
              ∙ rw (decoded, Handler.register_controller, absent, Memstate.register_controller)
                  refl,
          ap (λ x. lookup c.id x.state.1.controllers) after
              ∙ ap (λ (x : Store). lookup c.id x.controllers) written
              ∙ lookup-insert c.id c.id c (reached others s).controllers
              ∙ rw (equal_self c.id) refl,
        )

    -- `POST /v1/controllers` of an ID that is there.
    pub refused :
        (c' : Controller)
        → lookup c.id (reached others s).controllers ≡ some c'
        → sent served.0
          ≡ sent (write_error L.formats.encode_error (already_exists "controller" c.id))
    unfolding handle Handler.register_controller Api.register_controller meanwhile
        Memstate.register_controller
    refused c' there =
        let (response, _) =
          fresh-Runs L (shared memstate) memqueue t register_controller r
            (server L t r entries queue others s) (to, refl) fresh in
        response
        ∙ rw (decoded, Handler.register_controller, there, Memstate.register_controller) refl

  -- What a heartbeat leaves of a controller.
  abbrev pub beaten : Controller → Heartbeat → Controller
  beaten c hb = record c {
    status = hb.status;
    capacity = hb.capacity;
    last_heartbeat_at = t.first_call.now;
  }

  -- `POST /v1/controllers/{controller_id}/heartbeat` of an ID that is there.
  pub beats :
      (id : String) (c : Controller) (hb : Heartbeat)
      → find_route r ≡ some heartbeat
      → r.segments ≡ "v1" ∷ "controllers" ∷ id ∷ "heartbeat" ∷ []
      → L.formats.decode_heartbeat r.body ≡ some hb
      → lookup id (reached others s).controllers ≡ some c
      → (sent served.0 ≡ sent (respond 200 (L.formats.encode_status "ok")))
        × (lookup id served.1.state.1.controllers ≡ some (beaten c hb))
  unfolding handle Handler.heartbeat Api.heartbeat meanwhile Memstate.update_controller_heartbeat
  beats id c hb to named decoded there =
      let (response, after) =
        unwrapped-Runs L (shared memstate) memqueue t heartbeat r
          (server L t r entries queue others s) to refl in
      let path = in_path id r named in
      let written : (handled L (shared memstate) memqueue t heartbeat r
            (server L t r entries queue others s)).1.state.1
          ≡ record (reached others s) {
            controllers = insert id (beaten c hb) (reached others s).controllers;
          } =
        rw (decoded, Handler.heartbeat, path, there, Memstate.update_controller_heartbeat, path)
          refl in
      (
        response
            ∙ rw (decoded, Handler.heartbeat, path, there, Memstate.update_controller_heartbeat)
                refl,
        ap (λ x. lookup id x.state.1.controllers) after
            ∙ ap (λ (x : Store). lookup id x.controllers) written
            ∙ lookup-insert id id (beaten c hb) (reached others s).controllers
            ∙ rw (equal_self id) refl,
      )
