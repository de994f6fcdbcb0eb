-- ===== src/Main/Controllers.antt =====
-- A controller from its registration to its heartbeats, while other requests are served and other
-- goroutines use the same store.
use flames.Prelude.{
  String, ◌≡◌, refl, sym, ap, ◌∙◌, inl, inr, Option-cases, none, some, List, [], ◌∷◌, All, subst,
  string_eq, arith,
}
use flames.Dict.{lookup}
use flames.Model.{Controller, Heartbeat}
use flames.Providererr.{already_exists}
use flames.State.Contract.History.{History}
use flames.State.Contract.Controllers.{SameController, run-SameController}
use flames.State.Shared.{shared, first, weave}
use flames.State.Memstate.{Store, memstate}
use flames.State.Memstate.Refinement.{memstate_contract}
use flames.Queue.Memqueue
use flames.Queue.Memqueue.{memqueue}
use flames.Httpapi.{WriterCall, Request, sent, respond}
use flames.Httpapi.Errors.{write_error}
use flames.Httpapi.Idempotency.{IdempotencyStore}
use flames.Httpapi.Routes.{register_controller, heartbeat, find_route}
use flames.Httpapi.Server.{Turn, Library, State, serve_http, serve_all}
use flames.Httpapi.Server.Fresh.{IsFresh}
use flames.Httpapi.Server.Histories.{BothCalls}
use flames.Main.Created.{server}
use flames.Main.Shared.{woven}
use flames.Main.Registered.{reached, registered, refused, beats}

anything : (rs : List (Turn × Request)) → All (BothCalls (λ _. Unit {0})) rs
anything [] = tt
anything (_ ∷ rs) = ((tt, tt), anything rs)

module _ (L : Library) (entries : IdempotencyStore) (queue : Memqueue.Queue) (others : List History)
    (s : Store) (id : String) (c : Controller)
    (same : SameController c (lookup id s.controllers)) where
  -- A controller that is there is there when the next call of a later request comes.
  reached_again :
      (rs : List (Turn × Request))
      → let (others', s') =
          (serve_all L
            (shared memstate)
            memqueue
            rs
            (entries, record { state = (others, s); queue = queue })).1.1.state in
        (c' : Controller) × SameController c (some c')
        × (lookup id (reached others' s').controllers ≡ some c')
  reached_again rs =
      let (others', s') =
        (serve_all L (shared memstate) memqueue rs
          (entries, record { state = (others, s); queue = queue })).1.1.state in
      let (own, _, p) = woven L rs entries queue others s (λ _. Unit {0}) (anything rs) in
      let kept : SameController c (lookup id s'.controllers) =
        subst (λ (x : Store). SameController c (lookup id x.controllers)) (sym p)
          (run-SameController memstate memstate_contract (weave others own) s id c same) in
      let kept' = run-SameController memstate memstate_contract (first others') s' id c kept in
      elim (Option-cases (lookup id (reached others' s').controllers)) [
        | inl q ↦ absurd (rw q at kept')
        | inr (c', q) ↦ (c', rw q at kept', q)
      ]

module _ (L : Library) (t : Turn) (post : Request) (entries : IdempotencyStore)
    (queue : Memqueue.Queue) (others : List History) (s : Store) where
  abbrev pub after_post : List WriterCall × State L (shared memstate) memqueue
  after_post =
      let (calls, _, st') =
        serve_http L (shared memstate) memqueue t post (server L t post entries queue others s) in
      (calls, st')

  abbrev pub after_all : List (Turn × Request) → State L (shared memstate) memqueue
  after_all rs = (serve_all L (shared memstate) memqueue rs after_post.1).1

module _ (L : Library) (t : Turn) (post : Request) (c : Controller) (entries : IdempotencyStore)
    (queue : Memqueue.Queue) (others : List History) (s : Store)
    (to : find_route post ≡ some register_controller)
    (decoded : L.formats.decode_controller post.body ≡ some c) (fresh : IsFresh t post entries)
    (absent : lookup c.id (reached others s).controllers ≡ none) where
  abbrev posted : List WriterCall × State L (shared memstate) memqueue
  posted = after_post L t post entries queue others s

  abbrev later : List (Turn × Request) → State L (shared memstate) memqueue
  later rs = after_all L t post entries queue others s rs

  -- The controller, when the next call of a request after the `POST` comes.
  still_there :
      (rs : List (Turn × Request))
      → let (others', s') = (later rs).1.state in
        (c' : Controller) × SameController c (some c')
        × (lookup c.id (reached others' s').controllers ≡ some c')
  still_there rs =
      let (_, written) = registered L t post entries queue others s c to decoded fresh absent in
      let (entries', sv) = posted.1 in
      let (others', s') = sv.state in
      reached_again L entries' sv.queue others' s' c.id c (rw written (refl, refl)) rs

  -- A `POST /v1/controllers` of an ID that is not there, with no idempotency key or one with no entry
  -- that is still alive, is answered with status 201 and the controller. Whatever requests follow,
  -- and whatever calls other goroutines make on the store, another such `POST` of the ID is answered
  -- with the error of a controller that exists already.
  pub register_controller_once :
      (rs : List (Turn × Request)) (t' : Turn) (again : Request) (c' : Controller)
      → find_route again ≡ some register_controller
      → L.formats.decode_controller again.body ≡ some c'
      → c'.id ≡ c.id
      → IsFresh t' again (after_all L t post entries queue others s rs).0
      → (sent (after_post L t post entries queue others s).0
          ≡ sent (respond 201 (L.formats.encode_controller c)))
        × (sent
              (serve_http L
                (shared memstate)
                memqueue
                t'
                again
                (after_all L t post entries queue others s rs)).0
            ≡ sent (write_error L.formats.encode_error (already_exists "controller" c.id)))
  register_controller_once rs t' again c' to' decoded' same fresh' =
      let (response, _) = registered L t post entries queue others s c to decoded fresh absent in
      let (there', _, there) = still_there rs in
      let (entries', sv) = later rs in
      (
        response,
        refused L t' again entries' sv.queue sv.state.0 sv.state.1 c' to' decoded' fresh' there'
              (rw same there)
            ∙ ap (λ id. sent (write_error L.formats.encode_error (already_exists "controller" id)))
                same,
      )

  -- A `POST /v1/controllers` of an ID that is not there, with no idempotency key or one with no entry
  -- that is still alive, is answered with status 201 and the controller. Whatever requests follow,
  -- and whatever calls other goroutines make on the store, a heartbeat of the ID that can be decoded
  -- is answered with status 200. It leaves the controller with the status and the capacity that it
  -- carries and the time of the call, and with the ID and the labels that the `POST` gave it.
  pub heartbeat_after_register :
      (rs : List (Turn × Request)) (t' : Turn) (beat : Request) (hb : Heartbeat)
      → find_route beat ≡ some heartbeat
      → beat.segments ≡ "v1" ∷ "controllers" ∷ c.id ∷ "heartbeat" ∷ []
      → L.formats.decode_heartbeat beat.body ≡ some hb
      → let (calls, _, st') =
          serve_http L
            (shared memstate)
            memqueue
            t'
            beat
            (after_all L t post entries queue others s rs) in
        (sent (after_post L t post entries queue others s).0
          ≡ sent (respond 201 (L.formats.encode_controller c)))
        × (sent calls ≡ sent (respond 200 (L.formats.encode_status "ok")))
        × (lookup c.id st'.1.state.1.controllers
            ≡ some (record {
              id = c.id;
              status = hb.status;
              labels = c.labels;
              capacity = hb.capacity;
              last_heartbeat_at = t'.first_call.now;
            }))
  heartbeat_after_register rs t' beat hb to' named decoded' =
      let (response, _) = registered L t post entries queue others s c to decoded fresh absent in
      let (c', same, there) = still_there rs in
      let (entries', sv) = later rs in
      let (done, left) =
        beats L t' beat entries' sv.queue sv.state.0 sv.state.1 c.id c' hb to' named decoded'
          there in
      (response, done, left ∙ ground (arith, same))
