-- ===== src/Httpapi/Server/Once.antt =====
-- Requests that are repeated with their idempotency key, from the router to the store.
use flames.Prelude.{
  String, ◌≡◌, ◌≢◌, refl, ap, ◌∙◌, true, false, none, some, List, [], ◌∷◌, All, All-map, ltb_ℤ,
  ◌-ℤ◌, string_eq,
}
use flames.Dict.{lookup}
use flames.Runtime.{Bytes, Time}
use flames.Result.{ok}
use flames.State.{StateStore}
use flames.Queue.{WorkQueue}
use flames.Api.{Service}
use flames.Httpapi.{Request, sent}
use flames.Httpapi.Idempotency.{IdempotencyEntry, idempotency_ttl, find_entry, replay}
use flames.Httpapi.Idempotency.Replay.{
  Arrival, arrive, arrive-replay, first-executed, replay-sent, made, wrap_once,
}
use flames.Httpapi.Routes.{Route, wrapped, pattern, value, find_route}
use flames.Httpapi.Server.{
  Turn, Library, State, handle, registered, serve_mux, serve_http, serve_all,
}
use flames.Httpapi.Server.Headers.{handle-HeaderFirst}
use flames.Httpapi.Server.Logged.{serve_http-sent}

-- The request goes to a handler that `NewHandler` wraps.
abbrev pub IsWrapped : Route → Request → Type 0
IsWrapped route r = (find_route r ≡ some route) × (wrapped route ≡ true)

-- A request to any wrapped handler with the key and the body, no more than 24 hours after the time.
abbrev pub IsRepeat : String → Bytes → Time → Turn × Request → Type 0
IsRepeat key body stored (t, r) =
    ((route : Route) × IsWrapped route r)
    × (r.idempotency_key ≡ key)
    × (r.body ≡ ok body)
    × (ltb_ℤ idempotency_ttl (t.at_lookup.now -ℤ stored) ≡ false)

module _ (L : Library) (S : StateStore) (Q : WorkQueue) where
  -- The request as the handler of the route sees it.
  abbrev pub arrival : Turn → Route → Request → Arrival (Service S Q)
  arrival t route r = record {
    next = handle L S Q t route;
    at_lookup = t.at_lookup;
    at_store = t.at_store;
    request = record r { path_value = λ name. value name (pattern route) r.segments };
  }

  to_wrap :
      (t : Turn) (route : Route) (r : Request) (st : State L S Q)
      → IsWrapped route r
      → serve_mux L S Q t r st ≡ arrive L.sum256 L.formats.encode_error (arrival t route r) st
  unfolding serve_mux registered
  to_wrap t route r (entries, s) (found, w) = rw (found, serve_mux, w) refl

  state_after :
      (t : Turn) (r : Request) (st : State L S Q)
      → (serve_http L S Q t r st).2 ≡ (serve_mux L S Q t r st).1
  unfolding serve_http
  state_after t r st = refl

  repeats :
      (key : String) (body : Bytes) (entry : IdempotencyEntry) (rs : List (Turn × Request))
      (st : State L S Q)
      → key ≢ ""
      → entry.request_hash ≡ L.sum256 body
      → lookup key st.0.entries ≡ some entry
      → All (IsRepeat key body entry.created_at) rs
      → ((serve_all L S Q rs st).1 ≡ st)
        × All (λ calls. sent calls ≡ sent (replay entry)) (serve_all L S Q rs st).0
  unfolding serve_all
  repeats key body entry [] st named hashed there a = (refl, tt)
  repeats key body entry ((t, r) ∷ rs) st named hashed there (((route, to), k, b, young), a) =
      let mux =
        to_wrap t route r st to
        ∙ arrive-replay L.sum256 L.formats.encode_error key body entry named hashed
            (arrival t route r) st.0 st.1 there (k, b, young) in
      let (same, rest) = repeats key body entry rs st named hashed there a in
      let stays : (serve_http L S Q t r st).2 ≡ st = state_after t r st ∙ ap (λ x. x.1) mux in
      rw stays (same, (serve_http-sent L S Q t r st ∙ ap (λ x. sent x.0) mux, rest))

  module _ (t : Turn) (route : Route) (r : Request) (st : State L S Q) (body : Bytes)
      (to : IsWrapped route r) (named : r.idempotency_key ≢ "") (whole : r.body ≡ ok body)
      (absent : (find_entry t.at_lookup r.idempotency_key st.0).0 ≡ none) where
    -- The first request to a wrapped handler with an idempotency key, a body that can be read and no
    -- entry that is still alive runs its handler. Any requests to wrapped handlers that follow with the
    -- same key and body, not more than 24 hours after the response was stored, change nothing in the
    -- server: no VM is created, stopped or deleted again, and no controller registered. Each is answered
    -- with the status and the body that the first handler made.
    pub serve_all-once :
        (rs : List (Turn × Request))
        → All (IsRepeat r.idempotency_key body t.at_store.now) rs
        → let handled = handle L S Q t route (arrival t route r).request st.1 in
          let first = serve_http L S Q t r st in
          let later = serve_all L S Q rs first.2 in
          (first.2.1 ≡ handled.1)
          × (later.1 ≡ first.2)
          × (sent first.0 ≡ sent handled.0)
          × All (λ calls. sent calls ≡ sent handled.0) later.0
    serve_all-once rs a =
        let encode = L.formats.encode_error in
        let c = arrival t route r in
        let calls = (handle L S Q t route c.request st.1).0 in
        let h = handle-HeaderFirst L S Q t route c.request st.1 in
        let (ran, _, same, _) =
          wrap_once L.sum256 encode c body st.0 st.1 named whole absent [] h tt in
        let entry = made L.sum256 t.at_store body calls in
        let mux = to_wrap t route r st to in
        let after : (serve_http L S Q t r st).2 ≡ (arrive L.sum256 encode c st).1 =
          state_after t r st ∙ ap (λ x. x.1) mux in
        let there = (first-executed L.sum256 encode c body st.0 st.1 named whole absent).2 in
        let (stays, responses) =
          repeats r.idempotency_key body entry rs (arrive L.sum256 encode c st).1 named refl there
            a in
        (
          ap (λ x. x.1) after ∙ ran,
          rw after stays,
          serve_http-sent L S Q t r st ∙ ap (λ x. sent x.0) mux ∙ same,
          rw after (All-map (λ _ p. p ∙ replay-sent L.sum256 t.at_store body calls h) _ responses),
        )
