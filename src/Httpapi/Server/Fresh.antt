-- ===== src/Httpapi/Server/Fresh.antt =====
-- Requests that are not answered from the idempotency store run their handler.
use flames.Prelude.{◌≡◌, ◌≢◌, refl, ap, ◌∙◌, ◌⊎◌, inl, inr, false, none, some, List, [], string_eq}
use flames.Runtime.{Bytes}
use flames.Result.{ok}
use flames.State.{StateStore}
use flames.Queue.{WorkQueue}
use flames.Api.{Service}
use flames.Httpapi.{WriterCall, Request, sent}
use flames.Httpapi.Idempotency.{look_up, resume, IdempotencyStore, find_entry, wrap}
use flames.Httpapi.Routes.{Route, wrapped, find_route}
use flames.Httpapi.Server.{Turn, Library, State, handle, registered, serve_mux, serve_http}
use flames.Httpapi.Server.Logged.{serve_http-sent}
use flames.Httpapi.Server.Once.{IsWrapped, serve_all-once, arrival}

-- The request has no idempotency key, or one with no entry that is still alive.
abbrev pub IsFresh : Turn → Request → IdempotencyStore → Type 0
IsFresh t r entries =
    (r.idempotency_key ≡ "")
    ⊎ ((r.idempotency_key ≢ "")
        × ((body : Bytes) × (r.body ≡ ok body))
        × ((find_entry t.at_lookup r.idempotency_key entries).0 ≡ none))

module _ (L : Library) (S : StateStore) (Q : WorkQueue) (t : Turn) (route : Route) (r : Request)
    (st : State L S Q) where
  abbrev pub handled : List WriterCall × Service S Q
  handled = handle L S Q t route (arrival L S Q t route r).request st.1

  -- The client is sent what the handler of the route makes, and the service is as it leaves it.
  abbrev pub Runs : Type 0
  Runs =
      let (calls, _, st') = serve_http L S Q t r st in
      (sent calls ≡ sent handled.0) × (st'.1 ≡ handled.1)

  unnamed-mux :
      IsWrapped route r
      → r.idempotency_key ≡ ""
      → serve_mux L S Q t r st ≡ (handled.0, (st.0, handled.1))
  unfolding serve_mux registered wrap look_up resume string_eq
  unnamed-mux (to, w) unnamed = rw (to, serve_mux, w, unnamed) refl

  unwrapped-mux :
      find_route r ≡ some route
      → wrapped route ≡ false
      → serve_mux L S Q t r st ≡ (handled.0, (st.0, handled.1))
  unfolding serve_mux registered
  unwrapped-mux to w = rw (to, serve_mux, w) refl

  mux-Runs : serve_mux L S Q t r st ≡ (handled.0, (st.0, handled.1)) → Runs
  unfolding serve_http
  mux-Runs mux = (serve_http-sent L S Q t r st ∙ ap (λ x. sent x.0) mux, ap (λ x. x.1.1) mux)

  pub fresh-Runs : IsWrapped route r → IsFresh t r st.0 → Runs
  fresh-Runs w (inl unnamed) = mux-Runs (unnamed-mux w unnamed)
  fresh-Runs w (inr (named, (body, whole), absent)) =
      let (ran, _, same, _) = serve_all-once L S Q t route r st body w named whole absent [] tt in
      (same, ran)

  pub unwrapped-Runs : find_route r ≡ some route → wrapped route ≡ false → Runs
  unwrapped-Runs to w = mux-Runs (unwrapped-mux to w)
