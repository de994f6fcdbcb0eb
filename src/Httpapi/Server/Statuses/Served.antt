-- ===== src/Httpapi/Server/Statuses/Served.antt =====
-- The statuses of the server's responses, replayed ones included.
use flames.Prelude.{
  ◌<◌, String, Bool-cases, Option-cases, inl, inr, some, List, [], ◌∷◌, All, ◌≡◌, sym, ap, subst,
  arith, ◌==◌, string_eq,
}
use flames.Dict.{lookup, lookup-nil, lookup-insert, lookup-erase}
use flames.Runtime.{Env, Bytes, bytes_eq}
use flames.Result.{Result-cases}
use flames.State.{StateStore}
use flames.State.Contract.{Implements}
use flames.Queue.{WorkQueue}
use flames.Api.{Service}
use flames.Httpapi.{Request, WriterCall, set_header, http_error, sent_status, Response}
use flames.Httpapi.Errors.{ErrorResponse}
use flames.Httpapi.Idempotency.{
  look_up, resume, IdempotencyEntry, IdempotencyStore, new_recorder, record_calls, find_entry,
  execute, wrap,
}
use flames.Httpapi.Idempotency.Recorder.{HeaderFirst, record_calls-sent}
use flames.Httpapi.Routes.{Route, wrapped, routes, find_route, methods_of_path}
use flames.Httpapi.Server.{
  Turn, Library, State, new_handler, handle, registered, serve_mux, serve_http, serve_all,
}
use flames.Httpapi.Server.Headers.{handle-HeaderFirst}
use flames.Httpapi.Server.Logged.{serve_http-sent}
use flames.Httpapi.Server.Statuses.{HasLowStatus, ListsControllers, handle-HasLowStatus}

-- Every stored response has such a status.
abbrev IsReplayable : IdempotencyStore → Type 0
IsReplayable s =
    (key : String) (entry : IdempotencyEntry)
    → lookup key s.entries ≡ some entry
    → entry.status_code < 500

find_entry-IsReplayable :
    (e : Env) (key : String) (s : IdempotencyStore)
    → IsReplayable s
    → IsReplayable (find_entry e key s).1
unfolding find_entry
find_entry-IsReplayable e key s low k entry p = elim (Option-cases (lookup key s.entries)) [
  | inl q ↦ low k entry (ground (arith, p, q))
  | inr (old, q) ↦ low k entry (ground (arith, p, q, lookup-erase key k s.entries))
]

found-low :
    (e : Env) (key : String) (s : IdempotencyStore) (entry : IdempotencyEntry)
    → IsReplayable s
    → (find_entry e key s).0 ≡ some entry
    → entry.status_code < 500
unfolding find_entry
found-low e key s entry low p = low key entry (ground (arith, p))

abbrev Fine : {W : Type 0} → List WriterCall × (IdempotencyStore × W) → Type 0
Fine x = HasLowStatus x.0 × IsReplayable x.1.0

module _ (sum256 : Bytes → Bytes) (encode : ErrorResponse → Bytes) {W : Type 0}
    (next : Request → W → List WriterCall × W)
    (first : (r : Request) (w : W) → HeaderFirst (next r w).0)
    (low : (r : Request) (w : W) → HasLowStatus (next r w).0) where
  execute-Fine :
      (e : Env) (r : Request) (hash : Bytes) (s : IdempotencyStore) (w : W)
      → IsReplayable s
      → Fine (execute sum256 next e r hash (s, w))
  unfolding execute
  execute-Fine e r hash s w old =
      let calls = (next r w).0 in
      let (same, status, _) = record_calls-sent calls (first r w) in
      let sent_low : sent_status (record_calls calls new_recorder).1 < 500 =
        subst (λ n. n < 500) (sym (ap (λ (x : Response). x.status) same)) (low r w) in
      let stored : IdempotencyEntry = record {
        request_hash = hash;
        status_code = (record_calls calls new_recorder).0.status_code;
        body = (record_calls calls new_recorder).0.body;
        created_at = e.now;
      } in
      (
        sent_low,
        λ k entry p. ground (
          arith,
          p,
          lookup-insert r.idempotency_key k stored s.entries,
          status,
          low r w,
          old k entry,
        ),
      )

  wrap-Fine :
      (e e' : Env) (r : Request) (s : IdempotencyStore) (w : W)
      → IsReplayable s
      → Fine (wrap sum256 encode next e e' r (s, w))
  unfolding wrap look_up resume sent_status
  wrap-Fine e e' r s w old = elim (Bool-cases (r.idempotency_key == "")) [
    | inl p ↦ rw (p, sent_status) (low r w, old)
    | inr p ↦ elim (Result-cases r.body) [
      | inr (x, b) ↦ simp (p, b, sent_status) (omega arith, old)
      | inl (body, b) ↦
          let kept = find_entry-IsReplayable e r.idempotency_key s old in
          elim (Option-cases (find_entry e r.idempotency_key s).0) [
            | inl f ↦
                simp (p, b, f)
                  (execute-Fine e' r (sum256 body) (find_entry e r.idempotency_key s).1 w kept)
            | inr (entry, f) ↦ elim (Bool-cases (entry.request_hash == sum256 body)) [
              | inl h ↦
                  simp (p, b, f, h, sent_status) (found-low e r.idempotency_key s entry old f, kept)
              | inr h ↦ simp (p, b, f, h, sent_status) (omega arith, kept)
            ]
          ]
    ]
  ]

module _ (L : Library) (S : StateStore) (Q : WorkQueue) (I : Implements S)
    (lists : ListsControllers S) where
  registered-Fine :
      (t : Turn) (route : Route) (r : Request) (st : State L S Q)
      → IsReplayable st.0
      → Fine (registered L S Q t route r st)
  unfolding registered
  registered-Fine t route r (s, w) old = elim (Bool-cases (wrapped route)) [
    | inl p ↦ simp p (
        wrap-Fine L.sum256 L.formats.encode_error (handle L S Q t route)
          (handle-HeaderFirst L S Q t route) (handle-HasLowStatus L S Q I t lists route) t.at_lookup
          t.at_store r s w old)
    | inr p ↦ simp p (handle-HasLowStatus L S Q I t lists route r w, old)
  ]

  unrouted-Fine :
      (st : State L S Q) (methods : List String)
      → IsReplayable st.0
      → Fine (elim methods as (λ _. List WriterCall × State L S Q) [
        | [] ↦ (http_error 404 "404 page not found", st)
        | m ∷ ms ↦ (set_header "Allow" (L.allow (m ∷ ms)) ∷ http_error 405 "Method Not Allowed", st)
      ])
  unfolding sent_status
  unrouted-Fine st [] old = (omega arith, old)
  unrouted-Fine st (m ∷ ms) old = (omega arith, old)

  serve_mux-Fine :
      (t : Turn) (r : Request) (st : State L S Q)
      → IsReplayable st.0
      → Fine (serve_mux L S Q t r st)
  unfolding serve_mux
  serve_mux-Fine t r st old = elim (Option-cases (find_route r)) [
    | inr (route, found) ↦ rw (found, serve_mux) (registered-Fine t route _ st old)
    | inl missing ↦
        rw (missing, serve_mux) (unrouted-Fine st (methods_of_path r.segments routes) old)
  ]

  serve_all-Fine :
      (rs : List (Turn × Request)) (st : State L S Q)
      → IsReplayable st.0
      → All HasLowStatus (serve_all L S Q rs st).0
  unfolding serve_all serve_http
  serve_all-Fine [] st old = tt
  serve_all-Fine ((t, r) ∷ rs) st old =
      let (low, kept) = serve_mux-Fine t r st old in
      (
        subst (λ (x : Response). x.status < 500) (sym (serve_http-sent L S Q t r st)) low,
        serve_all-Fine rs (serve_mux L S Q t r st).1 kept,
      )

  -- A new server over a store that keeps its contract, and that lists its controllers without an
  -- error, answers no request with a status from 500 on, replayed responses included.
  pub serve_all-HasLowStatus :
      (rs : List (Turn × Request)) (svc : Service S Q)
      → All HasLowStatus (serve_all L S Q rs (new_handler L S Q svc)).0
  serve_all-HasLowStatus rs svc =
      serve_all-Fine rs (new_handler L S Q svc)
        λ key entry p. absurd (ground (arith, p, lookup-nil {V = IdempotencyEntry} key))
