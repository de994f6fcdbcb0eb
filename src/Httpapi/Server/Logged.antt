-- ===== src/Httpapi/Server/Logged.antt =====
-- The status in the log line of `ServeHTTP`, against what the client is sent.
use flames.Prelude.{true, List, [], ◌∷◌, ◌++◌, ◌≡◌, refl, sym, ap, ◌∙◌, arith, string_eq}
use flames.Runtime.{bytes_eq}
use flames.State.{StateStore}
use flames.Queue.{WorkQueue}
use flames.Httpapi.{
  Request, WriterCall, set_header, write_header, write, sent, sent_status, Response,
}
use flames.Httpapi.Idempotency.{ResponseRecorder, new_recorder, record_call, record_calls}
use flames.Httpapi.Idempotency.Recorder.{record_calls-sent}
use flames.Httpapi.Server.{
  Turn, Library, State, StatusRecorder, note_call, note_calls, new_status_recorder, serve_mux,
  serve_http,
}
use flames.Httpapi.Server.Headers.{serve_mux-HeaderFirst}

-- The recorder of the log line keeps the status as the one of the idempotency store does, and passes
-- the same calls on.
note_calls-record_calls :
    (calls : List WriterCall) (rec : StatusRecorder) (rec' : ResponseRecorder)
    → rec.status_code ≡ rec'.status_code
    → rec.wrote_header ≡ rec'.wrote_header
    → ((note_calls calls rec).1 ≡ (record_calls calls rec').1)
      × ((note_calls calls rec).0.status_code ≡ (record_calls calls rec').0.status_code)
unfolding note_calls note_call record_calls record_call
note_calls-record_calls [] rec rec' p q = (refl, p)
note_calls-record_calls (set_header n v ∷ calls) rec rec' p q =
    let (below, status) = note_calls-record_calls calls rec rec' p q in
    (ap (◌∷◌ (set_header n v)) below, status)
note_calls-record_calls (write b ∷ calls) rec rec' p q =
    let (below, status) =
      note_calls-record_calls calls rec (record rec' { body = rec'.body ++ b }) p q in
    (ap (◌∷◌ (write b)) below, status)
note_calls-record_calls (write_header status ∷ calls) rec rec' p q = ground (
  arith,
  p,
  q,
  note_calls-record_calls calls rec rec' p q,
  note_calls-record_calls calls (record { status_code = status; wrote_header = true })
      (record rec' { status_code = status; wrote_header = true }) refl refl,
)

module _ (L : Library) (S : StateStore) (Q : WorkQueue) (t : Turn) where
  -- What reaches the client is what the handlers' calls make.
  pub serve_http-sent :
      (r : Request) (st : State L S Q)
      → sent (serve_http L S Q t r st).0 ≡ sent (serve_mux L S Q t r st).0
  unfolding serve_http
  serve_http-sent r st =
      let calls = (serve_mux L S Q t r st).0 in
      let (below, _) = note_calls-record_calls calls new_status_recorder new_recorder refl refl in
      ap sent below ∙ (record_calls-sent calls (serve_mux-HeaderFirst L S Q t r st)).0

  -- For every request, routed or not, the client is sent the status and the body that the handlers'
  -- calls make, and the log line has the request's method and path and the status that is sent.
  pub serve_http-logged :
      (r : Request) (st : State L S Q)
      → let (below, line, _) = serve_http L S Q t r st in
        (sent below ≡ sent (serve_mux L S Q t r st).0)
        × (line.status ≡ sent_status below)
        × (line.method ≡ r.method)
        × (line.path ≡ r.path)
  unfolding serve_http
  serve_http-logged r st =
      let calls = (serve_mux L S Q t r st).0 in
      let (below, status) =
        note_calls-record_calls calls new_status_recorder new_recorder refl refl in
      let (same, kept, _) = record_calls-sent calls (serve_mux-HeaderFirst L S Q t r st) in
      (
        serve_http-sent r st,
        status ∙ kept ∙ sym (ap (λ (x : Response). x.status) (ap sent below ∙ same)),
        refl,
        refl,
      )
