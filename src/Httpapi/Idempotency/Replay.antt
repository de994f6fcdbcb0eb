-- ===== src/Httpapi/Idempotency/Replay.antt =====
-- Requests that repeat an `Idempotency-Key`, after the first one with it.
use flames.Prelude.{
  All-map, String, false, none, some, List, [], ◌∷◌, All, ◌≡◌, ◌≢◌, refl, sym, ap, ◌∙◌, arith, ◌-ℤ◌,
  ltb_ℤ, string_eq,
}
use mathlib.Core.List.{append-nil}
use flames.Dict.{lookup, lookup-insert}
use flames.Runtime.{bytes_eq, Env, Time, Bytes}
use flames.Result.{ok}
use flames.Httpapi.{Request, WriterCall, sent_status, sent_body, sent}
use flames.Httpapi.Errors.{ErrorResponse}
use flames.Httpapi.Idempotency.{
  look_up, resume, IdempotencyEntry, IdempotencyStore, idempotency_ttl, new_recorder, record_calls,
  find_entry, replay, execute, wrap,
}
use flames.Httpapi.Idempotency.Recorder.{HeaderFirst, record_calls-sent}

-- A request as it meets the wrapper of its route: the handler of the route, and the clock as it is read
-- at the lookup and when a response is stored.
pub record Arrival (W : Type 0) : Type 0 where
  pub next : Request → W → List WriterCall × W
  pub at_lookup : Env
  pub at_store : Env
  pub request : Request

-- A request with the key and the body, no more than 24 hours after the time. Its method, its path and
-- its handler may be any.
abbrev pub Repeats : {W : Type 0} → String → Bytes → Time → Arrival W → Type 0
Repeats key body stored c =
    (c.request.idempotency_key ≡ key)
    × (c.request.body ≡ ok body)
    × (ltb_ℤ idempotency_ttl (c.at_lookup.now -ℤ stored) ≡ false)

module _ (sum256 : Bytes → Bytes) where
  -- The entry that the handler's calls leave behind.
  abbrev pub made : Env → Bytes → List WriterCall → IdempotencyEntry
  made e body calls = record {
    request_hash = sum256 body;
    status_code = (record_calls calls new_recorder).0.status_code;
    body = (record_calls calls new_recorder).0.body;
    created_at = e.now;
  }

  pub replay-sent :
      (e : Env) (body : Bytes) (calls : List WriterCall)
      → HeaderFirst calls
      → sent (replay (made e body calls)) ≡ sent calls
  unfolding sent_status sent_body
  replay-sent e body calls h =
      let (_, status, bytes) = record_calls-sent calls h in rw (status, bytes, append-nil)

module _ (sum256 : Bytes → Bytes) (encode : ErrorResponse → Bytes) {W : Type 0} where
  abbrev pub arrive : Arrival W → IdempotencyStore × W → List WriterCall × (IdempotencyStore × W)
  arrive c s = wrap sum256 encode c.next c.at_lookup c.at_store c.request s

  -- The responses to requests in a row, and the state after them.
  pub arrive_each :
      List (Arrival W) → IdempotencyStore × W → List (List WriterCall) × (IdempotencyStore × W)
  arrive_each [] s = ([], s)
  arrive_each (c ∷ cs) s =
      let (calls, s') = arrive c s in
      let (responses, s'') = arrive_each cs s' in (calls ∷ responses, s'')

  module _ (key : String) (body : Bytes) (entry : IdempotencyEntry) (named : key ≢ "")
      (hashed : entry.request_hash ≡ sum256 body) where
    pub arrive-replay :
        (c : Arrival W) (s : IdempotencyStore) (w : W)
        → lookup key s.entries ≡ some entry
        → Repeats key body entry.created_at c
        → arrive c (s, w) ≡ (replay entry, (s, w))
    unfolding wrap look_up resume find_entry
    arrive-replay c s w h (k, b, t) = ground (arith, h, k, b, t, hashed, named)

    arrive_each-replay :
        (cs : List (Arrival W)) (s : IdempotencyStore) (w : W)
        → lookup key s.entries ≡ some entry
        → All (Repeats key body entry.created_at) cs
        → All (λ calls. calls ≡ replay entry) (arrive_each cs (s, w)).0
          × ((arrive_each cs (s, w)).1 ≡ (s, w))
    unfolding arrive_each
    arrive_each-replay [] s w h a = (tt, refl)
    arrive_each-replay (c ∷ cs) s w h a =
        let one = arrive-replay c s w h a.0 in
        let (rest, same) = arrive_each-replay cs s w h a.1 in rw one ((refl, rest), same)

  refused :
      (entry : IdempotencyEntry) (c : Arrival W) (body : Bytes) (s : IdempotencyStore) (w : W)
      → c.request.idempotency_key ≢ ""
      → lookup c.request.idempotency_key s.entries ≡ some entry
      → c.request.body ≡ ok body
      → entry.request_hash ≢ sum256 body
      → ltb_ℤ idempotency_ttl (c.at_lookup.now -ℤ entry.created_at) ≡ false
      → (sent_status (arrive c (s, w)).0 ≡ 409) × ((arrive c (s, w)).1 ≡ (s, w))
  unfolding wrap look_up resume find_entry sent_status
  refused entry c body s w named h b differs t = ground (arith, named, h, b, differs, t)

  wrap-execute :
      (c : Arrival W) (body : Bytes) (s : IdempotencyStore) (w : W)
      → c.request.idempotency_key ≢ ""
      → c.request.body ≡ ok body
      → (find_entry c.at_lookup c.request.idempotency_key s).0 ≡ none
      → arrive c (s, w)
        ≡ execute sum256 c.next c.at_store c.request
            (sum256 body)
            ((find_entry c.at_lookup c.request.idempotency_key s).1, w)
  unfolding wrap look_up resume
  wrap-execute c body s w named b absent = ground (arith, named, b, absent)

  executed :
      (next : Request → W → List WriterCall × W) (e : Env) (r : Request) (body : Bytes)
      (s : IdempotencyStore) (w : W)
      → let x = execute sum256 next e r (sum256 body) (s, w) in
        (x.0 ≡ (record_calls (next r w).0 new_recorder).1)
        × (x.1.1 ≡ (next r w).1)
        × (lookup r.idempotency_key x.1.0.entries ≡ some (made sum256 e body (next r w).0))
  unfolding execute
  executed next e r body s w = (
    refl,
    refl,
    ground (
      arith,
      lookup-insert r.idempotency_key r.idempotency_key (made sum256 e body (next r w).0) s.entries,
    ),
  )

  module _ (c : Arrival W) (body : Bytes) (s : IdempotencyStore) (w : W)
      (named : c.request.idempotency_key ≢ "") (whole : c.request.body ≡ ok body)
      (absent : (find_entry c.at_lookup c.request.idempotency_key s).0 ≡ none) where
    abbrev first : List WriterCall × (IdempotencyStore × W)
    first = arrive c (s, w)

    -- What the handler does.
    abbrev handled : List WriterCall × W
    handled = c.next c.request w

    pub first-executed :
        (first.0 ≡ (record_calls handled.0 new_recorder).1)
        × (first.1.1 ≡ handled.1)
        × (lookup c.request.idempotency_key first.1.0.entries
            ≡ some (made sum256 c.at_store body handled.0))
    first-executed = rw (wrap-execute c body s w named whole absent) (
        executed c.next c.at_store c.request body
          (find_entry c.at_lookup c.request.idempotency_key s).1 w)

    sent-first : HeaderFirst handled.0 → sent first.0 ≡ sent handled.0
    sent-first h = ap sent first-executed.0 ∙ (record_calls-sent handled.0 h).0

    -- The first request with a key, a body that can be read and no entry that is still alive runs its
    -- handler. Any requests with the same key and body that follow, to whatever method and path, not
    -- more than 24 hours after the response was stored, run no handler and leave no trace: each is
    -- answered with the status and the body of the first response, which are those that the handler
    -- made, if the handler calls no `WriteHeader` for the first time after a `Write`.
    pub wrap_once :
        (cs : List (Arrival W))
        → HeaderFirst handled.0
        → All (Repeats c.request.idempotency_key body c.at_store.now) cs
        → (first.1.1 ≡ handled.1)
          × ((arrive_each cs first.1).1 ≡ first.1)
          × (sent first.0 ≡ sent handled.0)
          × All (λ calls. sent calls ≡ sent first.0) (arrive_each cs first.1).0
    wrap_once cs h a =
        let entry = made sum256 c.at_store body handled.0 in
        let (responses, same) =
          arrive_each-replay c.request.idempotency_key body entry named refl cs first.1.0 first.1.1
            first-executed.2 a in
        (
          first-executed.1,
          same,
          sent-first h,
          All-map {P = λ calls. calls ≡ replay entry} {R = λ calls. sent calls ≡ sent first.0}
              (λ calls p.
                ap sent p ∙ replay-sent sum256 c.at_store body handled.0 h ∙ sym (sent-first h))
              (arrive_each cs first.1).0 responses,
        )

    -- After a first request with a key, with a body that can be read and with no entry that is
    -- still alive, a request with the same key and a body of another hash, not more than 24 hours
    -- after the response was stored, is answered with status 409, runs no handler and changes
    -- nothing.
    pub wrap_conflict :
        (d : Arrival W) (other : Bytes)
        → d.request.idempotency_key ≡ c.request.idempotency_key
        → d.request.body ≡ ok other
        → sum256 body ≢ sum256 other
        → ltb_ℤ idempotency_ttl (d.at_lookup.now -ℤ c.at_store.now) ≡ false
        → (sent_status (arrive d first.1).0 ≡ 409) × ((arrive d first.1).1 ≡ first.1)
    wrap_conflict d other k b differs t =
        refused (made sum256 c.at_store body handled.0) d other first.1.0 first.1.1
          (λ p. named (sym k ∙ p)) (ap (λ i. lookup i first.1.0.entries) k ∙ first-executed.2) b
          differs t
