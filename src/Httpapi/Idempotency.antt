-- ===== src/Httpapi/Idempotency.antt =====
-- transport/httpapi/idempotency.go: the wrapper that answers a repeated request with the response of
-- the first. The handler and its world are parameters, as are SHA-256 and encoding/json.
pub mod Recorder
pub mod Replay
pub mod World
pub mod Overlap
use flames.Prelude.{
  ℕ, String, Bool, true, false, Option, none, some, List, [], ◌∷◌, ◌++◌, ℤ, pos, ◌*◌, ◌-ℤ◌, ltb_ℤ,
  ◌==◌, string_eq, Eq, if◌then◌else◌,
}
use flames.Dict.{Dict, lookup, insert, erase}
use flames.Runtime.{bytes_eq, Env, Time, Duration, Bytes}
use flames.Result.{ok, err}
use flames.Httpapi.{
  Request, WriterCall, set_header, write_header, write, status_ok, respond, http_error,
}
use flames.Httpapi.Errors.{ErrorResponse, write_error_message}

-- 24 hours in nanoseconds.
abbrev pub idempotency_ttl : Duration
idempotency_ttl = pos (24 * 3600 * 1000000000)

pub record IdempotencyEntry : Type 0 where
  pub request_hash : Bytes
  pub status_code : ℕ
  pub body : Bytes
  pub created_at : Time

pub record IdempotencyStore : Type 0 where
  pub entries : Dict IdempotencyEntry

abbrev pub new_idempotency_store : IdempotencyStore
new_idempotency_store = record { entries = [] }

pub record ResponseRecorder : Type 0 where
  pub status_code : ℕ
  pub body : Bytes
  pub wrote_header : Bool

abbrev pub new_recorder : ResponseRecorder
new_recorder = record { status_code = status_ok; body = []; wrote_header = false }

-- A call on the recorder: what it keeps, and the calls that it makes on the writer below.
unfoldable pub record_call : WriterCall → ResponseRecorder → ResponseRecorder × List WriterCall
record_call (set_header name value) rec = (rec, set_header name value ∷ [])
record_call (write_header status) rec =
    if rec.wrote_header
    then (rec, [])
    else (record rec { status_code = status; wrote_header = true }, write_header status ∷ [])
record_call (write b) rec = (record rec { body = rec.body ++ b }, write b ∷ [])

unfoldable pub record_calls :
    List WriterCall → ResponseRecorder → ResponseRecorder × List WriterCall
record_calls [] rec = (rec, [])
record_calls (call ∷ calls) rec =
    let (rec', below) = record_call call rec in
    let (rec'', below') = record_calls calls rec' in (rec'', below ++ below')

-- Whether the entry is too old to be there.
abbrev pub outlived : Time → IdempotencyEntry → Bool
outlived now entry = ltb_ℤ idempotency_ttl (now -ℤ entry.created_at)

-- The lookup with its lazy eviction.
unfoldable pub find_entry :
    Env → String → IdempotencyStore → Option IdempotencyEntry × IdempotencyStore
find_entry e key s = elim (lookup key s.entries) [
  | none ↦ (none, s)
  | some entry ↦
      if outlived e.now entry
      then (none, record { entries = erase key s.entries })
      else (some entry, s)
]

abbrev pub replay : IdempotencyEntry → List WriterCall
replay entry = respond entry.status_code entry.body

module _ (sum256 : Bytes → Bytes) {W : Type 0} (next : Request → W → List WriterCall × W) where
  -- Execute and capture the response, at line 75.
  unfoldable pub execute :
      Env → Request → Bytes → IdempotencyStore × W → List WriterCall × (IdempotencyStore × W)
  execute e r hash (s, w) =
      let (calls, w') = next r w in
      let (rec, below) = record_calls calls new_recorder in
      let entry : IdempotencyEntry = record {
        request_hash = hash;
        status_code = rec.status_code;
        body = rec.body;
        created_at = e.now;
      } in
      (below, (record { entries = insert r.idempotency_key entry s.entries }, w'))

-- Where a request stands after its lookup, when it holds no lock: it has no key, its body cannot be
-- read, there is no entry for its key, or there is one; with the hash of its body.
pub data Pending : Type 0 where
  without_key : Pending
  unreadable : Pending
  absent : Bytes → Pending
  present : Bytes → IdempotencyEntry → Pending

abbrev pub pending : Bytes → Option IdempotencyEntry → Pending
pending hash none = absent hash
pending hash (some entry) = present hash entry

-- The first half of `wrap`, to the end of the lookup.
unfoldable pub look_up :
    (Bytes → Bytes) → Env → Request → IdempotencyStore → Pending × IdempotencyStore
look_up sum256 e r s = if r.idempotency_key == "" then (without_key, s) else elim r.body [
  | err _ ↦ (unreadable, s)
  | ok body ↦
      let (found, s') = find_entry e r.idempotency_key s in (pending (sum256 body) found, s')
]

module _ (sum256 : Bytes → Bytes) (encode : ErrorResponse → Bytes) {W : Type 0}
    (next : Request → W → List WriterCall × W) where
  -- The second half of `wrap`.
  unfoldable pub resume :
      Env → Request → Pending → IdempotencyStore × W → List WriterCall × (IdempotencyStore × W)
  resume e r without_key (s, w) = let (calls, w') = next r w in (calls, (s, w'))
  resume e r unreadable (s, w) = (http_error 400 "failed to read request body", (s, w))
  resume e r (absent hash) (s, w) = execute sum256 next e r hash (s, w)
  resume e r (present hash entry) (s, w) =
      if entry.request_hash == hash then (replay entry, (s, w)) else (
        write_error_message encode 409 "conflict"
            "idempotency key reused with different request body",
        (s, w),
      )

  -- The clock is read at the lookup and when the response is stored.
  unfoldable pub wrap :
      Env → Env → Request → IdempotencyStore × W → List WriterCall × (IdempotencyStore × W)
  wrap e e' r (s, w) = let (p, s') = look_up sum256 e r s in resume e' r p (s', w)
