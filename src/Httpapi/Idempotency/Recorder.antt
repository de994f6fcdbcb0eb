-- ===== src/Httpapi/Idempotency/Recorder.antt =====
-- What the recorder keeps, against what the client is sent.
use flames.Prelude.{true, false, List, [], ◌∷◌, ◌++◌, ◌≡◌, refl, sym, ap, ◌∙◌, arith}
use mathlib.Core.List.{append_assoc, append-nil}
use flames.Httpapi.{
  WriterCall, set_header, write_header, write, sent_status, sent_body, sent, status_ok,
}
use flames.Httpapi.Idempotency.{ResponseRecorder, new_recorder, record_call, record_calls}

abbrev pub NoHeader : List WriterCall → Type 0
NoHeader [] = Unit
NoHeader (set_header _ _ ∷ calls) = NoHeader calls
NoHeader (write_header _ ∷ calls) = ⊥
NoHeader (write _ ∷ calls) = NoHeader calls

-- No `WriteHeader` comes after a `Write` unless another one came before it.
abbrev pub HeaderFirst : List WriterCall → Type 0
HeaderFirst [] = Unit
HeaderFirst (set_header _ _ ∷ calls) = HeaderFirst calls
HeaderFirst (write_header _ ∷ calls) = Unit
HeaderFirst (write _ ∷ calls) = NoHeader calls

recorded_body :
    (calls : List WriterCall) (rec : ResponseRecorder)
    → (record_calls calls rec).0.body ≡ rec.body ++ sent_body calls
unfolding record_calls record_call sent_body
recorded_body [] rec = sym (append-nil rec.body)
recorded_body (set_header n v ∷ calls) rec = recorded_body calls rec
recorded_body (write_header status ∷ calls) rec = ground (
  arith,
  recorded_body calls rec,
  recorded_body calls (record rec { status_code = status; wrote_header = true }),
)
recorded_body (write b ∷ calls) rec =
    recorded_body calls (record rec { body = rec.body ++ b })
    ∙ append_assoc rec.body b (sent_body calls)

kept_status :
    (calls : List WriterCall) (rec : ResponseRecorder)
    → rec.wrote_header ≡ true
    → (record_calls calls rec).0.status_code ≡ rec.status_code
unfolding record_calls record_call
kept_status [] rec h = refl
kept_status (set_header n v ∷ calls) rec h = kept_status calls rec h
kept_status (write_header status ∷ calls) rec h = ground (arith, h, kept_status calls rec h)
kept_status (write b ∷ calls) rec h = kept_status calls (record rec { body = rec.body ++ b }) h

unset_status :
    (calls : List WriterCall) (rec : ResponseRecorder)
    → NoHeader calls
    → (record_calls calls rec).0.status_code ≡ rec.status_code
unfolding record_calls record_call
unset_status [] rec h = refl
unset_status (set_header n v ∷ calls) rec h = unset_status calls rec h
unset_status (write_header status ∷ calls) rec h = absurd h
unset_status (write b ∷ calls) rec h = unset_status calls (record rec { body = rec.body ++ b }) h

recorded_status :
    (calls : List WriterCall) (rec : ResponseRecorder)
    → rec.wrote_header ≡ false
    → rec.status_code ≡ status_ok
    → HeaderFirst calls
    → (record_calls calls rec).0.status_code ≡ sent_status calls
unfolding record_calls record_call sent_status
recorded_status [] rec w s h = s
recorded_status (set_header n v ∷ calls) rec w s h = recorded_status calls rec w s h
recorded_status (write_header status ∷ calls) rec w s h =
    rw w (kept_status calls (record rec { status_code = status; wrote_header = true }) refl)
recorded_status (write b ∷ calls) rec w s h =
    unset_status calls (record rec { body = rec.body ++ b }) h ∙ s

below_status :
    (calls : List WriterCall) (rec : ResponseRecorder)
    → rec.wrote_header ≡ false
    → sent_status (record_calls calls rec).1 ≡ sent_status calls
unfolding record_calls record_call sent_status
below_status [] rec w = refl
below_status (set_header n v ∷ calls) rec w = below_status calls rec w
below_status (write_header status ∷ calls) rec w = rw w refl
below_status (write b ∷ calls) rec w = refl

below_body :
    (calls : List WriterCall) (rec : ResponseRecorder)
    → sent_body (record_calls calls rec).1 ≡ sent_body calls
unfolding record_calls record_call sent_body
below_body [] rec = refl
below_body (set_header n v ∷ calls) rec = below_body calls rec
below_body (write_header status ∷ calls) rec = ground (
  arith,
  below_body calls rec,
  below_body calls (record rec { status_code = status; wrote_header = true }),
)
below_body (write b ∷ calls) rec =
    ap (λ bs. b ++ bs) (below_body calls (record rec { body = rec.body ++ b }))

-- Through the recorder the client is sent the status and the body that the handler's calls make, and
-- the recorder keeps that status and that body, if the handler calls no `WriteHeader` for the first
-- time after a `Write`.
pub record_calls-sent :
    (calls : List WriterCall)
    → HeaderFirst calls
    → let (rec, below) = record_calls calls new_recorder in
      (sent below ≡ sent calls)
      × (rec.status_code ≡ sent_status calls)
      × (rec.body ≡ sent_body calls)
record_calls-sent calls h = (
  rw (below_status calls new_recorder refl, below_body calls new_recorder),
  recorded_status calls new_recorder refl refl h,
  recorded_body calls new_recorder,
)
