-- ===== src/Tests/Httpapi.antt =====
-- Runs of the idempotency store and of the error responses.
use flames.Prelude.{
  different, ◌*◌, Bool, ℕ, String, pos, ◌≡◌, refl, ◌≢◌, ◌||◌, none, List, [], ◌∷◌, All, ◌-ℤ◌, ltb_ℤ,
  string_eq, if◌then◌else◌,
}
use flames.Dict.{lookup}
use flames.Runtime.{Bytes}
use flames.Providererr.{Error, wrapped, not_found, err_conflict}
use flames.Result.{ok, err}
use flames.State.Contract.{Call, call}
use flames.State.Memstate.{Store, memstate, get_vm}
use flames.State.Memstate
use flames.Httpapi.{Request, WriterCall, respond, sent_status, sent}
use flames.Httpapi.Errors.{ErrorResponse, error_to_status}
use flames.Httpapi.Errors.Status.{codes, has_code, error_to_status-codes}
use flames.Httpapi.Idempotency.{IdempotencyStore, new_idempotency_store, find_entry}
use flames.Httpapi.Idempotency.Replay.{
  Arrival, arrive, arrive_each, Repeats, wrap_once, wrap_conflict,
}
use flames.Tests.Data.{at}

-- A handler that counts its calls.
abbrev counting : Request → ℕ → List WriterCall × ℕ
counting r n = (respond 202 (n ∷ []), ℕ.suc n)

abbrev same : Bytes → Bytes
same b = b

abbrev no_text : ErrorResponse → Bytes
no_text r = []

abbrev request : String → Bytes → Request
request path body = record {
  method = "POST";
  path = path;
  segments = [];
  idempotency_key = "key";
  path_value = λ name. "";
  query = λ name. "";
  body = ok body;
}

nothing_there : (find_entry (at 5 1) "key" new_idempotency_store).0 ≡ none
unfolding find_entry lookup
nothing_there = refl

abbrev arrival : ℕ → ℕ → Request → Arrival ℕ
arrival looked_up stored r = record {
  next = counting;
  at_lookup = at looked_up 1;
  at_store = at stored 1;
  request = r;
}

abbrev first_arrival : Arrival ℕ
first_arrival = arrival 5 6 (request "/v1/vms" (1 ∷ []))

abbrev first : List WriterCall × (IdempotencyStore × ℕ)
first = arrive same no_text first_arrival (new_idempotency_store, 0)

-- The second of them has a handler of its own.
abbrev later : List (Arrival ℕ)
later =
    arrival 7 8 (request "/v1/vms" (1 ∷ []))
    ∷ record (arrival 9 9 (request "/v1/controllers" (1 ∷ []))) { next = λ r n. ([], 0) }
    ∷ []

repeated : All (Repeats "key" (1 ∷ []) (pos 6)) later
unfolding ◌-ℤ◌
repeated = ((refl, refl, refl), ((refl, refl, refl), tt))

wrap_once_example :
    (first.1.1 ≡ 1)
    × ((arrive_each same no_text later first.1).1 ≡ first.1)
    × (sent first.0 ≡ sent (respond 202 (0 ∷ [])))
    × All (λ calls. sent calls ≡ sent first.0) (arrive_each same no_text later first.1).0
unfolding string_eq
wrap_once_example =
    wrap_once same no_text first_arrival (1 ∷ []) new_idempotency_store 0 (different "key" "" refl)
      refl nothing_there later tt repeated

bytes_differ : same (1 ∷ []) ≢ same (2 ∷ [])
bytes_differ = λ p. cc p

within_a_day : ltb_ℤ (pos (24 * 3600 * 1000000000)) ((at 7 1).now -ℤ (at 6 1).now) ≡ Bool.false
unfolding ◌-ℤ◌
within_a_day = refl

abbrev other_body : Arrival ℕ
other_body = arrival 7 8 (request "/v1/vms" (2 ∷ []))

wrap_conflict_example :
    (sent_status (arrive same no_text other_body first.1).0 ≡ 409)
    × ((arrive same no_text other_body first.1).1 ≡ first.1)
unfolding string_eq
wrap_conflict_example =
    wrap_conflict same no_text first_arrival (1 ∷ []) new_idempotency_store 0
      (different "key" "" refl) refl nothing_there other_body (2 ∷ []) refl refl bytes_differ
      within_a_day

abbrev two_layers : Error
two_layers = wrapped "stop: conflict" err_conflict

error_to_status-codes_example : error_to_status two_layers ≡ (
    if has_code "not_found" (codes two_layers)
    then 404
    else if has_code "already_exists" (codes two_layers) || has_code "conflict" (codes two_layers)
    then 409
    else 500)
error_to_status-codes_example = error_to_status-codes two_layers

no_such_vm : (call memstate (at 5 1) (Call.get_vm "vm") Memstate.new).0 ≡ err (not_found "vm" "vm")
unfolding call get_vm lookup
no_such_vm = refl
