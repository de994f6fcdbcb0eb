-- ===== src/Tests/Shared.antt =====
-- Runs of the server while other goroutines use its store.
use flames.Model.{desired_deleted, desired_stopped, Vm, Event, zero_spec}
use flames.Prelude.{
  ◌≡◌, refl, none, some, inl, List, [], ◌∷◌, ◌++◌, All, arith, string_eq, different,
}
use flames.Dict.{lookup, insert}
use flames.Runtime.{new_id}
use flames.Runtime.Hex.{encode_to_string}
use flames.Result.{ok}
use flames.State.Contract
use flames.State.Contract.{created}
use flames.State.Contract.History.{History, Spares, SameVm, run}
use flames.State.Shared.{shared}
use flames.State.Memstate
use flames.State.Memstate.{memstate}
use flames.State.Memstate.Valid.{IsValid, new-IsValid}
use flames.State.Memstate.Refinement.{memstate_contract}
use flames.Queue.Memqueue
use flames.Queue.Memqueue.{memqueue}
use flames.Api.{Service, stop_vm, delete_vm}
use flames.Api.Audit.{is_there, logged, desired_of, replayed, Waits}
use flames.Api.Overlap.{deletes, stop_vm-overtaken}
use flames.Httpapi.{Request, respond, sent}
use flames.Httpapi.Idempotency.{new_idempotency_store}
use flames.Httpapi.Routes.{find_route, first_fit, fits_method, fits_path, get_vm, create_vm}
use flames.Httpapi.Server.{serve_http, serve_all}
use flames.Main.{start}
use flames.Main.Audited.{serve_all-audited}
use flames.Main.Created.{server, get_vm_after_create}
use flames.Main.Reads.{serve_http-safe}
use flames.Main.Shared.{store_after, serve_all_shared-IsValid, serve_all_shared-keeps}
use flames.Tests.Data.{at, at-IsEnv}
use flames.Tests.Handler.{formats, request}
use flames.Tests.Server.{library, turn, post, one_vm, its_id, stands, others, new_server}

-- Another goroutine creates a VM before the first call.
abbrev meantime : List History
meantime = ((at 4 4, Contract.create_vm zero_spec) ∷ []) ∷ []

serve_all-audited_example :
    let s = (serve_all library memstate memqueue ((turn, post) ∷ []) (start library)).1.1.state in
    (is_there (lookup its_id s.vms) ≡ logged its_id "vm.created" s.events)
    × (desired_of (lookup its_id s.vms) ≡ replayed its_id none s.events)
    × Waits (lookup its_id s.vms)
serve_all-audited_example = serve_all-audited library ((turn, post) ∷ []) its_id

serve_all_shared-IsValid_example : IsValid (
    store_after library
      ((turn, post) ∷ [])
      new_idempotency_store
      Memqueue.new
      meantime
      Memstate.new)
serve_all_shared-IsValid_example =
    serve_all_shared-IsValid library ((turn, post) ∷ []) new_idempotency_store Memqueue.new meantime
      Memstate.new
      ((at-IsEnv 7 1 (omega arith) (omega arith), at-IsEnv 8 2 (omega arith) (omega arith)), tt)
      ((at-IsEnv 4 4 (omega arith) (omega arith), tt), tt) new-IsValid

meantime-Spares : All (All (Spares its_id)) meantime
unfolding new_id encode_to_string string_eq
meantime-Spares = ((different "04040404040404040404040404040404" its_id refl, tt), tt)

serve_all_shared-keeps_example :
    let s' =
      store_after library
        ((turn, post) ∷ [])
        new_idempotency_store
        Memqueue.new
        meantime
        one_vm.1.state in
    SameVm (created (at 5 3) zero_spec) (lookup its_id s'.vms)
    × ((added : List Event) × (s'.events ≡ one_vm.1.state.events ++ added))
serve_all_shared-keeps_example =
    serve_all_shared-keeps library ((turn, post) ∷ []) new_idempotency_store Memqueue.new meantime
      one_vm.1.state its_id (created (at 5 3) zero_spec) others meantime-Spares stands

abbrev its_vm : Vm
its_vm = created (at 5 3) zero_spec

there : (memstate_contract.view one_vm.1.state).vm its_id ≡ some its_vm
unfolding Memstate.create_vm lookup insert new_id encode_to_string string_eq
there = refl

stop_vm-overtaken_example :
    let sv : Service (shared memstate) memqueue = record {
      state = ([] ∷ deletes (at 8 0) (at 9 5) its_id ∷ [], one_vm.1.state);
      queue = Memqueue.new;
    } in
    let between : Service memstate memqueue = record {
      state = (Memstate.update_vm_desired_state (at 6 0) its_id desired_stopped one_vm.1.state).1;
      queue = Memqueue.new;
    } in
    let (reply, after) = stop_vm (shared memstate) memqueue (at 6 0) (at 7 0) its_id sv in
    let r = memstate_contract.view after.state.1 in
    ((delete_vm memstate memqueue (at 8 0) (at 9 5) its_id between).1.state
      ≡ run memstate (deletes (at 8 0) (at 9 5) its_id) between.state)
    × (reply ≡ ok tt)
    × (desired_of (r.vm its_id) ≡ some desired_deleted)
    × (replayed its_id none r.log ≡ some desired_stopped)
stop_vm-overtaken_example =
    stop_vm-overtaken memstate memqueue memstate_contract (at 6 0) (at 7 0) Memqueue.new (at 8 0)
      (at 9 5) its_id its_vm one_vm.1.state there

-- GET /v1/vms/{vm_id}
abbrev get : Request
get = record request {
  method = "GET";
  segments = "v1" ∷ "vms" ∷ new_id turn.first_call.random ∷ [];
}

serve_http-safe_example : (serve_http library memstate memqueue turn get new_server).2 ≡ new_server
serve_http-safe_example = serve_http-safe library turn get new_server (inl refl)

to_create : find_route request ≡ some create_vm
unfolding find_route first_fit fits_method fits_path string_eq
to_create = refl

to_get : find_route get ≡ some get_vm
unfolding find_route first_fit fits_method fits_path string_eq new_id encode_to_string
to_get = refl

get_vm_after_create_example :
    let serve = serve_http library (shared memstate) memqueue in
    let first =
      serve turn request
        (server library turn request new_idempotency_store Memqueue.new meantime Memstate.new) in
    let later = serve_all library (shared memstate) memqueue [] first.2 in
    let last = serve turn get later.1 in
    (sent first.0 ≡ sent (respond 202 (formats.encode_id (new_id turn.first_call.random))))
    × ((vm : Vm) × SameVm (created turn.first_call zero_spec) (some vm)
        × (sent last.0 ≡ sent (respond 200 (formats.encode_vm vm))))
get_vm_after_create_example =
    get_vm_after_create library turn request zero_spec new_idempotency_store Memqueue.new meantime
      Memstate.new to_create refl (inl refl) tt [] tt turn get to_get refl
