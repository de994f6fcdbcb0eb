-- ===== src/Tests/Api.antt =====
-- Runs of the service on the stores in memory.
use flames.Prelude.{
  ◌++◌, ◌∷◌, [], String, pos, ◌≡◌, ◌⊎◌, ◌≤ℤ◌, ◌<ℤ◌, filter, length, string_eq, integer_eq,
}
use flames.Model.{EventFilter, zero_spec, zero_event}
use flames.Result.{ok}
use flames.State.Contract.{matches, stamped}
use flames.State.Memstate
use flames.State.Memstate.{memstate, append_event}
use flames.State.Memstate.Refinement.{records, memstate_contract}
use flames.Queue.Memqueue
use flames.Queue.Memqueue.{memqueue}
use flames.Api.{Service, clamp_limit, on_state, create_vm, list_events}
use flames.Api.Listings.{clamp_limit_lem, list_events-append}
use flames.Tests.Data.{at}

abbrev empty : Service memstate memqueue
empty = record { state = Memstate.new; queue = Memqueue.new }

-- A service with one VM.
one_vm : Service memstate memqueue
one_vm = (create_vm memstate memqueue (at 5 1) (at 6 2) zero_spec empty).1

abbrev vm_id : String
vm_id = "01010101010101010101010101010101"

clamp_limit_lem_example :
    (pos 1 ≤ℤ clamp_limit (pos 5000))
    × (clamp_limit (pos 5000) ≤ℤ pos 1000)
    × (clamp_limit (clamp_limit (pos 5000)) ≡ clamp_limit (pos 5000))
    × (((pos 1 ≤ℤ pos 5000) × (pos 5000 ≤ℤ pos 1000) × (clamp_limit (pos 5000) ≡ pos 5000))
        ⊎ ((pos 5000 ≤ℤ pos 0) × (clamp_limit (pos 5000) ≡ pos 100))
        ⊎ ((pos 1000 <ℤ pos 5000) × (clamp_limit (pos 5000) ≡ pos 1000)))
clamp_limit_lem_example = clamp_limit_lem (pos 5000)

abbrev first_only : EventFilter
first_only = record { vm_id = ""; controller_id = ""; type = ""; since = pos 0; limit = pos 1 }

list_events-append_example :
    let log = filter (matches first_only) (records one_vm.state).log in
    let before = (list_events memstate memqueue first_only one_vm).0 in
    let after =
      (list_events memstate memqueue first_only
        (on_state memstate memqueue (append_event (at 9 5) zero_event) one_vm).1).0 in
    ((clamp_limit (pos 1) ≤ℤ pos (length log)) × (after ≡ before))
    ⊎ ((pos (length log) <ℤ clamp_limit (pos 1))
        × (before ≡ ok log)
        × (after ≡ ok (log ++ filter (matches first_only) (stamped (at 9 5) zero_event ∷ []))))
list_events-append_example =
    list_events-append memstate memqueue memstate_contract first_only (at 9 5) zero_event one_vm
