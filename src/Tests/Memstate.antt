-- ===== src/Tests/Memstate.antt =====
-- Runs of the state store.
use flames.Model.{desired_stopped, Controller, ControllerFilter, zero_spec, zero_event}
use flames.Prelude.{
  different, Perm, String, pos, ◌≡◌, refl, List, [], ◌∷◌, All, filter, arith, string_eq, integer_eq,
}
use flames.Dict.{values, lookup, insert}
use flames.Runtime.{Env, IsEnv, new_id}
use flames.Runtime.Hex.{encode_to_string}
use flames.Result.{ok}
use flames.State.Listing.{up_to}
use flames.State.Contract.{Call, call, promised, created}
use flames.State.Contract.History.{History, Spares, SameVm}
use flames.State.Contract.Assignment.{assign_each, successes, AssignedTo}
use flames.State.Memstate.{Store, new, memstate, create_vm, list_controllers}
use flames.State.Memstate.Refinement.{records, memstate-replies, memstate-follows}
use flames.State.Memstate.Listings.{list_controllers-up_to, has_status}
use flames.State.Memstate.Guarantees.{memstate-assign_each_once}
use flames.Tests.Data.{at-IsEnv, in_order, at}

abbrev vm_id : String
vm_id = "01010101010101010101010101010101"

-- A store with one VM, created at time 5.
one_vm : Store
one_vm = (create_vm (at 5 1) zero_spec new).1

assign : Call
assign = Call.assign_vm vm_id "node"

memstate-replies_example :
    (call memstate (at 6 2) assign one_vm).0 ≡ (promised (at 6 2) assign (records one_vm)).0
memstate-replies_example = memstate-replies (at 6 2) assign one_vm

memstate-follows_example :
    records (call memstate (at 6 2) assign one_vm).1 ≡ (promised (at 6 2) assign (records one_vm)).1
memstate-follows_example = memstate-follows (at 6 2) assign one_vm

unassigned : AssignedTo "" ((records one_vm).vm vm_id)
unfolding one_vm create_vm lookup insert new_id encode_to_string string_eq
unassigned = refl

memstate-assign_each_once_example :
    (successes (assign_each memstate vm_id ((at 6 2, "node") ∷ (at 7 2, "other") ∷ []) one_vm).0
      ≡ 1)
    × AssignedTo "node" (
        (records
            (assign_each memstate vm_id ((at 6 2, "node") ∷ (at 7 2, "other") ∷ []) one_vm).1).vm
          vm_id)
unfolding string_eq
memstate-assign_each_once_example =
    memstate-assign_each_once vm_id (at 6 2) "node" ((at 7 2, "other") ∷ []) one_vm
      (different "node" "" refl) unassigned

-- The VM is assigned, stopped, and another VM is created.
abbrev some_calls : History
some_calls =
    (at 6 2, Call.assign_vm vm_id "node")
    ∷ (at 7 2, Call.update_vm_desired_state vm_id desired_stopped)
    ∷ (at 8 3, Call.create_vm zero_spec)
    ∷ (at 9 4, Call.append_event zero_event)
    ∷ []

spared : All (Spares vm_id) some_calls
unfolding new_id encode_to_string string_eq
spared = (tt, (tt, (different _ _ refl, (tt, tt))))

same_vm : SameVm (created (at 5 1) zero_spec) ((records one_vm).vm vm_id)
unfolding one_vm create_vm lookup insert new_id encode_to_string string_eq
same_vm = (refl, refl, refl, refl)

envs : All (λ (c : Env × Call). IsEnv c.0) some_calls
envs = (
  at-IsEnv 6 2 (omega arith) (omega arith),
  (
    at-IsEnv 7 2 (omega arith) (omega arith),
    (at-IsEnv 8 3 (omega arith) (omega arith), (at-IsEnv 9 4 (omega arith) (omega arith), tt)),
  ),
)

abbrev all_controllers : ControllerFilter
all_controllers = record { status = ""; limit = pos 10 }

list_controllers-up_to_example :
    (order : List Controller) × Perm order (values one_vm.controllers)
    × (list_controllers in_order all_controllers one_vm
        ≡ (ok (up_to (pos 10) (filter (has_status all_controllers) order)), one_vm))
list_controllers-up_to_example = list_controllers-up_to in_order all_controllers one_vm
