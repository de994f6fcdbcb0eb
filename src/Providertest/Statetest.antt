-- ===== src/Providertest/Statetest.antt =====
-- providertest/statetest/statetest.go: the conformance suite of a state store. The calls of a subtest
-- that read the clock or draw an ID are numbered, and so are the loops over a map.
pub mod Passes
use flames.Model.{
  desired_running, desired_stopped, observed_pending, observed_running, Vm, VmSpec, DesiredState,
  ObservedState, Event, EventFilter, CapacityInfo, Controller, ControllerFilter, Heartbeat,
  zero_spec, zero_event,
}
use Prim.Native.String.{char_at}
use flames.Prelude.{
  ℕ, zero, suc, ◌+◌, String, ◌<>◌, Bool, true, false, not, ℤ, pos, none, some, List, [], ◌∷◌, map,
  Perm, length, ◌==◌, string_eq, number_eq, integer_eq,
}
use flames.Dict.{Range}
use flames.Runtime.{Env, Bytes, to_bytes, zero_time}
use flames.Providererr.{err_not_found, err_already_exists, err_conflict}
use flames.Result.{Result, ok, err, Exec}
use flames.State.{StateStore}
use flames.Providertest.{
  Check, try, must, must_each, value_or, value_holds, give, expect, require, fails_with, ◌>>=◌,
  ◌>>◌, Outcome, subtest,
}

abbrev pub small : VmSpec
small = record zero_spec { resources = record { vcpus = pos 2; memory_mb = pos 512 } }

-- The first VM's ID; the zero value stands for what cannot be read of no VMs.
abbrev pub first_id : List Vm → String
first_id [] = ""
first_id (vm ∷ _) = vm.id

abbrev pub an_event : String → String → Event
an_event vm_id type = record zero_event { vm_id = vm_id; type = type; payload = to_bytes "{}" }

abbrev pub no_filter : EventFilter
no_filter = record { vm_id = ""; controller_id = ""; type = ""; since = zero_time; limit = pos 0 }

abbrev pub capacity : ℕ → ℕ → ℕ → ℕ → CapacityInfo
capacity vcpus memory used_vcpus used_memory = record {
  total_vcpus = pos vcpus;
  total_memory_mb = pos memory;
  used_vcpus = pos used_vcpus;
  used_memory_mb = pos used_memory;
}

abbrev pub a_controller : String → String → CapacityInfo → Controller
a_controller id status capacity = record {
  id = id;
  status = status;
  labels = [];
  capacity = capacity;
  last_heartbeat_at = zero_time;
}

-- "ctrl-" + string(rune('A' + n)), for the ten goroutines
abbrev pub worker : ℕ → String
worker n = "ctrl-" <> String.◌∷◌ (char_at "ABCDEFGHIJ" n) String.[]

abbrev pub add_success : Result (Unit {0}) → ℕ → ℕ
add_success (ok _) n = suc n
add_success (err _) n = n

abbrev pub ten_goroutines : List ℕ
ten_goroutines = 0 ∷ 1 ∷ 2 ∷ 3 ∷ 4 ∷ 5 ∷ 6 ∷ 7 ∷ 8 ∷ 9 ∷ []

-- An order in which the calls of the ten goroutines take effect.
pub record Schedule : Type 0 where
  pub order : List ℕ
  pub order-perm : Perm order ten_goroutines

-- What a run of the suite meets: the clock and the random bytes of the calls, the order in which the
-- goroutines' calls take effect, and the orders of the loops over a map.
pub record Conditions : Type 0 where
  pub env : String → ℕ → Env
  pub goroutines : Schedule
  pub vms : Range Vm
  pub controllers : ℕ → Range Controller

module _ (S : StateStore) where
  unfoldable pub test_create_and_get : (ℕ → Env) → Check S.State (Unit {0})
  test_create_and_get e = do
    id ← must "CreateVM: %v" (S.create_vm (e 0) small)
    require (not (id == "")) "CreateVM returned empty ID"
    vm ← must "GetVM: %v" (S.get_vm id)
    expect (vm.id == id) "got ID %q, want %q"
    expect (vm.desired_state == desired_running) "got DesiredState %q, want %q"
    expect (vm.observed_state == observed_pending) "got ObservedState %q, want %q"
    expect (vm.spec.resources.vcpus == pos 2) "got VCPUs %d, want 2"

  unfoldable pub test_update_desired_state : (ℕ → Env) → Check S.State (Unit {0})
  test_update_desired_state e = do
    id ← value_or "" (S.create_vm (e 0) zero_spec)
    must "UpdateVMDesiredState: %v" (S.update_vm_desired_state (e 1) id desired_stopped)
    got ← try (S.get_vm id)
    expect (value_holds (λ vm. vm.desired_state == desired_stopped) got) "got %q, want %q"

  unfoldable pub test_update_observed_state : (ℕ → Env) → Check S.State (Unit {0})
  test_update_observed_state e = do
    id ← value_or "" (S.create_vm (e 0) zero_spec)
    must "UpdateVMObservedState: %v" (S.update_vm_observed_state (e 1) id observed_running "ctrl-1")
    got ← try (S.get_vm id)
    expect (value_holds (λ vm. vm.observed_state == observed_running) got) "got %q, want %q"
    expect (value_holds (λ vm. vm.controller_id == "ctrl-1") got) "got ControllerID %q, want %q"

  unfoldable pub test_assign_vm : (ℕ → Env) → Check S.State (Unit {0})
  test_assign_vm e = do
    id ← value_or "" (S.create_vm (e 0) zero_spec)
    must "AssignVM: %v" (S.assign_vm (e 1) id "ctrl-1")
    got ← try (S.get_vm id)
    expect (value_holds (λ vm. vm.controller_id == "ctrl-1") got) "got ControllerID %q, want %q"
    again ← try (S.assign_vm (e 2) id "ctrl-2")
    expect (fails_with err_conflict again) "expected ErrConflict, got %v"

  -- The goroutines, in the order in which their calls take effect: how many of them succeed.
  unfoldable pub assign_all : (ℕ → Env) → String → List ℕ → Check S.State ℕ
  assign_all e id [] = give 0
  assign_all e id (n ∷ ns) = do
    r ← try (S.assign_vm (e (suc n)) id (worker n))
    successes ← assign_all e id ns
    give (add_success r successes)

  -- The body of `testConcurrentAssign` for any goroutines, in the order of the list.
  unfoldable pub assign_concurrently : (ℕ → Env) → List ℕ → Check S.State (Unit {0})
  assign_concurrently e order = do
    id ← value_or "" (S.create_vm (e 0) zero_spec)
    successes ← assign_all e id order
    expect (successes == 1) "expected exactly 1 successful assign, got %d"
    vm ← must "GetVM after concurrent assign: %v" (S.get_vm id)
    expect (not (vm.controller_id == "")) "ControllerID is empty after concurrent assign"

  abbrev pub test_concurrent_assign : (ℕ → Env) → Schedule → Check S.State (Unit {0})
  test_concurrent_assign e goroutines = assign_concurrently e goroutines.order

  unfoldable pub test_list_pending_vms : (ℕ → Env) → Range Vm → Check S.State (Unit {0})
  test_list_pending_vms e order = do
    id1 ← value_or "" (S.create_vm (e 0) zero_spec)
    id2 ← value_or "" (S.create_vm (e 1) zero_spec)
    _ ← try (S.update_vm_observed_state (e 2) id2 observed_running "ctrl-1")
    pending ← must "ListPendingVMs: %v" (S.list_pending_vms order)
    require (length pending == 1) "expected 1 pending VM, got %d"
    expect (first_id pending == id1) "expected pending VM %q, got %q"

  unfoldable pub test_events : (ℕ → Env) → Check S.State (Unit {0})
  test_events e = do
    must_each "AppendEvent: %v" (
        S.append_event (e 0) (an_event "vm-1" "vm.created")
        ∷ S.append_event (e 1) (an_event "vm-2" "vm.scheduled")
        ∷ S.append_event (e 2) (an_event "vm-1" "vm.started")
        ∷ [])
    of_vm ← must "ListEvents: %v" (S.list_events (record no_filter { vm_id = "vm-1" }))
    expect (length of_vm == 2) "expected 2 events for vm-1, got %d"
    of_type ← must "ListEvents: %v" (S.list_events (record no_filter { type = "vm.scheduled" }))
    expect (length of_type == 1) "expected 1 event of type vm.scheduled, got %d"
    limited ← must "ListEvents: %v" (S.list_events (record no_filter { limit = pos 2 }))
    expect (length limited == 2) "expected 2 events with limit, got %d"

  unfoldable pub test_controllers : (ℕ → Env) → Check S.State (Unit {0})
  test_controllers e = do
    let ctrl = a_controller "ctrl-1" "active" (capacity 16 32768 0 0)
    must "RegisterController: %v" (S.register_controller ctrl)
    again ← try (S.register_controller ctrl)
    expect (fails_with err_already_exists again) "expected ErrAlreadyExists, got %v"
    let hb : Heartbeat = record { status = "active"; capacity = capacity 16 32768 4 8192 }
    must "UpdateControllerHeartbeat: %v" (S.update_controller_heartbeat (e 0) "ctrl-1" hb)

  unfoldable pub test_list_controllers : (ℕ → Range Controller) → Check S.State (Unit {0})
  test_list_controllers order = do
    must_each "RegisterController(%s): %v" (
        S.register_controller (a_controller "ctrl-1" "active" (capacity 8 0 0 0))
        ∷ S.register_controller (a_controller "ctrl-2" "draining" (capacity 16 0 0 0))
        ∷ S.register_controller (a_controller "ctrl-3" "active" (capacity 4 0 0 0))
        ∷ [])
    everyone ←
        must "ListControllers (all): %v"
          (S.list_controllers (order 0) (record { status = ""; limit = pos 0 }))
    expect (length everyone == 3) "expected 3 controllers, got %d"
    active ←
        must "ListControllers (active): %v"
          (S.list_controllers (order 1) (record { status = "active"; limit = pos 0 }))
    expect (length active == 2) "expected 2 active controllers, got %d"
    limited ←
        must "ListControllers (limit): %v"
          (S.list_controllers (order 2) (record { status = ""; limit = pos 1 }))
    expect (length limited == 1) "expected 1 controller with limit, got %d"

  unfoldable pub test_not_found_errors : (ℕ → Env) → Check S.State (Unit {0})
  test_not_found_errors e = do
    got ← try (S.get_vm "nonexistent")
    expect (fails_with err_not_found got) "GetVM: expected ErrNotFound, got %v"
    desired ← try (S.update_vm_desired_state (e 0) "nonexistent" desired_stopped)
    expect (fails_with err_not_found desired) "UpdateVMDesiredState: expected ErrNotFound, got %v"
    observed ← try (S.update_vm_observed_state (e 1) "nonexistent" observed_running "ctrl-1")
    expect (fails_with err_not_found observed) "UpdateVMObservedState: expected ErrNotFound, got %v"
    assigned ← try (S.assign_vm (e 2) "nonexistent" "ctrl-1")
    expect (fails_with err_not_found assigned) "AssignVM: expected ErrNotFound, got %v"
    let hb : Heartbeat = record { status = ""; capacity = capacity 0 0 0 0 }
    beat ← try (S.update_controller_heartbeat (e 3) "nonexistent" hb)
    expect (fails_with err_not_found beat) "UpdateControllerHeartbeat: expected ErrNotFound, got %v"

  -- `Run`: every subtest has a new store.
  unfoldable pub run : Conditions → S.State → List Outcome
  run c new =
      subtest "CreateAndGet" (test_create_and_get (c.env "CreateAndGet")) new
      ∷ subtest "UpdateDesiredState" (test_update_desired_state (c.env "UpdateDesiredState")) new
      ∷ subtest "UpdateObservedState" (test_update_observed_state (c.env "UpdateObservedState")) new
      ∷ subtest "AssignVM" (test_assign_vm (c.env "AssignVM")) new
      ∷ subtest "ConcurrentAssign" (test_concurrent_assign (c.env "ConcurrentAssign") c.goroutines)
          new
      ∷ subtest "ListPendingVMs" (test_list_pending_vms (c.env "ListPendingVMs") c.vms) new
      ∷ subtest "Events" (test_events (c.env "Events")) new
      ∷ subtest "Controllers" (test_controllers (c.env "Controllers")) new
      ∷ subtest "ListControllers" (test_list_controllers c.controllers) new
      ∷ subtest "NotFoundErrors" (test_not_found_errors (c.env "NotFoundErrors")) new
      ∷ []
