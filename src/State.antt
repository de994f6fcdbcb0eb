-- ===== src/State.antt =====
-- provider/state/state.go: the interface of a store of VMs, controllers and events. A call takes
-- what the runtime supplies to it, and a listing the order of its `range` loop.
pub mod Contract
pub mod Listing
pub mod Shared
pub mod Memstate
use flames.Prelude.{String, List}
use flames.Dict.{Range}
use flames.Runtime.{Env}
use flames.Model.{
  Vm, VmSpec, DesiredState, ObservedState, Event, EventFilter, Controller, ControllerFilter,
  Heartbeat,
}
use flames.Result.{Exec}

pub record StateStore : Type 1 where
  pub State : Type 0
  pub create_vm : Env → VmSpec → Exec State String
  pub get_vm : String → Exec State Vm
  pub update_vm_desired_state : Env → String → DesiredState → Exec State (Unit {0})
  pub update_vm_observed_state : Env → String → ObservedState → String → Exec State (Unit {0})
  pub assign_vm : Env → String → String → Exec State (Unit {0})
  pub list_pending_vms : Range Vm → Exec State (List Vm)
  pub append_event : Env → Event → Exec State (Unit {0})
  pub list_events : EventFilter → Exec State (List Event)
  pub register_controller : Controller → Exec State (Unit {0})
  pub update_controller_heartbeat : Env → String → Heartbeat → Exec State (Unit {0})
  pub list_controllers : Range Controller → ControllerFilter → Exec State (List Controller)
