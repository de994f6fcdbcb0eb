-- ===== src/Api.antt =====
-- api/service.go: the service layer over any state store and any work queue. A method that calls
-- the store twice takes what the runtime supplies to each call.
pub mod Requests
pub mod Listings
pub mod Audit
pub mod Overlap
use flames.Model.{
  desired_deleted, desired_stopped, Vm, VmSpec, DesiredState, Event, EventFilter, Controller,
  ControllerFilter, Heartbeat, zero_event,
}
use flames.Prelude.{String, ℤ, pos, ltb_ℤ, leb_ℤ, List, if◌then◌else◌}
use flames.Dict.{Range}
use flames.Runtime.{Env}
use flames.Result.{Exec, pure, discard, ◌>>=◌, ◌>>◌}
use flames.State.{StateStore}
use flames.Queue.{WorkQueue}

-- The providers that `New` is given.
pub record Service (S : StateStore) (Q : WorkQueue) : Type 0 where
  pub state : S.State
  pub queue : Q.State

abbrev pub default_list_limit : ℤ
default_list_limit = pos 100

abbrev pub max_list_limit : ℤ
max_list_limit = pos 1000

unfoldable pub clamp_limit : ℤ → ℤ
clamp_limit limit =
    if leb_ℤ limit (pos 0)
    then default_list_limit
    else if ltb_ℤ max_list_limit limit
    then max_list_limit
    else limit

abbrev pub vm_event : String → String → Event
vm_event id type = record zero_event { vm_id = id; type = type }

module _ (S : StateStore) (Q : WorkQueue) where
  -- `New`
  unfoldable pub new : S.State → Q.State → Service S Q
  new state queue = record { state = state; queue = queue }

  -- A call of the state store that the service holds.
  abbrev pub on_state : {A : Type 0} → Exec S.State A → Exec (Service S Q) A
  on_state m s = ((m s.state).0, record s { state = (m s.state).1 })

  unfoldable pub create_vm : Env → Env → VmSpec → Exec (Service S Q) String
  create_vm e e' spec = do
    id ← on_state (S.create_vm e spec)
    discard (on_state (S.append_event e' (vm_event id "vm.created")))
    pure id

  unfoldable pub get_vm : String → Exec (Service S Q) Vm
  get_vm vm_id = on_state (S.get_vm vm_id)

  unfoldable pub stop_vm : Env → Env → String → Exec (Service S Q) (Unit {0})
  stop_vm e e' vm_id = do
    on_state (S.update_vm_desired_state e vm_id desired_stopped)
    discard (on_state (S.append_event e' (vm_event vm_id "vm.stop_requested")))
    pure tt

  unfoldable pub delete_vm : Env → Env → String → Exec (Service S Q) (Unit {0})
  delete_vm e e' vm_id = do
    on_state (S.update_vm_desired_state e vm_id desired_deleted)
    discard (on_state (S.append_event e' (vm_event vm_id "vm.delete_requested")))
    pure tt

  unfoldable pub register_controller : Controller → Exec (Service S Q) (Unit {0})
  register_controller c = on_state (S.register_controller c)

  unfoldable pub heartbeat : Env → String → Heartbeat → Exec (Service S Q) (Unit {0})
  heartbeat e controller_id hb = on_state (S.update_controller_heartbeat e controller_id hb)

  unfoldable pub list_controllers :
      Range Controller → ControllerFilter → Exec (Service S Q) (List Controller)
  list_controllers r filter =
      on_state (S.list_controllers r (record filter { limit = clamp_limit filter.limit }))

  unfoldable pub list_events : EventFilter → Exec (Service S Q) (List Event)
  list_events filter = on_state (S.list_events (record filter { limit = clamp_limit filter.limit }))
