-- ===== src/State/Memstate.antt =====
-- provider/state/memstate/memstate.go: the state store in memory. Every method runs under the
-- store's mutex, so a call is one step from the store before it to the store after it.
pub mod Refinement
pub mod Valid
pub mod Listings
pub mod Guarantees
use flames.Model.{
  desired_running, observed_pending, Vm, VmSpec, DesiredState, ObservedState, Event, EventFilter,
  Controller, ControllerFilter, Heartbeat,
}
use flames.Prelude.{
  String, ◌<>◌, Bool, true, false, not, ◌&&◌, none, some, List, [], ◌∷◌, ◌++◌, ◌==◌, string_eq,
  integer_eq, if◌then◌else◌,
}
use flames.Dict.{Dict, Range, values, lookup, insert}
use flames.Runtime.{Env, is_zero, before, new_id}
use flames.Providererr.{not_found, already_exists, conflict}
use flames.Result.{ok, err, Exec}
use flames.State.{StateStore}
use flames.State.Listing.{collect}

pub record Store : Type 0 where
  pub vms : Dict Vm
  pub controllers : Dict Controller
  pub events : List Event

-- `New`
abbrev pub new : Store
new = record { vms = []; controllers = []; events = [] }

unfoldable pub create_vm : Env → VmSpec → Exec Store String
create_vm e spec s =
    let id = new_id e.random in
    let vm : Vm = record {
      id = id;
      desired_state = desired_running;
      observed_state = observed_pending;
      image_id = "";
      controller_id = "";
      spec = spec;
      created_at = e.now;
      updated_at = e.now;
    } in
    (ok id, record s { vms = insert id vm s.vms })

unfoldable pub get_vm : String → Exec Store Vm
get_vm vm_id s = elim (lookup vm_id s.vms) [
  | none ↦ (err (not_found "vm" vm_id), s)
  | some vm ↦ (ok vm, s)
]

unfoldable pub update_vm_desired_state : Env → String → DesiredState → Exec Store (Unit {0})
update_vm_desired_state e vm_id desired s = elim (lookup vm_id s.vms) [
  | none ↦ (err (not_found "vm" vm_id), s)
  | some vm ↦
      let vm' = record vm { desired_state = desired; updated_at = e.now } in
      (ok tt, record s { vms = insert vm_id vm' s.vms })
]

unfoldable pub update_vm_observed_state :
    Env → String → ObservedState → String → Exec Store (Unit {0})
update_vm_observed_state e vm_id observed controller_id s = elim (lookup vm_id s.vms) [
  | none ↦ (err (not_found "vm" vm_id), s)
  | some vm ↦
      let vm' = record vm {
        observed_state = observed;
        controller_id = controller_id;
        updated_at = e.now;
      } in
      (ok tt, record s { vms = insert vm_id vm' s.vms })
]

unfoldable pub assign_vm : Env → String → String → Exec Store (Unit {0})
assign_vm e vm_id controller_id s = elim (lookup vm_id s.vms) [
  | none ↦ (err (not_found "vm" vm_id), s)
  | some vm ↦
      if not (vm.controller_id == "")
      then (err (conflict "vm" vm_id ("vm already assigned to controller " <> vm.controller_id)), s)
      else let vm' = record vm { controller_id = controller_id; updated_at = e.now } in
        (ok tt, record s { vms = insert vm_id vm' s.vms })
]

-- The loop of `ListPendingVMs` over the entries as `range` visits them.
unfoldable pub collect_pending : List Vm → Dict Vm → List Vm
collect_pending result [] = result
collect_pending result ((_, vm) ∷ rest) =
    collect_pending (if vm.observed_state == observed_pending then result ++ vm ∷ [] else result)
      rest

unfoldable pub list_pending_vms : Range Vm → Exec Store (List Vm)
list_pending_vms r s = (ok (collect_pending [] (r.visit s.vms)), s)

unfoldable pub append_event : Env → Event → Exec Store (Unit {0})
append_event e event s =
    let event' = if event.id == "" then record event { id = new_id e.random } else event in
    let event'' =
      if is_zero event'.created_at then record event' { created_at = e.now } else event' in
    (ok tt, record s { events = s.events ++ event'' ∷ [] })

-- The four `continue` tests of `ListEvents`.
unfoldable pub skips_event : EventFilter → Event → Bool
skips_event filter e =
    if not (filter.vm_id == "") && not (e.vm_id == filter.vm_id)
    then true
    else if not (filter.controller_id == "") && not (e.controller_id == filter.controller_id)
    then true
    else if not (filter.type == "") && not (e.type == filter.type)
    then true
    else not (is_zero filter.since) && before e.created_at filter.since

unfoldable pub list_events : EventFilter → Exec Store (List Event)
list_events filter s = (ok (collect (skips_event filter) filter.limit [] s.events), s)

unfoldable pub register_controller : Controller → Exec Store (Unit {0})
register_controller controller s = elim (lookup controller.id s.controllers) [
  | some _ ↦ (err (already_exists "controller" controller.id), s)
  | none ↦ (ok tt, record s { controllers = insert controller.id controller s.controllers })
]

unfoldable pub update_controller_heartbeat : Env → String → Heartbeat → Exec Store (Unit {0})
update_controller_heartbeat e controller_id heartbeat s =
    elim (lookup controller_id s.controllers) [
      | none ↦ (err (not_found "controller" controller_id), s)
      | some c ↦
          let c' = record c {
            status = heartbeat.status;
            capacity = heartbeat.capacity;
            last_heartbeat_at = e.now;
          } in
          (ok tt, record s { controllers = insert controller_id c' s.controllers })
    ]

-- The `continue` test of `ListControllers`, on a visited entry.
unfoldable pub skips_controller : ControllerFilter → Controller → Bool
skips_controller filter c = not (filter.status == "") && not (c.status == filter.status)

unfoldable pub list_controllers : Range Controller → ControllerFilter → Exec Store (List Controller)
list_controllers r filter s =
    (ok (collect (skips_controller filter) filter.limit [] (values (r.visit s.controllers))), s)

-- `var _ state.StateStore = (*Store)(nil)`
abbrev pub memstate : StateStore
memstate = record {
  State = Store;
  create_vm = create_vm;
  get_vm = get_vm;
  update_vm_desired_state = update_vm_desired_state;
  update_vm_observed_state = update_vm_observed_state;
  assign_vm = assign_vm;
  list_pending_vms = list_pending_vms;
  append_event = append_event;
  list_events = list_events;
  register_controller = register_controller;
  update_controller_heartbeat = update_controller_heartbeat;
  list_controllers = list_controllers;
}
