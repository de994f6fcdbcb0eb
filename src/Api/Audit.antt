-- ===== src/Api/Audit.antt =====
-- The event log as the history of the desired states: what its events say of the VMs of a store.
use flames.Model.{
  desired_deleted, desired_running, desired_stopped, observed_pending, Vm, Event, DesiredState,
}
use flames.Prelude.{
  String, ◌≡◌, refl, Option, none, some, List, [], ◌∷◌, ◌++◌, ◌==◌, string_eq, if◌then◌else◌, Bool,
  true, false, ◌&&◌, ◌||◌, arith,
}
use flames.State.Contract.{Records}
use flames.Api.{vm_event}

-- What an event says of the desired state of a VM.
abbrev pub after_event : String → Option DesiredState → Event → Option DesiredState
after_event id d event =
    if event.vm_id == id
    then (if event.type == "vm.created"
        then some desired_running
        else if event.type == "vm.stop_requested"
        then some desired_stopped
        else if event.type == "vm.delete_requested"
        then some desired_deleted
        else d)
    else d

-- The events from the oldest to the newest.
unfoldable pub replayed : String → Option DesiredState → List Event → Option DesiredState
replayed id d [] = d
replayed id d (event ∷ events) = replayed id (after_event id d event) events

pub replayed-append :
    (id : String) (d : Option DesiredState) (events : List Event) (event : Event)
    → replayed id d (events ++ event ∷ []) ≡ after_event id (replayed id d events) event
unfolding replayed
replayed-append id d [] event = refl
replayed-append id d (e ∷ events) event = replayed-append id (after_event id d e) events event

-- Whether an event of the type was logged for the VM.
unfoldable pub logged : String → String → List Event → Bool
logged id type [] = false
logged id type (event ∷ events) =
    let later = logged id type events in (event.vm_id == id && event.type == type) || later

pub logged-append :
    (id type : String) (events : List Event) (event : Event)
    → logged id type (events ++ event ∷ [])
      ≡ (logged id type events || (event.vm_id == id && event.type == type))
unfolding logged
logged-append id type [] event = ground arith
logged-append id type (e ∷ events) event = ground (arith, logged-append id type events event)

abbrev pub is_there : Option Vm → Bool
is_there none = false
is_there (some vm) = true

abbrev pub desired_of : Option Vm → Option DesiredState
desired_of none = none
desired_of (some vm) = some vm.desired_state

-- A VM that no controller has taken.
abbrev pub Waits : Option Vm → Type 0
Waits none = Unit
Waits (some vm) = (vm.observed_state ≡ observed_pending) × (vm.controller_id ≡ "")

-- The VMs have the desired states that the log tells, and are those whose creation it tells.
pub record IsAudited (r : Records) : Type 0 where
  pub desired : (id : String) → desired_of (r.vm id) ≡ replayed id none r.log
  pub created : (id : String) → is_there (r.vm id) ≡ logged id "vm.created" r.log
  pub waiting : (id : String) → Waits (r.vm id)

-- An event of the type says that the VM has the desired state, and tells of no creation.
abbrev pub Says : String → String → DesiredState → Type 0
Says id type d =
    ((j : String) (o : Option DesiredState)
      → after_event j o (vm_event id type) ≡ (if id == j then some d else o))
    × ((type == "vm.created") ≡ false)

pub stops : (id : String) → Says id "vm.stop_requested" desired_stopped
unfolding string_eq
stops id = ((λ j o. refl), refl)

pub deletes : (id : String) → Says id "vm.delete_requested" desired_deleted
unfolding string_eq
deletes id = ((λ j o. refl), refl)
