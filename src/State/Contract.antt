-- ===== src/State/Contract.antt =====
-- What a state store promises, over maps as functions: how each call changes the records and what
-- it answers. The representation, and the listings that range over a map, are left open.
pub mod History
pub mod Assignment
pub mod Methods
pub mod Controllers
use flames.Model.{
  desired_running, observed_pending, Vm, VmSpec, DesiredState, ObservedState, Event, EventFilter,
  Controller, Heartbeat,
}
use flames.Prelude.{
  String, ◌<>◌, ◌≡◌, Bool, not, ◌||◌, ◌&&◌, Option, none, some, List, [], ◌∷◌, ◌++◌, filter, ◌==◌,
  string_eq, integer_eq, if◌then◌else◌,
}
use flames.Runtime.{Env, before, is_zero, new_id}
use flames.Providererr.{not_found, already_exists, conflict}
use flames.Result.{Result, ok, err, Exec, pure, ◌>>=◌, ◌>>◌}
use flames.State.{StateStore}
use flames.State.Listing.{up_to}

-- One call of a method, and what it returns besides an error.
pub data Call : Type 0 where
  create_vm : VmSpec → Call
  get_vm : String → Call
  update_vm_desired_state : String → DesiredState → Call
  update_vm_observed_state : String → ObservedState → String → Call
  assign_vm : String → String → Call
  append_event : Event → Call
  list_events : EventFilter → Call
  register_controller : Controller → Call
  update_controller_heartbeat : String → Heartbeat → Call

pub data Reply : Type 0 where
  done : Reply
  an_id : String → Reply
  a_vm : Vm → Reply
  some_events : List Event → Reply

module _ (S : StateStore) where
  unfoldable pub call : Env → Call → Exec S.State Reply
  call e (create_vm spec) = do id ← S.create_vm e spec; pure (an_id id)
  call e (get_vm id) = do vm ← S.get_vm id; pure (a_vm vm)
  call e (update_vm_desired_state id d) = do S.update_vm_desired_state e id d; pure done
  call e (update_vm_observed_state id o c) = do S.update_vm_observed_state e id o c; pure done
  call e (assign_vm id c) = do S.assign_vm e id c; pure done
  call e (append_event event) = do S.append_event e event; pure done
  call e (list_events f) = do events ← S.list_events f; pure (some_events events)
  call e (register_controller c) = do S.register_controller c; pure done
  call e (update_controller_heartbeat id h) = do S.update_controller_heartbeat e id h; pure done

-- The records that a client can see.
pub record Records : Type 0 where
  pub vm : String → Option Vm
  pub controller : String → Option Controller
  pub log : List Event

abbrev pub put : {V : Type 0} → String → V → (String → Option V) → String → Option V
put k v m j = if k == j then some v else m j

abbrev pub created : Env → VmSpec → Vm
created e spec = record {
  id = new_id e.random;
  desired_state = desired_running;
  observed_state = observed_pending;
  image_id = "";
  controller_id = "";
  spec = spec;
  created_at = e.now;
  updated_at = e.now;
}

abbrev pub stamped : Env → Event → Event
stamped e event = record event {
  id = if event.id == "" then new_id e.random else event.id;
  created_at = if is_zero event.created_at then e.now else event.created_at;
}

abbrev pub matches : EventFilter → Event → Bool
matches f e =
    (f.vm_id == "" || e.vm_id == f.vm_id)
    && (f.controller_id == "" || e.controller_id == f.controller_id)
    && (f.type == "" || e.type == f.type)
    && (is_zero f.since || not (before e.created_at f.since))

-- A call on a VM that is there, or the error of one that is not.
abbrev pub with_vm : Records → String → (Vm → Result Reply × Records) → Result Reply × Records
with_vm r id f = elim (r.vm id) [ none ↦ (err (not_found "vm" id), r) | some vm ↦ f vm ]

abbrev pub promised : Env → Call → Exec Records Reply
promised e (create_vm spec) r =
    (ok (an_id (new_id e.random)), record r { vm = put (new_id e.random) (created e spec) r.vm })
promised e (get_vm id) r = with_vm r id λ vm. (ok (a_vm vm), r)
promised e (update_vm_desired_state id d) r = with_vm r id λ vm.
    (ok done, record r { vm = put id (record vm { desired_state = d; updated_at = e.now }) r.vm })
promised e (update_vm_observed_state id o c) r = with_vm r id λ vm. (
  ok done,
  record r {
    vm = put id (record vm { observed_state = o; controller_id = c; updated_at = e.now }) r.vm;
  },
)
promised e (assign_vm id c) r = with_vm r id λ vm.
    if vm.controller_id == ""
    then (
      ok done,
      record r { vm = put id (record vm { controller_id = c; updated_at = e.now }) r.vm },
    )
    else (err (conflict "vm" id ("vm already assigned to controller " <> vm.controller_id)), r)
promised e (append_event event) r = (ok done, record r { log = r.log ++ stamped e event ∷ [] })
promised e (list_events f) r = (ok (some_events (up_to f.limit (filter (matches f) r.log))), r)
promised e (register_controller c) r = elim (r.controller c.id) [
  | some _ ↦ (err (already_exists "controller" c.id), r)
  | none ↦ (ok done, record r { controller = put c.id c r.controller })
]
promised e (update_controller_heartbeat id h) r = elim (r.controller id) [
  | none ↦ (err (not_found "controller" id), r)
  | some c ↦ (
    ok done,
    record r {
      controller =
          put id (record c { status = h.status; capacity = h.capacity; last_heartbeat_at = e.now })
            r.controller;
    },
  )
]

-- A store implements the contract if a view of its state follows every call as promised.
pub record Implements (S : StateStore) : Type 0 where
  pub view : S.State → Records
  pub replies : (e : Env) (c : Call) (s : S.State) → (call S e c s).0 ≡ (promised e c (view s)).0
  pub follows :
      (e : Env) (c : Call) (s : S.State) → view (call S e c s).1 ≡ (promised e c (view s)).1
