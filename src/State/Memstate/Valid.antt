-- ===== src/State/Memstate/Valid.antt =====
-- What holds of the in-memory store between two calls.
use flames.Prelude.{
  String, Bool-cases, ◌≡◌, refl, subst, ◌≢◌, Option, Option-cases, none, some, [], ◌∷◌, All,
  All-append, inl, inr, arith, ◌==◌, string_eq, integer_eq,
}
use flames.Dict.{lookup, insert, lookup-nil, lookup-insert, NodupKeys, insert-NodupKeys}
use flames.Runtime.{Env, IsEnv, zero_time, new_id}
use flames.Runtime.Hex.{encode_to_string-ne-empty}
use flames.Model.{Vm, Controller, Event}
use flames.State.Contract.{Call, call}
use flames.State.Contract.History.{History, run}
use flames.State.Memstate.{
  Store, new, memstate, create_vm, get_vm as get, update_vm_desired_state, update_vm_observed_state,
  assign_vm, append_event, list_events as list, register_controller, update_controller_heartbeat,
}

-- An entry stands under the ID that it holds.
abbrev VmKey : String → Option Vm → Type 0
VmKey k none = Unit
VmKey k (some vm) = vm.id ≡ k

abbrev ControllerKey : String → Option Controller → Type 0
ControllerKey k none = Unit
ControllerKey k (some c) = c.id ≡ k

abbrev IsStamped : Event → Type 0
IsStamped e = (e.id ≢ "") × (e.created_at ≢ zero_time)

pub record IsValid (s : Store) : Type 0 where
  pub vms_distinct : NodupKeys s.vms
  pub controllers_distinct : NodupKeys s.controllers
  pub vm_keys : (k : String) → VmKey k (lookup k s.vms)
  pub controller_keys : (k : String) → ControllerKey k (lookup k s.controllers)
  pub events_stamped : All IsStamped s.events

pub new-IsValid : IsValid new
new-IsValid = record {
  vms_distinct = tt;
  controllers_distinct = tt;
  vm_keys = λ k. rw lookup-nil tt;
  controller_keys = λ k. rw lookup-nil tt;
  events_stamped = tt;
}

pub new_id-ne-empty : (e : Env) → IsEnv e → new_id e.random ≢ ""
unfolding new_id
new_id-ne-empty e h = encode_to_string-ne-empty e.random (omega arith)

put_vm-IsValid :
    (s : Store) (id : String) (vm : Vm)
    → vm.id ≡ id
    → IsValid s
    → IsValid (record s { vms = insert id vm s.vms })
put_vm-IsValid s id vm h v = record {
  vms_distinct = insert-NodupKeys id vm s.vms v.vms_distinct;
  controllers_distinct = v.controllers_distinct;
  vm_keys = λ k. ground (arith, lookup-insert id k vm s.vms, v.vm_keys k);
  controller_keys = v.controller_keys;
  events_stamped = v.events_stamped;
}

put_controller-IsValid :
    (s : Store) (id : String) (c : Controller)
    → c.id ≡ id
    → IsValid s
    → IsValid (record s { controllers = insert id c s.controllers })
put_controller-IsValid s id c h v = record {
  vms_distinct = v.vms_distinct;
  controllers_distinct = insert-NodupKeys id c s.controllers v.controllers_distinct;
  vm_keys = v.vm_keys;
  controller_keys = λ k. ground (arith, lookup-insert id k c s.controllers, v.controller_keys k);
  events_stamped = v.events_stamped;
}

append_event-IsStamped :
    (e : Env) (event : Event) (s : Store)
    → IsEnv e
    → All IsStamped s.events
    → All IsStamped (append_event e event s).1.events
unfolding append_event
append_event-IsStamped e event s h v =
    All-append IsStamped s.events _ v (ground (arith, new_id-ne-empty e h), tt)

append_event-IsValid :
    (e : Env) (event : Event) (s : Store) → IsEnv e → IsValid s → IsValid (append_event e event s).1
append_event-IsValid e event s h v = record {
  vms_distinct = unfold append_event in v.vms_distinct;
  controllers_distinct = unfold append_event in v.controllers_distinct;
  vm_keys = unfold append_event in v.vm_keys;
  controller_keys = unfold append_event in v.controller_keys;
  events_stamped = append_event-IsStamped e event s h v.events_stamped;
}

found_vm : (s : Store) (id : String) (vm : Vm) → IsValid s → lookup id s.vms ≡ some vm → vm.id ≡ id
found_vm s id vm v h = subst (VmKey id) h (v.vm_keys id)

found_controller :
    (s : Store) (id : String) (c : Controller)
    → IsValid s
    → lookup id s.controllers ≡ some c
    → c.id ≡ id
found_controller s id c v h = subst (ControllerKey id) h (v.controller_keys id)

-- Every call keeps it, whether it succeeds or not.
step-IsValid :
    (e : Env) (c : Call) (s : Store) → IsEnv e → IsValid s → IsValid (call memstate e c s).1
unfolding call create_vm get update_vm_desired_state update_vm_observed_state assign_vm list
    register_controller update_controller_heartbeat append_event
step-IsValid e (Call.create_vm spec) s h v = put_vm-IsValid s _ _ refl v
step-IsValid e (Call.get_vm id) s h v = elim (Option-cases (lookup id s.vms)) [
  | inl p ↦ rw (p, get) v
  | inr (vm, p) ↦ rw (p, get) v
]
step-IsValid e (Call.update_vm_desired_state id d) s h v = elim (Option-cases (lookup id s.vms)) [
  | inl p ↦ rw (p, update_vm_desired_state) v
  | inr (vm, p) ↦ rw (p, update_vm_desired_state) (put_vm-IsValid s id _ (found_vm s id vm v p) v)
]
step-IsValid e (Call.update_vm_observed_state id o c) s h v =
    elim (Option-cases (lookup id s.vms)) [
      | inl p ↦ rw (p, update_vm_observed_state) v
      | inr (vm, p) ↦
          rw (p, update_vm_observed_state) (put_vm-IsValid s id _ (found_vm s id vm v p) v)
    ]
step-IsValid e (Call.assign_vm id c) s h v = elim (Option-cases (lookup id s.vms)) [
  | inl p ↦ rw (p, assign_vm) v
  | inr (vm, p) ↦ elim (Bool-cases (vm.controller_id == "")) [
    | inl free ↦ rw (p, assign_vm, free) (put_vm-IsValid s id _ (found_vm s id vm v p) v)
    | inr taken ↦ rw (p, assign_vm, taken) v
  ]
]
step-IsValid e (Call.append_event event) s h v = append_event-IsValid e event s h v
step-IsValid e (Call.list_events f) s h v = v
step-IsValid e (Call.register_controller c) s h v =
    elim (Option-cases (lookup c.id s.controllers)) [
      | inl p ↦ rw (p, register_controller) (put_controller-IsValid s c.id c refl v)
      | inr (old, p) ↦ rw (p, register_controller) v
    ]
step-IsValid e (Call.update_controller_heartbeat id hb) s h v =
    elim (Option-cases (lookup id s.controllers)) [
      | inl p ↦ rw (p, update_controller_heartbeat) v
      | inr (c, p) ↦
          rw (p, update_controller_heartbeat)
            (put_controller-IsValid s id _ (found_controller s id c v p) v)
    ]

pub run-IsValid :
    (h : History) (s : Store) → All (λ c. IsEnv c.0) h → IsValid s → IsValid (run memstate h s)
unfolding run
run-IsValid [] s a v = v
run-IsValid ((e, c) ∷ h) s a v =
    run-IsValid h (call memstate e c s).1 a.1 (step-IsValid e c s a.0 v)

-- After any calls on a new store, no key of its maps stands twice, every VM and every controller
-- stands under its own ID, and every event has an ID and a creation time, if the clock is set and
-- the random source fills its buffer.
pub run-new-IsValid :
    (h : History) → All (λ (c : Env × Call). IsEnv c.0) h → IsValid (run memstate h new)
run-new-IsValid h a = run-IsValid h new a new-IsValid
