-- ===== src/State/Memstate/Refinement.antt =====
-- The maps of the in-memory store against the contract of a state store.
use flames.Prelude.{
  String, ◌≡◌, refl, ap, ◌∙◌, fun_ext, Option, Option-cases, inl, inr, filter, not, Bool, arith,
  string_eq, integer_eq,
}
use flames.Dict.{Dict, lookup, insert, lookup-insert}
use flames.Runtime.{Env}
use flames.Model.{Vm, Controller, Event, EventFilter}
use flames.Result.{ok}
use flames.State.Listing.{collect-up_to, keeps, up_to}
use flames.State.Contract.{Call, call, Records, put, matches, promised, Implements}
use flames.State.Memstate.{
  Store, memstate, create_vm, get_vm, update_vm_desired_state, update_vm_observed_state, assign_vm,
  append_event, list_events, register_controller, update_controller_heartbeat, skips_event,
}

abbrev pub records : Store → Records
records s = record {
  vm = λ k. lookup k s.vms;
  controller = λ k. lookup k s.controllers;
  log = s.events;
}

lookup-put :
    {V : Type 0} (k : String) (v : V) (m : Dict V)
    → ◌≡◌ {A = String → Option V} (λ j. lookup j (insert k v m)) (put k v (λ j. lookup j m))
lookup-put k v m = fun_ext λ j. lookup-insert k j v m

records-vm :
    (k : String) (vm : Vm) (s : Store)
    → records (record s { vms = insert k vm s.vms })
      ≡ record (records s) { vm = put k vm (records s).vm }
records-vm k vm s = ap (λ m. record (records s) { vm = m }) (lookup-put k vm s.vms)

records-controller :
    (k : String) (c : Controller) (s : Store)
    → records (record s { controllers = insert k c s.controllers })
      ≡ record (records s) { controller = put k c (records s).controller }
records-controller k c s =
    ap (λ m. record (records s) { controller = m }) (lookup-put k c s.controllers)

skips-matches : (f : EventFilter) (e : Event) → not (skips_event f e) ≡ matches f e
unfolding skips_event
skips-matches f e = ground arith

keeps-matches : (f : EventFilter) → keeps (skips_event f) ≡ matches f
keeps-matches f = fun_ext (skips-matches f)

list_events-up_to :
    (f : EventFilter) (s : Store)
    → (list_events f s).0 ≡ ok (up_to f.limit (filter (matches f) s.events))
unfolding list_events
list_events-up_to f s = ap ok (
    collect-up_to (skips_event f) f.limit s.events
    ∙ ap (λ (p : Event → Bool). up_to f.limit (filter p s.events)) (keeps-matches f))

-- For every call but the two listings that range over a map, on any store, the in-memory store
-- answers, errors included, as the contract promises for the records that its maps hold.
pub memstate-replies :
    (e : Env) (c : Call) (s : Store) → (call memstate e c s).0 ≡ (promised e c (records s)).0
unfolding call create_vm get_vm update_vm_desired_state update_vm_observed_state assign_vm
    append_event register_controller update_controller_heartbeat
memstate-replies e (Call.list_events f) s = rw list_events-up_to
memstate-replies e (Call.create_vm f) s = refl
memstate-replies e _ s = ground arith

-- For every call but the two listings that range over a map, on any store, the records in the maps
-- afterwards are those that the contract promises: a call that fails changes none, any other only
-- the one it names.
pub memstate-follows :
    (e : Env) (c : Call) (s : Store)
    → records (call memstate e c s).1 ≡ (promised e c (records s)).1
unfolding call create_vm get_vm update_vm_desired_state update_vm_observed_state assign_vm
    append_event register_controller update_controller_heartbeat list_events
memstate-follows e (Call.create_vm spec) s = records-vm _ _ s
memstate-follows e (Call.get_vm id) s = ground arith
memstate-follows e (Call.append_event ev) s = ground arith
memstate-follows e (Call.list_events f) s = refl
memstate-follows e (Call.update_vm_desired_state id d) s = elim (Option-cases (lookup id s.vms)) [
  | inl h ↦ ground arith
  | inr (vm, h) ↦
      ground (arith, records-vm id (record vm { desired_state = d; updated_at = e.now }) s)
]
memstate-follows e (Call.update_vm_observed_state id o c) s =
    elim (Option-cases (lookup id s.vms)) [
      | inl h ↦ ground arith
      | inr (vm, h) ↦ ground (
        arith,
        records-vm id (record vm { observed_state = o; controller_id = c; updated_at = e.now }) s,
      )
    ]
memstate-follows e (Call.assign_vm id c) s = elim (Option-cases (lookup id s.vms)) [
  | inl h ↦ ground arith
  | inr (vm, h) ↦
      ground (arith, records-vm id (record vm { controller_id = c; updated_at = e.now }) s)
]
memstate-follows e (Call.register_controller c) s = ground (arith, records-controller c.id c s)
memstate-follows e (Call.update_controller_heartbeat id h) s =
    elim (Option-cases (lookup id s.controllers)) [
      | inl p ↦ ground arith
      | inr (c, p) ↦ ground (
        arith,
        records-controller id
            (record c { status = h.status; capacity = h.capacity; last_heartbeat_at = e.now }) s,
      )
    ]

-- So the in-memory store keeps the contract.
abbrev pub memstate_contract : Implements memstate
memstate_contract = record {
  view = records;
  replies = memstate-replies;
  follows = memstate-follows;
}
