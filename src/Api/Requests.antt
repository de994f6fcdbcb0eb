-- ===== src/Api/Requests.antt =====
-- What the service's requests do to the records of a state store that keeps its contract.
use flames.Model.{desired_deleted, desired_stopped, VmSpec, DesiredState}
use flames.Prelude.{
  String, ◌≡◌, ap, none, some, Option-cases, [], ◌∷◌, ◌++◌, arith, string_eq, integer_eq, inl, inr,
}
use flames.Runtime.{Env, new_id}
use flames.Providererr.{not_found}
use flames.Result.{ok, err, Exec, pure, discard, ◌>>◌}
use flames.State.{StateStore}
use flames.State.Contract.{Records, put, created, stamped, Implements}
use flames.State.Contract.Methods.{
  create_vm-promised, get_vm-promised, update_vm_desired_state-promised, append_event-promised,
}
use flames.Queue.{WorkQueue}
use flames.Api.{Service, on_state, vm_event, create_vm, get_vm, stop_vm, delete_vm}

-- A request for another desired state: the VM has it and the log has the event, or there is no such
-- VM and nothing happens.
abbrev pub requested : Env → Env → String → DesiredState → String → Exec Records (Unit {0})
requested e e' id d type r = elim (r.vm id) [
  | none ↦ (err (not_found "vm" id), r)
  | some vm ↦ (
    ok tt,
    record r {
      vm = put id (record vm { desired_state = d; updated_at = e.now }) r.vm;
      log = r.log ++ stamped e' (vm_event id type) ∷ [];
    },
  )
]

abbrev pub added : Env → Env → VmSpec → Records → Records
added e e' spec r = record r {
  vm = put (new_id e.random) (created e spec) r.vm;
  log = r.log ++ stamped e' (vm_event (new_id e.random) "vm.created") ∷ [];
}

module _ (S : StateStore) (Q : WorkQueue) (I : Implements S) (e e' : Env) where
  -- Over a store that keeps the contract `CreateVM` returns the ID that was drawn; the new VM
  -- stands under it, to be run and pending, and the log has one more event, "vm.created" of that
  -- VM; no other record changes, and the queue does not.
  pub create_vm-added :
      (spec : VmSpec) (s : Service S Q)
      → ((create_vm S Q e e' spec s).0 ≡ ok (new_id e.random))
        × (I.view (create_vm S Q e e' spec s).1.state ≡ added e e' spec (I.view s.state))
        × ((create_vm S Q e e' spec s).1.queue ≡ s.queue)
  unfolding create_vm
  create_vm-added spec s =
      let (result, after) = create_vm-promised S I e spec s.state in
      let s' = (S.create_vm e spec s.state).1 in
      let (_, after') = append_event-promised S I e' (vm_event (new_id e.random) "vm.created") s' in
      ground (arith, result, after, after')

  -- `StopVM` and `DeleteVM`, up to the desired state and the type of the event.
  request : DesiredState → String → String → Exec (Service S Q) (Unit {0})
  request d type id = do
    on_state S Q (S.update_vm_desired_state e id d)
    discard (on_state S Q (S.append_event e' (vm_event id type)))
    pure tt

  request-requested :
      (d : DesiredState) (type id : String) (s : Service S Q)
      → ((request d type id s).0 ≡ (requested e e' id d type (I.view s.state)).0)
        × (I.view (request d type id s).1.state ≡ (requested e e' id d type (I.view s.state)).1)
  unfolding request
  request-requested d type id s =
      let (result, after) = update_vm_desired_state-promised S I e id d s.state in
      let s' = (S.update_vm_desired_state e id d s.state).1 in
      let (_, after') = append_event-promised S I e' (vm_event id type) s' in
      elim (Option-cases ((I.view s.state).vm id)) [
        | inl p ↦ ground (arith, p, result, after)
        | inr (vm, p) ↦ ground (arith, p, result, after, after')
      ]

  -- Over a store that keeps the contract `StopVM` of a VM that is there sets its desired state to
  -- "stopped" and adds one event to the log, "vm.stop_requested" of that VM; of any other ID it
  -- reports a missing VM. No other record changes.
  pub stop_vm-requested :
      (id : String) (s : Service S Q)
      → let r = requested e e' id desired_stopped "vm.stop_requested" (I.view s.state) in
        ((stop_vm S Q e e' id s).0 ≡ r.0) × (I.view (stop_vm S Q e e' id s).1.state ≡ r.1)
  unfolding stop_vm request
  stop_vm-requested id s = request-requested desired_stopped "vm.stop_requested" id s

  -- Over a store that keeps the contract `DeleteVM` of a VM that is there sets its desired state
  -- to "deleted" and adds one event to the log, "vm.delete_requested" of that VM; of any other ID
  -- it reports a missing VM. No other record changes.
  pub delete_vm-requested :
      (id : String) (s : Service S Q)
      → let r = requested e e' id desired_deleted "vm.delete_requested" (I.view s.state) in
        ((delete_vm S Q e e' id s).0 ≡ r.0) × (I.view (delete_vm S Q e e' id s).1.state ≡ r.1)
  unfolding delete_vm request
  delete_vm-requested id s = request-requested desired_deleted "vm.delete_requested" id s

  -- Over a store that keeps the contract `GetVM` of the ID that a `CreateVM` returned gives the VM
  -- that was created: to be run, pending, of no controller, with the spec that was asked for.
  pub get_vm-create_vm :
      (spec : VmSpec) (s : Service S Q)
      → (get_vm S Q (new_id e.random) (create_vm S Q e e' spec s).1).0 ≡ ok (created e spec)
  unfolding get_vm
  get_vm-create_vm spec s =
      let s' = (create_vm S Q e e' spec s).1 in
      ground (
        arith,
        (get_vm-promised S I e (new_id e.random) s'.state).0,
        ap (λ (r : Records). r.vm (new_id e.random)) (create_vm-added spec s).1,
      )
