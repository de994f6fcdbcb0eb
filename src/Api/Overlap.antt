-- ===== src/Api/Overlap.antt =====
-- The service's requests while other goroutines use the same store between their two calls.
use flames.Model.{desired_deleted, desired_stopped, Vm, VmSpec, Event, DesiredState}
use flames.Prelude.{
  equal_self, String, ◌≡◌, refl, sym, ap, ◌∙◌, none, some, List, [], ◌∷◌, ◌++◌, All, arith,
  string_eq, same_text, integer_eq,
}
use flames.Runtime.{Env, new_id}
use flames.Result.{Result, ok, err, continue, pure}
use flames.State.{StateStore}
use flames.State.Contract.{
  Call, Reply, Records, created, stamped, put, promised, Implements, update_vm_desired_state,
  append_event, call,
}
use flames.State.Contract.History.{History, run, Spares, SameVm, run-SameVm}
use flames.State.Contract.Methods.{
  create_vm-promised, update_vm_desired_state-promised, append_event-promised,
}
use flames.State.Shared.{first, rest, shared, meanwhile}
use flames.Queue.{WorkQueue}
use flames.Api.Audit.{replayed, replayed-append, desired_of, stops}
use flames.Api.{Service, vm_event, create_vm, stop_vm, delete_vm}

created-SameVm :
    (e : Env) (spec : VmSpec) (r : Records)
    → SameVm (created e spec) ((promised e (Call.create_vm spec) r).1.vm (new_id e.random))
created-SameVm e spec r = ground (arith, same_text (new_id e.random))

-- The calls of a `DeleteVM`.
abbrev pub deletes : Env → Env → String → History
deletes d d' id =
    (d, update_vm_desired_state id desired_deleted)
    ∷ (d', append_event (vm_event id "vm.delete_requested"))
    ∷ []

abbrev marked : Env → String → DesiredState → Vm → Records → Records
marked e id d vm r = record r {
  vm = put id (record vm { desired_state = d; updated_at = e.now }) r.vm;
}

state_after :
    {T : Type 0} (r : Result (Unit {0})) (s : T) → (continue r (λ _. pure Reply.done) s).1 ≡ s
state_after (ok _) s = refl
state_after (err _) s = refl

module _ (S : StateStore) (I : Implements S) (e : Env) (id : String) (d : DesiredState) (vm : Vm)
    (s : S.State) (there : (I.view s).vm id ≡ some vm) where
  update-marked :
      ((S.update_vm_desired_state e id d s).0 ≡ ok tt)
      × (I.view (S.update_vm_desired_state e id d s).1 ≡ marked e id d vm (I.view s))
  update-marked =
      let (result, after) = update_vm_desired_state-promised S I e id d s in
      (ground (arith, result, there), ground (arith, after, there))

module _ (S : StateStore) (Q : WorkQueue) (I : Implements S) (e e' : Env) (queue : Q.State) where
  -- Over a store that keeps the contract `CreateVM` succeeds, whatever other goroutines call on the
  -- store before its two calls. If they draw no such ID between the two, the VM stands under the ID
  -- that is returned, with the ID, spec, image and creation time that it was created with, and the
  -- newest event of the log is its "vm.created".
  pub create_vm_shared :
      (spec : VmSpec) (others : List History) (s : S.State)
      → All (Spares (new_id e.random)) (first (rest others))
      → let id = new_id e.random in
        let sv : Service (shared S) Q = record { state = (others, s); queue = queue } in
        let (reply, after) = create_vm (shared S) Q e e' spec sv in
        (reply ≡ ok id)
        × SameVm (created e spec) ((I.view after.state.1).vm id)
        × ((log : List Event) × ((I.view after.state.1).log
              ≡ log ++ stamped e' (vm_event id "vm.created") ∷ []))
        × (after.state.0 ≡ rest (rest others))
  unfolding create_vm meanwhile
  create_vm_shared spec others s spared =
      let id = new_id e.random in
      let s0 = run S (first others) s in
      let (result, after) = create_vm-promised S I e spec s0 in
      let s1 = (S.create_vm e spec s0).1 in
      let s2 = run S (first (rest others)) s1 in
      let (_, after') = append_event-promised S I e' (vm_event id "vm.created") s2 in
      let same : SameVm (created e spec) ((I.view s1).vm id) =
        rw after (created-SameVm e spec (I.view s0)) in
      let kept = run-SameVm S I (first (rest others)) s1 id (created e spec) spared same in
      rw result (refl, rw after' kept, ((I.view s2).log, ap (λ (r : Records). r.log) after'), refl)

  deletes-run :
      (d d' : Env) (id : String) (s : S.State)
      → (S.update_vm_desired_state d id desired_deleted s).0 ≡ ok tt
      → (delete_vm S Q d d' id (record { state = s; queue = queue })).1.state
        ≡ run S (deletes d d' id) s
  unfolding delete_vm run call
  deletes-run d d' id s done =
      let event = vm_event id "vm.delete_requested" in
      let (marked, s') = S.update_vm_desired_state d id desired_deleted s in
      rw done (
        sym (
          ap (λ x. (call S d' (append_event event) x).1) (state_after marked s')
          ∙ state_after (S.append_event d' event s').0 (S.append_event d' event s').1))

  deletes-view :
      (d d' : Env) (id : String) (vm : Vm) (s : S.State)
      → (I.view s).vm id ≡ some vm
      → I.view (run S (deletes d d' id) s)
        ≡ (promised d'
            (append_event (vm_event id "vm.delete_requested"))
            (marked d id desired_deleted vm (I.view s))).1
  unfolding run
  deletes-view d d' id vm s there = rw (I.follows d' _ _, I.follows d _ s) (ground (arith, there))

  -- A `StopVM` of a VM that is there, with all that a `DeleteVM` of the VM calls between its two
  -- calls, succeeds, and leaves the VM with the desired state "deleted". But the log ends with the
  -- event of the stop: replayed, it says "stopped" of a VM that is to be deleted.
  pub stop_vm-overtaken :
      (d d' : Env) (id : String) (vm : Vm) (s : S.State)
      → (I.view s).vm id ≡ some vm
      → let sv : Service (shared S) Q = record {
        state = ([] ∷ deletes d d' id ∷ [], s);
        queue = queue;
      } in
        let between : Service S Q = record {
          state = (S.update_vm_desired_state e id desired_stopped s).1;
          queue = queue;
        } in
        let (reply, after) = stop_vm (shared S) Q e e' id sv in
        let r = I.view after.state.1 in
        ((delete_vm S Q d d' id between).1.state ≡ run S (deletes d d' id) between.state)
        × (reply ≡ ok tt)
        × (desired_of (r.vm id) ≡ some desired_deleted)
        × (replayed id none r.log ≡ some desired_stopped)
  unfolding stop_vm meanwhile run
  stop_vm-overtaken d d' id vm s there =
      let (stopped, after) = update-marked S I e id desired_stopped vm s there in
      let s1 = (S.update_vm_desired_state e id desired_stopped s).1 in
      let vm1 = record vm { desired_state = desired_stopped; updated_at = e.now } in
      let there1 : (I.view s1).vm id ≡ some vm1 = rw after (rw (equal_self id) refl) in
      let (deleted, _) = update-marked S I d id desired_deleted vm1 s1 there1 in
      let s2 = run S (deletes d d' id) s1 in
      let (_, after') = append_event-promised S I e' (vm_event id "vm.stop_requested") s2 in
      let log = (I.view s2).log in
      let event = stamped e' (vm_event id "vm.stop_requested") in
      (
        deletes-run d d' id s1 deleted,
        rw stopped refl,
        rw (stopped, after', deletes-view d d' id vm1 s1 there1, equal_self id) refl,
        rw (stopped, after')
            (replayed-append id none log event
              ∙ (stops id).0 id (replayed id none log)
              ∙ rw (equal_self id) refl),
      )
