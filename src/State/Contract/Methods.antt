-- ===== src/State/Contract/Methods.antt =====
-- The contract method by method: what a method itself returns, and the records after it.
use flames.Prelude.{String, ◌≡◌, refl, sym, ap, ◌∙◌, List}
use flames.Runtime.{Env}
use flames.Model.{Vm, VmSpec, DesiredState, Event, EventFilter}
use flames.Providererr.{Error, nil}
use flames.Result.{Result, ok, err, pure, continue}
use flames.State.{StateStore}
use flames.State.Contract.{
  Reply, an_id, a_vm, done, some_events, create_vm, get_vm, update_vm_desired_state, append_event,
  list_events, call, promised, Implements,
}

-- What is in a reply of the kind that a method gives.
abbrev pub id_of : Result Reply → Result String
id_of (ok (an_id id)) = ok id
id_of (ok _) = err nil
id_of (err e) = err e

abbrev pub vm_of : Result Reply → Result Vm
vm_of (ok (a_vm vm)) = ok vm
vm_of (ok _) = err nil
vm_of (err e) = err e

abbrev pub events_of : Result Reply → Result (List Event)
events_of (ok (some_events events)) = ok events
events_of (ok _) = err nil
events_of (err e) = err e

abbrev pub done_of : Result Reply → Result (Unit {0})
done_of (ok _) = ok tt
done_of (err e) = err e

module _ {S : Type 0} {A : Type 0} (reply : A → Reply) where
  continue-state : (r : Result A) (s : S) → s ≡ (continue r (λ a. pure (reply a)) s).1
  continue-state (ok a) s = refl
  continue-state (err e) s = refl

  module _ (part : Result Reply → Result A) (part-ok : (a : A) → part (ok (reply a)) ≡ ok a)
      (part-err : (e : Error) → part (err e) ≡ err e) where
    continue-part : (r : Result A) (s : S) → r ≡ part (continue r (λ a. pure (reply a)) s).0
    continue-part (ok a) s = sym (part-ok a)
    continue-part (err e) s = sym (part-err e)

module _ (S : StateStore) (I : Implements S) where
  pub create_vm-promised :
      (e : Env) (spec : VmSpec) (s : S.State)
      → ((S.create_vm e spec s).0 ≡ id_of (promised e (create_vm spec) (I.view s)).0)
        × (I.view (S.create_vm e spec s).1 ≡ (promised e (create_vm spec) (I.view s)).1)
  unfolding call
  create_vm-promised e spec s = (
    continue-part an_id id_of (λ a. refl) (λ e. refl) (S.create_vm e spec s).0
          (S.create_vm e spec s).1
        ∙ ap id_of (I.replies e (create_vm spec) s),
    ap I.view (continue-state an_id (S.create_vm e spec s).0 (S.create_vm e spec s).1)
        ∙ I.follows e (create_vm spec) s,
  )

  pub get_vm-promised :
      (e : Env) (id : String) (s : S.State)
      → ((S.get_vm id s).0 ≡ vm_of (promised e (get_vm id) (I.view s)).0)
        × (I.view (S.get_vm id s).1 ≡ (promised e (get_vm id) (I.view s)).1)
  unfolding call
  get_vm-promised e id s = (
    continue-part a_vm vm_of (λ a. refl) (λ e. refl) (S.get_vm id s).0 (S.get_vm id s).1
        ∙ ap vm_of (I.replies e (get_vm id) s),
    ap I.view (continue-state a_vm (S.get_vm id s).0 (S.get_vm id s).1) ∙ I.follows e (get_vm id) s,
  )

  pub update_vm_desired_state-promised :
      (e : Env) (id : String) (d : DesiredState) (s : S.State)
      → ((S.update_vm_desired_state e id d s).0
          ≡ done_of (promised e (update_vm_desired_state id d) (I.view s)).0)
        × (I.view (S.update_vm_desired_state e id d s).1
            ≡ (promised e (update_vm_desired_state id d) (I.view s)).1)
  unfolding call
  update_vm_desired_state-promised e id d s =
      let m = S.update_vm_desired_state e id d s in
      (
        continue-part (λ _. done) done_of (λ a. refl) (λ e. refl) m.0 m.1
            ∙ ap done_of (I.replies e (update_vm_desired_state id d) s),
        ap I.view (continue-state (λ _. done) m.0 m.1)
            ∙ I.follows e (update_vm_desired_state id d) s,
      )

  pub append_event-promised :
      (e : Env) (event : Event) (s : S.State)
      → ((S.append_event e event s).0 ≡ done_of (promised e (append_event event) (I.view s)).0)
        × (I.view (S.append_event e event s).1 ≡ (promised e (append_event event) (I.view s)).1)
  unfolding call
  append_event-promised e event s =
      let m = S.append_event e event s in
      (
        continue-part (λ _. done) done_of (λ a. refl) (λ e. refl) m.0 m.1
            ∙ ap done_of (I.replies e (append_event event) s),
        ap I.view (continue-state (λ _. done) m.0 m.1) ∙ I.follows e (append_event event) s,
      )

  pub list_events-promised :
      (e : Env) (f : EventFilter) (s : S.State)
      → ((S.list_events f s).0 ≡ events_of (promised e (list_events f) (I.view s)).0)
        × (I.view (S.list_events f s).1 ≡ (promised e (list_events f) (I.view s)).1)
  unfolding call
  list_events-promised e f s =
      let m = S.list_events f s in
      (
        continue-part some_events events_of (λ a. refl) (λ e. refl) m.0 m.1
            ∙ ap events_of (I.replies e (list_events f) s),
        ap I.view (continue-state some_events m.0 m.1) ∙ I.follows e (list_events f) s,
      )
