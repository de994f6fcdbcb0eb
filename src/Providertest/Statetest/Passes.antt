-- ===== src/Providertest/Statetest/Passes.antt =====
-- The conformance suite of a state store, run on the store in memory.
use flames.Model.{observed_pending, observed_running, Vm, Controller, zero_spec}
use flames.Prelude.{
  length, filter, subst, equal_self, ◌==◌, true, false, suc, sym, length-perm, inl, inr, ◌↔◌, some,
  ℕ, String, ◌≡◌, ◌≢◌, refl, ap, ◌∙◌, [], ◌∷◌, List, pos, arith, Perm, string_eq, integer_eq,
  number_eq, same_text,
}
use native.Mathlib.Decide.{ℕ_discrete}
use flames.Dict.{Range, lookup, insert}
use flames.Runtime.{Env, IsEnv, new_id}
use flames.Providererr.{errors_is, provider_is, not_found, already_exists, conflict}
use flames.State.Contract.{created}
use flames.State.Listing.{collect}
use flames.State.Memstate.{
  new, create_vm, get_vm, update_vm_desired_state, update_vm_observed_state, assign_vm,
  append_event, list_events, register_controller, update_controller_heartbeat, Store, skips_event,
  memstate,
}
use Prim.Native.String.{char_at}
use text.Mathlib.TextLemmas.{cons-append}
use mathlib.Core.HLevel.{hedberg}
use mathlib.Core.Logic.{∥∥₁_elim}
use mathlib.Core.List.Perm
use mathlib.Core.List.{mem-cons, mem-cons_self, not-mem-nil}
use flames.State.Memstate.Listings.{is_pending, list_pending_vms-perm, length-list_controllers}
use flames.State.Memstate.Valid.{new_id-ne-empty}
use flames.Providertest.{AllPass}
use flames.Providertest.Statetest.{
  test_create_and_get, test_update_desired_state, test_update_observed_state, test_assign_vm,
  assign_concurrently, Schedule, test_concurrent_assign, test_list_pending_vms, test_events,
  test_controllers, test_list_controllers, test_not_found_errors, Conditions, run, first_id,
  a_controller, capacity, assign_all, worker,
}

first_id-perm : (vms : List Vm) (vm : Vm) → Perm vms (vm ∷ []) → first_id vms ≡ vm.id
first_id-perm [] vm p = absurd (omega (arith, length-perm p))
first_id-perm (v ∷ vs) vm p =
    ∥∥₁_elim (mem-cons.0 (Perm.subset p v mem-cons_self)) (hedberg string_eq.dec _ _)
      λ m. elim m [ inl same ↦ ap (λ (x : Vm). x.id) same | inr none ↦ absurd (not-mem-nil none) ]

unlike : (observed_running == observed_pending) ≡ false
unfolding string_eq
unlike = refl

alike : (observed_pending == observed_pending) ≡ true
alike = equal_self observed_pending

one_pending :
    (a b : Vm)
    → a.observed_state ≡ observed_pending
    → b.observed_state ≡ observed_running
    → filter is_pending (a ∷ b ∷ []) ≡ a ∷ []
one_pending a b p q = ground (arith, unlike, alike, p, q)

module _ (e : ℕ → Env) where
  create_and_get-passes : IsEnv (e 0) → (test_create_and_get memstate e new).0 ≡ []
  unfolding test_create_and_get create_vm get_vm lookup insert
  create_and_get-passes h = ground (arith, new_id-ne-empty (e 0) h)

  update_desired_state-passes : (test_update_desired_state memstate e new).0 ≡ []
  unfolding test_update_desired_state create_vm get_vm update_vm_desired_state lookup insert
  update_desired_state-passes = ground arith

  update_observed_state-passes : (test_update_observed_state memstate e new).0 ≡ []
  unfolding test_update_observed_state create_vm get_vm update_vm_observed_state lookup insert
  update_observed_state-passes = ground arith

  assign_vm-passes : (test_assign_vm memstate e new).0 ≡ []
  unfolding test_assign_vm create_vm get_vm assign_vm lookup insert string_eq errors_is provider_is
      conflict
  assign_vm-passes = ground (arith, same_text (new_id (e 0).random))

  events-passes : (test_events memstate e new).0 ≡ []
  unfolding test_events append_event list_events collect skips_event string_eq integer_eq ℕ_discrete
      number_eq
  events-passes = refl

  controllers-passes : (test_controllers memstate e new).0 ≡ []
  unfolding test_controllers register_controller update_controller_heartbeat lookup insert string_eq
      errors_is provider_is already_exists
  controllers-passes = refl

  not_found_errors-passes : (test_not_found_errors memstate e new).0 ≡ []
  unfolding test_not_found_errors get_vm update_vm_desired_state update_vm_observed_state assign_vm
      update_controller_heartbeat lookup string_eq errors_is provider_is not_found
  not_found_errors-passes = refl

  -- Once the VM is assigned, no goroutine succeeds.
  assign_all-taken :
      (id : String) (vm : Vm) (ns : List ℕ) (s : Store)
      → lookup id s.vms ≡ some vm
      → vm.controller_id ≢ ""
      → assign_all memstate e id ns s ≡ ([], some 0, s)
  unfolding assign_all assign_vm
  assign_all-taken id vm [] s p h = refl
  assign_all-taken id vm (n ∷ ns) s p h = ground (arith, assign_all-taken id vm ns s p h)

  worker-ne-empty : (n : ℕ) → worker n ≢ ""
  worker-ne-empty n p =
      let first = cons-append "c" "trl-" (String.◌∷◌ (char_at "ABCDEFGHIJ" n) String.[]) in
      cc (sym first ∙ p)

  -- Whichever goroutine comes first wins.
  concurrent_assign-passes :
      (n : ℕ) (ns : List ℕ) → (assign_concurrently memstate e (n ∷ ns) new).0 ≡ []
  unfolding assign_concurrently assign_all create_vm get_vm assign_vm lookup insert
  concurrent_assign-passes n ns =
      let id = new_id (e 0).random in
      let won : Vm = record (created (e 0) zero_spec) {
        controller_id = worker n;
        updated_at = (e (suc n)).now;
      } in
      let after : Store = record new { vms = (id, won) ∷ [] } in
      ground (
        arith,
        worker-ne-empty n,
        assign_all-taken id won ns after (ground arith) (worker-ne-empty n),
      )

  list_pending_vms-passes :
      (order : Range Vm)
      → (test_list_pending_vms memstate e order new).0 ≡ []
        ↔ (new_id (e 0).random ≢ new_id (e 1).random)
  unfolding test_list_pending_vms create_vm update_vm_observed_state lookup insert
  list_pending_vms-passes order =
      let id1 = new_id (e 0).random in
      let id2 = new_id (e 1).random in
      let running : Vm = record (created (e 1) zero_spec) {
        observed_state = observed_running;
        controller_id = "ctrl-1";
        updated_at = (e 2).now;
      } in
      let one : Store = record new { vms = (id2, running) ∷ [] } in
      let both : Store = record new {
        vms = (id1, created (e 0) zero_spec) ∷ (id2, running) ∷ [];
      } in
      let (of_one, p, p') = list_pending_vms-perm order one in
      let (of_both, q, q') = list_pending_vms-perm order both in
      let first : Vm = created (e 0) zero_spec in
      let only = subst (λ vms. Perm of_both vms) (one_pending first running refl refl) q' in
      elim (string_eq.dec id1 id2) [
        | yes same ↦ ground (arith, same, p, length-perm p', unlike)
        | no differ ↦
            ground
              (arith, differ, q, length-perm only, unlike, alike, first_id-perm of_both first only)
      ]

list_controllers-passes :
    (order : ℕ → Range Controller) → (test_list_controllers memstate order new).0 ≡ []
unfolding test_list_controllers register_controller lookup insert string_eq
list_controllers-passes order =
    let stored = insert "ctrl-3" (a_controller "ctrl-3" "active" (capacity 4 0 0 0)) (
      insert "ctrl-2" (a_controller "ctrl-2" "draining" (capacity 16 0 0 0))
        (insert "ctrl-1" (a_controller "ctrl-1" "active" (capacity 8 0 0 0)) [])) in
    let s : Store = record new { controllers = stored } in
    let (all, p, p') =
      length-list_controllers (order 0) (record { status = ""; limit = pos 0 }) s in
    let (active, q, q') =
      length-list_controllers (order 1) (record { status = "active"; limit = pos 0 }) s in
    let (limited, r, r') =
      length-list_controllers (order 2) (record { status = ""; limit = pos 1 }) s in
    ground (arith, p, p', q, q', r, r')

some_pass :
    (e : ℕ → Env) (order : List ℕ)
    → length order ≡ 10
    → (assign_concurrently memstate e order new).0 ≡ []
some_pass e [] h = absurd (omega (arith, h))
some_pass e (n ∷ ns) h = concurrent_assign-passes e n ns

goroutines-passes :
    (e : ℕ → Env) (goroutines : Schedule)
    → (test_concurrent_assign memstate e goroutines new).0 ≡ []
goroutines-passes e goroutines =
    some_pass e goroutines.order (length-perm goroutines.order-perm ∙ refl)

-- The conformance suite, run on the store in memory, reports nothing exactly if the two VMs of
-- "ListPendingVMs" draw different IDs, in whatever order the goroutines' calls take effect
-- and in whatever orders the loops run; the clock is set and the random source fills
-- its buffer in the first call of "CreateAndGet".
pub statetest-AllPass :
    (c : Conditions)
    → IsEnv (c.env "CreateAndGet" 0)
    → AllPass (run memstate c new)
      ↔ (new_id (c.env "ListPendingVMs" 0).random ≢ new_id (c.env "ListPendingVMs" 1).random)
unfolding run
statetest-AllPass c h =
    let pending = list_pending_vms-passes (c.env "ListPendingVMs") c.vms in
    (
      (λ all. pending.0 all.1.1.1.1.1.0),
      λ differ. (
        create_and_get-passes (c.env "CreateAndGet") h,
        (
          update_desired_state-passes (c.env "UpdateDesiredState"),
          (
            update_observed_state-passes (c.env "UpdateObservedState"),
            (
              assign_vm-passes (c.env "AssignVM"),
              (
                goroutines-passes (c.env "ConcurrentAssign") c.goroutines,
                (
                  pending.1 differ,
                  (
                    events-passes (c.env "Events"),
                    (
                      controllers-passes (c.env "Controllers"),
                      (
                        list_controllers-passes c.controllers,
                        (not_found_errors-passes (c.env "NotFoundErrors"), tt),
                      ),
                    ),
                  ),
                ),
              ),
            ),
          ),
        ),
      ),
    )
