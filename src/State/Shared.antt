-- ===== src/State/Shared.antt =====
-- A state store as one goroutine sees it while others use the same store. A call is atomic, as the
-- mutex makes it; before each call come the calls that the others have made since the last one.
use flames.Prelude.{◌≡◌, refl, sym, ap, subst, ◌∙◌, List, [], ◌∷◌, ◌++◌, All, All-append, inl, inr}
use flames.Runtime.{Env}
use flames.Result.{Result-cases, Exec, pure, ◌>>=◌}
use flames.State.{StateStore}
use flames.State.Contract.{
  Call, create_vm, get_vm, update_vm_desired_state, update_vm_observed_state, assign_vm,
  append_event, list_events, register_controller, update_controller_heartbeat, Reply, call,
}
use flames.State.Contract.History.{History, run, run-append}

-- What the others call before the next call, and before the calls after it.
abbrev pub first : List History → History
first [] = []
first (h ∷ others) = h

abbrev pub rest : List History → List History
rest [] = []
rest (h ∷ others) = others

pub first-All {κ} :
    (P : Env × Call → Type κ) (others : List History) → All (All P) others → All P (first others)
first-All P [] a = tt
first-All P (h ∷ others) a = a.0

pub rest-All {κ} :
    (P : Env × Call → Type κ) (others : List History)
    → All (All P) others
    → All (All P) (rest others)
rest-All P [] a = tt
rest-All P (h ∷ others) a = a.1

module _ (S : StateStore) where
  -- What the others call before each call to come, and the state of the store.
  abbrev pub Schedule : Type 0
  Schedule = List History × S.State

  -- The others' calls, and then a call of its own.
  unfoldable pub meanwhile : {A : Type 0} → Exec S.State A → Exec Schedule A
  meanwhile m (others, s) = let (r, s') = m (run S (first others) s) in (r, (rest others, s'))

  -- The two listings that range over a map change nothing: what the others call before them is left
  -- for the next call.
  abbrev pub shared : StateStore
  shared = record {
    State = Schedule;
    create_vm = λ e spec. meanwhile (S.create_vm e spec);
    get_vm = λ id. meanwhile (S.get_vm id);
    update_vm_desired_state = λ e id d. meanwhile (S.update_vm_desired_state e id d);
    update_vm_observed_state = λ e id o c. meanwhile (S.update_vm_observed_state e id o c);
    assign_vm = λ e id c. meanwhile (S.assign_vm e id c);
    list_pending_vms = λ order x. let (r, s) = S.list_pending_vms order x.1 in (r, (x.0, s));
    append_event = λ e event. meanwhile (S.append_event e event);
    list_events = λ f. meanwhile (S.list_events f);
    register_controller = λ c. meanwhile (S.register_controller c);
    update_controller_heartbeat = λ e id h. meanwhile (S.update_controller_heartbeat e id h);
    list_controllers = λ order f x. let (r, s) = S.list_controllers order f x.1 in (r, (x.0, s));
  }

  continue-meanwhile :
      {A : Type 0} (m : Exec S.State A) (kind : A → Reply) (x : Schedule)
      → (meanwhile m >>= λ a. pure (kind a)) x ≡ meanwhile (m >>= λ a. pure (kind a)) x
  unfolding meanwhile
  continue-meanwhile m kind (others, s) = elim (Result-cases (m (run S (first others) s)).0) [
    | inl (a, got) ↦ rw got refl
    | inr (y, failed) ↦ rw failed refl
  ]

  pub call-meanwhile :
      (e : Env) (c : Call) (x : Schedule) → call shared e c x ≡ meanwhile (call S e c) x
  unfolding call
  call-meanwhile e (create_vm spec) x = continue-meanwhile (S.create_vm e spec) Reply.an_id x
  call-meanwhile e (get_vm id) x = continue-meanwhile (S.get_vm id) Reply.a_vm x
  call-meanwhile e (update_vm_desired_state id d) x =
      continue-meanwhile (S.update_vm_desired_state e id d) (λ _. Reply.done) x
  call-meanwhile e (update_vm_observed_state id o c) x =
      continue-meanwhile (S.update_vm_observed_state e id o c) (λ _. Reply.done) x
  call-meanwhile e (assign_vm id c) x = continue-meanwhile (S.assign_vm e id c) (λ _. Reply.done) x
  call-meanwhile e (append_event event) x =
      continue-meanwhile (S.append_event e event) (λ _. Reply.done) x
  call-meanwhile e (list_events f) x = continue-meanwhile (S.list_events f) Reply.some_events x
  call-meanwhile e (register_controller c) x =
      continue-meanwhile (S.register_controller c) (λ _. Reply.done) x
  call-meanwhile e (update_controller_heartbeat id h) x =
      continue-meanwhile (S.update_controller_heartbeat e id h) (λ _. Reply.done) x

-- The order in which the calls take effect.
pub weave : List History → History → History
weave others [] = []
weave others (c ∷ own) = first others ++ c ∷ weave (rest others) own

pub weave-All {κ} :
    (P : Env × Call → Type κ) (others : List History) (own : History)
    → All (All P) others
    → All P own
    → All P (weave others own)
unfolding weave
weave-All P others [] a b = tt
weave-All P others (c ∷ own) a b =
    All-append P (first others) (c ∷ weave (rest others) own) (first-All P others a)
      (b.0, weave-All P (rest others) own (rest-All P others a) b.1)

module _ (S : StateStore) where
  -- A run while others use the store is a run of all the calls in the order in which they come.
  pub run-shared :
      (others : List History) (own : History) (s : S.State)
      → (run (shared S) own (others, s)).1 ≡ run S (weave others own) s
  unfolding weave run meanwhile
  run-shared others [] s = refl
  run-shared others ((e, c) ∷ own) s =
      ap (λ x. (run (shared S) own x.1).1) (call-meanwhile S e c (others, s))
      ∙ run-shared (rest others) own (call S e c (run S (first others) s)).1
      ∙ sym (run-append S (first others) ((e, c) ∷ weave (rest others) own) s)

  -- What the others are still to call is a part of what they were to call.
  pub run-others {κ} :
      (P : Env × Call → Type κ) (others : List History) (own : History) (s : S.State)
      → All (All P) others
      → All (All P) (run (shared S) own (others, s)).0
  unfolding run meanwhile
  run-others P others [] s a = a
  run-others P others ((e, c) ∷ own) s a =
      subst (λ x. All (All P) (run (shared S) own x.1).0) (sym (call-meanwhile S e c (others, s)))
        (run-others P (rest others) own (call S e c (run S (first others) s)).1
          (rest-All P others a))
