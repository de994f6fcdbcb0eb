-- ===== src/Httpapi/Server/Audit.antt =====
-- What one request calls keeps the event log and the desired states together.
use flames.Model.{desired_deleted, desired_stopped, Vm, VmSpec, DesiredState}
use flames.Prelude.{
  String, ◌≡◌, refl, ◌∙◌, none, some, [], ◌∷◌, ◌++◌, string_eq, integer_eq, Option-cases, inl, inr,
  arith, subst, ◌||◌, ◌&&◌, ◌==◌, equal_self,
}
use flames.Runtime.{Env, new_id}
use flames.Api.{vm_event}
use flames.Api.Audit.{
  after_event, replayed, replayed-append, logged, logged-append, IsAudited, Says, stops, deletes,
}
use flames.State.{StateStore}
use flames.State.Contract.{
  Call, create_vm, get_vm, update_vm_desired_state, update_vm_observed_state, assign_vm,
  append_event, list_events, register_controller, update_controller_heartbeat, Records, call,
  promised, stamped, Implements,
}
use flames.State.Contract.History.{History, run}
use flames.Httpapi.Server.{Turn}
use flames.Httpapi.Server.Effects.{IsQuiet, Fails, Noted, Made}

module _ (e : Env) (r : Records) (h : IsAudited r) where
  open h use {desired, created, waiting}

  promised-quiet : (c : Call) → IsQuiet c → IsAudited (promised e c r).1
  promised-quiet (get_vm id) q = record {
    desired = λ j. ground (arith, desired j);
    created = λ j. ground (arith, created j);
    waiting = λ j. ground (arith, waiting j);
  }
  promised-quiet (list_events f) q = h
  promised-quiet (register_controller c) q = record {
    desired = λ j. ground (arith, desired j);
    created = λ j. ground (arith, created j);
    waiting = λ j. ground (arith, waiting j);
  }
  promised-quiet (update_controller_heartbeat id hb) q = record {
    desired = λ j. ground (arith, desired j);
    created = λ j. ground (arith, created j);
    waiting = λ j. ground (arith, waiting j);
  }
  promised-quiet (create_vm spec) q = absurd q
  promised-quiet (update_vm_desired_state id d) q = absurd q
  promised-quiet (update_vm_observed_state id o c) q = absurd q
  promised-quiet (assign_vm id c) q = absurd q
  promised-quiet (append_event event) q = absurd q

promised-Fails :
    (e : Env) (c : Call) (r : Records) → Fails (promised e c r).0 → (promised e c r).1 ≡ r
promised-Fails e (create_vm spec) r f = absurd f
promised-Fails e (append_event event) r f = absurd f
promised-Fails e (list_events filter) r f = refl
promised-Fails e _ r f = ground arith

module _ (e e' : Env) (r : Records) (h : IsAudited r) where
  open h use {desired, created, waiting}

  -- The log with one more event of a VM.
  grown :
      (id type j : String)
      → replayed j none (r.log ++ stamped e' (vm_event id type) ∷ [])
        ≡ after_event j (replayed j none r.log) (stamped e' (vm_event id type))
  grown id type j = replayed-append j none r.log (stamped e' (vm_event id type))

  told :
      (id type j kind : String)
      → logged j kind (r.log ++ stamped e' (vm_event id type) ∷ [])
        ≡ (logged j kind r.log || (id == j && type == kind))
  told id type j kind = logged-append j kind r.log (stamped e' (vm_event id type))

  created-IsAudited :
      (spec : VmSpec)
      → IsAudited
          (promised e'
            (append_event (vm_event (new_id e.random) "vm.created"))
            (promised e (create_vm spec) r).1).1
  created-IsAudited spec = record {
    desired = λ j. ground (arith, grown (new_id e.random) "vm.created" j, desired j);
    created = λ j. ground (
      arith,
      told (new_id e.random) "vm.created" j "vm.created",
      equal_self "vm.created",
      created j,
    );
    waiting = λ j. ground (arith, waiting j);
  }

  marked-IsAudited :
      (id type : String) (d : DesiredState) (c' : Call)
      → Says id type d
      → ((vm : Vm) → r.vm id ≡ some vm → c' ≡ append_event (vm_event id type))
      → (r.vm id ≡ none → ⊥)
      → IsAudited (promised e' c' (promised e (update_vm_desired_state id d) r).1).1
  marked-IsAudited id type d c' asks noted there = elim (Option-cases (r.vm id)) [
    | inl p ↦ absurd (there p)
    | inr (vm, p) ↦ rw (noted vm p) record {
      desired =
          λ j. ground (arith, p, grown id type j, asks.0 j (replayed j none r.log), desired j);
      created = λ j. ground (arith, p, told id type j "vm.created", asks.1, created j);
      waiting = λ j. ground (arith, p, waiting j, waiting id);
    }
  ]

  promised-Noted :
      (c c' : Call)
      → Noted c (promised e c r).0 c'
      → IsAudited (promised e' c' (promised e c r).1).1
  promised-Noted (create_vm spec) c' n = rw n (created-IsAudited spec)
  promised-Noted (update_vm_desired_state id d) c' n = elim (Option-cases (r.vm id)) [
    | inl p ↦ absurd (rw (p, Noted) at n)
    | inr (vm, p) ↦ elim (rw (p, Noted) at n) [
      | inl (same, noted) ↦ rw same (
          marked-IsAudited id "vm.stop_requested" desired_stopped c' (stops id) (λ vm' p'. noted)
            (λ q. rw (q, Noted) at n))
      | inr (same, noted) ↦ rw same (
          marked-IsAudited id "vm.delete_requested" desired_deleted c' (deletes id)
            (λ vm' p'. noted) (λ q. rw (q, Noted) at n))
    ]
  ]
  promised-Noted _ c' n = absurd n

module _ (S : StateStore) (I : Implements S) (t : Turn) where
  -- What one request calls keeps the log and the desired states together.
  pub Made-IsAudited :
      (h : History) (s : S.State)
      → Made S t s h
      → IsAudited (I.view s)
      → IsAudited (I.view (run S h s))
  unfolding run
  Made-IsAudited [] s m a = a
  Made-IsAudited ((e, c) ∷ []) s (_, inl quiet) a =
      rw (I.follows e c s) (promised-quiet e (I.view s) a c quiet)
  Made-IsAudited ((e, c) ∷ []) s (_, inr failed) a =
      let same = promised-Fails e c (I.view s) (subst Fails (I.replies e c s) failed) in
      rw (I.follows e c s ∙ same) a
  Made-IsAudited ((e, c) ∷ (e', c') ∷ []) s (_, _, noted) a =
      rw (I.follows e' c' (call S e c s).1, I.follows e c s)
        (promised-Noted e e' (I.view s) a c c' (subst (λ r. Noted c r c') (I.replies e c s) noted))
  Made-IsAudited (_ ∷ _ ∷ _ ∷ _) s m a = absurd m
