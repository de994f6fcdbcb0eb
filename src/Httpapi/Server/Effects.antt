-- ===== src/Httpapi/Server/Effects.antt =====
-- What the handler of a route does to the state store, as calls of its contract.
pub mod Handled
use flames.Model.{
  desired_deleted, desired_stopped, Event, EventFilter, Controller, ControllerFilter, DesiredState,
}
use flames.Prelude.{
  String, Option, none, some, List, [], ◌∷◌, All, ◌≡◌, refl, sym, ap, ◌∙◌, ◌⊎◌, inl, inr, string_eq,
}
use flames.Dict.{Range}
use flames.Runtime.{Env, Time}
use flames.Httpapi.Errors.{write_error_message}
use flames.Result.{Result, Result-cases, ok, err, Exec, continue, pure, discard, ◌>>=◌, ◌>>◌}
use flames.State.{StateStore}
use flames.State.Contract.{Call, Reply, call}
use flames.State.Contract.History.{History, run}
use flames.Queue.{WorkQueue}
use flames.Api
use flames.Api.{Service, on_state, vm_event, clamp_limit}
use flames.Httpapi.{Request, WriterCall, respond}
use flames.Httpapi.Handler
use flames.Httpapi.Handler.{Formats, answer, invalid_body}
use flames.Httpapi.Routes.{
  Route, create_vm, get_vm, stop_vm, delete_vm, register_controller, heartbeat, list_controllers,
  list_events, healthz,
}
use flames.Httpapi.Server.{Turn, Library, handle}

-- A call that changes neither a VM nor the event log.
abbrev pub IsQuiet : Call → Type 0
IsQuiet (Call.get_vm id) = Unit
IsQuiet (Call.list_events filter) = Unit
IsQuiet (Call.register_controller c) = Unit
IsQuiet (Call.update_controller_heartbeat id hb) = Unit
IsQuiet _ = ⊥

abbrev pub Fails : Result Reply → Type 0
Fails (ok _) = ⊥
Fails (err _) = Unit

-- The call that notes in the event log what a call with this reply did.
abbrev pub Noted : Call → Result Reply → Call → Type 0
Noted (Call.create_vm spec) (ok (Reply.an_id id)) c' =
    c' ≡ Call.append_event (vm_event id "vm.created")
Noted (Call.update_vm_desired_state id d) (ok Reply.done) c' =
    ((d ≡ desired_stopped) × (c' ≡ Call.append_event (vm_event id "vm.stop_requested")))
    ⊎ ((d ≡ desired_deleted) × (c' ≡ Call.append_event (vm_event id "vm.delete_requested")))
Noted _ _ _ = ⊥

-- What one request calls on a store in the given state: nothing, a call that is quiet or fails, or a
-- call that succeeds and another that notes it. The calls take the clock and the random bytes that the
-- request was given.
abbrev pub Made : (S : StateStore) → Turn → S.State → History → Type 0
Made S t s [] = Unit
Made S t s ((e, c) ∷ []) = (e ≡ t.first_call) × (IsQuiet c ⊎ Fails (call S e c s).0)
Made S t s ((e, c) ∷ (e', c') ∷ []) =
    (e ≡ t.first_call) × (e' ≡ t.second_call) × Noted c (call S e c s).0 c'
Made S t s (_ ∷ _ ∷ _ ∷ _) = ⊥

-- The state of the store after the service is that after some calls; the queue stays.
abbrev pub Effect : (S : StateStore) (Q : WorkQueue) → Turn → Service S Q → Service S Q → Type 0
Effect S Q t s s' =
    (h : History) × Made S t s.state h × (s'.state ≡ run S h s.state) × (s'.queue ≡ s.queue)

module _ (L : Library) (S : StateStore) (Q : WorkQueue) (t : Turn) where
  pub answered :
      {A : Type 0} (s : Service S Q) (reply : A → List WriterCall) (m : Result A × Service S Q)
      → Effect S Q t s m.1
      → Effect S Q t s (answer L.formats S Q reply m).1
  answered s reply (ok a, s') h = h
  answered s reply (err x, s') h = h

  pub nothing : (s : Service S Q) → Effect S Q t s s
  unfolding run
  nothing s = ([], tt, refl, refl)

  pub untouched : (s s' : Service S Q) → s'.state ≡ s.state → s'.queue ≡ s.queue → Effect S Q t s s'
  unfolding run
  untouched s s' p q = ([], tt, p, q)

  pub one :
      (c : Call) (s s' : Service S Q)
      → IsQuiet c
      → s'.state ≡ (call S t.first_call c s.state).1
      → s'.queue ≡ s.queue
      → Effect S Q t s s'
  unfolding run
  one c s s' quiet p q = ((t.first_call, c) ∷ [], (refl, inl quiet), p, q)

  pub state-continue :
      {A B : Type 0} (r : Result A) (f : A → B) (x : S.State)
      → (continue r (λ a. pure (f a)) x).1 ≡ x
  state-continue (ok a) f x = refl
  state-continue (err e) f x = refl

  after_event :
      (e : Env) (event : Event) (x : S.State)
      → (call S e (Call.append_event event) x).1 ≡ (S.append_event e event x).1
  unfolding call
  after_event e event x = state-continue _ _ _

  abbrev pub with_event :
      {A B : Type 0} → Exec S.State A → (A → Event) → (A → B) → Exec (Service S Q) B
  with_event m event reply = do
    a ← on_state S Q m
    discard (on_state S Q (S.append_event t.second_call (event a)))
    pure (reply a)

  -- A call, and an event that is only appended if the call succeeded.
  pub then_event :
      {A B : Type 0} (c : Call) (m : Exec S.State A) (kind : A → Reply) (event : A → Event)
      (reply : A → B) (s : Service S Q)
      → call S t.first_call c s.state ≡ (m >>= λ a. pure (kind a)) s.state
      → ((a : A) → Noted c (ok (kind a)) (Call.append_event (event a)))
      → Effect S Q t s (with_event m event reply s).1
  unfolding run
  then_event c m kind event reply s p noted = elim (Result-cases (m s.state).0) [
    | inl (a, got) ↦
        let done : call S t.first_call c s.state ≡ (ok (kind a), (m s.state).1) =
          rw (p, got) refl in
        (
          (t.first_call, c) ∷ (t.second_call, Call.append_event (event a)) ∷ [],
          (refl, refl, rw done (noted a)),
          rw got (
              sym (
                ap (λ x. (call S t.second_call (Call.append_event (event a)) x.1).1) done
                ∙ after_event t.second_call (event a) (m s.state).1)),
          rw got refl,
        )
    | inr (x, failed) ↦
        let done : call S t.first_call c s.state ≡ (err x, (m s.state).1) = rw (p, failed) refl in
        (
          (t.first_call, c) ∷ [],
          (refl, rw done (inr tt)),
          rw failed (sym (ap (λ x. x.1) done)),
          rw failed refl,
        )
  ]

  pub decoded :
      {A : Type 0} (o : Option A) (bad : List WriterCall) (next : A → List WriterCall × Service S Q)
      (s : Service S Q)
      → ((a : A) → Effect S Q t s (next a).1)
      → Effect S Q t s
          (elim o as (λ _. List WriterCall × Service S Q) [ none ↦ (bad, s) | some a ↦ next a ]).1
  decoded none bad next s h = nothing s
  decoded (some a) bad next s h = h a
