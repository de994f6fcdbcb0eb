-- ===== src/State/Contract/History.antt =====
-- Histories of calls on any store that implements the contract.
use flames.Prelude.{
  String, ◌≡◌, refl, sym, ap, ◌∙◌, ◌≢◌, none, some, Option, List, [], ◌∷◌, ◌++◌, All, arith,
  string_eq, integer_eq,
}
use mathlib.Core.List.{append_assoc, append-nil}
use flames.Runtime.{Env, new_id}
use flames.Model.{Vm, Event}
use flames.State.{StateStore}
use flames.State.Contract.{
  Call, call, create_vm, get_vm, assign_vm, append_event, Records, promised, Implements, stamped,
}

abbrev pub History : Type 0
History = List (Env × Call)

unfoldable pub run : (S : StateStore) → History → S.State → S.State
run S [] s = s
run S ((e, c) ∷ h) s = run S h (call S e c s).1

pub run-append :
    (S : StateStore) (h k : History) (s : S.State) → run S (h ++ k) s ≡ run S k (run S h s)
unfolding run
run-append S [] k s = refl
run-append S ((e, c) ∷ h) k s = run-append S h k (call S e c s).1

-- No `CreateVM` of the history draws the given ID.
abbrev pub Spares : String → Env × Call → Type 0
Spares id (e, create_vm spec) = new_id e.random ≢ id
Spares id (e, _) = Unit

-- What never changes of a VM.
abbrev pub SameVm : Vm → Option Vm → Type 0
SameVm vm none = ⊥
SameVm vm (some vm') =
    (vm'.id ≡ vm.id)
    × (vm'.spec ≡ vm.spec)
    × (vm'.image_id ≡ vm.image_id)
    × (vm'.created_at ≡ vm.created_at)

promised-log :
    (e : Env) (c : Call) (r : Records)
    → (new : List Event) × ((promised e c r).1.log ≡ r.log ++ new)
promised-log e (append_event event) r = (stamped e event ∷ [], refl)
promised-log e (create_vm spec) r = ([], sym (append-nil r.log))
promised-log e _ r = ([], ground (arith, append-nil r.log))

promised-SameVm :
    (e : Env) (c : Call) (r : Records) (id : String) (vm : Vm)
    → Spares id (e, c)
    → SameVm vm (r.vm id)
    → SameVm vm ((promised e c r).1.vm id)
promised-SameVm e (create_vm spec) r id vm fresh h = ground arith
promised-SameVm e (get_vm j) r id vm fresh h = ground arith
promised-SameVm e (assign_vm j c) r id vm fresh h = ground arith
promised-SameVm e _ r id vm fresh h = ground arith

module _ (S : StateStore) (I : Implements S) where
  -- The event log is append-only: after any history it is the old log and what was added.
  pub run-log :
      (h : History) (s : S.State)
      → (new : List Event) × ((I.view (run S h s)).log ≡ (I.view s).log ++ new)
  unfolding run
  run-log [] s = ([], sym (append-nil _))
  run-log ((e, c) ∷ h) s =
      let (first, p) = promised-log e c (I.view s) in
      let (later, q) = run-log h (call S e c s).1 in
      (
        first ++ later,
        q
            ∙ ap (λ l. l ++ later) (ap (λ (r : Records). r.log) (I.follows e c s) ∙ p)
            ∙ append_assoc _ first later,
      )

  -- A VM that is there stays there, with the ID, spec, image and creation time it has, whatever
  -- calls follow, if no later `CreateVM` draws its ID again.
  pub run-SameVm :
      (h : History) (s : S.State) (id : String) (vm : Vm)
      → All (Spares id) h
      → SameVm vm ((I.view s).vm id)
      → SameVm vm ((I.view (run S h s)).vm id)
  unfolding run
  run-SameVm [] s id vm fresh same = same
  run-SameVm ((e, c) ∷ h) s id vm fresh same =
      run-SameVm h (call S e c s).1 id vm fresh.1
        (rw (I.follows e c s) (promised-SameVm e c (I.view s) id vm fresh.0 same))
