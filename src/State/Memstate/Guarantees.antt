-- ===== src/State/Memstate/Guarantees.antt =====
-- What the contract gives for histories of calls on the in-memory store.
use flames.Prelude.{String, ◌≡◌, ◌≢◌, List, ◌∷◌, ◌++◌, All}
use flames.Dict.{lookup}
use flames.Runtime.{Env}
use flames.Model.{Vm, Event}
use flames.State.Contract.Assignment.{assign_each, successes, AssignedTo, assign_each_once}
use flames.State.Contract.History.{History, run, Spares, SameVm, run-log, run-SameVm}
use flames.State.Memstate.{Store, memstate}
use flames.State.Memstate.Refinement.{memstate_contract}

-- Of any calls of `AssignVM` for an unassigned VM, the first of which names a controller, exactly one
-- succeeds: the first. The VM is assigned to its controller at the end.
pub memstate-assign_each_once :
    (id : String) (e : Env) (c : String) (calls : List (Env × String)) (s : Store)
    → c ≢ ""
    → AssignedTo "" (lookup id s.vms)
    → (successes (assign_each memstate id ((e, c) ∷ calls) s).0 ≡ 1)
      × AssignedTo c (lookup id (assign_each memstate id ((e, c) ∷ calls) s).1.vms)
memstate-assign_each_once id e c calls s =
    assign_each_once memstate memstate_contract id e c calls s

-- A VM that is in the store stays there, with the ID, spec, image and creation time it has, whatever
-- calls follow, if no later `CreateVM` draws its ID again.
pub memstate-run-SameVm :
    (h : History) (s : Store) (id : String) (vm : Vm)
    → All (Spares id) h
    → SameVm vm (lookup id s.vms)
    → SameVm vm (lookup id (run memstate h s).vms)
memstate-run-SameVm h s id vm = run-SameVm memstate memstate_contract h s id vm

-- The event log is append-only: after any calls it is the log before them and what they added.
pub memstate-run-log :
    (h : History) (s : Store)
    → (added : List Event) × ((run memstate h s).events ≡ s.events ++ added)
memstate-run-log h s = run-log memstate memstate_contract h s
