-- ===== src/Main/Served.antt =====
-- What holds of the server's store after any requests.
use flames.Prelude.{String, ◌≡◌, refl, ◌≢◌, ◌∙◌, ap, sym, subst, List, ◌++◌, All, All-map}
use flames.Dict.{lookup, Range}
use flames.Runtime.{Env, IsEnv, new_id}
use flames.Model.{Vm, Event, Controller, ControllerFilter}
use flames.State.Contract
use flames.State.Contract.History.{Spares, SameVm}
use flames.State.Memstate.{Store, memstate, list_controllers}
use flames.State.Memstate.Valid.{IsValid, new-IsValid, run-IsValid}
use flames.State.Memstate.Guarantees.{memstate-run-SameVm, memstate-run-log}
use flames.Queue.Memqueue
use flames.Queue.Memqueue.{memqueue}
use flames.Api
use flames.Httpapi.{Request}
use flames.Httpapi.Server.{Turn, Library, State, serve_all}
use flames.Httpapi.Server.Histories.{BothCalls, serve_all-run}
use flames.Main.{start}

pub lists :
    (order : Range Controller) (f : ControllerFilter) (s : Store)
    → (list_controllers order f s).1 ≡ s
unfolding list_controllers
lists order f s = refl

-- Whatever requests the server of main.go has served, no key of its store's maps stands twice, every
-- VM and every controller stands under its own ID, every event has an ID and a creation time, and the
-- work queue is still empty, if the clock is set and the random source fills its buffer in every call.
pub serve_all-IsValid :
    (L : Library) (rs : List (Turn × Request))
    → All (BothCalls IsEnv) rs
    → let s = (serve_all L memstate memqueue rs (start L)).1.1 in
      IsValid s.state × (s.queue ≡ Memqueue.new)
unfolding start Api.new
serve_all-IsValid L rs a =
    let (h, u, p, q) = serve_all-run L memstate memqueue lists IsEnv rs (start L) a in
    (subst IsValid (sym p) (run-IsValid h _ u new-IsValid), q)

abbrev pub NotDrawn : String → Env → Type 0
NotDrawn id e = new_id e.random ≢ id

pub NotDrawn-Spares : (id : String) (c : Env × Contract.Call) → NotDrawn id c.0 → Spares id c
NotDrawn-Spares id (e, Contract.create_vm spec) h = h
NotDrawn-Spares id (e, _) h = tt

-- No request removes a VM: one that is in the store stays there, with the ID, spec, image and creation
-- time it has, whatever requests are served, if no call of theirs draws its ID. The event log only
-- grows: it is the log before the requests and what they added.
pub serve_all-keeps :
    (L : Library) (rs : List (Turn × Request)) (st : State L memstate memqueue) (id : String)
    (vm : Vm)
    → All (BothCalls (NotDrawn id)) rs
    → SameVm vm (lookup id st.1.state.vms)
    → let s = (serve_all L memstate memqueue rs st).1.1.state in
      SameVm vm (lookup id s.vms) × ((added : List Event) × (s.events ≡ st.1.state.events ++ added))
serve_all-keeps L rs st id vm fresh same =
    let (h, u, p, _) = serve_all-run L memstate memqueue lists (NotDrawn id) rs st fresh in
    let spared = All-map (NotDrawn-Spares id) h u in
    let (added, grown) = memstate-run-log h st.1.state in
    (
      subst (λ (s : Store). SameVm vm (lookup id s.vms)) (sym p)
          (memstate-run-SameVm h st.1.state id vm spared same),
      (added, ap (λ (s : Store). s.events) p ∙ grown),
    )
