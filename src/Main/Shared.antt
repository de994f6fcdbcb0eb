-- ===== src/Main/Shared.antt =====
-- The server while other goroutines use its store: their calls come before each of its own.
use flames.Prelude.{String, ◌≡◌, ◌∙◌, sym, ap, subst, List, ◌++◌, All, All-map}
use flames.Dict.{lookup, Range}
use flames.Runtime.{Env, IsEnv}
use flames.Model.{Vm, Event, Controller, ControllerFilter}
use flames.State.Contract.{Call}
use flames.State.Contract.History.{History, run, Spares, SameVm}
use flames.State.Shared.{Schedule, shared, weave, weave-All, run-shared, run-others}
use flames.State.Memstate.{Store, memstate}
use flames.State.Memstate.Valid.{IsValid, run-IsValid}
use flames.State.Memstate.Guarantees.{memstate-run-SameVm, memstate-run-log}
use flames.Queue.Memqueue
use flames.Queue.Memqueue.{memqueue}
use flames.Httpapi.{Request}
use flames.Httpapi.Idempotency.{IdempotencyStore}
use flames.Httpapi.Server.{Turn, Library, serve_all}
use flames.Httpapi.Server.Histories.{BothCalls, serve_all-run}
use flames.Main.Served.{lists, NotDrawn, NotDrawn-Spares}

shared_lists :
    (order : Range Controller) (f : ControllerFilter) (x : Schedule memstate)
    → ((shared memstate).list_controllers order f x).1 ≡ x
shared_lists order f x = ap (λ s. (x.0, s)) (lists order f x.1)

module _ (L : Library) (rs : List (Turn × Request)) (entries : IdempotencyStore)
    (queue : Memqueue.Queue) (others : List History) (s : Store) where
  -- The store after the requests, with what the others called before the last of their calls.
  abbrev pub store_after : Store
  store_after =
      (serve_all L (shared memstate) memqueue rs
        (entries, record { state = (others, s); queue = queue })).1.1.state.1

  pub woven :
      (P : Env → Type 0)
      → All (BothCalls P) rs
      → (own : History) × All (λ (c : Env × Call). P c.0) own
        × (store_after ≡ run memstate (weave others own) s)
  woven P a =
      let (own, u, p, _) =
        serve_all-run L (shared memstate) memqueue shared_lists P rs
          (entries, record { state = (others, s); queue = queue }) a in
      (own, u, ap (λ x. x.1) p ∙ run-shared memstate others own s)

  -- What the others have not yet called after the requests.
  pub left_over :
      (P : Env → Type 0) (R : Env × Call → Type 0)
      → All (BothCalls P) rs
      → All (All R) others
      → All
          (All R)
          (serve_all L
            (shared memstate)
            memqueue
            rs
            (entries, record { state = (others, s); queue = queue })).1.1.state.0
  left_over P R a b =
      let (own, _, p, _) =
        serve_all-run L (shared memstate) memqueue shared_lists P rs
          (entries, record { state = (others, s); queue = queue }) a in
      subst (λ (x : Schedule memstate). All (All R) x.0) (sym p)
        (run-others memstate R others own s b)

  -- Whatever requests are served, and whatever calls other goroutines make on the same store before
  -- each of their calls, a valid store stays valid, if the clock is set and the random source fills
  -- its buffer in every call.
  pub serve_all_shared-IsValid :
      All (BothCalls IsEnv) rs
      → All (All (λ (c : Env × Call). IsEnv c.0)) others
      → IsValid s
      → IsValid store_after
  serve_all_shared-IsValid a b v =
      let (own, u, p) = woven IsEnv a in
      subst IsValid (sym p)
        (run-IsValid (weave others own) s (weave-All (λ c. IsEnv c.0) others own b u) v)

  -- Whatever requests are served, and whatever calls other goroutines make on the same store before
  -- each of their calls, a VM that is there stays there, with the ID, spec, image and creation time
  -- it has, if no call draws its ID; and the event log only grows.
  pub serve_all_shared-keeps :
      (id : String) (vm : Vm)
      → All (BothCalls (NotDrawn id)) rs
      → All (All (Spares id)) others
      → SameVm vm (lookup id s.vms)
      → SameVm vm (lookup id store_after.vms)
        × ((added : List Event) × (store_after.events ≡ s.events ++ added))
  serve_all_shared-keeps id vm a b same =
      let (own, u, p) = woven (NotDrawn id) a in
      let all = weave others own in
      let (added, grown) = memstate-run-log all s in
      (
        subst (λ (x : Store). SameVm vm (lookup id x.vms)) (sym p)
            (memstate-run-SameVm all s id vm
              (weave-All (Spares id) others own b (All-map (NotDrawn-Spares id) own u)) same),
        (added, ap (λ (x : Store). x.events) p ∙ grown),
      )
