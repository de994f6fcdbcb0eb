-- ===== src/State/Contract/Controllers.antt =====
-- Controllers in histories of calls on any store that implements the contract.
use flames.Prelude.{String, ◌≡◌, none, some, Option, [], ◌∷◌, arith, string_eq}
use flames.Runtime.{Env}
use flames.Model.{Controller}
use flames.State.{StateStore}
use flames.State.Contract.{
  Call, call, register_controller, update_controller_heartbeat, Records, promised, Implements,
}
use flames.State.Contract.History.{History, run}

-- What never changes of a controller.
abbrev pub SameController : Controller → Option Controller → Type 0
SameController c none = ⊥
SameController c (some c') = (c'.id ≡ c.id) × (c'.labels ≡ c.labels)

promised-SameController :
    (e : Env) (call : Call) (r : Records) (id : String) (c : Controller)
    → SameController c (r.controller id)
    → SameController c ((promised e call r).1.controller id)
promised-SameController e (register_controller c') r id c h = ground arith
promised-SameController e (update_controller_heartbeat j hb) r id c h = ground arith
promised-SameController e _ r id c h = ground arith

module _ (S : StateStore) (I : Implements S) where
  -- A controller that is there stays there, with the ID and the labels it has, whatever is called.
  pub run-SameController :
      (h : History) (s : S.State) (id : String) (c : Controller)
      → SameController c ((I.view s).controller id)
      → SameController c ((I.view (run S h s)).controller id)
  unfolding run
  run-SameController [] s id c same = same
  run-SameController ((e, call) ∷ h) s id c same =
      run-SameController h _ id c
        (rw (I.follows e call s) (promised-SameController e call (I.view s) id c same))
