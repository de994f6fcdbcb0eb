-- ===== src/State/Contract/Assignment.antt =====
-- `AssignVM` called for one VM any number of times. The calls are atomic, so concurrent callers
-- make some sequence of them.
use flames.Prelude.{
  ℕ, ◌+◌, String, ◌<>◌, ◌≡◌, refl, ap, ◌∙◌, ◌≢◌, Option, none, some, List, [], ◌∷◌, arith,
  string_eq,
}
use flames.Runtime.{Env}
use flames.Model.{Vm}
use flames.Providererr.{conflict}
use flames.Result.{Result, ok, err}
use flames.State.{StateStore}
use flames.State.Contract.{Reply, done, call, assign_vm, Records, promised, Implements}

module _ (S : StateStore) (id : String) where
  -- The replies to a sequence of calls, and the state after it.
  pub assign_each : List (Env × String) → S.State → List (Result Reply) × S.State
  assign_each [] s = ([], s)
  assign_each ((e, c) ∷ calls) s =
      let (reply, s') = call S e (assign_vm id c) s in
      let (replies, s'') = assign_each calls s' in (reply ∷ replies, s'')

abbrev succeeds : Result Reply → ℕ
succeeds (ok _) = 1
succeeds (err _) = 0

pub successes : List (Result Reply) → ℕ
successes [] = 0
successes (r ∷ rs) = succeeds r + successes rs

abbrev pub AssignedTo : String → Option Vm → Type 0
AssignedTo c none = ⊥
AssignedTo c (some vm) = vm.controller_id ≡ c

abbrev NamesController : Env × String → Type 0
NamesController (_, c) = c ≢ ""

promised-taken :
    (e : Env) (r : Records) (id c held : String)
    → held ≢ ""
    → AssignedTo held (r.vm id)
    → promised e (assign_vm id c) r
      ≡ (err (conflict "vm" id ("vm already assigned to controller " <> held)), r)
promised-taken e r id c held h a = ground arith

promised-free :
    (e : Env) (r : Records) (id c : String)
    → AssignedTo "" (r.vm id)
    → ((promised e (assign_vm id c) r).0 ≡ ok done)
      × AssignedTo c ((promised e (assign_vm id c) r).1.vm id)
promised-free e r id c a = ground arith

module _ (S : StateStore) (I : Implements S) (id : String) where
  -- On a VM that is assigned to `held` every call fails, and the records stay as they are.
  taken :
      (held : String) (calls : List (Env × String)) (s : S.State)
      → held ≢ ""
      → AssignedTo held ((I.view s).vm id)
      → (successes (assign_each S id calls s).0 ≡ 0)
        × AssignedTo held ((I.view (assign_each S id calls s).1).vm id)
  unfolding assign_each successes
  taken held [] s h a = (refl, a)
  taken held ((e, c) ∷ calls) s h a =
      let refused = promised-taken e (I.view s) id c held h a in
      let same : I.view (call S e (assign_vm id c) s).1 ≡ I.view s =
        I.follows e (assign_vm id c) s ∙ ap (λ p. p.1) refused in
      let rest = taken held calls (call S e (assign_vm id c) s).1 h (rw same a) in
      (rw (I.replies e (assign_vm id c) s ∙ ap (λ p. p.0) refused) (omega (arith, rest.0)), rest.1)

  -- Of any calls of `AssignVM` for an unassigned VM, the first of which names a controller, exactly
  -- one succeeds: the first. The VM is assigned to its controller at the end.
  pub assign_each_once :
      (e : Env) (c : String) (calls : List (Env × String)) (s : S.State)
      → c ≢ ""
      → AssignedTo "" ((I.view s).vm id)
      → (successes (assign_each S id ((e, c) ∷ calls) s).0 ≡ 1)
        × AssignedTo c ((I.view (assign_each S id ((e, c) ∷ calls) s).1).vm id)
  unfolding assign_each successes
  assign_each_once e c calls s h a =
      let won = promised-free e (I.view s) id c a in
      let rest =
        taken c calls (call S e (assign_vm id c) s).1 h
          (rw (I.follows e (assign_vm id c) s) won.1) in
      (rw (I.replies e (assign_vm id c) s ∙ won.0) (omega (arith, rest.0)), rest.1)
