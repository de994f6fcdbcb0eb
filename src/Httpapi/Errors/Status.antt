-- ===== src/Httpapi/Errors/Status.antt =====
-- Which status an error is answered with, by the codes in its chain of wrapped errors.
use flames.Prelude.{
  subst, Bool-cases, String, Bool, false, ◌||◌, Option-cases, inl, inr, ◌⊎◌, List, [], ◌∷◌, ◌≡◌,
  refl, sym, ◌∙◌, arith, if◌then◌else◌, ◌==◌, string_eq,
}
use flames.Runtime.{Env}
use flames.Providererr.{
  Error, nil, provider, plain, wrapped, provider_is, errors_is, not_found, already_exists, conflict,
}
use flames.Model.{Vm}
use flames.Result.{Result, ok, err}
use flames.State.{StateStore}
use flames.State.Contract.{
  Call, create_vm, get_vm, update_vm_desired_state, update_vm_observed_state, assign_vm,
  append_event, list_events, register_controller, update_controller_heartbeat, call, Records,
  promised, Implements, Reply, with_vm,
}
use flames.Httpapi.Errors.{error_to_status}

-- The codes of the provider errors in a chain.
abbrev pub codes : Error → List String
codes nil = []
codes (provider code _ _ _ cause) = code ∷ codes cause
codes (plain _) = []
codes (wrapped _ cause) = codes cause

abbrev pub has_code : String → List String → Bool
has_code code [] = false
has_code code (c ∷ cs) = c == code || has_code code cs

errors_is-codes :
    (x cause : Error) (code message type id : String)
    → errors_is x (provider code message type id cause) ≡ has_code code (codes x)
unfolding errors_is provider_is
errors_is-codes nil cause code message type id = refl
errors_is-codes (plain text) cause code message type id = refl
errors_is-codes (wrapped text inner) cause code message type id =
    errors_is-codes inner cause code message type id
errors_is-codes (provider c m t i inner) cause code message type id =
    ground (arith, errors_is-codes inner cause code message type id)

-- An error is answered with 404 if there is a "not_found" anywhere in its chain, else with 409 if
-- there is an "already_exists" or a "conflict", and with 500 otherwise.
pub error_to_status-codes :
    (x : Error)
    → error_to_status x ≡ (
        if has_code "not_found" (codes x)
        then 404
        else if has_code "already_exists" (codes x) || has_code "conflict" (codes x)
        then 409
        else 500)
unfolding error_to_status
error_to_status-codes x = ground (
  arith,
  errors_is-codes x nil "not_found" "" "" "",
  errors_is-codes x nil "already_exists" "" "" "",
  errors_is-codes x nil "conflict" "" "" "",
)

abbrev Expected : Error → Type 0
Expected x = (error_to_status x ≡ 404) ⊎ (error_to_status x ≡ 409)

not_found-Expected : (type id : String) → Expected (not_found type id)
unfolding not_found error_to_status errors_is provider_is string_eq
not_found-Expected type id = inl refl

already_exists-Expected : (type id : String) → Expected (already_exists type id)
unfolding already_exists error_to_status errors_is provider_is string_eq
already_exists-Expected type id = inr refl

conflict-Expected : (type id message : String) → Expected (conflict type id message)
unfolding conflict error_to_status errors_is provider_is string_eq
conflict-Expected type id message = inr refl

-- The error of a result, if it has one, is such an error.
abbrev IsExpected : Result Reply → Type 0
IsExpected (ok _) = Unit
IsExpected (err x) = Expected x

module _ (e : Env) (r : Records) where
  at_vm :
      (id : String) (f : Vm → Result Reply × Records)
      → ((vm : Vm) → IsExpected (f vm).0)
      → IsExpected (with_vm r id f).0
  at_vm id f h = elim (Option-cases (r.vm id)) [
    | inl p ↦ rw (p, IsExpected, with_vm) (not_found-Expected "vm" id)
    | inr (vm, p) ↦ rw (p, IsExpected, with_vm) (h vm)
  ]

  promised-IsExpected : (c : Call) → IsExpected (promised e c r).0
  promised-IsExpected (create_vm spec) = tt
  promised-IsExpected (append_event event) = tt
  promised-IsExpected (list_events f) = tt
  promised-IsExpected (get_vm id) = at_vm id _ (λ vm. tt)
  promised-IsExpected (update_vm_desired_state id d) = at_vm id _ (λ vm. tt)
  promised-IsExpected (update_vm_observed_state id o c) = at_vm id _ (λ vm. tt)
  promised-IsExpected (assign_vm id c) = at_vm id _ λ vm.
      elim (Bool-cases (vm.controller_id == "")) [
        | inl p ↦ rw (p, IsExpected) tt
        | inr p ↦ rw (p, IsExpected) (conflict-Expected "vm" id _)
      ]
  promised-IsExpected (register_controller c) = elim (Option-cases (r.controller c.id)) [
    | inl p ↦ rw (p, IsExpected, promised) tt
    | inr (_, p) ↦ rw (p, IsExpected, promised) (already_exists-Expected "controller" c.id)
  ]
  promised-IsExpected (update_controller_heartbeat id h) = elim (Option-cases (r.controller id)) [
    | inl p ↦ rw (p, IsExpected, promised) (not_found-Expected "controller" id)
    | inr (_, p) ↦ rw (p, IsExpected, promised) tt
  ]

-- Over a store that keeps its contract no call fails with an error that is answered with status 500:
-- the status is 404 or 409.
pub call-error_to_status :
    (S : StateStore) (I : Implements S) (e : Env) (c : Call) (s : S.State) (x : Error)
    → (call S e c s).0 ≡ err x
    → (error_to_status x ≡ 404) ⊎ (error_to_status x ≡ 409)
call-error_to_status S I e c s x h =
    subst IsExpected (sym (I.replies e c s) ∙ h) (promised-IsExpected e (I.view s) c)
