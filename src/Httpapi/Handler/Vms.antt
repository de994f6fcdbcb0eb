-- ===== src/Httpapi/Handler/Vms.antt =====
-- The responses of the VM handlers, over a state store that keeps its contract.
use flames.Model.{desired_deleted, desired_stopped, VmSpec}
use flames.Prelude.{
  Option-cases, inl, inr, ◌⊎◌, none, some, List, ◌≡◌, refl, ap, ◌∙◌, arith, string_eq, integer_eq,
}
use flames.Runtime.{Env, new_id}
use flames.Result.{Result, ok, err}
use flames.State.{StateStore}
use flames.State.Contract.{Implements}
use flames.Queue.{WorkQueue}
use flames.Api
use flames.Api.{Service}
use flames.Api.Requests.{added, requested, create_vm-added, stop_vm-requested, delete_vm-requested}
use flames.Httpapi.{Request, WriterCall, respond}
use flames.Httpapi.Errors.{write_error}
use flames.Httpapi.Handler.{Formats, answer, invalid_body, create_vm, stop_vm, delete_vm}

-- The answers to `POST /v1/vms/{vm_id}/stop` and `DELETE /v1/vms/{vm_id}`.
abbrev pub acknowledged : Formats → Request → Result (Unit {0}) → List WriterCall
acknowledged F r (ok _) = respond 202 (F.encode_id (r.path_value "vm_id"))
acknowledged F r (err x) = write_error F.encode_error x

module _ (F : Formats) (S : StateStore) (Q : WorkQueue) (I : Implements S) (e e' : Env)
    (r : Request) (s : Service S Q) where
  -- `POST /v1/vms` over a store that keeps the contract: a body that is no spec is answered with
  -- status 400 and changes nothing. For a spec the VM is created, and the answer has status 202
  -- and the new ID.
  pub create_vm-respond :
      ((F.decode_spec r.body ≡ none) × (create_vm F S Q e e' r s ≡ (invalid_body F S Q, s)))
      ⊎ ((spec : VmSpec) × (F.decode_spec r.body ≡ some spec)
          × ((create_vm F S Q e e' r s).0 ≡ respond 202 (F.encode_id (new_id e.random)))
          × (I.view (create_vm F S Q e e' r s).1.state ≡ added e e' spec (I.view s.state)))
  unfolding create_vm
  create_vm-respond = elim (Option-cases (F.decode_spec r.body)) [
    | inl p ↦ inl (p, ground (arith, p))
    | inr (spec, p) ↦
        let (result, after, _) = create_vm-added S Q I e e' spec s in
        inr (spec, p, ground (arith, p, result), ground (arith, p, result, after))
  ]

  answered :
      (m : Result (Unit {0}) × Service S Q)
      → answer F S Q (λ _. respond 202 (F.encode_id (r.path_value "vm_id"))) m
        ≡ (acknowledged F r m.0, m.1)
  answered (ok _, t) = refl
  answered (err x, t) = refl

  -- `POST /v1/vms/{vm_id}/stop` over a store that keeps the contract: for a VM that is there the
  -- answer has status 202, its desired state is "stopped" afterwards and the log has the event;
  -- for any other ID the error of a missing VM is written and no record changes.
  pub stop_vm-acknowledged :
      let x =
        requested e e'
          (r.path_value "vm_id")
          desired_stopped
          "vm.stop_requested"
          (I.view s.state) in
      ((stop_vm F S Q e e' r s).0 ≡ acknowledged F r x.0)
      × (I.view (stop_vm F S Q e e' r s).1.state ≡ x.1)
  unfolding stop_vm
  stop_vm-acknowledged =
      let m = Api.stop_vm S Q e e' (r.path_value "vm_id") s in
      let (result, after) = stop_vm-requested S Q I e e' (r.path_value "vm_id") s in
      (
        ap (λ p. p.0) (answered m) ∙ ap (acknowledged F r) result,
        ap (λ p. I.view p.1.state) (answered m) ∙ after,
      )

  -- `DELETE /v1/vms/{vm_id}` over a store that keeps the contract: for a VM that is there the
  -- answer has status 202, its desired state is "deleted" afterwards and the log has the event;
  -- for any other ID the error of a missing VM is written and no record changes.
  pub delete_vm-acknowledged :
      let x =
        requested e e'
          (r.path_value "vm_id")
          desired_deleted
          "vm.delete_requested"
          (I.view s.state) in
      ((delete_vm F S Q e e' r s).0 ≡ acknowledged F r x.0)
      × (I.view (delete_vm F S Q e e' r s).1.state ≡ x.1)
  unfolding delete_vm
  delete_vm-acknowledged =
      let m = Api.delete_vm S Q e e' (r.path_value "vm_id") s in
      let (result, after) = delete_vm-requested S Q I e e' (r.path_value "vm_id") s in
      (
        ap (λ p. p.0) (answered m) ∙ ap (acknowledged F r) result,
        ap (λ p. I.view p.1.state) (answered m) ∙ after,
      )
