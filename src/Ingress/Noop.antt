-- ===== src/Ingress/Noop.antt =====
-- provider/ingress/noop/noop.go: the ingress without a network, which remembers its endpoints.
pub mod Registered
use flames.Prelude.{String, none, some, []}
use flames.Dict.{Dict, lookup, insert, erase}
use flames.Model.{Endpoint, Route, Target}
use flames.Providererr.{not_found}
use flames.Result.{ok, err, Exec}
use flames.Ingress.{IngressProvider}

pub record Provider : Type 0 where
  pub endpoints : Dict Endpoint

-- `New`
abbrev pub new : Provider
new = record { endpoints = [] }

unfoldable pub register_endpoint : String → Route → Target → Exec Provider Endpoint
register_endpoint vm_id route target p =
    let ep : Endpoint = record { vm_id = vm_id; route = route; target = target } in
    (ok ep, record { endpoints = insert vm_id ep p.endpoints })

unfoldable pub unregister_endpoint : String → Exec Provider (Unit {0})
unregister_endpoint vm_id p = (ok tt, record { endpoints = erase vm_id p.endpoints })

unfoldable pub get_endpoint : String → Exec Provider Endpoint
get_endpoint vm_id p = elim (lookup vm_id p.endpoints) [
  | none ↦ (err (not_found "endpoint" vm_id), p)
  | some ep ↦ (ok ep, p)
]

-- `var _ ingress.IngressProvider = (*Provider)(nil)`
abbrev pub noop : IngressProvider
noop = record {
  State = Provider;
  register_endpoint = register_endpoint;
  unregister_endpoint = unregister_endpoint;
  get_endpoint = get_endpoint;
}
