-- ===== src/Ingress/Noop/Registered.antt =====
-- What `GetEndpoint` returns after the other two calls.
use flames.Prelude.{String, ◌≡◌, refl, arith, ◌==◌, string_eq, if◌then◌else◌}
use flames.Dict.{lookup-insert, lookup-erase}
use flames.Model.{Endpoint, Route, Target}
use flames.Providererr.{not_found}
use flames.Result.{ok, err}
use flames.Ingress.Noop.{Provider, register_endpoint, unregister_endpoint, get_endpoint}

-- After `RegisterEndpoint` the VM has the endpoint that it returned, and after `UnregisterEndpoint`
-- it has none, whatever was registered before; neither changes the endpoint of another VM.
pub get_endpoint-register_endpoint :
    (vm_id : String) (route : Route) (target : Target) (p : Provider) (k : String)
    → let ep : Endpoint = record { vm_id = vm_id; route = route; target = target } in
      ((register_endpoint vm_id route target p).0 ≡ ok ep)
      × ((get_endpoint k (register_endpoint vm_id route target p).1).0
          ≡ (if vm_id == k then ok ep else (get_endpoint k p).0))
      × ((get_endpoint k (unregister_endpoint vm_id p).1).0
          ≡ (if vm_id == k then err (not_found "endpoint" k) else (get_endpoint k p).0))
unfolding get_endpoint register_endpoint unregister_endpoint
get_endpoint-register_endpoint vm_id route target p k =
    let ep : Endpoint = record { vm_id = vm_id; route = route; target = target } in
    (
      refl,
      ground (arith, lookup-insert vm_id k ep p.endpoints),
      ground (arith, lookup-erase vm_id k p.endpoints),
    )
