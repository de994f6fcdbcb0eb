-- ===== src/Ingress.antt =====
-- provider/ingress/ingress.go: the interface of the routes to VMs.
pub mod Noop
use flames.Prelude.{String}
use flames.Model.{Endpoint, Route, Target}
use flames.Result.{Exec}

pub record IngressProvider : Type 1 where
  pub State : Type 0
  pub register_endpoint : String → Route → Target → Exec State Endpoint
  pub unregister_endpoint : String → Exec State (Unit {0})
  pub get_endpoint : String → Exec State Endpoint
