-- ===== src/Providertest/Ingresstest.antt =====
-- providertest/ingresstest/ingresstest.go: the conformance suite of an ingress.
pub mod Passes
use flames.Prelude.{String, ℤ, pos, List, [], ◌∷◌, ◌==◌, string_eq, integer_eq}
use flames.Model.{Route, Target}
use flames.Providererr.{err_not_found}
use flames.Ingress.{IngressProvider}
use flames.Providertest.{Check, try, must, expect, fails_with, ◌>>=◌, ◌>>◌, Outcome, subtest}

abbrev pub app : Route
app = record { host = "app.example.com"; path = "/" }

abbrev pub backend : Target
backend = record { address = "10.0.0.1"; port = pos 8080 }

module _ (P : IngressProvider) where
  unfoldable pub test_register_and_get : Check P.State (Unit {0})
  test_register_and_get = do
    ep ← must "RegisterEndpoint: %v" (P.register_endpoint "vm-1" app backend)
    expect (ep.vm_id == "vm-1") "got VMID %q, want %q"
    expect (ep.route.host == "app.example.com") "got Host %q, want %q"
    expect (ep.target.port == pos 8080) "got Port %d, want 8080"
    got ← must "GetEndpoint: %v" (P.get_endpoint "vm-1")
    expect (got.vm_id == "vm-1") "got VMID %q, want %q"

  unfoldable pub test_unregister : Check P.State (Unit {0})
  test_unregister = do
    _ ← try (P.register_endpoint "vm-1" app backend)
    must "UnregisterEndpoint: %v" (P.unregister_endpoint "vm-1")
    got ← try (P.get_endpoint "vm-1")
    expect (fails_with err_not_found got) "expected ErrNotFound after unregister, got %v"

  unfoldable pub test_get_not_found : Check P.State (Unit {0})
  test_get_not_found = do
    got ← try (P.get_endpoint "nonexistent")
    expect (fails_with err_not_found got) "expected ErrNotFound, got %v"

  unfoldable pub test_overwrite_endpoint : Check P.State (Unit {0})
  test_overwrite_endpoint = do
    let route1 : Route = record { host = "v1.example.com"; path = "/" }
    let target1 : Target = record { address = "10.0.0.1"; port = pos 8080 }
    _ ← try (P.register_endpoint "vm-1" route1 target1)
    let route2 : Route = record { host = "v2.example.com"; path = "/api" }
    let target2 : Target = record { address = "10.0.0.2"; port = pos 9090 }
    _ ← try (P.register_endpoint "vm-1" route2 target2)
    got ← must "GetEndpoint: %v" (P.get_endpoint "vm-1")
    expect (got.route.host == "v2.example.com") "got Host %q, want %q"
    expect (got.target.port == pos 9090) "got Port %d, want 9090"

  -- `Run`: every subtest has a new provider.
  unfoldable pub run : P.State → List Outcome
  run new =
      subtest "RegisterAndGet" test_register_and_get new
      ∷ subtest "Unregister" test_unregister new
      ∷ subtest "GetNotFound" test_get_not_found new
      ∷ subtest "OverwriteEndpoint" test_overwrite_endpoint new
      ∷ []
